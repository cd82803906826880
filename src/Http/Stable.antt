-- ===== src/Http/Stable.antt =====
-- Bytes that come later change nothing of a request that is complete.
use movie.Common.{
  ℕ, ◌+◌, ◌≤◌, ◌≡◌, refl, ap, ◌∙◌, ◌⊎◌, inl, inr, true, ◌&&◌, [], ◌∷◌, ◌++◌, some, eqb, ltb, length,
  take, drop, length-append, length-drop, take-append_le, drop-append_le, arith, Bool-cases,
  Option-cases,
}
use movie.Remoting.Text.Utf8.{Bytes}
use movie.Http.Octets.{crlf, head_end, find, starts_with, split_lines}
use movie.Http.Model.{Casing, HttpRequest}
use movie.Http.Parser.{
  Parsed, refused, returned, Limits, parse_request_line, parse_headers, content_length,
}
use movie.Http.Feed.{first_line, other_lines, parse_head, parse_one}

pub Parsed-cases :
    {R : Type 0} (p : Parsed R) → ((s : ℕ) × (p ≡ refused s)) ⊎ ((r : R) × (p ≡ returned r))
Parsed-cases (refused s) = inl (s, refl)
Parsed-cases (returned r) = inr (r, refl)

starts_with-append :
    (pattern xs ys : Bytes) → starts_with pattern xs ≡ true → starts_with pattern (xs ++ ys) ≡ true
unfolding starts_with
starts_with-append [] xs ys h = refl
starts_with-append (p ∷ ps) [] ys h = absurd (cc h)
starts_with-append (p ∷ ps) (x ∷ xs) ys h = ground (arith, h, starts_with-append ps xs ys)

-- A pattern that starts where the bytes go on and not before stands wholly in them.
starts_with-length :
    (pattern xs : Bytes) → starts_with pattern xs ≡ true → length pattern ≤ length xs
unfolding starts_with
starts_with-length [] xs h = omega arith
starts_with-length (p ∷ ps) [] h = absurd (cc h)
starts_with-length (p ∷ ps) (x ∷ xs) h = ground (arith, h, starts_with-length ps xs)

pub find-bound :
    (pattern xs : Bytes) (n : ℕ) → find pattern xs ≡ some n → n + length pattern ≤ length xs
unfolding find
find-bound pattern [] n h = ground (arith, h, starts_with-length pattern [])
find-bound pattern (x ∷ xs) n h = elim (Bool-cases (starts_with pattern (x ∷ xs))) [
  | inl here ↦ ground (arith, h, here, starts_with-length pattern (x ∷ xs) here)
  | inr on ↦ elim (Option-cases (find pattern xs)) [
    | inl nowhere ↦ absurd (ground (arith, h, on, nowhere))
    | inr (m, there) ↦ ground (arith, h, on, there, find-bound pattern xs m there)
  ]
]

starts_with-append_only :
    (pattern xs ys : Bytes)
    → length pattern ≤ length xs
    → starts_with pattern (xs ++ ys) ≡ starts_with pattern xs
unfolding starts_with
starts_with-append_only [] xs ys l = refl
starts_with-append_only (p ∷ ps) [] ys l = absurd (omega (arith, l))
starts_with-append_only (p ∷ ps) (x ∷ xs) ys l =
    ap (λ b. eqb p x && b) (starts_with-append_only ps xs ys (omega (arith, l)))

pub find-append :
    (pattern xs ys : Bytes) (n : ℕ) → find pattern xs ≡ some n → find pattern (xs ++ ys) ≡ some n
unfolding find starts_with
find-append [] [] [] n h = h
find-append [] [] (y ∷ ys) n h = ground (arith, h)
find-append (p ∷ ps) [] ys n h = absurd (ground (arith, h))
find-append pattern (x ∷ xs) ys n h =
    let fits = find-bound pattern (x ∷ xs) n h in
    elim (Bool-cases (starts_with pattern (x ∷ xs))) [
      | inl here ↦ ground (arith, h, here, starts_with-append pattern (x ∷ xs) ys here)
      | inr on ↦ elim (Option-cases (find pattern xs)) [
        | inl nowhere ↦ absurd (ground (arith, h, on, nowhere))
        | inr (m, there) ↦ ground (
          arith,
          h,
          on,
          there,
          starts_with-append_only pattern (x ∷ xs) ys (omega (arith, fits)),
          find-append pattern xs ys m there,
        )
      ]
    ]

module _ (casing : Casing) (limits : Limits) where
  parse_head-append :
      (buffer more : Bytes) (at : ℕ) (r : HttpRequest) (consumed : ℕ)
      → at + 4 ≤ length buffer
      → parse_head casing limits buffer at ≡ returned (some (r, consumed))
      → (parse_head casing limits (buffer ++ more) at ≡ returned (some (r, consumed)))
        × (consumed ≤ length buffer)
        × (4 ≤ consumed)
  parse_head-append buffer more at r consumed l h =
      let lines = split_lines (take at buffer) in
      let same = take-append_le at buffer more (omega (arith, l)) in
      let size = length-append buffer more in
      elim (Parsed-cases (parse_request_line (first_line lines))) [
        | inl (s, bad) ↦ absurd (ground (arith, h, bad))
        | inr (line, good) ↦ elim (Parsed-cases (parse_headers casing limits (other_lines lines))) [
          | inl (s, bad) ↦ absurd (ground (arith, h, good, bad))
          | inr (headers, parsed) ↦ elim (Parsed-cases (content_length limits headers)) [
            | inl (s, bad) ↦ absurd (ground (arith, h, good, parsed, bad))
            | inr (n, counted) ↦ elim (Bool-cases (ltb (length buffer) (at + 4 + n))) [
              | inl short ↦ absurd (ground (arith, h, good, parsed, counted, short))
              | inr whole ↦
                  let body : take n (drop (at + 4) (buffer ++ more))
                      ≡ take n (drop (at + 4) buffer) =
                    ap (take n) (drop-append_le (at + 4) buffer more l)
                    ∙ take-append_le n (drop (at + 4) buffer) more
                        (ground (arith, whole, length-drop (at + 4) buffer)) in
                  (
                    ground (arith, h, good, parsed, counted, whole, same, size, body),
                    ground (arith, h, good, parsed, counted, whole),
                    ground (arith, h, good, parsed, counted, whole),
                  )
            ]
          ]
        ]
      ]

  -- A request that a buffer holds is read in the same way from the buffer with more bytes, and takes at
  -- least four bytes and none but the buffer's.
  pub parse_one-append :
      (buffer more : Bytes) (r : HttpRequest) (consumed : ℕ)
      → parse_one casing limits buffer ≡ returned (some (r, consumed))
      → (parse_one casing limits (buffer ++ more) ≡ returned (some (r, consumed)))
        × (consumed ≤ length buffer)
        × (4 ≤ consumed)
  unfolding parse_one
  parse_one-append buffer more r consumed h = elim (Option-cases (find crlf buffer)) [
    | inl nowhere ↦ absurd (ground (arith, h, nowhere))
    | inr (line_end, found) ↦
        let fits = find-bound crlf buffer line_end found in
        let rest = drop-append_le line_end buffer more (omega (arith, fits)) in
        elim (Option-cases (find head_end (drop line_end buffer))) [
          | inl open_head ↦ absurd (ground (arith, h, found, open_head))
          | inr (n, ended) ↦
              let size = length-drop line_end buffer in
              let bound = find-bound head_end (drop line_end buffer) n ended in
              let inner : parse_head casing limits buffer (line_end + n)
                  ≡ returned (some (r, consumed)) =
                ground (arith, h, found, ended) in
              let (outer, most, least) =
                parse_head-append buffer more (line_end + n) r consumed (omega (arith, bound, size))
                  inner in
              (
                ground (
                  arith,
                  h,
                  found,
                  ended,
                  outer,
                  rest,
                  find-append crlf buffer more line_end found,
                  find-append head_end (drop line_end buffer) more n ended,
                ),
                most,
                least,
              )
        ]
  ]
