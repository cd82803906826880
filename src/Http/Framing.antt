-- ===== src/Http/Framing.antt =====
-- Where the head of a message ends and what lines it has, for the bytes that movie/http/codec.py writes.
use movie.Common.{
  ℕ, suc, ◌+◌, ◌≡◌, refl, sym, ap, ◌∙◌, subst, Bool, true, false, not, ◌&&◌, List, [], ◌∷◌, ◌++◌,
  Option, none, some, eqb, length, take, drop, All, length-append, append_assoc, arith,
}
use movie.Remoting.Text.Utf8.{Bytes}
use movie.Http.Octets.{crlf, head_end, find, starts_with, later, plus, split_lines, all_bytes}
use movie.Http.Response.{join, with_crlf}

abbrev pub not_return : ℕ → Bool
not_return b = not (eqb b 13)

abbrev is_line : Bytes → Bool
is_line [] = false
is_line (c ∷ rest) = not_return c && all_bytes not_return rest

-- A line of a head: there is a byte in it, and no carriage return.
abbrev pub IsLine : Bytes → Type 0
IsLine line = is_line line ≡ true

-- The lines with the two bytes between them.
join_lines : Bytes → List Bytes → Bytes
join_lines first [] = first
join_lines first (line ∷ lines) = first ++ (crlf ++ join_lines line lines)

-- The bytes are a head of these lines, up to the first place where a head can end, and then the body.
unfoldable pub IsFramed : List Bytes → Bytes → Bytes → Type 0
IsFramed lines body bytes =
    (at : ℕ) × (find head_end bytes ≡ some at)
    × (split_lines (take at bytes) ≡ lines)
    × (drop (at + 4) bytes ≡ body)

plus-zero : (found : Option ℕ) → found ≡ plus 0 found
plus-zero none = refl
plus-zero (some n) = ap some (omega arith)

later-plus : (n : ℕ) (found : Option ℕ) → later (plus n found) ≡ plus (suc n) found
later-plus n none = refl
later-plus n (some m) = ap some (omega arith)

later-later : (found : Option ℕ) → later (later found) ≡ plus 2 found
later-later none = refl
later-later (some n) = ap some (omega arith)

pub find-line :
    (more line tail : Bytes)
    → all_bytes not_return line ≡ true
    → find (13 ∷ more) (line ++ tail) ≡ plus (length line) (find (13 ∷ more) tail)
unfolding find starts_with all_bytes
find-line more [] tail h = plus-zero (find (13 ∷ more) tail)
find-line more (c ∷ line) tail h =
    let on : find (13 ∷ more) (c ∷ (line ++ tail)) ≡ later (find (13 ∷ more) (line ++ tail)) =
      ground (arith, h) in
    on
    ∙ ap later (find-line more line tail (ground (arith, h)))
    ∙ later-plus (length line) (find (13 ∷ more) tail)

not_return-IsLine : (line : Bytes) → IsLine line → all_bytes not_return line ≡ true
unfolding all_bytes
not_return-IsLine [] h = refl
not_return-IsLine (c ∷ line) h = h

abbrev starts_line : Bytes → Bool
starts_line [] = false
starts_line (c ∷ rest) = not_return c

starts-join_lines :
    (line : Bytes) (lines : List Bytes) (tail : Bytes)
    → IsLine line
    → starts_line (join_lines line lines ++ tail) ≡ true
unfolding join_lines
starts-join_lines [] lines tail h = absurd (cc h)
starts-join_lines (c ∷ line) [] tail h = ground (arith, h)
starts-join_lines (c ∷ line) (next ∷ lines) tail h = ground (arith, h)

find-crlf :
    (rest : Bytes)
    → starts_line rest ≡ true
    → find head_end (crlf ++ rest) ≡ plus 2 (find head_end rest)
unfolding find starts_with
find-crlf [] h = absurd (cc h)
find-crlf (c ∷ rest) h =
    let on : find head_end (crlf ++ (c ∷ rest)) ≡ later (later (find head_end (c ∷ rest))) =
      ground (arith, h) in
    on ∙ later-later (find head_end (c ∷ rest))

find-join_lines :
    (first : Bytes) (lines : List Bytes) (body : Bytes)
    → IsLine first
    → All IsLine lines
    → find head_end (join_lines first lines ++ (head_end ++ body))
      ≡ some (length (join_lines first lines))
unfolding find starts_with join_lines
find-join_lines first [] body f ls =
    find-line (10 ∷ crlf) first (head_end ++ body) (not_return-IsLine first f)
    ∙ ap some (omega arith)
find-join_lines first (line ∷ lines) body f (l, ls) =
    let rest : Bytes = join_lines line lines ++ (head_end ++ body) in
    ap (find head_end) (append_assoc first (crlf ++ join_lines line lines) (head_end ++ body))
    ∙ find-line (10 ∷ crlf) first (crlf ++ rest) (not_return-IsLine first f)
    ∙ ap (plus (length first)) (find-crlf rest (starts-join_lines line lines (head_end ++ body) l))
    ∙ ap (λ n. plus (length first) (plus 2 n)) (find-join_lines line lines body l ls)
    ∙ ap some (
        ground (
          arith,
          length-append first (crlf ++ join_lines line lines),
          length-append crlf (join_lines line lines),
        ))

split_lines-line :
    (line tail : Bytes)
    → all_bytes not_return line ≡ true
    → split_lines (line ++ (crlf ++ tail)) ≡ line ∷ split_lines tail
unfolding split_lines all_bytes
split_lines-line [] tail h = refl
split_lines-line (c ∷ []) tail h = ground (arith, h)
split_lines-line (c ∷ d ∷ line) tail h = ground (arith, h, split_lines-line (d ∷ line) tail)

split_lines-one : (line : Bytes) → all_bytes not_return line ≡ true → split_lines line ≡ line ∷ []
unfolding split_lines all_bytes
split_lines-one [] h = refl
split_lines-one (c ∷ []) h = refl
split_lines-one (c ∷ d ∷ line) h = ground (arith, h, split_lines-one (d ∷ line))

split_lines-join_lines :
    (first : Bytes) (lines : List Bytes)
    → IsLine first
    → All IsLine lines
    → split_lines (join_lines first lines) ≡ first ∷ lines
unfolding join_lines
split_lines-join_lines first [] f ls = split_lines-one first (not_return-IsLine first f)
split_lines-join_lines first (line ∷ lines) f (l, ls) =
    split_lines-line first (join_lines line lines) (not_return-IsLine first f)
    ∙ ap (λ ys. first ∷ ys) (split_lines-join_lines line lines l ls)

take-length : (xs ys : Bytes) → take (length xs) (xs ++ ys) ≡ xs
take-length [] ys = refl
take-length (x ∷ xs) ys = ap (λ zs. x ∷ zs) (take-length xs ys)

drop-length : (xs ys : Bytes) (n : ℕ) → drop (length xs + n) (xs ++ ys) ≡ drop n ys
drop-length [] ys n = ap (λ k. drop k ys) (omega arith)
drop-length (x ∷ xs) ys n =
    let next : suc (length xs) + n ≡ suc (length xs + n) = omega arith in
    ap (λ k. drop k (x ∷ (xs ++ ys))) next ∙ drop-length xs ys n

join_lines-IsFramed :
    (first : Bytes) (lines : List Bytes) (body : Bytes)
    → IsLine first
    → All IsLine lines
    → IsFramed (first ∷ lines) body (join_lines first lines ++ (head_end ++ body))
unfolding IsFramed
join_lines-IsFramed first lines body f ls = (
  length (join_lines first lines),
  find-join_lines first lines body f ls,
  ap split_lines (take-length (join_lines first lines) (head_end ++ body))
      ∙ split_lines-join_lines first lines f ls,
  drop-length (join_lines first lines) (head_end ++ body) 4,
)

join-join_lines :
    (first : Bytes) (lines : List Bytes) (body : Bytes)
    → (first ++ crlf) ++ (join (with_crlf lines) ++ (crlf ++ body))
      ≡ join_lines first lines ++ (head_end ++ body)
unfolding join join_lines
join-join_lines first [] body = append_assoc first crlf (crlf ++ body)
join-join_lines first (line ∷ lines) body =
    append_assoc first crlf (join (with_crlf (line ∷ lines)) ++ (crlf ++ body))
    ∙ ap (λ ys. first ++ (crlf ++ ys))
        (append_assoc (line ++ crlf) (join (with_crlf lines)) (crlf ++ body)
          ∙ join-join_lines line lines body)
    ∙ sym (append_assoc first (crlf ++ join_lines line lines) (head_end ++ body))

-- A first line and others, each with its end, an empty line and a body.
pub join-IsFramed :
    (first : Bytes) (lines : List Bytes) (body : Bytes)
    → IsLine first
    → All IsLine lines
    → IsFramed (first ∷ lines) body ((first ++ crlf) ++ (join (with_crlf lines) ++ (crlf ++ body)))
join-IsFramed first lines body f ls =
    subst (IsFramed (first ∷ lines) body) (sym (join-join_lines first lines body))
      (join_lines-IsFramed first lines body f ls)
