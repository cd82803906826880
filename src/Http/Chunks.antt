-- ===== src/Http/Chunks.antt =====
-- How the bytes of movie/http/codec.py's parser are cut into calls of `feed`.
use movie.Common.{
  ℕ, zero, suc, ◌+◌, ◌≤◌, ◌<◌, ◌≡◌, refl, sym, ap, ◌∙◌, subst, ◌⊎◌, inl, inr, [], ◌++◌, Option,
  none, some, length, drop, length-append, length-drop, drop-append_le, append_assoc, arith,
  Option-cases,
}
use movie.Remoting.Text.Utf8.{Bytes}
use movie.Http.Model.{Casing, HttpRequest}
use movie.Http.Parser.{refused, returned, Limits}
use movie.Http.Feed.{Fed, with_request, one_less, parse_one, drain_buffer, feed}
use movie.Http.Stable.{Parsed-cases, parse_one-append}

-- What two calls do one after the other.
abbrev pub joined : Fed → Fed → Fed
joined f g = record g { requests = f.requests ++ g.requests }

module _ (casing : Casing) (limits : Limits) where
  -- What one look at the buffer finds.
  pub parse_one-cases :
      (buffer : Bytes)
      → ((s : ℕ) × (parse_one casing limits buffer ≡ refused s))
        ⊎ (parse_one casing limits buffer ≡ returned none)
        ⊎ ((r : HttpRequest) × (n : ℕ) × (parse_one casing limits buffer ≡ returned (some (r, n)))
            × (n ≤ length buffer)
            × (4 ≤ n))
  parse_one-cases buffer = elim (Parsed-cases (parse_one casing limits buffer)) [
    | inl bad ↦ inl bad
    | inr (found, good) ↦ elim (Option-cases found) [
      | inl nothing ↦ inr (inl (ground (arith, good, nothing)))
      | inr ((r, n), one) ↦
          let whole : parse_one casing limits buffer ≡ returned (some (r, n)) =
            ground (arith, good, one) in
          let (_, most, least) = parse_one-append casing limits buffer [] r n whole in
          inr (inr (r, n, whole, most, least))
    ]
  ]

  -- Rounds that are enough.
  pub drain_buffer-rounds :
      (f g : ℕ) (m : Option ℕ) (buffer : Bytes)
      → length buffer < f
      → length buffer < g
      → drain_buffer casing limits f m buffer ≡ drain_buffer casing limits g m buffer
  unfolding drain_buffer
  drain_buffer-rounds zero g m buffer l k = absurd (omega (arith, l))
  drain_buffer-rounds (suc f) zero m buffer l k = absurd (omega (arith, k))
  drain_buffer-rounds (suc f) (suc g) m buffer l k = elim (parse_one-cases buffer) [
    | inl (s, bad) ↦ ground (arith, bad)
    | inr (inl nothing) ↦ ground (arith, nothing)
    | inr (inr (r, n, one, most, least)) ↦
        let size = length-drop n buffer in
        ground (
          arith,
          one,
          drain_buffer-rounds f g (one_less m) (drop n buffer) (omega (arith, l, size, most, least))
              (omega (arith, k, size, most, least)),
        )
  ]

  abbrev pub stopped : Bytes → Fed
  stopped buffer = record { error = none; requests = []; buffer = buffer }

  pub drain_buffer-stopped :
      (f : ℕ) (buffer : Bytes)
      → parse_one casing limits buffer ≡ returned none
      → drain_buffer casing limits (suc f) none buffer ≡ stopped buffer
  unfolding drain_buffer
  drain_buffer-stopped f buffer nothing = ground (arith, nothing)

  pub drain_buffer-refused :
      (f s : ℕ) (buffer : Bytes)
      → parse_one casing limits buffer ≡ refused s
      → (drain_buffer casing limits (suc f) none buffer).error ≡ some s
  unfolding drain_buffer
  drain_buffer-refused f s buffer bad = ground (arith, bad)

  pub drain_buffer-with_request :
      (f n : ℕ) (buffer : Bytes) (r : HttpRequest)
      → parse_one casing limits buffer ≡ returned (some (r, n))
      → drain_buffer casing limits (suc f) none buffer
        ≡ with_request r (drain_buffer casing limits f none (drop n buffer))
  unfolding drain_buffer
  drain_buffer-with_request f n buffer r one = ground (arith, one)

  -- The buffer with more bytes, after a loop over the buffer that has not raised.
  abbrev IsJoined : ℕ → ℕ → Bytes → Bytes → Fed → Type 0
  IsJoined g h buffer more fed =
      drain_buffer casing limits g none (buffer ++ more)
      ≡ joined fed (drain_buffer casing limits h none (fed.buffer ++ more))

  drain_buffer-append :
      (f g h : ℕ) (buffer more : Bytes) (fed : Fed)
      → drain_buffer casing limits f none buffer ≡ fed
      → length buffer < f
      → length (buffer ++ more) < g
      → length (fed.buffer ++ more) < h
      → fed.error ≡ none
      → IsJoined g h buffer more fed
  drain_buffer-append zero g h buffer more fed d l k j e = absurd (omega (arith, l))
  drain_buffer-append (suc f) zero h buffer more fed d l k j e = absurd (omega (arith, k))
  drain_buffer-append (suc f) (suc g) h buffer more fed d l k j e = elim (parse_one-cases buffer) [
    | inl (s, bad) ↦
        absurd (cc (drain_buffer-refused f s buffer bad, ap (λ (x : Fed). x.error) d, e))
    | inr (inl nothing) ↦
        let same : stopped buffer ≡ fed = sym (drain_buffer-stopped f buffer nothing) ∙ d in
        subst (IsJoined (suc g) h buffer more) same (
          drain_buffer-rounds (suc g) h none (buffer ++ more) k
            (subst (λ (x : Fed). length (x.buffer ++ more) < h) (sym same) j))
    | inr (inr (r, n, one, most, least)) ↦
        let (again, _, _) = parse_one-append casing limits buffer more r n one in
        let inner : Fed = drain_buffer casing limits f none (drop n buffer) in
        let same : with_request r inner ≡ fed =
          sym (drain_buffer-with_request f n buffer r one) ∙ d in
        let rest = drop-append_le n buffer more most in
        let size = length-drop n buffer in
        let ih : IsJoined g h (drop n buffer) more inner =
          drain_buffer-append f g h (drop n buffer) more inner refl
            (omega (arith, l, size, least, most))
            (omega (
              arith,
              k,
              size,
              least,
              most,
              length-append buffer more,
              length-append (drop n buffer) more,
            ))
            (subst (λ (x : Fed). length (x.buffer ++ more) < h) (sym same) j)
            (ap (λ (x : Fed). x.error) same ∙ e) in
        subst (IsJoined (suc g) h buffer more) same (
          drain_buffer-with_request g n (buffer ++ more) r again
          ∙ ap (λ b. with_request r (drain_buffer casing limits g none b)) rest
          ∙ ap (with_request r) ih)
  ]

  -- What is left is no longer than what there was.
  pub drain_buffer-length :
      (f : ℕ) (m : Option ℕ) (buffer : Bytes)
      → length (drain_buffer casing limits f m buffer).buffer ≤ length buffer
  unfolding drain_buffer
  drain_buffer-length zero m buffer = omega arith
  drain_buffer-length (suc f) m buffer = elim (parse_one-cases buffer) [
    | inl (s, bad) ↦ ground (arith, bad)
    | inr (inl nothing) ↦ ground (arith, nothing)
    | inr (inr (r, n, one, most, least)) ↦
        ground
          (arith, one, length-drop n buffer, drain_buffer-length f (one_less m) (drop n buffer))
  ]

  -- A call that the buffer has room for.
  pub feed-drain_buffer :
      (buffer : Bytes) (m : Option ℕ) (received : Bytes)
      → length buffer + length received ≤ limits.max_buffer_bytes
      → feed casing limits buffer m received
        ≡ drain_buffer casing limits (suc (length (buffer ++ received))) m (buffer ++ received)
  unfolding feed
  feed-drain_buffer buffer m received fits = ground (arith, fits)

  -- The requests that are read do not depend on how the bytes are cut: after a call of `feed` that has
  -- not raised, a second call does what one call with the bytes of both would have done, its exception
  -- included, whenever the buffer has room for the bytes of both.
  pub feed-append :
      (buffer first second : Bytes)
      → (feed casing limits buffer none first).error ≡ none
      → length buffer + (length first + length second) ≤ limits.max_buffer_bytes
      → feed casing limits buffer none (first ++ second)
        ≡ joined
            (feed casing limits buffer none first)
            (feed casing limits (feed casing limits buffer none first).buffer none second)
  feed-append buffer first second e fits =
      let whole = length-append first second in
      let start = length-append buffer first in
      let once : Bytes = buffer ++ first in
      let fed : Fed = drain_buffer casing limits (suc (length once)) none once in
      let one : feed casing limits buffer none first ≡ fed =
        feed-drain_buffer buffer none first (omega (arith, fits)) in
      let kept = drain_buffer-length (suc (length once)) none once in
      let two : feed casing limits fed.buffer none second
          ≡ drain_buffer casing limits (suc (length (fed.buffer ++ second))) none
              (fed.buffer ++ second) =
        feed-drain_buffer fed.buffer none second (omega (arith, fits, kept, start)) in
      feed-drain_buffer buffer none (first ++ second) (omega (arith, fits, whole))
      ∙ ap (λ b. drain_buffer casing limits (suc (length b)) none b)
          (sym (append_assoc buffer first second))
      ∙ drain_buffer-append (suc (length once)) (suc (length (once ++ second)))
          (suc (length (fed.buffer ++ second))) once second fed refl (omega arith) (omega arith)
          (omega arith) (sym (ap (λ (x : Fed). x.error) one) ∙ e)
      ∙ ap (joined fed) (sym two)
      ∙ sym (ap (λ (x : Fed). joined x (feed casing limits x.buffer none second)) one)
