-- ===== src/Http/Resume.antt =====
-- The buffer of movie/http/codec.py's parser between the calls of `feed`, and the call of `finish`.
use movie.Common.{
  ℕ, zero, suc, ◌+◌, ◌≤◌, ◌<◌, ◌≡◌, refl, sym, ap, ◌∙◌, subst, inl, inr, [], ◌++◌, Option, none,
  some, ltb, length, drop, is_empty, length-append, length-drop, append-nil, arith, Bool-cases,
  if◌then◌else◌,
}
use movie.Remoting.Text.Utf8.{Bytes}
use movie.Http.Model.{Casing}
use movie.Http.Parser.{returned, Limits}
use movie.Http.Feed.{Fed, with_request, wants_more, one_less, parse_one, drain_buffer, feed, finish}
use movie.Http.Chunks.{
  joined, stopped, parse_one-cases, drain_buffer-length, drain_buffer-rounds, drain_buffer-stopped,
  drain_buffer-with_request, feed-drain_buffer,
}

module _ (casing : Casing) (limits : Limits) where
  -- The buffer never holds more than it may: no call of `feed`, whether it raises or returns and however
  -- many requests it may read, leaves more than the limit there.
  pub feed-length :
      (buffer : Bytes) (max_requests : Option ℕ) (received : Bytes)
      → length buffer ≤ limits.max_buffer_bytes
      → length (feed casing limits buffer max_requests received).buffer ≤ limits.max_buffer_bytes
  unfolding feed
  feed-length buffer m received h =
      let kept =
        drain_buffer-length casing limits (suc (length (buffer ++ received))) m
          (buffer ++ received) in
      elim (Bool-cases (ltb limits.max_buffer_bytes (length buffer + length received))) [
        | inl full ↦ ground (arith, full, h)
        | inr room ↦ ground (arith, room, kept, length-append buffer received)
      ]

  -- How the loop ends, in rounds that are enough.
  drain_buffer-ended :
      (f : ℕ) (buffer : Bytes)
      → length buffer < f
      → (drain_buffer casing limits f none buffer).error ≡ none
      → parse_one casing limits (drain_buffer casing limits f none buffer).buffer ≡ returned none
  unfolding drain_buffer
  drain_buffer-ended zero buffer l e = absurd (omega (arith, l))
  drain_buffer-ended (suc f) buffer l e = elim (parse_one-cases casing limits buffer) [
    | inl (s, bad) ↦ absurd (ground (arith, bad, e))
    | inr (inl nothing) ↦ ground (arith, nothing)
    | inr (inr (r, n, one, most, least)) ↦
        let size = length-drop n buffer in
        let ih =
          drain_buffer-ended f (drop n buffer) (omega (arith, l, size, most, least))
            (ground (arith, one, e)) in
        ground (arith, one, ih)
  ]

  -- Where `feed` has returned, what it left holds no request.
  feed-ended :
      (buffer received : Bytes)
      → (feed casing limits buffer none received).error ≡ none
      → parse_one casing limits (feed casing limits buffer none received).buffer ≡ returned none
  unfolding feed
  feed-ended buffer received e =
      elim (Bool-cases (ltb limits.max_buffer_bytes (length buffer + length received))) [
        | inl full ↦ absurd (ground (arith, full, e))
        | inr room ↦
            let ended =
              drain_buffer-ended (suc (length (buffer ++ received))) (buffer ++ received)
                (omega arith) (ground (arith, room, e)) in
            ground (arith, room, ended)
      ]

  -- The loop over the buffer does what one that has stopped did, and then the loop over what that one left.
  abbrev IsResumed : ℕ → ℕ → Bytes → Fed → Type 0
  IsResumed g h buffer fed =
      drain_buffer casing limits g none buffer
      ≡ joined fed (drain_buffer casing limits h none fed.buffer)

  -- A loop that may read so many requests only, and another one after it.
  drain_buffer-IsResumed :
      (f h g : ℕ) (m : Option ℕ) (buffer : Bytes) (fed : Fed)
      → drain_buffer casing limits f m buffer ≡ fed
      → length buffer < f
      → length buffer < g
      → length fed.buffer < h
      → fed.error ≡ none
      → IsResumed g h buffer fed
  unfolding drain_buffer
  drain_buffer-IsResumed zero h g m buffer fed d l k j e = absurd (omega (arith, l))
  drain_buffer-IsResumed (suc f) h zero m buffer fed d l k j e = absurd (omega (arith, k))
  drain_buffer-IsResumed (suc f) h (suc g) m buffer fed d l k j e =
      elim (Bool-cases (wants_more m)) [
        | inr enough ↦
            let same : stopped casing limits buffer ≡ fed = ground (arith, enough, d) in
            subst (IsResumed (suc g) h buffer) same (
              drain_buffer-rounds casing limits (suc g) h none buffer k
                (subst (λ (x : Fed). length x.buffer < h) (sym same) j))
        | inl more ↦ elim (parse_one-cases casing limits buffer) [
          | inl (s, bad) ↦ absurd (ground (arith, more, bad, d, e))
          | inr (inl nothing) ↦
              let same : stopped casing limits buffer ≡ fed = ground (arith, more, nothing, d) in
              subst (IsResumed (suc g) h buffer) same (
                drain_buffer-rounds casing limits (suc g) h none buffer k
                  (subst (λ (x : Fed). length x.buffer < h) (sym same) j))
          | inr (inr (r, n, one, most, least)) ↦
              let inner : Fed = drain_buffer casing limits f (one_less m) (drop n buffer) in
              let same : with_request r inner ≡ fed = ground (arith, more, one, d) in
              let size = length-drop n buffer in
              let ih =
                drain_buffer-IsResumed f h g (one_less m) (drop n buffer) inner refl
                  (omega (arith, l, size, least, most)) (omega (arith, k, size, least, most))
                  (subst (λ (x : Fed). length x.buffer < h) (sym same) j)
                  (ap (λ (x : Fed). x.error) same ∙ e) in
              subst (IsResumed (suc g) h buffer) same
                (drain_buffer-with_request casing limits g n buffer r one ∙ ap (with_request r) ih)
        ]
      ]

  -- A limit on the requests of one call loses none: after a call of `feed` that has not raised, with any
  -- limit, a call without bytes and without a limit goes on from where it stopped, and both do what one
  -- call without a limit would have done, its exception included, if the buffer has room for the bytes.
  pub feed-resumed :
      (buffer : Bytes) (max_requests : Option ℕ) (received : Bytes)
      → (feed casing limits buffer max_requests received).error ≡ none
      → length buffer + length received ≤ limits.max_buffer_bytes
      → feed casing limits buffer none received
        ≡ joined
            (feed casing limits buffer max_requests received)
            (feed casing limits (feed casing limits buffer max_requests received).buffer none [])
  feed-resumed buffer m received e fits =
      let all : Bytes = buffer ++ received in
      let fed : Fed = drain_buffer casing limits (suc (length all)) m all in
      let one : feed casing limits buffer m received ≡ fed =
        feed-drain_buffer casing limits buffer m received fits in
      let kept = drain_buffer-length casing limits (suc (length all)) m all in
      let room = length-append buffer received in
      let on : feed casing limits fed.buffer none []
          ≡ drain_buffer casing limits (suc (length (fed.buffer ++ []))) none (fed.buffer ++ []) =
        feed-drain_buffer casing limits fed.buffer none [] (omega (arith, fits, kept, room)) in
      let two : feed casing limits fed.buffer none []
          ≡ drain_buffer casing limits (suc (length fed.buffer)) none fed.buffer =
        on ∙ ap (λ b. drain_buffer casing limits (suc (length b)) none b) (append-nil fed.buffer) in
      feed-drain_buffer casing limits buffer none received fits
      ∙ drain_buffer-IsResumed (suc (length all)) (suc (length fed.buffer)) (suc (length all)) m all
          fed refl (omega arith) (omega arith) (omega arith)
          (sym (ap (λ (x : Fed). x.error) one) ∙ e)
      ∙ ap (joined fed) (sym two)
      ∙ sym (ap (λ (x : Fed). joined x (feed casing limits x.buffer none [])) one)

  finish-ended :
      (buffer : Bytes)
      → length buffer ≤ limits.max_buffer_bytes
      → parse_one casing limits buffer ≡ returned none
      → finish casing limits buffer none ≡ record {
        error = if is_empty buffer then none else some 400;
        requests = [];
        buffer = buffer;
      }
  unfolding finish
  finish-ended buffer h nothing =
      let fed : feed casing limits buffer none [] ≡ stopped casing limits buffer =
        feed-drain_buffer casing limits buffer none [] (omega (arith, h))
        ∙ ap (λ b. drain_buffer casing limits (suc (length b)) none b) (append-nil buffer)
        ∙ drain_buffer-stopped casing limits (length buffer) buffer nothing in
      elim (Bool-cases (is_empty buffer)) [
        | inl empty ↦ ground (arith, fed, empty)
        | inr rest ↦ ground (arith, fed, rest)
      ]

  -- The end of the bytes: where a call of `feed` without a limit has returned, no further request can be
  -- read from what it left, and `finish` returns no request; it raises, with 400, exactly if some bytes
  -- are left.
  pub finish-feed :
      (buffer received : Bytes)
      → length buffer ≤ limits.max_buffer_bytes
      → (feed casing limits buffer none received).error ≡ none
      → finish casing limits (feed casing limits buffer none received).buffer none ≡ record {
        error =
            if is_empty (feed casing limits buffer none received).buffer then none else some 400;
        requests = [];
        buffer = (feed casing limits buffer none received).buffer;
      }
  finish-feed buffer received h e =
      finish-ended (feed casing limits buffer none received).buffer
        (feed-length buffer none received h) (feed-ended buffer received e)
