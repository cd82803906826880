-- ===== src/DeadLetters/Drain.antt =====
-- `drain` of movie/actor/dead_letter.py.
use movie.Common.{
  ℕ, zero, suc, ◌-◌, ◌≤◌, ◌<◌, ◌≡◌, refl, ap, ◌∙◌, true, false, List, [], ◌∷◌, Option, none, some,
  ltb, max, Option-cases, inl, inr, Bool-cases, length, take, drop, get_elem?, length-drop, arith,
}
use movie.DeadLetters.Broker.{
  DeadLetterBroker, DeadLetterSubscription, advance_cursor, poll, poll_entries, advance_to, taken,
  wants_more, one_less, drain_within, drain,
}
use movie.DeadLetters.Window.{Reachable, length-numbered, Reachable-IsWindow}
use movie.DeadLetters.Polls.{poll-reads, poll-ends}

module _ {E : Type 0} where
  drop-get_elem? :
      (n : ℕ) (log : List E) (e : E) → get_elem? log n ≡ some e → drop n log ≡ e ∷ drop (suc n) log
  drop-get_elem? zero [] e h = absurd (cc h)
  drop-get_elem? (suc n) [] e h = absurd (cc h)
  drop-get_elem? zero (d ∷ log) e h = cc h
  drop-get_elem? (suc n) (d ∷ log) e h = drop-get_elem? n log e h

  drop_past : (n : ℕ) (log : List E) → length log ≤ n → drop n log ≡ []
  drop_past zero [] h = refl
  drop_past (suc n) [] h = refl
  drop_past zero (d ∷ log) h = absurd (omega (arith, h))
  drop_past (suc n) (d ∷ log) h = drop_past n log (omega (arith, h))

  taken-closed :
      (found : Option (ℕ × E)) (s : DeadLetterSubscription) → (taken found s).1.closed ≡ s.closed
  taken-closed none s = refl
  taken-closed (some (n, e)) s = refl

  poll_entries-closed :
      (es : List (ℕ × E)) (s : DeadLetterSubscription)
      → (poll_entries es (advance_to es s)).1.closed ≡ s.closed
  poll_entries-closed [] s = refl
  poll_entries-closed ((first, e) ∷ rest) s =
      let moved = advance_to ((first, e) ∷ rest) s in
      let kept : moved.closed ≡ s.closed = elim (Bool-cases (ltb s.cursor first)) [
        | inl behind ↦ ground (arith, behind)
        | inr inside ↦ ground (arith, inside)
      ] in
      taken-closed (get_elem? ((first, e) ∷ rest) (moved.cursor - first)) moved ∙ kept

  poll-closed :
      (b : DeadLetterBroker E) (s : DeadLetterSubscription) → (poll b s).1.closed ≡ s.closed
  unfolding poll advance_cursor
  poll-closed b s =
      let rest = poll_entries-closed b.entries s in
      elim (Bool-cases s.closed) [
        | inl over ↦ ground (arith, over)
        | inr live ↦ ground (arith, live, rest)
      ]

  -- At most so many.
  unfoldable pub up_to : Option ℕ → List E → List E
  up_to none es = es
  up_to (some n) es = take n es

  up_to-nil : (limit : Option ℕ) → up_to limit [] ≡ []
  unfolding up_to
  up_to-nil none = refl
  up_to-nil (some zero) = refl
  up_to-nil (some (suc n)) = refl

  up_to_enough : (limit : Option ℕ) (es : List E) → wants_more limit ≡ false → up_to limit es ≡ []
  unfolding up_to
  up_to_enough none es h = absurd (cc h)
  up_to_enough (some zero) es h = refl
  up_to_enough (some (suc n)) es h = absurd (cc h)

  up_to-cons :
      (limit : Option ℕ) (e : E) (es : List E)
      → wants_more limit ≡ true
      → up_to limit (e ∷ es) ≡ e ∷ up_to (one_less limit) es
  unfolding up_to
  up_to-cons none e es h = refl
  up_to-cons (some zero) e es h = absurd (cc h)
  up_to-cons (some (suc n)) e es h = ap (λ m. e ∷ take m es) (omega arith)

  module _ (capacity max_subscriptions : ℕ) (b : DeadLetterBroker E) (log : List E)
      (reachable : Reachable capacity max_subscriptions (b, log)) where
    -- Where a subscription reads next.
    abbrev start : DeadLetterSubscription → ℕ
    start s = max s.cursor (length log - b.capacity)

    -- The events of the window that the subscription has not passed, up to a limit.
    abbrev unread : Option ℕ → DeadLetterSubscription → List E
    unread limit s = up_to limit (drop (start s) log)

    -- The loop, in rounds that are enough.
    drain_within-reads :
        (rounds : ℕ) (limit : Option ℕ) (s : DeadLetterSubscription)
        → length log - start s < rounds
        → s.closed ≡ false
        → (s' : DeadLetterSubscription) × (drain_within rounds limit b s
            ≡ some (unread limit s, s'))
    unfolding drain_within
    drain_within-reads zero limit s l live = absurd (omega (arith, l))
    drain_within-reads (suc rounds) limit s l live =
        let polled = poll b s in
        let kept = poll-closed b s in
        elim (Bool-cases (wants_more limit)) [
          | inr enough ↦
              let nothing_more = up_to_enough limit (drop (start s) log) enough in
              (s, ground (arith, enough, nothing_more))
          | inl more ↦ elim (Option-cases polled.0) [
            | inl nothing ↦
                let same : poll b s ≡ (none, polled.1) = ap (λ x. (x, polled.1)) nothing in
                let ends =
                  poll-ends capacity max_subscriptions b log s polled.1 reachable live same in
                let past = drop_past (start s) log (omega (arith, ends)) in
                let none_left = ap (up_to limit) past ∙ up_to-nil limit in
                (polled.1, ground (arith, more, nothing, none_left))
            | inr (e, some_event) ↦
                let same : poll b s ≡ (some e, polled.1) = ap (λ x. (x, polled.1)) some_event in
                let (there, cursor, dropped) =
                  poll-reads capacity max_subscriptions b log s polled.1 e reachable live same in
                let next : start polled.1 ≡ suc (start s) = omega (arith, cursor) in
                let taken_one = drop-get_elem? (start s) log e there in
                let left = ap length taken_one in
                let (s', ih) =
                  drain_within-reads rounds (one_less limit) polled.1
                    (omega (arith, l, next, left, length-drop (start s) log)) (kept ∙ live) in
                let others : unread (one_less limit) polled.1
                    ≡ up_to (one_less limit) (drop (suc (start s)) log) =
                  ap (λ n. up_to (one_less limit) (drop n log)) next in
                let all : unread limit s ≡ e ∷ up_to (one_less limit) (drop (suc (start s)) log) =
                  ap (up_to limit) taken_one ∙ up_to-cons limit e (drop (suc (start s)) log) more in
                (s', ground (arith, more, some_event, ih, others, all))
          ]
        ]

    -- After any calls, `drain` with any limit or none, of a subscription that is not closed and while nobody
    -- publishes, ends in the rounds that the entries give, and returns what was published since its
    -- cursor and is still in the window of the last `capacity` events, in the order in which it was
    -- published, up to the limit.
    pub drain-reads :
        (limit : Option ℕ) (s : DeadLetterSubscription)
        → s.closed ≡ false
        → (s' : DeadLetterSubscription) × (drain limit b s
            ≡ some (up_to limit (drop (max s.cursor (length log - b.capacity)) log), s'))
    drain-reads limit s live =
        let (n, w, c) = Reachable-IsWindow capacity max_subscriptions (b, log) reachable in
        let k : ℕ = length log - b.capacity in
        let size : length b.entries ≡ length (drop k log) =
          ap length w ∙ length-numbered k (drop k log) in
        drain_within-reads (suc (length b.entries)) limit s (omega (arith, size, length-drop k log))
          live
