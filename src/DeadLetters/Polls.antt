-- ===== src/DeadLetters/Polls.antt =====
-- What the polls of movie/actor/dead_letter.py read of everything that was published.
use movie.Common.{
  ℕ, suc, ◌+◌, ◌-◌, ◌≤◌, ◌≡◌, sym, ap, ◌∙◌, false, List, [], ◌∷◌, none, some, ltb, max,
  Option-cases, inl, inr, Bool-cases, length, drop, get_elem?, length-drop, arith,
}
use movie.DeadLetters.Broker.{
  DeadLetterBroker, DeadLetterSubscription, advance_cursor, poll, poll_entries, advance_to, taken,
}
use movie.DeadLetters.Window.{
  Reachable, numbered, get_elem?-numbered, get_elem?-numbered-none, get_elem?-drop,
  Reachable-IsWindow,
}

-- A subscription that reads from its cursor or from the first number of the window.
abbrev moved : ℕ → DeadLetterSubscription → DeadLetterSubscription
moved k s = record s { cursor = max s.cursor k; dropped = s.dropped + (max s.cursor k - s.cursor) }

module _ {E : Type 0} where
  advance_to-moved :
      (k : ℕ) (d : E) (rest : List (ℕ × E)) (s : DeadLetterSubscription)
      → advance_to ((k, d) ∷ rest) s ≡ moved k s
  advance_to-moved k d rest s = elim (Bool-cases (ltb s.cursor k)) [
    | inl behind ↦ ground (arith, behind)
    | inr inside ↦ ground (arith, inside)
  ]

  poll_entries-numbered :
      (k : ℕ) (es : List E) (s s' : DeadLetterSubscription) (e : E)
      → poll_entries (numbered k es) (advance_to (numbered k es) s) ≡ (some e, s')
      → (get_elem? es (max s.cursor k - k) ≡ some e)
        × (s'.cursor ≡ suc (max s.cursor k))
        × (s'.dropped ≡ s.dropped + (max s.cursor k - s.cursor))
  unfolding numbered
  poll_entries-numbered k [] s s' e h = absurd (cc h)
  poll_entries-numbered k (d ∷ ds) s s' e h =
      let index : ℕ = max s.cursor k - k in
      let at : taken (get_elem? (numbered k (d ∷ ds)) index) (moved k s) ≡ (some e, s') =
        ap (poll_entries (numbered k (d ∷ ds))) (sym (advance_to-moved k d (numbered (suc k) ds) s))
        ∙ h in
      elim (Option-cases (get_elem? (numbered k (d ∷ ds)) index)) [
        | inl nothing ↦ absurd (ground (arith, at, nothing))
        | inr (entry, found) ↦
            let (number, there) = get_elem?-numbered k index (d ∷ ds) entry found in
            let order : k + index ≡ max s.cursor k = omega arith in
            let same : taken (some entry) (moved k s) ≡ (some e, s') =
              ap (λ o. taken o (moved k s)) (sym found) ∙ at in
            (
              there ∙ ground (arith, same),
              ground (arith, same, number, order),
              ground (arith, same),
            )
      ]

  poll_entries-numbered-none :
      (k : ℕ) (es : List E) (s s' : DeadLetterSubscription)
      → poll_entries (numbered k es) (advance_to (numbered k es) s) ≡ (none, s')
      → length es + k ≤ max s.cursor k
  unfolding numbered
  poll_entries-numbered-none k [] s s' h = omega arith
  poll_entries-numbered-none k (d ∷ ds) s s' h =
      let index : ℕ = max s.cursor k - k in
      let at : taken (get_elem? (numbered k (d ∷ ds)) index) (moved k s) ≡ (none, s') =
        ap (poll_entries (numbered k (d ∷ ds))) (sym (advance_to-moved k d (numbered (suc k) ds) s))
        ∙ h in
      elim (Option-cases (get_elem? (numbered k (d ∷ ds)) index)) [
        | inl nothing ↦ omega (arith, get_elem?-numbered-none k index (d ∷ ds) nothing)
        | inr (entry, found) ↦ absurd (ground (arith, at, found))
      ]

  -- After any calls, a poll of a subscription that is not closed and gets an event gets the one that was
  -- published at its cursor or, if the window has moved past the cursor, at the start of the window of
  -- the last `capacity` events; it goes on behind that event, and counts as dropped exactly those skipped.
  pub poll-reads :
      (capacity max_subscriptions : ℕ) (b : DeadLetterBroker E) (log : List E)
      → (s s' : DeadLetterSubscription) (e : E) → Reachable capacity max_subscriptions (b, log)
      → s.closed ≡ false
      → poll b s ≡ (some e, s')
      → (get_elem? log (max s.cursor (length log - b.capacity)) ≡ some e)
        × (s'.cursor ≡ suc (max s.cursor (length log - b.capacity)))
        × (s'.dropped ≡ s.dropped + (max s.cursor (length log - b.capacity) - s.cursor))
  unfolding poll advance_cursor
  poll-reads capacity max_subscriptions b log s s' e reachable live h =
      let (n, w, c) = Reachable-IsWindow capacity max_subscriptions (b, log) reachable in
      let k : ℕ = length log - b.capacity in
      let polled : poll_entries (numbered k (drop k log)) (advance_to (numbered k (drop k log)) s)
          ≡ (some e, s') =
        ap (λ es. poll_entries es (advance_to es s)) (sym w) ∙ ground (arith, h, live) in
      let (there, cursor, dropped) = poll_entries-numbered k (drop k log) s s' e polled in
      (
        ap (get_elem? log) (omega arith) ∙ sym (get_elem?-drop k (max s.cursor k - k) log) ∙ there,
        cursor,
        dropped,
      )

  -- After any calls, a poll of a subscription that is not closed gets nothing only when its cursor has
  -- reached the end of what was published.
  pub poll-ends :
      (capacity max_subscriptions : ℕ) (b : DeadLetterBroker E) (log : List E)
      → (s s' : DeadLetterSubscription) → Reachable capacity max_subscriptions (b, log)
      → s.closed ≡ false
      → poll b s ≡ (none, s')
      → length log ≤ s.cursor
  unfolding poll advance_cursor
  poll-ends capacity max_subscriptions b log s s' reachable live h =
      let (n, w, c) = Reachable-IsWindow capacity max_subscriptions (b, log) reachable in
      let k : ℕ = length log - b.capacity in
      let polled : poll_entries (numbered k (drop k log)) (advance_to (numbered k (drop k log)) s)
          ≡ (none, s') =
        ap (λ es. poll_entries es (advance_to es s)) (sym w) ∙ ground (arith, h, live) in
      omega (arith, poll_entries-numbered-none k (drop k log) s s' polled, length-drop k log, c)
