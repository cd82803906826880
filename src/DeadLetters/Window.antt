-- ===== src/DeadLetters/Window.antt =====
-- The window of movie/actor/dead_letter.py against the log of everything that was published.
use movie.Common.{
  ℕ, zero, suc, ◌+◌, ◌-◌, ◌≤◌, ◌<◌, ◌≡◌, refl, sym, ap, ◌∙◌, subst, Bool, true, List, [], ◌∷◌, ◌++◌,
  none, some, ltb, inl, inr, Bool-cases, length, drop, get_elem?, length-append, length-drop,
  drop-append_le, arith, if◌then◌else◌,
}
use movie.DeadLetters.Broker.{
  DeadLetterBroker, DeadLetterSubscription, append_bounded, dead_letter_broker, publish, subscribe,
  unsubscribe, close_broker,
}

module _ {E : Type 0} where
  infix 3 ◌⟶◌
  -- A call of a method, with what it publishes.
  pub data ◌⟶◌ : DeadLetterBroker E × List E → DeadLetterBroker E × List E → Type 0 where
    publishes :
        {b : DeadLetterBroker E} {log : List E} (e : E)
        → (b, log) ⟶ ((publish e b).1, if (publish e b).0 then log ++ (e ∷ []) else log)
    subscribes :
        {b : DeadLetterBroker E} {log : List E} (identity : ℕ)
        → (b, log) ⟶ ((subscribe identity b).1, log)
    unsubscribes :
        {b : DeadLetterBroker E} {log : List E} (s : DeadLetterSubscription)
        → (b, log) ⟶ ((unsubscribe b s).1, log)
    closes : {b : DeadLetterBroker E} {log : List E} → (b, log) ⟶ (close_broker b, log)

  -- The entries from one sequence number on.
  unfoldable pub numbered : ℕ → List E → List (ℕ × E)
  numbered n [] = []
  numbered n (e ∷ es) = (n, e) ∷ numbered (suc n) es

  pub length-numbered : (n : ℕ) (es : List E) → length (numbered n es) ≡ length es
  unfolding numbered
  length-numbered n [] = refl
  length-numbered n (e ∷ es) = ap suc (length-numbered (suc n) es)

  numbered-append :
      (n : ℕ) (es : List E) (e : E)
      → numbered n (es ++ (e ∷ [])) ≡ numbered n es ++ ((n + length es, e) ∷ [])
  unfolding numbered
  numbered-append n [] e = ap (λ k. (k, e) ∷ []) (omega arith)
  numbered-append n (d ∷ es) e =
      ap (◌∷◌ (n, d)) (
        numbered-append (suc n) es e ∙ ap (λ k. numbered (suc n) es ++ ((k, e) ∷ [])) (omega arith))

  pub get_elem?-numbered :
      (n i : ℕ) (es : List E) (entry : ℕ × E)
      → get_elem? (numbered n es) i ≡ some entry
      → (entry.0 ≡ n + i) × (get_elem? es i ≡ some entry.1)
  unfolding numbered
  get_elem?-numbered n i [] entry h = absurd (cc h)
  get_elem?-numbered n zero (e ∷ es) entry h = ground (arith, h)
  get_elem?-numbered n (suc i) (e ∷ es) entry h =
      ground (arith, get_elem?-numbered (suc n) i es entry h)

  pub get_elem?-numbered-none :
      (n i : ℕ) (es : List E) → get_elem? (numbered n es) i ≡ none → length es ≤ i
  unfolding numbered
  get_elem?-numbered-none n i [] h = omega arith
  get_elem?-numbered-none n zero (e ∷ es) h = absurd (cc h)
  get_elem?-numbered-none n (suc i) (e ∷ es) h =
      omega (arith, get_elem?-numbered-none (suc n) i es h)

  pub get_elem?-drop : (n i : ℕ) (es : List E) → get_elem? (drop n es) i ≡ get_elem? es (n + i)
  get_elem?-drop zero i es = ap (get_elem? es) (omega arith)
  get_elem?-drop (suc n) i [] = refl
  get_elem?-drop (suc n) i (e ∷ es) =
      get_elem?-drop n i es ∙ ap (get_elem? (e ∷ es)) {x = suc (n + i)} (omega arith)

  -- The last events of the log, as many as the capacity allows.
  abbrev pub IsWindow : DeadLetterBroker E → List E → Type 0
  IsWindow b log =
      (b.next_sequence ≡ length log)
      × (b.entries ≡ numbered (length log - b.capacity) (drop (length log - b.capacity) log))
      × (0 < b.capacity)

  drop-suc : (n : ℕ) (es : List E) → drop 1 (drop n es) ≡ drop (suc n) es
  drop-suc zero es = refl
  drop-suc (suc n) [] = refl
  drop-suc (suc n) (e ∷ es) = drop-suc n es

  append_bounded-numbered :
      (capacity n : ℕ) (es : List E) (e : E)
      → 0 < capacity
      → append_bounded capacity (numbered n es) (n + length es, e) ≡ (
          if ltb (length es) capacity
          then numbered n (es ++ (e ∷ []))
          else numbered (suc n) (drop 1 (es ++ (e ∷ []))))
  unfolding append_bounded numbered
  append_bounded-numbered capacity n [] e h = ground (arith, h)
  append_bounded-numbered capacity n (d ∷ es) e h =
      let there : n + length (d ∷ es) ≡ suc n + length es = omega arith in
      ground (arith, h, there, length-numbered (suc n) es, numbered-append (suc n) es e)

  window-append :
      (capacity : ℕ) (log : List E) (e : E)
      → 0 < capacity
      → append_bounded capacity
          (numbered (length log - capacity) (drop (length log - capacity) log))
          (length log, e)
        ≡ numbered
            (suc (length log) - capacity)
            (drop (suc (length log) - capacity) (log ++ (e ∷ [])))
  window-append capacity log e h =
      let k = length log - capacity in
      let size = length-drop k log in
      let new : List E = log ++ (e ∷ []) in
      let kept = drop-append_le k log (e ∷ []) (omega arith) in
      let put =
        ap (λ n. append_bounded capacity (numbered k (drop k log)) (n, e)) (omega (arith, size))
        ∙ append_bounded-numbered capacity k (drop k log) e h in
      put ∙ elim (Bool-cases (ltb (length (drop k log)) capacity)) [
        | inl room ↦
            ap
              (λ b.
                if b
                then numbered k (drop k log ++ (e ∷ []))
                else numbered (suc k) (drop 1 (drop k log ++ (e ∷ []))))
              room
            ∙ ap (numbered k) (sym kept)
            ∙ ap (λ n. numbered n (drop n new)) (ground (arith, size, room, h))
        | inr full ↦
            ap
              (λ b.
                if b
                then numbered k (drop k log ++ (e ∷ []))
                else numbered (suc k) (drop 1 (drop k log ++ (e ∷ []))))
              full
            ∙ ap (λ es. numbered (suc k) (drop 1 es)) (sym kept)
            ∙ ap (numbered (suc k)) (drop-suc k new)
            ∙ ap (λ n. numbered n (drop n new)) (ground (arith, size, full, h))
      ]

  pub data Reachable (capacity max_subscriptions : ℕ) : DeadLetterBroker E × List E → Type 0 where
    created :
        {b : DeadLetterBroker E}
        → dead_letter_broker capacity max_subscriptions ≡ some b
        → Reachable capacity max_subscriptions (b, [])
    step :
        {p p' : DeadLetterBroker E × List E}
        → Reachable capacity max_subscriptions p
        → p ⟶ p'
        → Reachable capacity max_subscriptions p'

  step-IsWindow :
      (p p' : DeadLetterBroker E × List E) → p ⟶ p' → IsWindow p.0 p.1 → IsWindow p'.0 p'.1
  unfolding publish subscribe unsubscribe close_broker
  step-IsWindow _ _ (publishes {b} {log} e) (n, w, c) = elim (Bool-cases b.closed) [
    | inl over ↦ ground (arith, over, n, w, c)
    | inr going ↦
        let new : List E = log ++ (e ∷ []) in
        let entries : append_bounded b.capacity b.entries (b.next_sequence, e)
            ≡ numbered (length new - b.capacity) (drop (length new - b.capacity) new) =
          ap (λ es. append_bounded b.capacity es (b.next_sequence, e)) w
          ∙ ap
              (λ k.
                append_bounded b.capacity
                  (numbered (length log - b.capacity) (drop (length log - b.capacity) log)) (k, e))
              n
          ∙ window-append b.capacity log e c
          ∙ ap (λ k. numbered (k - b.capacity) (drop (k - b.capacity) new))
              (omega (arith, length-append log (e ∷ []))) in
        let size : suc b.next_sequence ≡ length new =
          omega (arith, n, length-append log (e ∷ [])) in
        subst (λ (r : Bool × DeadLetterBroker E). IsWindow r.1 (if r.0 then new else log))
          {x = (
            true,
            record b {
              entries = append_bounded b.capacity b.entries (b.next_sequence, e);
              next_sequence = suc b.next_sequence;
            },
          )}
          {y = publish e b} (ground (arith, going)) (size, entries, c)
  ]
  step-IsWindow _ _ (subscribes {b} {log} identity) w = ground (arith, w)
  step-IsWindow _ _ (unsubscribes {b} {log} s) w = ground (arith, w)
  step-IsWindow _ _ (closes {b} {log}) w = w

  pub Reachable-IsWindow :
      (capacity max_subscriptions : ℕ) (p : DeadLetterBroker E × List E)
      → Reachable capacity max_subscriptions p
      → IsWindow p.0 p.1
  unfolding dead_letter_broker numbered
  Reachable-IsWindow capacity max_subscriptions _ (created {b} h) = ground (arith, h)
  Reachable-IsWindow capacity max_subscriptions _ (step {p} {p'} before s) =
      step-IsWindow p p' s (Reachable-IsWindow capacity max_subscriptions p before)
