-- ===== src/Dispatch/Capacity.antt =====
-- The capacities of the workers' queues share out the configured ones.
use movie.Common.{
  ℕ, zero, suc, ◌+◌, ◌-◌, ◌*◌, ◌/◌, ◌%◌, ◌<◌, ◌≡◌, refl, subst, ap, ◌∙◌, min, List, [], ◌∷◌, some,
  arith, length,
}
use movie.Dispatch.WorkQueue.{WorkQueue, new_queue}
use movie.Dispatch.Pool.{Pool, queues_from, new_pool, share}

abbrev pub total_capacity : {T : Type 0} → List (WorkQueue T) → ℕ
total_capacity [] = 0
total_capacity (q ∷ qs) = q.capacity + total_capacity qs

abbrev pub total_system_capacity : {T : Type 0} → List (WorkQueue T) → ℕ
total_system_capacity [] = 0
total_system_capacity (q ∷ qs) = q.system_capacity + total_system_capacity qs

-- The shares of so many workers from one index on.
abbrev shares : ℕ → ℕ → ℕ → ℕ → ℕ
shares capacity workers zero index = 0
shares capacity workers (suc left) index =
    share capacity workers index + shares capacity workers left (suc index)

-- The base share of each, and one more for each index below the remainder.
shares-eq :
    (capacity workers left index : ℕ)
    → shares capacity workers left index
      ≡ left * (capacity / workers)
        + (min (capacity % workers) (index + left) - min (capacity % workers) index)
unfolding share
shares-eq capacity workers zero index = omega arith
shares-eq capacity workers (suc left) index =
    ground (arith, shares-eq capacity workers left (suc index))

shares-all : (capacity workers : ℕ) → 0 < workers → shares capacity workers workers 0 ≡ capacity
shares-all capacity workers h = omega (arith, shares-eq capacity workers workers 0)

module _ (T : Type 0) (workers capacity system_capacity : ℕ) where
  totals :
      (left index : ℕ)
      → let qs = queues_from {T = T} left index workers capacity system_capacity in
        (total_capacity qs ≡ shares capacity workers left index)
        × (total_system_capacity qs ≡ shares system_capacity workers left index)
        × (length qs ≡ left)
  unfolding queues_from new_queue
  totals zero index = (refl, refl, refl)
  totals (suc left) index =
      let (a, b, c) = totals left (suc index) in
      (
        ap (λ n. share capacity workers index + n) a,
        ap (λ n. share system_capacity workers index + n) b,
        ap suc c,
      )

  new_pool-eq-some :
      (timeout : ℕ) (p : Pool T)
      → new_pool workers timeout capacity system_capacity ≡ some p
      → (0 < workers) × (queues_from workers 0 workers capacity system_capacity ≡ p.queues)
  unfolding new_pool
  new_pool-eq-some timeout p h = ground arith

  -- A pool that is constructed has one queue for each worker, and the capacities of its queues, the
  -- ordinary and the system ones, add up to exactly the configured capacities.
  pub new_pool-capacity :
      (timeout : ℕ) (p : Pool T)
      → new_pool workers timeout capacity system_capacity ≡ some p
      → (total_capacity p.queues ≡ capacity)
        × (total_system_capacity p.queues ≡ system_capacity)
        × (length p.queues ≡ workers)
  new_pool-capacity timeout p h =
      let (positive, same) = new_pool-eq-some timeout p h in
      let (a, b, c) = totals workers 0 in
      subst
        (λ qs.
          (total_capacity qs ≡ capacity)
          × (total_system_capacity qs ≡ system_capacity)
          × (length qs ≡ workers))
        same
        (
          a ∙ shares-all capacity workers positive,
          b ∙ shares-all system_capacity workers positive,
          c,
        )
