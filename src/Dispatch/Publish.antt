-- ===== src/Dispatch/Publish.antt =====
-- Where `_publish` of movie/dispatch/worker_pool.py puts a task, and when it refuses one.
use movie.Common.{
  ℕ, zero, suc, ◌+◌, ◌-◌, ◌%◌, ◌≤◌, ◌<◌, ◌≡◌, refl, sym, subst, ap, ◌∙◌, not, Bool, true, false,
  List, [], ◌∷◌, ◌++◌, length, ◌⊎◌, inl, inr, some, arith, get_elem?, set, Bool-cases, Option-cases,
  leb, leb→le,
}
use native.Mathlib.Nat.{mod-eq_of_lt, add-mod_right}
use movie.Dispatch.WorkQueue.{WorkQueue, is_full, put}
use movie.Dispatch.Pool.{Pool, Published, publish, publish_from, is_running_state}

mod_wrap : (n i : ℕ) → i < n → (i + n) % n ≡ i
mod_wrap n i h = add-mod_right i n ∙ mod-eq_of_lt h

upto : (a b : ℕ) → a ≤ b → a + (b - a) ≡ b
upto a b h = omega (arith, h)

-- The loop starts at any worker and reaches every queue.
visits : (n start index : ℕ) → start < n → index < n → (k : ℕ) × (k < n) × ((start + k) % n ≡ index)
visits n start index s i = elim (Bool-cases (leb start index)) [
  | inl le ↦ (
    index - start,
    omega (arith, leb→le start index le),
    ap (λ x. x % n) (upto start index (leb→le start index le)) ∙ mod-eq_of_lt i,
  )
  | inr gt ↦ (
    index + n - start,
    ground (arith, gt),
    ap (λ x. x % n) (upto start (index + n) (omega (arith, s))) ∙ mod_wrap n index i,
  )
]

module _ {T : Type 0} where
  -- The tasks of one kind that a queue holds, and how many it may hold.
  unfoldable pub tasks_of : Bool → WorkQueue T → List T
  tasks_of true q = q.system_tasks
  tasks_of false q = q.tasks

  unfoldable pub capacity_of : Bool → WorkQueue T → ℕ
  capacity_of true q = q.system_capacity
  capacity_of false q = q.capacity

  -- The queue afterwards: the task stands behind those of its kind, those of the other kind and both
  -- capacities are what they were, and the event is set if the queue was empty.
  pub record IsAppended (system : Bool) (task : T) (q after : WorkQueue T) : Type 0 where
    pub behind : tasks_of system after ≡ tasks_of system q ++ (task ∷ [])
    pub others : tasks_of (not system) after ≡ tasks_of (not system) q
    pub same_capacity : after.capacity ≡ q.capacity
    pub same_system_capacity : after.system_capacity ≡ q.system_capacity
    pub woken : q.tasks ≡ [] → q.system_tasks ≡ [] → after.ready ≡ true

  -- The task is put into a queue that holds less than it may, and no other queue is changed.
  pub record IsPlaced (system : Bool) (task : T) (p after : Pool T) : Type 0 where
    pub index : ℕ
    pub queue : WorkQueue T
    pub new_queue : WorkQueue T
    pub was_there : get_elem? p.queues index ≡ some queue
    pub had_room : length (tasks_of system queue) < capacity_of system queue
    pub appended : IsAppended system task queue new_queue
    pub put_there : after.queues ≡ set p.queues index new_queue

  put-IsAppended :
      (system : Bool) (task : T) (q : WorkQueue T) → IsAppended system task q (put system task q)
  unfolding put tasks_of
  put-IsAppended system task q = record {
    behind = ground arith;
    others = ground arith;
    same_capacity = ground arith;
    same_system_capacity = ground arith;
    woken = λ t s. ground (arith, t, s);
  }

  is_full-room :
      (system : Bool) (q : WorkQueue T)
      → is_full system q ≡ false
      → length (tasks_of system q) < capacity_of system q
  unfolding is_full tasks_of capacity_of
  is_full-room true q h = ground (arith, h)
  is_full-room false q h = ground (arith, h)

  is_full-reached :
      (system : Bool) (q : WorkQueue T)
      → is_full system q ≡ true
      → capacity_of system q ≤ length (tasks_of system q)
  unfolding is_full tasks_of capacity_of
  is_full-reached true q h = ground (arith, h)
  is_full-reached false q h = ground (arith, h)

  -- What the loop comes to.
  abbrev pub Outcome : ℕ → ℕ → Bool → T → Pool T → Type 0
  Outcome left offset system task p =
      (((publish_from left offset system task p).0 ≡ Published.done)
        × IsPlaced system task p (publish_from left offset system task p).1)
      ⊎ ((publish_from left offset system task p ≡ (Published.capacity_exceeded, p))
          × ((k : ℕ) (q : WorkQueue T)
              → k < left
              → get_elem? p.queues ((offset + k) % p.worker_count) ≡ some q
              → is_full system q ≡ true))

  some-injective : (q r : WorkQueue T) → some q ≡ some r → q ≡ r
  some-injective q r h = cc

  -- The queues that the loop has still to visit, and the one that it has found full.
  all_full :
      (left offset : ℕ) (system : Bool) (p : Pool T)
      → ((q : WorkQueue T)
          → get_elem? p.queues (offset % p.worker_count) ≡ some q
          → is_full system q ≡ true)
      → ((k : ℕ) (q : WorkQueue T)
          → k < left
          → get_elem? p.queues ((suc offset + k) % p.worker_count) ≡ some q
          → is_full system q ≡ true)
      → (k : ℕ) (q : WorkQueue T) → k < suc left
      → get_elem? p.queues ((offset + k) % p.worker_count) ≡ some q
      → is_full system q ≡ true
  all_full left offset system p here later zero q h e =
      here q (ap (λ x. get_elem? p.queues (x % p.worker_count)) (omega arith) ∙ e)
  all_full left offset system p here later (suc k) q h e =
      later k q (omega (arith, h))
        (ap (λ x. get_elem? p.queues (x % p.worker_count)) (omega arith) ∙ e)

  skip :
      (left offset : ℕ) (system : Bool) (task : T) (p : Pool T)
      → publish_from (suc left) offset system task p ≡ publish_from left (suc offset) system task p
      → ((q : WorkQueue T)
          → get_elem? p.queues (offset % p.worker_count) ≡ some q
          → is_full system q ≡ true)
      → Outcome left (suc offset) system task p
      → Outcome (suc left) offset system task p
  skip left offset system task p same here (inl (done, placed)) =
      inl (ap (λ r. r.0) same ∙ done, subst (λ r. IsPlaced system task p r.1) (sym same) placed)
  skip left offset system task p same here (inr (full, later)) =
      inr (same ∙ full, all_full left offset system p here later)

  publish_from-cases :
      (left offset : ℕ) (system : Bool) (task : T) (p : Pool T)
      → is_running_state p.state ≡ true
      → Outcome left offset system task p
  unfolding publish_from
  publish_from-cases zero offset system task p running =
      inr (refl, λ k q h e. absurd (omega (arith, h)))
  publish_from-cases (suc left) offset system task p running =
      elim (Option-cases (get_elem? p.queues (offset % p.worker_count))) [
        | inl missing ↦
            skip left offset system task p (ground (arith, running, missing))
              (λ q e. absurd (cc (missing, e)))
              (publish_from-cases left (suc offset) system task p running)
        | inr (q, there) ↦ elim (Bool-cases (is_full system q)) [
          | inl full ↦
              skip left offset system task p (ground (arith, running, there, full))
                (λ q' e.
                  subst (λ x. is_full system x ≡ true) (some-injective q q' (sym there ∙ e)) full)
                (publish_from-cases left (suc offset) system task p running)
          | inr room ↦ inl (
            ground (arith, running, there, room),
            record {
              index = offset % p.worker_count;
              queue = q;
              new_queue = put system task q;
              was_there = there;
              had_room = is_full-room system q room;
              appended = put-IsAppended system task q;
              put_there = ground (arith, running, there, room);
            },
          )
        ]
      ]

  -- A running pool, from whatever worker it starts, puts a task into a queue whose tasks of this kind are
  -- fewer than the capacity for them: behind those, leaving the tasks of the other kind and the
  -- other queues as they are, and setting the event of a queue that was empty. It refuses a task, and then
  -- changes nothing, only when the tasks of this kind in the queue of every worker have reached the capacity.
  pub publish-cases :
      (start : ℕ) (system : Bool) (task : T) (p : Pool T)
      → is_running_state p.state ≡ true
      → start < p.worker_count
      → (((publish start system task p).0 ≡ Published.done)
          × IsPlaced system task p (publish start system task p).1)
        ⊎ ((publish start system task p ≡ (Published.capacity_exceeded, p))
            × ((index : ℕ) (q : WorkQueue T)
                → index < p.worker_count
                → get_elem? p.queues index ≡ some q
                → capacity_of system q ≤ length (tasks_of system q)))
  unfolding publish
  publish-cases start system task p running s =
      elim (publish_from-cases p.worker_count start system task p running) [
        | inl placed ↦ inl placed
        | inr (full, all) ↦ inr (
          full,
          λ index q i e.
              let (k, short, there) = visits p.worker_count start index s i in
              is_full-reached system q (all k q short (ap (get_elem? p.queues) there ∙ e)),
        )
      ]
