-- ===== src/Dispatch/Pool.antt =====
-- The worker pool of movie/dispatch/worker_pool.py: `__init__`, `_publish`, `_choose_worker`,
-- `_take_available`, `_mark_idle`, `_mark_active` and `_detach_abandoned_tasks`.
use movie.Common.{
  ℕ, zero, suc, ◌+◌, ◌-◌, ◌/◌, ◌%◌, not, ◌&&◌, ◌||◌, Bool, true, false, List, [], ◌∷◌, Option, none,
  some, get_elem?, set, eqb, ltb, is_empty, if◌then◌else◌,
}
use movie.Dispatch.WorkQueue.{WorkQueue, new_queue, take_system, take_ordinary, is_full, put}

pub data DispatcherState : Type 0 where
  new starting running stopping stopped : DispatcherState

abbrev pub is_running_state : DispatcherState → Bool
is_running_state DispatcherState.running = true
is_running_state _ = false

pub record Pool (T : Type 0) : Type 0 where
  pub worker_count : ℕ
  pub queues : List (WorkQueue T)
  pub idle_workers : List ℕ
  pub idle_available : Bool
  pub system_count : ℕ
  pub system_available : Bool
  pub state : DispatcherState

pub data Published : Type 0 where
  done not_accepting capacity_exceeded : Published

-- The capacity of one worker's queue: `base_capacity + (index < extra_capacity)`.
unfoldable pub share : ℕ → ℕ → ℕ → ℕ
share capacity workers index =
    capacity / workers + (if ltb index (capacity % workers) then 1 else 0)

abbrev pub discard : ℕ → List ℕ → List ℕ
discard worker [] = []
discard worker (w ∷ ws) = let rest = discard worker ws in if eqb worker w then rest else w ∷ rest

module _ {T : Type 0} where
  -- The queues of the workers from `index` on.
  unfoldable pub queues_from : ℕ → ℕ → ℕ → ℕ → ℕ → List (WorkQueue T)
  unfolding share new_queue
  queues_from zero index workers capacity system_capacity = []
  queues_from (suc left) index workers capacity system_capacity =
      new_queue (share capacity workers index) (share system_capacity workers index)
      ∷ queues_from left (suc index) workers capacity system_capacity

  -- `__init__` with the numbers of the configuration, none of which may be 0.
  unfoldable pub new_pool : ℕ → ℕ → ℕ → ℕ → Option (Pool T)
  unfolding queues_from
  new_pool workers shutdown_timeout queue_capacity system_queue_capacity =
      if eqb workers 0
        || eqb shutdown_timeout 0
        || eqb queue_capacity 0
        || eqb system_queue_capacity 0
      then none
      else some (record {
        worker_count = workers;
        queues = queues_from workers 0 workers queue_capacity system_queue_capacity;
        idle_workers = [];
        idle_available = false;
        system_count = 0;
        system_available = false;
        state = DispatcherState.new;
      })

  abbrev count_system : Bool → Pool T → Pool T
  count_system true p = record p { system_count = suc p.system_count; system_available = true }
  count_system false p = p

  abbrev put_at : Bool → T → ℕ → WorkQueue T → Pool T → Pool T
  put_at system task index q p =
      count_system system (record p { queues = set p.queues index (put system task q) })

  -- The loop of `_publish`, with so many offsets left. An index past the queues does not arise.
  unfoldable pub publish_from : ℕ → ℕ → Bool → T → Pool T → Published × Pool T
  unfolding is_full put
  publish_from zero offset system task p = (Published.capacity_exceeded, p)
  publish_from (suc left) offset system task p =
      let rest = publish_from left (suc offset) system task p in
      if not (is_running_state p.state)
      then (Published.not_accepting, p)
      else elim (get_elem? p.queues (offset % p.worker_count)) [
        | none ↦ rest
        | some q ↦
            if is_full system q
            then rest
            else (Published.done, put_at system task (offset % p.worker_count) q p)
      ]

  -- `_publish`, with the worker that `_choose_worker` starts at
  unfoldable pub publish : ℕ → Bool → T → Pool T → Published × Pool T
  unfolding publish_from
  publish start system task p = publish_from p.worker_count start system task p

  -- `_choose_worker`, with the thread's placement, the hash of its ID, and the workers that are
  -- busy. The set of idle workers gives any of its elements, here the first. The next placement
  -- comes with the choice.
  unfoldable pub choose_worker : Option ℕ → ℕ → (ℕ → Bool) → Pool T → (ℕ × ℕ) × Pool T
  choose_worker placed hash is_busy p =
      let start : ℕ = elim placed [ none ↦ hash % p.worker_count | some next ↦ next ] in
      let alternate = (start + 1) % p.worker_count in
      if is_busy start && not (is_busy alternate)
      then ((alternate, (alternate + 1) % p.worker_count), p)
      else elim (is_busy start && p.idle_available) [
        | false ↦ ((start, (start + 1) % p.worker_count), p)
        | true ↦ elim p.idle_workers [
          | [] ↦ ((start, (start + 1) % p.worker_count), p)
          | idle ∷ others ↦ (
            (idle, (idle + 1) % p.worker_count),
            record p {
              idle_workers = others;
              idle_available = not (is_empty others) && p.idle_available;
            },
          )
        ]
      ]

  abbrev took : ℕ → Option T × WorkQueue T → Pool T → Option T × Pool T
  took index (task, q) p = (task, record p { queues = set p.queues index q })

  -- One `take_system` or `take_ordinary` of the queue of a worker.
  unfoldable pub take_at : Bool → Bool → ℕ → Pool T → Option T × Pool T
  unfolding take_system take_ordinary
  take_at system owner index p = elim (get_elem? p.queues index) [
    | none ↦ (none, p)
    | some q ↦ took index (if system then take_system owner q else take_ordinary owner q) p
  ]

  -- A loop over the queues from one offset on: the first task found.
  unfoldable pub take_from : ℕ → Bool → ℕ → ℕ → Pool T → Option T × Pool T
  unfolding take_at
  take_from zero system worker offset p = (none, p)
  take_from (suc left) system worker offset p =
      let (found, after) = take_at system (eqb offset 0) ((worker + offset) % p.worker_count) p in
      elim found [
        | none ↦ take_from left system worker (suc offset) after
        | some task ↦ (some task, after)
      ]

  abbrev uncount : Pool T → Pool T
  uncount p = record p {
    system_count = p.system_count - 1;
    system_available = not (eqb (p.system_count - 1) 0) && p.system_available;
  }

  abbrev or_ordinary : ℕ → Option T × Pool T → Option T × Pool T
  or_ordinary worker (some task, p) = (some task, uncount p)
  or_ordinary worker (none, p) = take_from p.worker_count false worker 0 p

  unfoldable pub take_available : ℕ → Pool T → Option T × Pool T
  unfolding take_from
  take_available worker p =
      if p.system_available
      then or_ordinary worker (take_from p.worker_count true worker 0 p)
      else take_from p.worker_count false worker 0 p

  unfoldable pub mark_idle : ℕ → Pool T → Pool T
  mark_idle worker p = record p {
    idle_workers = worker ∷ discard worker p.idle_workers;
    idle_available = true;
  }

  unfoldable pub mark_active : ℕ → Pool T → Pool T
  mark_active worker p =
      let left = discard worker p.idle_workers in
      record p { idle_workers = left; idle_available = not (is_empty left) && p.idle_available }
