-- ===== src/Dispatch/WorkQueue.antt =====
-- `WorkQueue` of movie/dispatch/worker_pool.py. Its event `ready` is a flag.
use movie.Common.{
  ℕ, ◌&&◌, Bool, true, false, List, [], ◌∷◌, ◌++◌, Option, none, some, is_empty, leb, length,
  if◌then◌else◌,
}

pub record WorkQueue (T : Type 0) : Type 0 where
  pub tasks : List T
  pub system_tasks : List T
  pub capacity : ℕ
  pub system_capacity : ℕ
  pub ready : Bool

module _ {T : Type 0} where
  unfoldable pub new_queue : ℕ → ℕ → WorkQueue T
  new_queue capacity system_capacity = record {
    tasks = [];
    system_tasks = [];
    capacity = capacity;
    system_capacity = system_capacity;
    ready = false;
  }

  -- `if owner and not self.system_tasks and not self.tasks: self.ready.clear()`
  abbrev settle : Bool → WorkQueue T → WorkQueue T
  settle owner q =
      if owner && is_empty q.system_tasks && is_empty q.tasks then record q { ready = false } else q

  abbrev pop_system : Bool → List T → WorkQueue T → Option T × WorkQueue T
  pop_system owner [] q = (none, settle owner q)
  pop_system owner (task ∷ rest) q = (some task, settle owner (record q { system_tasks = rest }))

  unfoldable pub take_system : Bool → WorkQueue T → Option T × WorkQueue T
  take_system owner q = pop_system owner q.system_tasks q

  abbrev pop_ordinary : Bool → List T → WorkQueue T → Option T × WorkQueue T
  pop_ordinary owner [] q = (none, settle owner q)
  pop_ordinary owner (task ∷ rest) q = (some task, settle owner (record q { tasks = rest }))

  unfoldable pub take_ordinary : Bool → WorkQueue T → Option T × WorkQueue T
  take_ordinary owner q = pop_ordinary owner q.tasks q

  unfoldable pub detach : WorkQueue T → (List T × List T) × WorkQueue T
  detach q = ((q.tasks, q.system_tasks), record q { tasks = []; system_tasks = []; ready = false })

  -- The two `continue`s of `_publish`.
  unfoldable pub is_full : Bool → WorkQueue T → Bool
  is_full true q = leb q.system_capacity (length q.system_tasks)
  is_full false q = leb q.capacity (length q.tasks)

  abbrev append_task : Bool → T → WorkQueue T → WorkQueue T
  append_task true task q = record q { system_tasks = q.system_tasks ++ (task ∷ []) }
  append_task false task q = record q { tasks = q.tasks ++ (task ∷ []) }

  -- What `_publish` does with the queue that it has found room in.
  unfoldable pub put : Bool → T → WorkQueue T → WorkQueue T
  put system task q =
      if is_empty q.tasks && is_empty q.system_tasks
      then record (append_task system task q) { ready = true }
      else append_task system task q
