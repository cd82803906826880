-- ===== src/Dispatch/Examples.antt =====
-- A pool of two workers that share three ordinary places and two system places.
use movie.Common.{ℕ, ◌<◌, ◌≤◌, ◌≡◌, refl, true, false, ◌⊎◌, [], ◌∷◌, some, get_elem?, length, arith}
use movie.Dispatch.WorkQueue.{WorkQueue, new_queue, is_full, put, take_ordinary}
use movie.Dispatch.Pool.{
  DispatcherState, Pool, Published, share, queues_from, new_pool, publish, publish_from,
  take_available, take_from, take_at,
}
use movie.Dispatch.Capacity.{total_capacity, total_system_capacity, new_pool-capacity}
use movie.Dispatch.Publish.{IsPlaced, tasks_of, capacity_of, publish-cases}

abbrev wide : WorkQueue ℕ
wide = record { tasks = []; system_tasks = []; capacity = 2; system_capacity = 1; ready = false }

abbrev narrow : WorkQueue ℕ
narrow = record wide { capacity = 1 }

abbrev idle : Pool ℕ
idle = record {
  worker_count = 2;
  queues = wide ∷ narrow ∷ [];
  idle_workers = [];
  idle_available = false;
  system_count = 0;
  system_available = false;
  state = DispatcherState.new;
}

abbrev busy : Pool ℕ
busy = record idle {
  state = DispatcherState.running;
  queues = wide ∷ record narrow { tasks = 7 ∷ []; ready = true } ∷ [];
}

constructed : new_pool 2 10 3 2 ≡ some idle
unfolding new_pool queues_from share new_queue
constructed = refl

not_started : publish 0 false 8 idle ≡ (Published.not_accepting, idle)
unfolding publish publish_from
not_started = refl

-- The second queue is full, so that the first one takes the task.
goes_on : publish 1 false 8 busy ≡ (
  Published.done,
  record busy {
    queues =
        record wide { tasks = 8 ∷ []; ready = true }
        ∷ record narrow { tasks = 7 ∷ []; ready = true }
        ∷ [];
  },
)
unfolding publish publish_from is_full put
goes_on = refl

-- The first worker steals from the second.
steals :
    take_available 0 busy
    ≡ (some 7, record busy { queues = wide ∷ record narrow { ready = true } ∷ [] })
unfolding take_available take_from take_at take_ordinary
steals = refl

new_pool-capacity_example :
    (total_capacity idle.queues ≡ 3)
    × (total_system_capacity idle.queues ≡ 2)
    × (length idle.queues ≡ 2)
new_pool-capacity_example = new_pool-capacity ℕ 2 3 2 10 idle constructed

publish-cases_example :
    (((publish 1 false 8 busy).0 ≡ Published.done)
      × IsPlaced false 8 busy (publish 1 false 8 busy).1)
    ⊎ ((publish 1 false 8 busy ≡ (Published.capacity_exceeded, busy))
        × ((index : ℕ) (q : WorkQueue ℕ)
            → index < 2
            → get_elem? busy.queues index ≡ some q
            → capacity_of false q ≤ length (tasks_of false q)))
publish-cases_example = publish-cases 1 false 8 busy refl (omega arith)
