-- ===== src/Future/Examples.antt =====
-- A future with two user callbacks and an internal one, and an executor with one worker.
use movie.Common.{ℕ, zero, suc, ◌<◌, ◌≡◌, ◌++◌, refl, true, false, List, [], ◌∷◌, some, none, arith}
use movie.Future.State.{
  FutureState, RuntimeFuture, new_future, add_done_callback, add_internal_done_callback, settle,
  invoke_callbacks, cancel, drain_block,
}
use movie.Future.Machine
use movie.Future.Machine.{Shared, ◌⟶◌, fresh}
use movie.Future.Callbacks.{RunsInOrder, Reachable-RunsInOrder}
use movie.Future.Drain.{
  total_size, registered_by, register_all, drain, IsDraining, drain-all, step-outcome,
}
use movie.Future.Executor
use movie.Future.Executor.{
  CallbackExecutor, Running, new_executor, submit, close_executor, Reachable-handed,
}

-- The state after its owner has settled it with 5 and called `_invoke_callbacks`, the second user
-- callback coming between the two.
abbrev settled : RuntimeFuture ℕ ℕ ℕ
settled = record {
  state = FutureState.finished;
  outcome = some 5;
  cancellable = true;
  bound = false;
  cancel_hook = none;
  done_callbacks = 1 ∷ 2 ∷ [];
  internal_callbacks = 9 ∷ [];
  pending_callbacks = 1 ∷ 2 ∷ [];
  callbacks_started = true;
  callback_draining = true;
}

abbrev both_wait : Shared ℕ ℕ ℕ
both_wait = record {
  future = settled;
  runners = 1;
  registered = 1 ∷ 2 ∷ [];
  ran = [];
  registered_internal = 9 ∷ [];
  ran_internal = 9 ∷ [];
}

settled-Reachable : Machine.Reachable true false both_wait
unfolding new_future add_done_callback add_internal_done_callback settle invoke_callbacks
settled-Reachable =
    Machine.steps
      (Machine.steps
        (Machine.steps
          (Machine.steps (Machine.steps Machine.starts (Machine.adds 1)) (Machine.adds_internal 9))
          (Machine.settles 5 refl))
        (Machine.adds 2))
      (Machine.invokes refl)

Reachable-RunsInOrder_example : RunsInOrder both_wait
Reachable-RunsInOrder_example = Reachable-RunsInOrder true false both_wait settled-Reachable

-- Callback 1 registers callback 4, and no other registers any.
abbrev calls : ℕ → List ℕ
calls zero = []
calls (suc zero) = 4 ∷ []
calls (suc (suc c)) = []

abbrev size : ℕ → ℕ
size zero = 1
size (suc zero) = 2
size (suc (suc c)) = 1

calls-finite : (c : ℕ) → total_size size (calls c) < size c
unfolding total_size
calls-finite zero = omega arith
calls-finite (suc zero) = omega arith
calls-finite (suc (suc c)) = omega arith

settled-IsDraining : IsDraining settled
settled-IsDraining = record { settled = refl; started = refl; draining = refl }

settled-size : total_size size settled.pending_callbacks < 4
unfolding total_size
settled-size = omega arith

drain-all_example :
    ((drain calls 4 settled).returned ≡ true)
    × ((drain calls 4 settled).ran
        ≡ (1 ∷ 2 ∷ []) ++ registered_by calls (drain calls 4 settled).ran)
    × ((drain calls 4 settled).future.pending_callbacks ≡ [])
    × ((drain calls 4 settled).future.callback_draining ≡ false)
    × ((drain calls 4 settled).submitted ≡ false)
drain-all_example = drain-all calls size calls-finite settled 4 settled-IsDraining settled-size

settled-ran : (drain calls 4 settled).ran ≡ 1 ∷ 2 ∷ 4 ∷ []
unfolding drain drain_block register_all add_done_callback
settled-ran = refl

step-outcome_example :
    ((cancel settled).1.state ≡ FutureState.finished) × ((cancel settled).1.outcome ≡ some 5)
step-outcome_example =
    step-outcome both_wait (record both_wait { future = (cancel settled).1 }) 5 Machine.cancels refl
      refl

too_late : settle 6 settled ≡ none
unfolding settle
too_late = refl

-- One worker runs callback 7 and then meets the end.
abbrev ended : Running ℕ
ended = record {
  executor = record { worker_count = 1; queue = []; threads = 1; closed = true };
  live = 0;
  accepted = 7 ∷ [];
  handed = 7 ∷ [];
  inline = [];
}

ended-Reachable : Executor.Reachable 1 ended
unfolding new_executor submit close_executor
ended-Reachable =
    Executor.steps
      (Executor.steps
        (Executor.steps (Executor.steps (Executor.starts refl) (Executor.submits 7))
          Executor.closes)
        (Executor.works (some 7) (none ∷ []) (omega arith) refl))
      (Executor.works none [] (omega arith) refl)

Reachable-handed_example :
    ((waiting : List ℕ) × (ended.handed ++ waiting ≡ ended.accepted))
    × (ended.live ≡ 0 → ended.handed ≡ ended.accepted)
Reachable-handed_example = Reachable-handed 1 ended ended-Reachable
