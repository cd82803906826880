-- ===== src/Future/Machine.antt =====
-- The threads that share a future of movie/future.py: one step is one block under its condition. The
-- history says which callbacks were registered and which were handed to a thread to be run.
use movie.Common.{ℕ, suc, ◌-◌, ◌<◌, ◌≡◌, Bool, true, false, List, [], ◌∷◌, ◌++◌, Option, none, some}
use movie.Future.State.{
  RuntimeFuture, new_future, bind_callback_submit, set_cancel_hook, cancel, add_done_callback,
  add_internal_done_callback, invoke_callbacks, drain_block, set_running, settle, is_settled,
}

pub record Shared (V C H : Type 0) : Type 0 where
  pub future : RuntimeFuture V C H
  -- how many drains of the user callbacks are submitted or run
  pub runners : ℕ
  pub registered : List C
  pub ran : List C
  pub registered_internal : List C
  pub ran_internal : List C

abbrev pub submit_if : Bool → ℕ → ℕ
submit_if true n = suc n
submit_if false n = n

abbrev pub run_if : {C : Type 0} → Bool → C → List C → List C
run_if true c cs = cs ++ (c ∷ [])
run_if false c cs = cs

module _ {V C H : Type 0} where
  -- The effect of `_invoke_callbacks` on the threads.
  abbrev pub invoked : Option (List C × Bool) × RuntimeFuture V C H → Shared V C H → Shared V C H
  invoked (none, f) s = record s { future = f }
  invoked (some (internal, start), f) s = record s {
    future = f;
    runners = submit_if start s.runners;
    ran_internal = s.ran_internal ++ internal;
  }

  abbrev pub drained : Option C × RuntimeFuture V C H → Shared V C H → Shared V C H
  drained (none, f) s = record s { future = f; runners = s.runners - 1 }
  drained (some c, f) s = record s { future = f; ran = s.ran ++ (c ∷ []) }

  infix 3 ◌⟶◌
  pub data ◌⟶◌ (s : Shared V C H) : Shared V C H → Type 0 where
    binds :
        (hook : Option H) {f : RuntimeFuture V C H}
        → bind_callback_submit hook s.future ≡ some f
        → s ⟶ record s { future = f }
    sets_hook :
        (hook : H) {now : Bool} {f : RuntimeFuture V C H}
        → set_cancel_hook hook s.future ≡ some (now, f)
        → s ⟶ record s { future = f }
    cancels : s ⟶ record s { future = (cancel s.future).1 }
    starts_work :
        {now : Bool} {f : RuntimeFuture V C H}
        → set_running s.future ≡ some (now, f)
        → s ⟶ record s { future = f }
    settles :
        (v : V) {f : RuntimeFuture V C H} → settle v s.future ≡ some f → s ⟶ record s { future = f }
    adds :
        (fn : C)
        → s ⟶ record s {
          future = (add_done_callback fn s.future).1;
          runners = submit_if (add_done_callback fn s.future).0 s.runners;
          registered = s.registered ++ (fn ∷ []);
        }
    adds_internal :
        (fn : C)
        → s ⟶ record s {
          future = (add_internal_done_callback fn s.future).1;
          registered_internal = s.registered_internal ++ (fn ∷ []);
          ran_internal = run_if (add_internal_done_callback fn s.future).0 fn s.ran_internal;
        }
    -- only the threads that have cancelled or settled the future call it
    invokes : is_settled s.future.state ≡ true → s ⟶ invoked (invoke_callbacks s.future) s
    -- the block of any of the drains
    drains : 0 < s.runners → s ⟶ drained (drain_block s.future) s

  abbrev pub fresh : Bool → Bool → Shared V C H
  fresh cancellable bound = record {
    future = new_future cancellable bound;
    runners = 0;
    registered = [];
    ran = [];
    registered_internal = [];
    ran_internal = [];
  }

  pub data Reachable (cancellable bound : Bool) : Shared V C H → Type 0 where
    starts : Reachable cancellable bound (fresh cancellable bound)
    steps :
        {s t : Shared V C H} → Reachable cancellable bound s → s ⟶ t → Reachable cancellable bound t
