-- ===== src/Future/State.antt =====
-- `RuntimeFuture` of movie/future.py. Each block under `with self._condition` is one function of the
-- state. Its base class is `concurrent.futures.Future` of the standard library, of which the model
-- has `set_running_or_notify_cancel` and the two methods that settle a future.
use movie.Common.{
  not, ◌&&◌, ◌||◌, Bool, true, false, List, [], ◌∷◌, ◌++◌, Option, none, some, is_empty,
  if◌then◌else◌,
}

-- `_state` of the base class
pub data FutureState : Type 0 where
  pending running cancelled cancelled_and_notified finished : FutureState

-- `self._state in (CANCELLED, CANCELLED_AND_NOTIFIED)`
abbrev pub is_cancelled : FutureState → Bool
is_cancelled FutureState.cancelled = true
is_cancelled FutureState.cancelled_and_notified = true
is_cancelled _ = false

-- `self._state in (RUNNING, FINISHED)`
abbrev pub is_taken : FutureState → Bool
is_taken FutureState.running = true
is_taken FutureState.finished = true
is_taken _ = false

-- `self._state in (CANCELLED, CANCELLED_AND_NOTIFIED, FINISHED)`
abbrev pub is_settled : FutureState → Bool
is_settled FutureState.finished = true
is_settled s = is_cancelled s

abbrev pub is_pending : FutureState → Bool
is_pending FutureState.pending = true
is_pending _ = false

-- A future of values `V`, whose callbacks and cancellation hooks are `C` and `H`.
pub record RuntimeFuture (V C H : Type 0) : Type 0 where
  pub state : FutureState
  pub outcome : Option V
  pub cancellable : Bool
  pub bound : Bool
  pub cancel_hook : Option H
  pub done_callbacks : List C
  pub internal_callbacks : List C
  pub pending_callbacks : List C
  pub callbacks_started : Bool
  pub callback_draining : Bool

-- What a call of `cancel` finds.
pub data Cancellation (H : Type 0) : Type 0 where
  refused already_cancelled : Cancellation H
  -- the hook that has to be called
  cancels : Option H → Cancellation H

abbrev has_hook : {H : Type 0} → Option H → Bool
has_hook none = false
has_hook (some _) = true

module _ {V C H : Type 0} where
  -- `__init__`, with whether a submit function is given
  unfoldable pub new_future : Bool → Bool → RuntimeFuture V C H
  new_future cancellable bound = record {
    state = FutureState.pending;
    outcome = none;
    cancellable = cancellable;
    bound = bound;
    cancel_hook = none;
    done_callbacks = [];
    internal_callbacks = [];
    pending_callbacks = [];
    callbacks_started = false;
    callback_draining = false;
  }

  -- `none` is RuntimeError.
  unfoldable pub bind_callback_submit :
      Option H → RuntimeFuture V C H → Option (RuntimeFuture V C H)
  bind_callback_submit hook f =
      if f.bound || not (is_pending f.state)
      then none
      else some (record f { cancel_hook = hook; bound = true })

  -- Whether the hook has to be called at once; `none` is RuntimeError.
  unfoldable pub set_cancel_hook : H → RuntimeFuture V C H → Option (Bool × RuntimeFuture V C H)
  set_cancel_hook hook f =
      if has_hook f.cancel_hook
      then none
      else some (is_cancelled f.state, record f { cancel_hook = some hook })

  -- The block of `cancel`.
  unfoldable pub cancel : RuntimeFuture V C H → Cancellation H × RuntimeFuture V C H
  cancel f =
      if not f.cancellable
      then (Cancellation.refused, f)
      else if is_taken f.state
      then (Cancellation.refused, f)
      else if is_cancelled f.state
      then (Cancellation.already_cancelled, f)
      else (Cancellation.cancels f.cancel_hook, record f { state = FutureState.cancelled })

  -- The test of both methods that add a callback: it is kept for `_invoke_callbacks`.
  abbrev pub is_kept : RuntimeFuture V C H → Bool
  is_kept f = not (is_settled f.state) || not f.callbacks_started

  -- `add_done_callback`: whether `_drain_user_callbacks` has to be submitted.
  unfoldable pub add_done_callback : C → RuntimeFuture V C H → Bool × RuntimeFuture V C H
  add_done_callback fn f =
      if is_kept f then (false, record f { done_callbacks = f.done_callbacks ++ (fn ∷ []) }) else (
        not f.callback_draining,
        record f { pending_callbacks = f.pending_callbacks ++ (fn ∷ []); callback_draining = true },
      )

  -- `add_internal_done_callback`: whether the callback has to be run at once.
  unfoldable pub add_internal_done_callback : C → RuntimeFuture V C H → Bool × RuntimeFuture V C H
  add_internal_done_callback fn f =
      if is_kept f
      then (false, record f { internal_callbacks = f.internal_callbacks ++ (fn ∷ []) })
      else (true, f)

  -- The block of `_invoke_callbacks`: the internal callbacks to run, and whether the drain has to be
  -- submitted; `none` when another call was first.
  unfoldable pub invoke_callbacks :
      RuntimeFuture V C H → Option (List C × Bool) × RuntimeFuture V C H
  invoke_callbacks f =
      if f.callbacks_started
      then (none, f)
      else let waiting = f.pending_callbacks ++ f.done_callbacks in
        let start = not (is_empty waiting) && not f.callback_draining in
        (
          some (f.internal_callbacks, start),
          record f {
            callbacks_started = true;
            pending_callbacks = waiting;
            callback_draining = start || f.callback_draining;
          },
        )

  abbrev next_callback : List C → RuntimeFuture V C H → Option C × RuntimeFuture V C H
  next_callback [] f = (none, record f { callback_draining = false })
  next_callback (c ∷ rest) f = (some c, record f { pending_callbacks = rest })

  -- The block of the loop of `_drain_user_callbacks`: the callback to run, or none when it returns.
  unfoldable pub drain_block : RuntimeFuture V C H → Option C × RuntimeFuture V C H
  drain_block f = next_callback f.pending_callbacks f

  -- `set_running_or_notify_cancel`, `none` where it raises
  unfoldable pub set_running : RuntimeFuture V C H → Option (Bool × RuntimeFuture V C H)
  set_running f = elim f.state [
    | FutureState.pending ↦ some (true, record f { state = FutureState.running })
    | FutureState.cancelled ↦ some (false, record f { state = FutureState.cancelled_and_notified })
    | _ ↦ none
  ]

  -- `set_result` and `set_exception` up to `_invoke_callbacks`; `none` is InvalidStateError.
  unfoldable pub settle : V → RuntimeFuture V C H → Option (RuntimeFuture V C H)
  settle v f =
      if is_settled f.state
      then none
      else some (record f { state = FutureState.finished; outcome = some v })
