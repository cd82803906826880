-- ===== src/Mailbox/Machine.antt =====
-- The threads of movie/mailbox/default.py: one step is one block under the lock, and the dispatcher,
-- the actor and the other threads are free to do anything between two of them.
use movie.Common.{ℕ, ◌≡◌, ◌≤◌, Bool, true, false, List, Option, none, some, length}
use movie.Mailbox.State.{Mailbox, new_mailbox, close, stop_user_messages}
use movie.Mailbox.Enqueue.{admit, roll_back}
use movie.Mailbox.Run.{
  Batch, begin_run, take_batch, restore_batch, check_more, take_inline, drop_in_flight,
  recover_failed, end_run,
}

-- Where the thread stands that runs the mailbox.
pub data Phase (M : Type 0) : Type 0 where
  -- no thread runs it
  idle : Phase M
  -- at the top of the loop of `_run_batch`
  choosing : Phase M
  -- inside `actor.invoke_batch`
  invoking : Batch M → Phase M
  -- behind `_restore_batch`
  checking : Phase M
  -- inside `dispatcher.dispatch`
  offering : Phase M
  -- behind a `dispatch` that has returned
  offered : Phase M
  -- in the handler of `except BaseException`
  failing : Phase M
  -- at the start of `_recover_after_failure`
  recovering : Phase M
  -- inside its `dispatch`
  republishing : Phase M
  -- inside its `dispatch_system`
  rescuing : Phase M
  -- before the last block of `__call__`
  ending : Phase M
  -- `dispatch_system` has raised out of `__call__`
  abandoned : Phase M

infix 6 ◌at◌
pub data Machine (M : Type 0) : Type 0 where
  ◌at◌ : Mailbox M → Phase M → Machine M

abbrev pub when : {M : Type 0} → Bool → Phase M → Phase M → Phase M
when true p q = p
when false p q = q

abbrev pub chosen : {M : Type 0} → Option (Batch M) → Phase M
chosen none = ending
chosen (some batch) = invoking batch

module _ {M : Type 0} where
  infix 3 ◌⟶◌
  pub data ◌⟶◌ : Machine M → Machine M → Type 0 where
    -- any thread
    admits :
        {b : Mailbox M} {p : Phase M} (user_message can_process : Bool) (message : M)
        → (b at p) ⟶ ((admit user_message can_process message b).1 at p)
    rolls_back :
        {b : Mailbox M} {p : Phase M} (user_message : Bool) (id : ℕ)
        → (b at p) ⟶ ((roll_back user_message id b).1 at p)
    closes : {b : Mailbox M} {p : Phase M} → (b at p) ⟶ (close b at p)
    stops : {b : Mailbox M} {p : Phase M} → (b at p) ⟶ ((stop_user_messages b).1 at p)
    -- `__call__`, by a thread that finds the mailbox idle or running
    begins : {b : Mailbox M} → (b at idle) ⟶ ((begin_run b).1 at when (begin_run b).0 choosing idle)
    requests : {b : Mailbox M} {p : Phase M} → b.running ≡ true → (b at p) ⟶ ((begin_run b).1 at p)
    -- `_run_batch`
    takes :
        {b : Mailbox M} (can_process : Bool)
        → (b at choosing) ⟶ ((take_batch can_process b).1 at chosen (take_batch can_process b).0)
    -- `invoke_batch` returns, or raises ActorBatchFailed, with the messages it has not processed,
    -- which are no more than it was given
    processes :
        {b : Mailbox M} {batch : Batch M} (remaining : List M)
        → length remaining ≤ length batch.messages
        → (b at invoking batch) ⟶ (restore_batch batch.system remaining b at checking)
    batch_fails :
        {b : Mailbox M} {batch : Batch M} (remaining : List M)
        → length remaining ≤ length batch.messages
        → (b at invoking batch) ⟶ (restore_batch batch.system remaining b at recovering)
    raises : {b : Mailbox M} {batch : Batch M} → (b at invoking batch) ⟶ (b at failing)
    checks :
        {b : Mailbox M} (can_process : Bool)
        → (b at checking)
          ⟶ ((check_more can_process b).1 at when (check_more can_process b).0 offering ending)
    offers : {b : Mailbox M} → (b at offering) ⟶ (b at offered)
    offer_refused : {b : Mailbox M} → (b at offering) ⟶ (b at choosing)
    offer_raises : {b : Mailbox M} → (b at offering) ⟶ (b at failing)
    ran_inline :
        {b : Mailbox M}
        → (b at offered) ⟶ ((take_inline b).1 at when (take_inline b).0 choosing ending)
    -- `_recover_after_failure`
    drops : {b : Mailbox M} → (b at failing) ⟶ (drop_in_flight b at recovering)
    recovers :
        {b : Mailbox M} (can_process : Bool)
        → (b at recovering)
          ⟶ ((check_more can_process b).1 at when (check_more can_process b).0 republishing ending)
    republishes : {b : Mailbox M} → (b at republishing) ⟶ (b at ending)
    republish_fails :
        {b : Mailbox M}
        → (b at republishing) ⟶ ((recover_failed b).1 at when (recover_failed b).0 rescuing ending)
    rescues : {b : Mailbox M} → (b at rescuing) ⟶ (b at ending)
    rescue_raises : {b : Mailbox M} → (b at rescuing) ⟶ (b at abandoned)
    -- the end of `__call__`
    ends : {b : Mailbox M} → (b at ending) ⟶ ((end_run b).1 at when (end_run b).0 choosing idle)

  -- What a mailbox can come to from its constructor.
  pub data Reachable (capacity throughput : ℕ) : Machine M → Type 0 where
    starts :
        {b : Mailbox M}
        → new_mailbox capacity throughput ≡ some b
        → Reachable capacity throughput (b at idle)
    steps :
        {s t : Machine M}
        → Reachable capacity throughput s
        → s ⟶ t
        → Reachable capacity throughput t
