-- ===== src/Persistence/Behavior/Actor.antt =====
-- `DurableStateBehavior` of movie/persistence/behavior.py. A method that raises fails the actor, which
-- `actor_failed` stops.
use movie.Common.{
  ℕ, ◌+◌, Bool, true, false, not, List, [], ◌∷◌, ◌++◌, Option, none, some, eqb, if◌then◌else◌,
}
use movie.Persistence.Errors.{Attempt, returned, raised}
use movie.Persistence.Model.{PersistenceId, Content, DurableStateRecord, WriteResult}
use movie.Persistence.Store.Mutate.{Mutation}
use movie.Persistence.Behavior.Effect.{
  EffectKind, none_kind, persist_kind, delete_kind, DurableEffect, Application, ◌>>?◌, copy_state,
}

-- `_Phase`
pub data Phase : Type 0 where
  recovering running persisting stopping : Phase

pub data Failure : Type 0 where
  recovery_failed persist_failed no_pending_effect not_recovered command_failed callback_failed
        hook_failed :
      Failure

-- The call of the store whose future the actor waits for.
pub data Request : Type 0 where
  load_request : Bool → Request
  write_request : Mutation → Request

-- The control message of a completion: `_RecoveryCompleted` or `_WriteCompleted`.
pub data Completion : Type 0 where
  recovery_completed : Attempt (Option DurableStateRecord) → Bool → Completion
  write_completed : Attempt WriteResult → Completion

-- `_PendingEffect`
pub record PendingEffect (S K : Type 0) : Type 0 where
  pub state : S
  pub callbacks : List K
  pub stop : Bool

pub record DurableActor (S K : Type 0) : Type 0 where
  pub phase : Phase
  pub revision : ℕ
  -- none before the recovery
  pub state : Option S
  pub pending : Option (PendingEffect S K)
  -- whether user messages are suspended
  pub suspended : Bool
  pub request : Option Request
  -- the control message in the mailbox
  pub inbox : Option Completion
  -- the callbacks that have run
  pub ran : List (K × S)
  pub stop_sent : Bool
  pub failure : Option Failure

module _ {S K : Type 0} where
  -- An exception that leaves the behavior, and `actor_failed`.
  abbrev pub failed : Failure → DurableActor S K → DurableActor S K
  failed f a = record a { phase = Phase.stopping; failure = some f }

  -- `_request_stop`
  abbrev pub request_stop : DurableActor S K → DurableActor S K
  request_stop a = record a { phase = Phase.stopping; suspended = true; stop_sent = true }

  -- `on_signal` of a PostStop
  abbrev pub post_stop : DurableActor S K → DurableActor S K
  post_stop a = record a { phase = Phase.stopping }

  -- `_begin_recovery`, with whether `load` returns a future.
  abbrev pub begin_recovery : Bool → Bool → DurableActor S K → DurableActor S K
  begin_recovery accepted duplicate a =
      if accepted
      then record a { phase = Phase.recovering; request = some (load_request duplicate) }
      else failed Failure.recovery_failed a

  abbrev new_actor : DurableActor S K
  new_actor = record {
    phase = Phase.recovering;
    revision = 0;
    state = none;
    pending = none;
    suspended = true;
    request = none;
    inbox = none;
    ran = [];
    stop_sent = false;
    failure = none;
  }

  -- `DurableStateBehavior(...)`
  abbrev pub durable_state_behavior : Bool → DurableActor S K
  durable_state_behavior accepted = begin_recovery accepted false new_actor

module _ {S C K : Type 0} (app : Application S C K) where
  -- The candidate of a write, which is also what a recovery reads of the content.
  unfoldable pub content_state : Content → Option S
  content_state none = copy_state app app.empty_state
  content_state (some e) = app.decode e

  -- The state and the revision of `_complete_recovery`.
  unfoldable pub recovered : Option DurableStateRecord → Option (S × ℕ)
  recovered none = copy_state app app.empty_state >>? λ (s : S). some (s, 0)
  recovered (some r) = elim r.content [
    | none ↦ copy_state app app.empty_state >>? λ (s : S). some (s, r.revision)
    | some e ↦ app.decode e >>? λ (s : S). copy_state app s >>? λ (t : S). some (t, r.revision)
  ]

  -- `_run_callbacks`: those that ran, and whether they all returned.
  unfoldable pub run_callbacks : List K → S → List (K × S) × Bool
  run_callbacks [] state = ([], true)
  run_callbacks (k ∷ ks) state =
      let rest = run_callbacks ks state in
      elim (copy_state app state) [
        | none ↦ ([], false)
        | some copy ↦
            if app.callback k copy then ((k, copy) ∷ rest.0, rest.1) else ((k, copy) ∷ [], false)
      ]

  -- The callbacks, then `then` if they all return.
  abbrev pub with_callbacks :
      List K → S → DurableActor S K → (DurableActor S K → DurableActor S K) → DurableActor S K
  with_callbacks callbacks state a next =
      let (ran, ok) = run_callbacks callbacks state in
      let a' = record a { ran = a.ran ++ ran } in
      if ok then next a' else failed Failure.callback_failed a'

  -- `_finish_pending_effect`
  abbrev pub finish : PendingEffect S K → S → DurableActor S K → DurableActor S K
  finish p state a =
      with_callbacks p.callbacks state
        (record a { pending = none; state = some state; phase = Phase.running })
        (λ (b : DurableActor S K).
          if p.stop then request_stop b else record b { suspended = false })

  -- With the candidate applied.
  abbrev pub finish_applied : Option (PendingEffect S K) → DurableActor S K → DurableActor S K
  finish_applied none a = failed Failure.no_pending_effect a
  finish_applied (some p) a = finish p p.state a

  -- With the state that was recovered.
  abbrev pub finish_recovered : Option (PendingEffect S K) → S → DurableActor S K → DurableActor S K
  finish_recovered none state a = failed Failure.no_pending_effect a
  finish_recovered (some p) state a = finish p state a

  abbrev pub after_recovery : Bool → Option (S × ℕ) → DurableActor S K → DurableActor S K
  after_recovery duplicate none a = failed Failure.recovery_failed a
  after_recovery duplicate (some (state, revision)) a =
      let b = record a { state = some state; revision = revision } in
      elim (copy_state app state) [
        | none ↦ failed Failure.hook_failed b
        | some copy ↦
            if app.on_recovery_completed copy revision
            then (if duplicate
                then finish_recovered b.pending state b
                else record b { phase = Phase.running; suspended = false })
            else failed Failure.hook_failed b
      ]

  -- `_complete_recovery`
  unfoldable pub complete_recovery :
      Attempt (Option DurableStateRecord) → Bool → DurableActor S K → DurableActor S K
  complete_recovery (raised e) duplicate a = failed Failure.recovery_failed a
  complete_recovery (returned found) duplicate a = after_recovery duplicate (recovered found) a

  -- `_complete_write`, with whether `load` returns a future.
  unfoldable pub complete_write : Bool → Attempt WriteResult → DurableActor S K → DurableActor S K
  complete_write accepted (raised e) a = failed Failure.persist_failed a
  complete_write accepted (returned w) a =
      if w.duplicate
      then begin_recovery accepted true a
      else if not (eqb w.revision (a.revision + 1))
      then failed Failure.persist_failed a
      else finish_applied a.pending (record a { revision = w.revision })

  -- The part of `_process_command` that writes, with the content of the new state, whether the store
  -- returns a future, and the time at which it writes.
  abbrev pub submit_write :
      PersistenceId
      → Bool
      → ℕ
      → ℕ
      → DurableEffect S K
      → Content
      → DurableActor S K
      → DurableActor S K
  submit_write id accepted now operation_id effect content a = elim (content_state content) [
    | none ↦ failed Failure.persist_failed a
    | some candidate ↦
        let b = record a {
          pending =
              some (record { state = candidate; callbacks = effect.callbacks; stop = effect.stop });
          phase = Phase.persisting;
          suspended = true;
        } in
        if accepted
        then record b {
          request = some (
              write_request (record {
                persistence_id = id;
                expected_revision = a.revision;
                operation_id = operation_id;
                content = content;
                now = now;
              }));
        }
        else failed Failure.persist_failed b
  ]

  abbrev pub run_effect :
      PersistenceId
      → Bool
      → ℕ
      → EffectKind S
      → DurableEffect S K
      → S
      → DurableActor S K
      → DurableActor S K
  run_effect id accepted now none_kind effect state a =
      with_callbacks effect.callbacks state a
        (λ (b : DurableActor S K). if effect.stop then request_stop b else b)
  run_effect id accepted now (persist_kind new operation_id) effect state a =
      elim (app.encode new) [
        | none ↦ failed Failure.persist_failed a
        | some encoded ↦ submit_write id accepted now operation_id effect (some encoded) a
      ]
  run_effect id accepted now (delete_kind operation_id) effect state a =
      submit_write id accepted now operation_id effect none a

  -- `_process_command`
  abbrev pub process_command :
      PersistenceId → Bool → ℕ → C → Option S → DurableActor S K → DurableActor S K
  process_command id accepted now command none a = failed Failure.command_failed a
  process_command id accepted now command (some state) a =
      elim (copy_state app state >>? λ (copy : S). app.handle_command copy command) [
        | none ↦ failed Failure.command_failed a
        | some effect ↦ run_effect id accepted now effect.kind effect state a
      ]

  -- `receive`
  unfoldable pub receive : PersistenceId → Bool → ℕ → C → DurableActor S K → DurableActor S K
  receive id accepted now command a = elim a.phase [
    | Phase.running ↦ process_command id accepted now command a.state a
    | _ ↦ failed Failure.not_recovered a
  ]

  -- `deliver` of a control message, which has left the mailbox.
  abbrev pub deliver : Bool → Completion → DurableActor S K → DurableActor S K
  deliver accepted (recovery_completed result duplicate) a =
      complete_recovery result duplicate (record a { inbox = none })
  deliver accepted (write_completed result) a =
      complete_write accepted result (record a { inbox = none })
