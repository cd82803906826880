-- ===== src/Persistence/Behavior/System.antt =====
-- A durable actor of movie/persistence/behavior.py together with the store that it and others write to.
use movie.Common.{ℕ, ◌≡◌, Bool, true, false, none, some, Eq}
use movie.Persistence.Model.{PersistenceId, Content}
use movie.Persistence.Store.Tables.{Database}
use movie.Persistence.Store.Mutate.{Mutation, mutate}
use movie.Persistence.Store.Load.{load}
use movie.Persistence.Store.Log
use movie.Persistence.Behavior.Effect.{Application}
use movie.Persistence.Behavior.Actor.{
  DurableActor, Phase, load_request, write_request, Completion, recovery_completed, write_completed,
  durable_state_behavior, post_stop, receive, deliver,
}

pub record Pair (S K F : Type 0) : Type 0 where
  pub actor : DurableActor S K
  pub store : Database F

abbrev pub is_stopped : Phase → Bool
is_stopped Phase.stopping = true
is_stopped _ = false

module _ {S C K F : Type 0} ⦃same : Eq F⦄ (fingerprint : Content → F) (slice : PersistenceId → ℕ)
    (max_state_bytes : ℕ) (app : Application S C K) (id : PersistenceId) where
  -- The mailbox gives the actor no message after it has stopped, and no user message while they are
  -- suspended. The store executes a request at some later time, in one transaction, and the callback of
  -- the future puts the completion into the mailbox. Between any of these, others use the store.
  infix 3 ◌⟶◌
  pub data ◌⟶◌ : Pair S K F → Pair S K F → Type 0 where
    receives :
        {p : Pair S K F} (accepted : Bool) (now : ℕ) (command : C)
        → is_stopped p.actor.phase ≡ false
        → p.actor.suspended ≡ false
        → p ⟶ record p { actor = receive app id accepted now command p.actor }
    loads :
        {p : Pair S K F} (expired duplicate : Bool)
        → p.actor.request ≡ some (load_request duplicate)
        → p ⟶ record p {
          actor = record p.actor {
            request = none;
            inbox = some (recovery_completed (load max_state_bytes expired id p.store) duplicate);
          };
        }
    writes :
        {p : Pair S K F} (expired : Bool) (m : Mutation)
        → p.actor.request ≡ some (write_request m)
        → p ⟶ (record {
          actor = record p.actor {
            request = none;
            inbox = some (write_completed (mutate fingerprint slice expired m p.store).0);
          };
          store = (mutate fingerprint slice expired m p.store).1;
        })
    delivers :
        {p : Pair S K F} (accepted : Bool) (completion : Completion)
        → is_stopped p.actor.phase ≡ false
        → p.actor.inbox ≡ some completion
        → p ⟶ record p { actor = deliver app accepted completion p.actor }
    stops : {p : Pair S K F} → p ⟶ record p { actor = post_stop p.actor }
    others :
        {p : Pair S K F} (store : Database F)
        → Log.◌⟶◌ fingerprint slice p.store store
        → p ⟶ record p { store = store }

  -- Reached from a store in any state.
  pub data Reachable : Pair S K F → Type 0 where
    created :
        (accepted : Bool) (store : Database F)
        → Reachable (record { actor = durable_state_behavior accepted; store = store })
    step : {p p' : Pair S K F} → Reachable p → p ⟶ p' → Reachable p'
