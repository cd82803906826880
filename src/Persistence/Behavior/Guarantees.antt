-- ===== src/Persistence/Behavior/Guarantees.antt =====
-- What a durable actor of movie/persistence/behavior.py guarantees, while others use its store.
use movie.Common.{ℕ, suc, ◌≤◌, ◌≡◌, sym, ap, ◌∙◌, Bool, false, some, Eq}
use movie.Persistence.Errors.{returned}
use movie.Persistence.Model.{PersistenceId, Content, WriteResult}
use movie.Persistence.Store.Tables.{find_state, actual_revision}
use movie.Persistence.Store.Mutate.{Mutation, mutate}
use movie.Persistence.Behavior.Effect.{Application}
use movie.Persistence.Behavior.Actor.{running, write_request, content_state, recovered}
use movie.Persistence.Behavior.System.{Pair, is_stopped, Reachable}
use movie.Persistence.Behavior.Current.{Current, IsStable, write-loads}
use movie.Persistence.Behavior.Invariant.{
  Good, is_over, is_loading, is_loaded, is_running, is_writing, is_written,
}
use movie.Persistence.Behavior.Preserve.{Reachable-Good}

module _ {S C K F : Type 0} ⦃same : Eq F⦄ (fingerprint : Content → F) (slice : PersistenceId → ℕ)
    (max_state_bytes : ℕ) (app : Application S C K) (id : PersistenceId) where
  taken :
      (p : Pair S K F)
      → Good app id p.actor p.store
      → is_stopped p.actor.phase ≡ false
      → p.actor.suspended ≡ false
      → (p.actor.phase ≡ running)
        × ((state : S) × (p.actor.state ≡ some state)
            × Current app id p.store p.actor.revision state)
  taken p (is_over o) live takes = absurd (cc (o, live))
  taken p (is_loading d h s r i) live takes = absurd (cc (s, takes))
  taken p (is_loaded d result h s r i k) live takes = absurd (cc (s, takes))
  taken p (is_running state h s r i t c) live takes = (h, (state, t, c))
  taken p (is_writing m state q h s r i t e o x y c) live takes = absurd (cc (s, takes))
  taken p (is_written result q h s r i e k) live takes = absurd (cc (s, takes))

  abbrev pub IsSuccessor : Pair S K F → Bool → Mutation → Type 0
  IsSuccessor p expired m =
      (before : S) × (next : S) × (p.actor.state ≡ some before)
      × (recovered app (find_state id p.store.states) ≡ some (before, m.expected_revision))
      × (content_state app m.content ≡ some next)
      × (recovered app (find_state id (mutate fingerprint slice expired m p.store).1.states)
          ≡ some (next, suc m.expected_revision))

  replaced :
      (p : Pair S K F) (expired : Bool) (m : Mutation) (w : WriteResult)
      → IsStable app
      → Good app id p.actor p.store
      → is_stopped p.actor.phase ≡ false
      → p.actor.request ≡ some (write_request m)
      → (mutate fingerprint slice expired m p.store).0 ≡ returned w
      → w.duplicate ≡ false
      → IsSuccessor p expired m
  replaced p expired m w stable (is_over o) live sent returns first = absurd (cc (o, live))
  replaced p expired m w stable (is_loading d h s r i) live sent returns first =
      absurd (cc (r, sent))
  replaced p expired m w stable (is_loaded d result h s r i k) live sent returns first =
      absurd (cc (r, sent))
  replaced p expired m w stable (is_running state h s r i t c) live sent returns first =
      absurd (cc (r, sent))
  replaced p expired m w stable (is_written result q h s r i e k) live sent returns first =
      absurd (cc (r, sent))
  replaced p expired m w stable (is_writing n state q h s r i t e o x y (low, loads)) live sent
        returns first =
      let same_m : n ≡ m = cc (r, sent) in
      let own = ap (λ (n : Mutation). n.persistence_id) (sym same_m) ∙ o in
      let new = ap (λ (n : Mutation). content_state app n.content) (sym same_m) ∙ y in
      let at = ap (λ (n : Mutation). n.expected_revision) (sym same_m) ∙ x in
      let (current, next, _, now) =
        write-loads fingerprint slice app id expired m p.store w q.state stable own new returns
          first in
      (
        state,
        q.state,
        t,
        loads (current ∙ at) ∙ ap (λ n. some (state, n)) (sym at),
        new,
        now ∙ ap (λ n. some (q.state, n)) next,
      )

  -- Whatever the actor and the other users of the store have done, an actor that has not stopped and
  -- takes user messages is running, has a state, and stands at a revision that the store has reached.
  -- The codec writes down a state that it has read.
  pub Reachable-runs :
      (p : Pair S K F)
      → IsStable app
      → Reachable fingerprint slice max_state_bytes app id p
      → is_stopped p.actor.phase ≡ false
      → p.actor.suspended ≡ false
      → (p.actor.phase ≡ running)
        × (p.actor.revision ≤ actual_revision id p.store.states)
        × ((state : S) × (p.actor.state ≡ some state))
  Reachable-runs p stable reachable live takes =
      let good = Reachable-Good fingerprint slice max_state_bytes app id p stable reachable in
      let (runs, (state, has, (low, _))) = taken p good live takes in (runs, low, (state, has))

  -- An actor that has not stopped and takes user messages holds the state that a recovery from the store
  -- would give it, as long as the store stands at the actor's revision, whatever the actor and the other
  -- users of the store have done. The codec writes down a state that it has read.
  pub Reachable-recovers :
      (p : Pair S K F) (state : S)
      → IsStable app
      → Reachable fingerprint slice max_state_bytes app id p
      → is_stopped p.actor.phase ≡ false
      → p.actor.suspended ≡ false
      → p.actor.state ≡ some state
      → actual_revision id p.store.states ≡ p.actor.revision
      → recovered app (find_state id p.store.states) ≡ some (state, p.actor.revision)
  Reachable-recovers p state stable reachable live takes has there =
      let good = Reachable-Good fingerprint slice max_state_bytes app id p stable reachable in
      let (_, (held, has', (_, loads))) = taken p good live takes in
      let same_state : held ≡ state = cc (has, has') in
      loads there ∙ ap (λ s. some (s, p.actor.revision)) same_state

  -- No update is lost. When the store executes the write of an actor that has not stopped, and it is no
  -- duplicate, the state that the actor handled the command on is the one that the store holds at that
  -- moment, and the store then holds the content of the write as the next state, under the next revision.
  -- The codec writes down a state that it has read.
  pub write-replaces :
      (p : Pair S K F) (expired : Bool) (m : Mutation) (w : WriteResult)
      → IsStable app
      → Reachable fingerprint slice max_state_bytes app id p
      → is_stopped p.actor.phase ≡ false
      → p.actor.request ≡ some (write_request m)
      → (mutate fingerprint slice expired m p.store).0 ≡ returned w
      → w.duplicate ≡ false
      → IsSuccessor p expired m
  write-replaces p expired m w stable reachable live sent returns first =
      replaced p expired m w stable
        (Reachable-Good fingerprint slice max_state_bytes app id p stable reachable) live sent
        returns first
