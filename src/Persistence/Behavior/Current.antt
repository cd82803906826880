-- ===== src/Persistence/Behavior/Current.antt =====
-- What a durable actor of movie/persistence/behavior.py knows of the store.
use movie.Common.{
  ℕ, suc, ◌≤◌, ◌≡◌, sym, ap, ◌∙◌, subst, inl, inr, Bool, true, false, Option, none, some, Eq, arith,
  Option-cases,
}
use movie.Remoting.Text.Utf8.{Text, Bytes}
use movie.Persistence.Errors.{Attempt, returned}
use movie.Persistence.Model.{PersistenceId, Content, DurableStateRecord, WriteResult, same_id_iff}
use movie.Persistence.Store.Tables.{Database, find_state, actual_revision, revision_or_0}
use movie.Persistence.Store.Mutate.{Mutation, mutate}
use movie.Persistence.Store.History.{written, mutate-returned}
use movie.Persistence.Store.Load.{load, load-returned}
use movie.Persistence.Store.Revisions.{IsNext}
use movie.Persistence.Behavior.Effect.{Application, copy_state}
use movie.Persistence.Behavior.Actor.{content_state, recovered}

module _ {S C K : Type 0} (app : Application S C K) where
  recovered_revision :
      (found : Option DurableStateRecord) (state : S) (revision : ℕ)
      → recovered app found ≡ some (state, revision)
      → revision_or_0 found ≡ revision
  unfolding recovered
  recovered_revision none state revision h =
      ground (arith, h, Option-cases (copy_state app app.empty_state))
  recovered_revision (some r) state revision h = elim (Option-cases r.content) [
    | inl deleted ↦ ground (arith, h, deleted, Option-cases (copy_state app app.empty_state))
    | inr (e, kept) ↦ elim (Option-cases (app.decode e)) [
      | inl bad ↦ absurd (ground (arith, h, kept, bad))
      | inr (read, decoded) ↦ ground (arith, h, kept, decoded, Option-cases (copy_state app read))
    ]
  ]

  -- The codec writes down a state that it has read.
  abbrev pub IsStable : Type 0
  IsStable =
      (e : Text × Bytes) (state : S) → app.decode e ≡ some state → copy_state app state ≡ some state

  recovered-content :
      (r : DurableStateRecord) (state : S)
      → IsStable
      → content_state app r.content ≡ some state
      → recovered app (some r) ≡ some (state, r.revision)
  unfolding recovered content_state
  recovered-content r state stable h = elim (Option-cases r.content) [
    | inl deleted ↦ ground (arith, deleted, h)
    | inr (e, kept) ↦ ground (arith, kept, h, stable e state)
  ]

module _ {S C K F : Type 0} (app : Application S C K) (id : PersistenceId) where
  -- The store has reached the revision, and while it stands there, a recovery loads the state.
  abbrev pub Current : Database F → ℕ → S → Type 0
  Current db revision state =
      (revision ≤ actual_revision id db.states)
      × (actual_revision id db.states ≡ revision
          → recovered app (find_state id db.states) ≡ some (state, revision))

  pub Current-next :
      (db db' : Database F) (revision : ℕ) (state : S)
      → IsNext id db db'
      → Current db revision state
      → Current db' revision state
  Current-next db db' revision state (inl e) (low, loads) = (
    ground (arith, low, e),
    λ same. ap (recovered app) e ∙ loads (ap revision_or_0 (sym e) ∙ same),
  )
  Current-next db db' revision state (inr e) (low, loads) =
      (omega (arith, low, e), λ same. absurd (omega (arith, low, e, same)))

  -- What a load returns.
  pub load-Current :
      (max_state_bytes : ℕ) (expired : Bool) (db : Database F) (found : Option DurableStateRecord)
      → (state : S) (revision : ℕ) → load max_state_bytes expired id db ≡ returned found
      → recovered app found ≡ some (state, revision)
      → Current db revision state
  load-Current max_state_bytes expired db found state revision h r =
      let same = load-returned max_state_bytes expired id db found h in
      (
        omega (arith, ap revision_or_0 same, recovered_revision app found state revision r),
        λ e. ap (recovered app) (sym same) ∙ r,
      )

module _ {S C K F : Type 0} ⦃same : Eq F⦄ (fingerprint : Content → F) (slice : PersistenceId → ℕ)
    (app : Application S C K) (id : PersistenceId) where
  -- What a write that is no duplicate leaves in the store.
  pub write-loads :
      (expired : Bool) (m : Mutation) (db : Database F) (w : WriteResult) (candidate : S)
      → IsStable app
      → m.persistence_id ≡ id
      → content_state app m.content ≡ some candidate
      → (mutate fingerprint slice expired m db).0 ≡ returned w
      → w.duplicate ≡ false
      → (actual_revision id db.states ≡ m.expected_revision)
        × (w.revision ≡ suc m.expected_revision)
        × (actual_revision id (mutate fingerprint slice expired m db).1.states ≡ w.revision)
        × (recovered app (find_state id (mutate fingerprint slice expired m db).1.states)
            ≡ some (candidate, w.revision))
  unfolding mutate
  write-loads true m db w candidate stable own new h first = absurd (cc h)
  write-loads false m db w candidate stable own new h first =
      elim (mutate-returned fingerprint slice m db (mutate fingerprint slice false m db).1 w
        (ap (λ (r : Attempt WriteResult). (r, (mutate fingerprint slice false m db).1)) h)) [
          | inl (again, _, _) ↦ absurd (cc (again, first))
          | inr (_, current, next, loads) ↦
              let found : find_state id (mutate fingerprint slice false m db).1.states
                  ≡ some (written fingerprint slice m w.revision) =
                loads id ∙ ground (arith, own, same_id_iff m.persistence_id id) in
              (
                subst (λ i. actual_revision i db.states ≡ m.expected_revision) own current,
                next,
                ap revision_or_0 found,
                ap (recovered app) found
                    ∙ recovered-content app (written fingerprint slice m w.revision) candidate
                        stable new,
              )
        ]
