-- ===== src/Persistence/Store/Revisions.antt =====
-- The revision of an identity, and what it loads, across a transaction.
use movie.Common.{
  ℕ, suc, ◌≡◌, refl, sym, ap, subst, ◌⊎◌, inl, inr, Bool, Option, none, some, Eq, arith, Bool-cases,
  Option-cases,
}
use movie.Remoting.Text.Utf8.{Text}
use movie.Persistence.Model.{PersistenceId, Content, same_id, same_id_iff}
use movie.Persistence.Store.Tables.{Database, ProjectionRow, find_state, put_state, actual_revision}
use movie.Persistence.Store.Mutate.{Mutation, mutate, commit}
use movie.Persistence.Store.History.{written, find_state-put_state}
use movie.Persistence.Store.Projection.{
  projection_register, projection_save_offset, projection_commit, compact_changes, min_offset,
  retire_projection,
}
use movie.Persistence.Store.Log.{◌⟶◌, mutated, registered, saved, committed, compacted, retired}
use movie.Persistence.Store.Preserve.{mutate-tables}

-- An identity loads what it did, or its revision is one more.
abbrev pub IsNext : {F : Type 0} → PersistenceId → Database F → Database F → Type 0
IsNext id db db' =
    (find_state id db'.states ≡ find_state id db.states)
    ⊎ (actual_revision id db'.states ≡ suc (actual_revision id db.states))

module _ {F : Type 0} where
  register-IsNext :
      (id : PersistenceId) (initial : Option ℕ) (row : ProjectionRow) (db : Database F)
      → IsNext id db (projection_register initial row db).1
  unfolding projection_register
  register-IsNext id none row db = inl (ground arith)
  register-IsNext id (some n) row db = inl (ground arith)

  save-IsNext :
      (id : PersistenceId) (name key : Text) (expected new : ℕ) (db : Database F)
      → IsNext id db (projection_save_offset name key expected new db).1
  unfolding projection_save_offset
  save-IsNext id name key expected new db = inl (ground arith)

  commit_offset-IsNext :
      (id : PersistenceId) (name key : Text) (expected new : ℕ) (applies : Bool) (db : Database F)
      → IsNext id db (projection_commit name key expected new applies db).1
  unfolding projection_commit
  commit_offset-IsNext id name key expected new applies db = inl (ground arith)

  compact-IsNext :
      (id : PersistenceId) (limit : ℕ) (db : Database F) → IsNext id db (compact_changes limit db).1
  unfolding compact_changes
  compact-IsNext id limit db = elim (Option-cases (min_offset db.projections)) [
    | inl empty ↦ inl (ground (arith, empty))
    | inr (n, found) ↦ inl (ground (arith, found))
  ]

module _ {F : Type 0} ⦃same : Eq F⦄ (fingerprint : Content → F) (slice : PersistenceId → ℕ) where
  pub commit_states :
      (m : Mutation) (revision : ℕ) (db : Database F)
      → (commit fingerprint slice m revision db).states
        ≡ put_state (written fingerprint slice m revision) db.states
  unfolding commit
  commit_states m revision db = refl

  commit-IsNext :
      (id : PersistenceId) (m : Mutation) (db : Database F)
      → IsNext id db
          (commit fingerprint slice m (suc (actual_revision m.persistence_id db.states)) db)
  unfolding commit
  commit-IsNext id m db =
      let put =
        find_state-put_state id
          (written fingerprint slice m (suc (actual_revision m.persistence_id db.states)))
          db.states in
      elim (Bool-cases (same_id m.persistence_id id)) [
        | inr other ↦ inl (ground (arith, put, other))
        | inl own ↦ inr (ground (arith, put, own, same_id_iff m.persistence_id id))
      ]

  pub mutate-IsNext :
      (id : PersistenceId) (expired : Bool) (m : Mutation) (db : Database F)
      → IsNext id db (mutate fingerprint slice expired m db).1
  mutate-IsNext id expired m db = elim (mutate-tables fingerprint slice expired m db) [
    | inl e ↦ inl (ap (λ (d : Database F). find_state id d.states) e)
    | inr e ↦ subst (IsNext id db) (sym e) (commit-IsNext id m db)
  ]

  pub step-IsNext :
      (id : PersistenceId) (db db' : Database F) → ◌⟶◌ fingerprint slice db db' → IsNext id db db'
  unfolding retire_projection
  step-IsNext id db _ (mutated expired m) = mutate-IsNext id expired m db
  step-IsNext id db _ (registered initial row) = register-IsNext id initial row db
  step-IsNext id db _ (saved name key expected new l) = save-IsNext id name key expected new db
  step-IsNext id db _ (committed name key expected new applies l) =
      commit_offset-IsNext id name key expected new applies db
  step-IsNext id db _ (compacted limit) = compact-IsNext id limit db
  step-IsNext id db _ (retired name key) = inl refl
