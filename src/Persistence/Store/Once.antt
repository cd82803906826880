-- ===== src/Persistence/Store/Once.antt =====
-- The operations that the store remembers: a write that is repeated.
use movie.Common.{
  ℕ, suc, ◌≡◌, refl, ap, ◌∙◌, inl, inr, Bool, true, false, Option, none, some, Eq, arith,
  Option-cases,
}
use movie.Remoting.Text.Utf8.{Text}
use movie.Persistence.Errors.{returned}
use movie.Persistence.Model.{PersistenceId, Content, WriteResult}
use movie.Persistence.Store.Tables.{Database, OperationRow, ProjectionRow, find_operation}
use movie.Persistence.Store.Mutate.{Mutation, operation_row, mutate, commit}
use movie.Persistence.Store.History.{find_operation-append, find_operation-append_new}
use movie.Persistence.Store.Projection.{
  projection_register, projection_save_offset, projection_commit, compact_changes, min_offset,
  retire_projection,
}
use movie.Persistence.Store.Log.{
  ◌⟶◌, mutated, registered, saved, committed, compacted, retired, Steps, none_yet, and_then,
}
use movie.Persistence.Store.Preserve.{mutate-tables}

module _ {F : Type 0} where
  register_operations :
      (initial : Option ℕ) (row : ProjectionRow) (db : Database F)
      → (projection_register initial row db).1.operations ≡ db.operations
  unfolding projection_register
  register_operations none row db = ground arith
  register_operations (some n) row db = ground arith

  save_operations :
      (name key : Text) (expected new : ℕ) (db : Database F)
      → (projection_save_offset name key expected new db).1.operations ≡ db.operations
  unfolding projection_save_offset
  save_operations name key expected new db = ground arith

  commit_offset_operations :
      (name key : Text) (expected new : ℕ) (applies : Bool) (db : Database F)
      → (projection_commit name key expected new applies db).1.operations ≡ db.operations
  unfolding projection_commit
  commit_offset_operations name key expected new applies db = ground arith

  compact_operations :
      (limit : ℕ) (db : Database F) → (compact_changes limit db).1.operations ≡ db.operations
  unfolding compact_changes
  compact_operations limit db = elim (Option-cases (min_offset db.projections)) [
    | inl empty ↦ ground (arith, empty)
    | inr (n, found) ↦ ground (arith, found)
  ]

  retire_operations :
      (name key : Text) (db : Database F)
      → (retire_projection name key db).1.operations ≡ db.operations
  unfolding retire_projection
  retire_operations name key db = refl

module _ {F : Type 0} ⦃same : Eq F⦄ (fingerprint : Content → F) (slice : PersistenceId → ℕ) where
  mutate_remembers :
      (expired : Bool) (m : Mutation) (db : Database F) (id : PersistenceId) (op : ℕ)
      (row : OperationRow F)
      → find_operation id op db.operations ≡ some row
      → find_operation id op (mutate fingerprint slice expired m db).1.operations ≡ some row
  unfolding commit
  mutate_remembers expired m db id op row h = elim (mutate-tables fingerprint slice expired m db) [
    | inl e ↦ ap (λ (d : Database F). find_operation id op d.operations) e ∙ h
    | inr e ↦
        ap (λ (d : Database F). find_operation id op d.operations) e
        ∙ find_operation-append id op db.operations row _ h
  ]

  step_remembers :
      (db db' : Database F) (id : PersistenceId) (op : ℕ) (row : OperationRow F)
      → ◌⟶◌ fingerprint slice db db'
      → find_operation id op db.operations ≡ some row
      → find_operation id op db'.operations ≡ some row
  step_remembers db _ id op row (mutated expired m) h = mutate_remembers expired m db id op row h
  step_remembers db _ id op row (registered initial r) h =
      ap (find_operation id op) (register_operations initial r db) ∙ h
  step_remembers db _ id op row (saved name key expected new l) h =
      ap (find_operation id op) (save_operations name key expected new db) ∙ h
  step_remembers db _ id op row (committed name key expected new applies l) h =
      ap (find_operation id op) (commit_offset_operations name key expected new applies db) ∙ h
  step_remembers db _ id op row (compacted limit) h =
      ap (find_operation id op) (compact_operations limit db) ∙ h
  step_remembers db _ id op row (retired name key) h =
      ap (find_operation id op) (retire_operations name key db) ∙ h

  Steps-remember :
      (db db' : Database F) (id : PersistenceId) (op : ℕ) (row : OperationRow F)
      → Steps fingerprint slice db db'
      → find_operation id op db.operations ≡ some row
      → find_operation id op db'.operations ≡ some row
  Steps-remember db _ id op row none_yet h = h
  Steps-remember _ _ id op row (and_then {db} {db'} {db''} before s) h =
      step_remembers db' db'' id op row s (Steps-remember db db' id op row before h)

  returned_new :
      (m : Mutation) (db db' : Database F) (w : WriteResult)
      → find_operation m.persistence_id m.operation_id db.operations ≡ none
      → mutate fingerprint slice false m db ≡ (returned w, db')
      → db' ≡ commit fingerprint slice m (suc m.expected_revision) db
  unfolding mutate
  returned_new m db db' w new h = ground (arith, new, h)

  -- The row that a mutation which returns leaves behind.
  returned_row :
      (m : Mutation) (db db' : Database F) (w : WriteResult)
      → mutate fingerprint slice false m db ≡ (returned w, db')
      → (row : OperationRow F) × (find_operation m.persistence_id m.operation_id db'.operations
          ≡ some row)
        × (row.revision ≡ w.revision)
        × (row.fingerprint ≡ fingerprint m.content)
  unfolding mutate commit
  returned_row m db db' w h =
      elim (Option-cases (find_operation m.persistence_id m.operation_id db.operations)) [
        | inr (row, found) ↦ (
          row,
          ground (arith, found, h),
          ground (arith, found, h),
          ground (arith, found, h, same.beq_iff row.fingerprint (fingerprint m.content)),
        )
        | inl new ↦
            let row = operation_row fingerprint m (suc m.expected_revision) in
            (
              row,
              ap (λ (d : Database F). find_operation m.persistence_id m.operation_id d.operations)
                    (returned_new m db db' w new h)
                  ∙ find_operation-append_new m.persistence_id m.operation_id db.operations row new
                      refl refl,
              ground (arith, new, h),
              refl,
            )
      ]

  -- A mutation that has returned and is repeated, whatever transactions came in between, is not
  -- executed again: the repetition returns the revision of the first one, marked as a duplicate, and
  -- leaves the tables as they are. In between, a projection moves its offset forward only.
  pub mutate-once :
      (m : Mutation) (db before after : Database F) (w : WriteResult)
      → mutate fingerprint slice false m db ≡ (returned w, before)
      → Steps fingerprint slice before after
      → mutate fingerprint slice false m after
        ≡ (returned (record { revision = w.revision; duplicate = true }), after)
  unfolding mutate
  mutate-once m db before after w h steps =
      let (row, found, revision, print) = returned_row m db before w h in
      let still = Steps-remember before after m.persistence_id m.operation_id row steps found in
      ground (arith, still, revision, same.beq_iff row.fingerprint (fingerprint m.content), print)
