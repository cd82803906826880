-- ===== src/Persistence/Store/History.antt =====
-- What the transactions of the store keep: revisions count the writes of an identity, and an operation
-- is remembered.
use movie.Common.{
  ℕ, suc, ◌≡◌, refl, ap, ◌∙◌, ◌⊎◌, inl, inr, true, false, List, [], ◌∷◌, ◌++◌, none, some, Eq,
  if◌then◌else◌, arith, Option-cases,
}
use movie.Persistence.Errors.{returned}
use movie.Persistence.Model.{
  PersistenceId, Content, DurableStateRecord, WriteResult, same_id, same_id_iff,
}
use movie.Persistence.Store.Tables.{
  Database, OperationRow, actual_revision, put_state, find_operation, find_state,
}
use movie.Persistence.Store.Mutate.{Mutation, commit, mutate}

pub find_state-put_state :
    (id : PersistenceId) (r : DurableStateRecord) (rs : List DurableStateRecord)
    → find_state id (put_state r rs)
      ≡ (if same_id r.persistence_id id then some r else find_state id rs)
unfolding find_state put_state
find_state-put_state id r [] = refl
find_state-put_state id r (s ∷ rs) = ground (
  arith,
  same_id_iff s.persistence_id r.persistence_id,
  same_id_iff s.persistence_id id,
  same_id_iff r.persistence_id id,
  find_state-put_state id r rs,
)

module _ {F : Type 0} where
  -- What a later row does not change.
  pub find_operation-append :
      (id : PersistenceId) (op : ℕ) (rows : List (OperationRow F)) (row last : OperationRow F)
      → find_operation id op rows ≡ some row
      → find_operation id op (rows ++ (last ∷ [])) ≡ some row
  unfolding find_operation
  find_operation-append id op [] row last h = absurd (cc h)
  find_operation-append id op (r ∷ rows) row last h =
      ground (arith, h, find_operation-append id op rows row last)

  pub find_operation-append_new :
      (id : PersistenceId) (op : ℕ) (rows : List (OperationRow F)) (last : OperationRow F)
      → find_operation id op rows ≡ none
      → last.persistence_id ≡ id
      → last.operation_id ≡ op
      → find_operation id op (rows ++ (last ∷ [])) ≡ some last
  unfolding find_operation
  find_operation-append_new id op [] last h p o =
      ground (arith, same_id_iff last.persistence_id id, p, o)
  find_operation-append_new id op (r ∷ rows) last h p o =
      ground (arith, h, find_operation-append_new id op rows last)

module _ {F : Type 0} ⦃same : Eq F⦄ (fingerprint : Content → F) (slice : PersistenceId → ℕ) where
  abbrev pub written : Mutation → ℕ → DurableStateRecord
  written m revision = record {
    persistence_id = m.persistence_id;
    revision = revision;
    operation_id = m.operation_id;
    content = m.content;
  }

  -- An operation that was seen before is not executed again.
  abbrev pub IsDuplicate : Mutation → WriteResult → Database F → Database F → Type 0
  IsDuplicate m w db db' =
      (w.duplicate ≡ true)
      × (db' ≡ db)
      × ((row : OperationRow F) × (find_operation m.persistence_id m.operation_id db.operations
            ≡ some row)
          × (row.revision ≡ w.revision)
          × (row.fingerprint ≡ fingerprint m.content))

  -- The write of a state, by its effect on what every identity loads.
  abbrev pub IsWrite : Mutation → WriteResult → Database F → Database F → Type 0
  IsWrite m w db db' =
      (w.duplicate ≡ false)
      × (actual_revision m.persistence_id db.states ≡ m.expected_revision)
      × (w.revision ≡ suc m.expected_revision)
      × ((id : PersistenceId)
          → find_state id db'.states ≡ (
              if same_id m.persistence_id id
              then some (written m w.revision)
              else find_state id db.states))

  mutate_found-write :
      (m : Mutation) (db : Database F)
      → find_operation m.persistence_id m.operation_id db.operations ≡ none
      → actual_revision m.persistence_id db.states ≡ m.expected_revision
      → mutate fingerprint slice false m db ≡ (
        returned (record { revision = suc m.expected_revision; duplicate = false }),
        commit fingerprint slice m (suc m.expected_revision) db,
      )
  unfolding mutate
  mutate_found-write m db new current = ground (arith, new, current)

  -- What a mutation that returns has done: either the operation had been executed with the same
  -- content, and nothing changes, or the expected revision was the actual one, and the state of the
  -- identity is now the content under the next revision, while every other identity loads what it did.
  pub mutate-returned :
      (m : Mutation) (db db' : Database F) (w : WriteResult)
      → mutate fingerprint slice false m db ≡ (returned w, db')
      → IsDuplicate m w db db' ⊎ IsWrite m w db db'
  unfolding mutate commit
  mutate-returned m db db' w h =
      elim (Option-cases (find_operation m.persistence_id m.operation_id db.operations)) [
        | inr (row, found) ↦ inl (
          ground (arith, found),
          ground (arith, found),
          (
            row,
            found,
            ground (arith, found),
            ground (arith, found, same.beq_iff row.fingerprint (fingerprint m.content)),
          ),
        )
        | inl new ↦ inr (
          ground (arith, new),
          ground (arith, new),
          ground (arith, new),
          λ id.
              ap (find_state id) (ground (arith, new))
              ∙ find_state-put_state id (written m w.revision) db.states,
        )
      ]
