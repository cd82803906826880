-- ===== src/Persistence/Store/Mutate.antt =====
-- `_mutate` of movie/persistence/sqlite.py, the transactions behind `upsert` and `delete`, each as a whole: the
-- statements under it, which may raise one by one, with the commit and the rollback are in Store/Transaction.
use movie.Common.{
  ℕ, suc, Bool, true, false, [], ◌∷◌, ◌++◌, Option, none, some, eqb, Eq, ◌==◌, if◌then◌else◌,
}
use movie.Persistence.Errors.{PersistenceError, Attempt, returned, raised}
use movie.Persistence.Model.{PersistenceId, Content, DurableStateChange, WriteResult}
use movie.Persistence.Store.Tables.{
  Database, OperationRow, actual_revision, put_state, find_operation, max_offset,
}

pub record Mutation : Type 0 where
  pub persistence_id : PersistenceId
  pub expected_revision : ℕ
  pub operation_id : ℕ
  -- none for `delete`
  pub content : Content
  -- `time_ns()`
  pub now : ℕ

-- The row of `INSERT INTO movie_durable_change`, with the offset that AUTOINCREMENT gives it.
abbrev pub change_row : (PersistenceId → ℕ) → Mutation → ℕ → ℕ → DurableStateChange
change_row slice m revision offset = record {
  offset = offset;
  persistence_id = m.persistence_id;
  revision = revision;
  operation_id = m.operation_id;
  slice = slice m.persistence_id;
  content = m.content;
  committed_at_ns = m.now;
}

-- The row of `INSERT INTO movie_durable_operation`.
abbrev pub operation_row : {F : Type 0} → (Content → F) → Mutation → ℕ → OperationRow F
operation_row fingerprint m revision = record {
  persistence_id = m.persistence_id;
  operation_id = m.operation_id;
  fingerprint = fingerprint m.content;
  revision = revision;
}

-- SHA-256 is no part of the repository: the fingerprint of a content and the slice of an identity
-- are parameters.
module _ {F : Type 0} ⦃same : Eq F⦄ (fingerprint : Content → F) (slice : PersistenceId → ℕ) where
  -- The four statements that write.
  unfoldable pub commit : Mutation → ℕ → Database F → Database F
  commit m revision db =
      let changes = db.changes ++ (change_row slice m revision (suc db.sequence) ∷ []) in
      record db {
        states =
            put_state
              (record {
                persistence_id = m.persistence_id;
                revision = revision;
                operation_id = m.operation_id;
                content = m.content;
              })
              db.states;
        operations = db.operations ++ (operation_row fingerprint m revision ∷ []);
        changes = changes;
        sequence = suc db.sequence;
        high_watermark = max_offset changes;
      }

  -- `if duplicate is not None`
  abbrev pub mutate_found :
      Option (OperationRow F) → Mutation → Database F → Attempt WriteResult × Database F
  mutate_found (some row) m db = (
    if row.fingerprint == fingerprint m.content
        then returned (record { revision = row.revision; duplicate = true })
        else raised PersistenceError.operation_conflict,
    db,
  )
  mutate_found none m db =
      let actual = actual_revision m.persistence_id db.states in
      if eqb actual m.expected_revision
      then (
        returned (record { revision = suc actual; duplicate = false }),
        commit m (suc actual) db,
      )
      else (raised (PersistenceError.concurrent_write m.expected_revision actual), db)

  -- `_mutate`, with whether the deadline passes before the commit: then the transaction is rolled
  -- back.
  unfoldable pub mutate : Bool → Mutation → Database F → Attempt WriteResult × Database F
  mutate expired m db =
      if expired
      then (raised PersistenceError.operation_timeout, db)
      else mutate_found (find_operation m.persistence_id m.operation_id db.operations) m db
