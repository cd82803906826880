-- ===== src/Persistence/Store/Log.antt =====
-- The transactions of the store in any order, with the log of every change that was committed, which
-- the code does not keep: compaction deletes from the table.
use movie.Common.{ℕ, ◌≤◌, Bool, List, [], ◌++◌, Option, Eq}
use movie.Remoting.Text.Utf8.{Text}
use movie.Persistence.Model.{PersistenceId, Content, DurableStateChange}
use movie.Persistence.Store.Tables.{Database, ProjectionRow, empty_database}
use movie.Persistence.Store.Mutate.{Mutation, mutate}
use movie.Persistence.Store.Projection.{
  beyond, projection_register, projection_save_offset, projection_commit, compact_changes,
  retire_projection,
}

module _ {F : Type 0} ⦃same : Eq F⦄ (fingerprint : Content → F) (slice : PersistenceId → ℕ) where
  infix 3 ◌⟶◌
  -- A projection moves its offset forward: it saves the offset of a page that it has read.
  pub data ◌⟶◌ : Database F → Database F → Type 0 where
    mutated :
        {db : Database F} (expired : Bool) (m : Mutation)
        → db ⟶ (mutate fingerprint slice expired m db).1
    registered :
        {db : Database F} (initial : Option ℕ) (row : ProjectionRow)
        → db ⟶ (projection_register initial row db).1
    saved :
        {db : Database F} (name key : Text) (expected new : ℕ)
        → expected ≤ new
        → db ⟶ (projection_save_offset name key expected new db).1
    committed :
        {db : Database F} (name key : Text) (expected new : ℕ) (applies : Bool)
        → expected ≤ new
        → db ⟶ (projection_commit name key expected new applies db).1
    compacted : {db : Database F} (limit : ℕ) → db ⟶ (compact_changes limit db).1
    retired : {db : Database F} (name key : Text) → db ⟶ (retire_projection name key db).1

  -- Reached from the empty tables, with the log: each step adds the rows beyond the sequence so far.
  pub data Reachable : Database F → List DurableStateChange → Type 0 where
    empty : Reachable empty_database []
    step :
        {db db' : Database F} {log : List DurableStateChange}
        → Reachable db log
        → db ⟶ db'
        → Reachable db' (log ++ beyond db.sequence db'.changes)

  -- Any number of transactions.
  pub data Steps : Database F → Database F → Type 0 where
    none_yet : {db : Database F} → Steps db db
    and_then : {db db' db'' : Database F} → Steps db db' → db' ⟶ db'' → Steps db db''
