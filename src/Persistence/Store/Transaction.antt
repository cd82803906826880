-- ===== src/Persistence/Store/Transaction.antt =====
-- The connection under `_mutate` of movie/persistence/sqlite.py: its statements one by one, each of which may
-- raise, with the commit and the rollback.
use movie.Common.{
  ℕ, suc, Bool, true, false, [], ◌∷◌, ◌++◌, Option, none, some, eqb, Eq, ◌==◌, if◌then◌else◌,
}
use movie.Persistence.Errors.{PersistenceError}
use movie.Persistence.Model.{PersistenceId, Content, WriteResult}
use movie.Persistence.Store.Tables.{
  Database, OperationRow, actual_revision, put_state, find_operation, max_offset,
}
use movie.Persistence.Store.Mutate.{Mutation, change_row, operation_row}

-- The tables of the last commit, and those that the statements of the connection see.
pub record Connection (F : Type 0) : Type 0 where
  pub committed : Database F
  pub working : Database F
  pub in_transaction : Bool

-- An exception: one of the store's own, sqlite3's that says "locked" or "busy", or any other.
pub data Failure : Type 0 where
  own : PersistenceError → Failure
  busy other : Failure

-- `sqlite3.OperationalError` that says "locked" or "busy" is a timeout.
abbrev pub translate : Failure → Failure
translate busy = own PersistenceError.operation_timeout
translate e = e

-- How an `await` raises: the statement is refused, or the task is cancelled while the thread of the
-- connection executes the statement all the same.
pub data Fault : Type 0 where
  refused : Failure → Fault
  interrupted : Failure → Fault

-- How each step raises, if it does: the checks of the deadline are steps, too.
pub record Faults : Type 0 where
  -- The two checks before BEGIN, with the PRAGMA between them.
  pub deadline : Option Fault
  pub begin : Option Fault
  pub late_deadline : Option Fault
  pub select_operation : Option Fault
  pub select_revision : Option Fault
  pub insert_state : Option Fault
  pub insert_operation : Option Fault
  pub insert_change : Option Fault
  pub update_feed : Option Fault
  pub commit : Option Fault
  pub rollback : Option Fault

pub data Run (R : Type 0) : Type 0 where
  failed : Failure → Run R
  done : R → Run R

-- What runs on a connection.
abbrev pub Action : Type 0 → Type 0 → Type 0
Action F R = Connection F → Run R × Connection F

abbrev pub continue_with :
    {F R S : Type 0} → (R → Action F S) → Run R × Connection F → Run S × Connection F
continue_with next (failed e, c) = (failed e, c)
continue_with next (done r, c) = next r c

infixl 5 ◌>>=◌
abbrev pub ◌>>=◌ : {F R S : Type 0} → Action F R → (R → Action F S) → Action F S
a >>= next = λ c. continue_with next (a c)

module _ {F : Type 0} where
  abbrev pub returning : {R : Type 0} → R → Action F R
  returning r c = (done r, c)

  abbrev pub raising : {R : Type 0} → Failure → Action F R
  raising e c = (failed e, c)

  -- One step, with its effect.
  abbrev pub await : Option Fault → (Connection F → Connection F) → Action F (Unit {0})
  await (some (refused e)) effect c = (failed e, c)
  await (some (interrupted e)) effect c = (failed e, effect c)
  await none effect c = (done tt, effect c)

  abbrev pub unchanged : Connection F → Connection F
  unchanged c = c

  abbrev pub begin_immediate : Connection F → Connection F
  begin_immediate c = record c { working = c.committed; in_transaction = true }

  abbrev pub write : (Database F → Database F) → Connection F → Connection F
  write statement c = record c { working = statement c.working }

  abbrev pub commit_working : Connection F → Connection F
  commit_working c = record c { committed = c.working; in_transaction = false }

  abbrev pub roll_back : Connection F → Connection F
  roll_back c = record c { working = c.committed; in_transaction = false }

  abbrev pub tables : Action F (Database F)
  tables c = (done c.working, c)

  -- A rollback that raises adds a note to the exception only.
  abbrev pub roll_back_unless : Option Fault → Connection F → Connection F
  roll_back_unless none c = roll_back c
  roll_back_unless (some (refused e)) c = c
  roll_back_unless (some (interrupted e)) c = roll_back c

  -- `except BaseException`
  abbrev pub handled : {R : Type 0} → Option Fault → Run R × Connection F → Run R × Connection F
  handled fault (done r, c) = (done r, c)
  handled fault (failed e, c) = (failed (translate e), roll_back_unless fault c)

module _ {F : Type 0} ⦃same : Eq F⦄ (fingerprint : Content → F) (slice : PersistenceId → ℕ) where
  -- The four statements that write.
  abbrev pub upsert_state : Mutation → ℕ → Database F → Database F
  upsert_state m revision db = record db {
    states =
        put_state
          (record {
            persistence_id = m.persistence_id;
            revision = revision;
            operation_id = m.operation_id;
            content = m.content;
          })
          db.states;
  }

  abbrev pub add_operation : Mutation → ℕ → Database F → Database F
  add_operation m revision db = record db {
    operations = db.operations ++ (operation_row fingerprint m revision ∷ []);
  }

  abbrev pub add_change : Mutation → ℕ → Database F → Database F
  add_change m revision db = record db {
    changes = db.changes ++ (change_row slice m revision (suc db.sequence) ∷ []);
    sequence = suc db.sequence;
  }

  abbrev pub raise_watermark : Database F → Database F
  raise_watermark db = record db { high_watermark = max_offset db.changes }

  -- `if duplicate is not None`
  abbrev pub repeated : Faults → Mutation → OperationRow F → Action F WriteResult
  repeated faults m row =
      if row.fingerprint == fingerprint m.content
      then (do
        _ ← await faults.commit commit_working
        returning (record { revision = row.revision; duplicate = true }))
      else raising (own PersistenceError.operation_conflict)

  abbrev pub write_all : Faults → Mutation → ℕ → Action F WriteResult
  write_all faults m revision = do
    _ ← await faults.insert_state (write (upsert_state m revision))
    _ ← await faults.insert_operation (write (add_operation m revision))
    _ ← await faults.insert_change (write (add_change m revision))
    _ ← await faults.update_feed (write raise_watermark)
    _ ← await faults.commit commit_working
    returning (record { revision = revision; duplicate = false })

  abbrev pub compared : Faults → Mutation → ℕ → Action F WriteResult
  compared faults m actual =
      if eqb actual m.expected_revision
      then write_all faults m (suc actual)
      else raising (own (PersistenceError.concurrent_write m.expected_revision actual))

  abbrev pub executed : Faults → Mutation → Action F WriteResult
  executed faults m = do
    _ ← await faults.select_revision unchanged
    db ← tables
    compared faults m (actual_revision m.persistence_id db.states)

  abbrev pub looked_up : Faults → Mutation → Option (OperationRow F) → Action F WriteResult
  looked_up faults m none = executed faults m
  looked_up faults m (some row) = repeated faults m row

  abbrev pub mutate_statements : Faults → Mutation → Action F WriteResult
  mutate_statements faults m = do
    _ ← await faults.deadline unchanged
    _ ← await faults.begin begin_immediate
    _ ← await faults.late_deadline unchanged
    _ ← await faults.select_operation unchanged
    db ← tables
    looked_up faults m (find_operation m.persistence_id m.operation_id db.operations)

  -- The `try` of `_mutate` under the operation lock
  unfoldable pub mutate_connection : Faults → Mutation → Action F WriteResult
  mutate_connection faults m c = handled faults.rollback (mutate_statements faults m c)
