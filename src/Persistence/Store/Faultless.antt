-- ===== src/Persistence/Store/Faultless.antt =====
-- `_mutate` of movie/persistence/sqlite.py on a connection whose statements do not raise.
use movie.Common.{none}
use movie.Persistence.Errors.{Attempt, returned, raised}
use movie.Persistence.Model.{WriteResult}
use movie.Persistence.Store.Tables.{Database}
use movie.Persistence.Store.Mutate.{commit}
use movie.Persistence.Store.Transaction.{Connection, own, Faults, Run, failed, done}

abbrev pub as_run : {F : Type 0} → Attempt WriteResult × Database F → Run WriteResult × Database F
as_run (returned w, db) = (done w, db)
as_run (raised e, db) = (failed (own e), db)

abbrev pub outcome : {F : Type 0} → Run WriteResult × Connection F → Run WriteResult × Database F
outcome (r, c) = (r, c.committed)

abbrev pub no_faults : Faults
no_faults = record {
  deadline = none;
  begin = none;
  late_deadline = none;
  select_operation = none;
  select_revision = none;
  insert_state = none;
  insert_operation = none;
  insert_change = none;
  update_feed = none;
  commit = none;
  rollback = none;
}
