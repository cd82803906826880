-- ===== src/Persistence/Store.antt =====
-- movie/persistence/sqlite.py: the durable-state store. A table is the list of its rows, in the order
-- of its key, and a transaction is a function of the tables. That of `_mutate` is also modelled statement by
-- statement, with those that raise, the commit and the rollback; of the connection under it only what SQLite
-- documents of BEGIN IMMEDIATE, COMMIT and ROLLBACK is used.
pub mod Tables
pub mod Mutate
pub mod Transaction
pub mod Rollback
pub mod Faultless
pub mod History
pub mod Projection
pub mod Feed
pub mod Load
pub mod Offsets
pub mod Exact
pub mod Log
pub mod Consistent
pub mod Baseline
pub mod Preserve
pub mod Compaction
pub mod Guarantees
pub mod Once
pub mod Revisions
pub mod Gate
pub mod Admission
mod AdmissionExamples
