-- ===== src/Persistence/Examples.antt =====
-- A store with two writes, a projection and a compaction.
use movie.Common.{
  ℕ, suc, ◌≡◌, ◌≤◌, ◌⊎◌, refl, true, false, [], ◌∷◌, some, none, length, nat_eq, arith,
}
use movie.Remoting.Text.Utf8.{encode}
use movie.Persistence.Errors.{PersistenceError, returned, raised}
use movie.Persistence.Model.{PersistenceId, Content, DurableStateChangeBatch, WriteResult, same_id}
use movie.Persistence.Store.Tables.{
  Database, ProjectionRow, empty_database, find_state, put_state, find_operation, max_offset,
}
use movie.Persistence.Store.Mutate.{Mutation, mutate, commit, change_row}
use movie.Persistence.Store.History.{IsDuplicate, IsWrite, mutate-returned}
use movie.Persistence.Store.Transaction.{
  Connection, refused, Failure, busy, Faults, failed, mutate_connection,
}
use movie.Persistence.Store.Rollback.{IsAtomic, mutate_connection-IsAtomic}
use movie.Persistence.Store.Faultless.{no_faults}
use movie.Persistence.Store.Projection.{
  projection_register, projection_save_offset, compact_changes, find_projection, is_projection,
  update_offset, min_offset, through, beyond, last_offset,
}
use movie.Persistence.Store.Feed.{Query, state_bytes, matches, window, fetch, read_changes, changes}
use movie.Persistence.Store.Log
use movie.Persistence.Store.Log.{Steps}
use movie.Persistence.Store.Consistent.{IsConsistent}
use movie.Persistence.Store.Guarantees.{Reachable-IsConsistent, Reachable-reads, Reachable-resumes}
use movie.Persistence.Store.Once.{mutate-once}

abbrev fingerprint_of : Content → ℕ
fingerprint_of none = 0
fingerprint_of (some (manifest, payload)) = suc (length payload)

abbrev slice_of : PersistenceId → ℕ
slice_of id = 7

abbrev counter_1 : PersistenceId
counter_1 = record { entity_type = 99 ∷ []; entity_id = 49 ∷ [] }

abbrev first_write : Mutation
first_write = record {
  persistence_id = counter_1;
  expected_revision = 0;
  operation_id = 5;
  content = some (110 ∷ [], 1 ∷ []);
  now = 10;
}

abbrev second_write : Mutation
second_write = record first_write { expected_revision = 1; operation_id = 6; content = none }

abbrev written_once : Database ℕ
written_once = (mutate fingerprint_of slice_of false first_write empty_database).1

abbrev written_twice : Database ℕ
written_twice = (mutate fingerprint_of slice_of false second_write written_once).1

abbrev reader : ProjectionRow
reader = record {
  projection_name = 112 ∷ [];
  projection_key = 107 ∷ [];
  entity_type = 99 ∷ [];
  min_slice = 0;
  max_slice = 1023;
  processing_mode = 97 ∷ [];
  projection_offset = 0;
}

abbrev registered_reader : Database ℕ
registered_reader = (projection_register none reader written_twice).1

abbrev after_first : Database ℕ
after_first = (projection_save_offset (112 ∷ []) (107 ∷ []) 0 1 registered_reader).1

abbrev compacted_store : Database ℕ
compacted_store = (compact_changes 10 after_first).1

compacted-Reachable :
    Log.Reachable fingerprint_of slice_of compacted_store
      (change_row slice_of first_write 1 1 ∷ change_row slice_of second_write 2 2 ∷ [])
unfolding mutate commit find_state put_state find_operation max_offset same_id projection_register
    projection_save_offset compact_changes find_projection is_projection update_offset min_offset
    through beyond last_offset
compacted-Reachable =
    Log.step
      (Log.step
        (Log.step
          (Log.step (Log.step Log.empty (Log.mutated false first_write))
            (Log.mutated false second_write))
          (Log.registered none reader))
        (Log.saved (112 ∷ []) (107 ∷ []) 0 1 (omega arith)))
      (Log.compacted 10)

Reachable-IsConsistent_example :
    IsConsistent compacted_store
      (change_row slice_of first_write 1 1 ∷ change_row slice_of second_write 2 2 ∷ [])
Reachable-IsConsistent_example =
    Reachable-IsConsistent fingerprint_of slice_of compacted_store
      (change_row slice_of first_write 1 1 ∷ change_row slice_of second_write 2 2 ∷ [])
      compacted-Reachable

abbrev rest_query : Query
rest_query = record {
  entity_type = 99 ∷ [];
  min_slice = 0;
  max_slice = 1023;
  after_offset = 1;
  limit = 10;
  max_bytes = 100;
  scan_limit = 100;
}

abbrev rest_page : DurableStateChangeBatch
rest_page = record { changes = change_row slice_of second_write 2 2 ∷ []; offset = 2 }

rest_read : changes false 50 rest_query compacted_store ≡ returned rest_page
unfolding mutate commit find_state put_state find_operation max_offset same_id projection_register
    projection_save_offset compact_changes find_projection is_projection update_offset min_offset
    through beyond last_offset changes read_changes window fetch matches state_bytes encode
rest_read = refl

Reachable-reads_example :
    (rest_page.changes
      ≡ window rest_query 1 2
          (change_row slice_of first_write 1 1 ∷ change_row slice_of second_write 2 2 ∷ []))
    × (1 ≤ 2)
Reachable-reads_example =
    Reachable-reads fingerprint_of slice_of false 50 rest_query compacted_store
      (change_row slice_of first_write 1 1 ∷ change_row slice_of second_write 2 2 ∷ []) rest_page
      compacted-Reachable (omega arith) rest_read

registered-Reachable :
    Log.Reachable fingerprint_of slice_of registered_reader
      (change_row slice_of first_write 1 1 ∷ change_row slice_of second_write 2 2 ∷ [])
unfolding mutate commit find_state put_state find_operation max_offset same_id projection_register
    find_projection beyond
registered-Reachable =
    Log.step
      (Log.step (Log.step Log.empty (Log.mutated false first_write))
        (Log.mutated false second_write))
      (Log.registered none reader)

abbrev first_query : Query
first_query = record rest_query { after_offset = 0 }

too_large :
    changes false 0 first_query registered_reader ≡ raised PersistenceError.capacity_exceeded
unfolding mutate commit find_state put_state find_operation max_offset same_id projection_register
    find_projection changes read_changes window fetch matches state_bytes encode
too_large = refl

reader_found : find_projection (112 ∷ []) (107 ∷ []) registered_reader.projections ≡ some reader
unfolding mutate commit find_state put_state find_operation same_id projection_register
    find_projection is_projection
reader_found = refl

Reachable-resumes_example :
    (◌≡◌ {A = PersistenceError} PersistenceError.capacity_exceeded
      PersistenceError.capacity_exceeded)
    ⊎ ((false ≡ true)
        × (◌≡◌ {A = PersistenceError} PersistenceError.capacity_exceeded
            PersistenceError.operation_timeout))
Reachable-resumes_example =
    Reachable-resumes fingerprint_of slice_of false 0 first_query registered_reader
      (change_row slice_of first_write 1 1 ∷ change_row slice_of second_write 2 2 ∷ []) (112 ∷ [])
      (107 ∷ []) reader PersistenceError.capacity_exceeded registered-Reachable reader_found
      (omega arith) too_large

abbrev first_result : WriteResult
first_result = record { revision = 1; duplicate = false }

first_returned :
    mutate fingerprint_of slice_of false first_write empty_database
    ≡ (returned first_result, written_once)
unfolding mutate find_operation find_state
first_returned = refl

mutate-returned_example :
    IsDuplicate fingerprint_of slice_of first_write first_result empty_database written_once
    ⊎ IsWrite fingerprint_of slice_of first_write first_result empty_database written_once
mutate-returned_example =
    mutate-returned fingerprint_of slice_of first_write empty_database written_once first_result
      first_returned

abbrev idle_connection : Connection ℕ
idle_connection = record {
  committed = written_once;
  working = written_once;
  in_transaction = false;
}

-- The third of the four writes finds the database locked.
abbrev busy_change : Faults
busy_change = record no_faults { insert_change = some (refused busy) }

mutate_connection-IsAtomic_example :
    IsAtomic fingerprint_of slice_of busy_change second_write idle_connection
      (mutate_connection fingerprint_of slice_of busy_change second_write idle_connection)
mutate_connection-IsAtomic_example =
    mutate_connection-IsAtomic fingerprint_of slice_of busy_change second_write idle_connection

timed_out :
    mutate_connection fingerprint_of slice_of busy_change second_write idle_connection
    ≡ (failed (Failure.own PersistenceError.operation_timeout), idle_connection)
unfolding mutate_connection mutate find_operation find_state commit same_id put_state
timed_out = refl

first_then_second : Steps fingerprint_of slice_of written_once registered_reader
first_then_second =
    Log.and_then (Log.and_then Log.none_yet (Log.mutated false second_write))
      (Log.registered none reader)

mutate-once_example :
    mutate fingerprint_of slice_of false first_write registered_reader
    ≡ (returned (record { revision = 1; duplicate = true }), registered_reader)
mutate-once_example =
    mutate-once fingerprint_of slice_of first_write empty_database written_once registered_reader
      first_result first_returned first_then_second
