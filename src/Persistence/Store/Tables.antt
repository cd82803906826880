-- ===== src/Persistence/Store/Tables.antt =====
-- The tables of movie/persistence/sqlite.py.
use movie.Common.{ℕ, ◌&&◌, List, [], ◌∷◌, Option, none, some, eqb, max, if◌then◌else◌}
use movie.Remoting.Text.Utf8.{Text}
use movie.Persistence.Model.{PersistenceId, same_id, DurableStateRecord, DurableStateChange}

-- `movie_durable_operation`; the fingerprints are SHA-256 digests.
pub record OperationRow (F : Type 0) : Type 0 where
  pub persistence_id : PersistenceId
  pub operation_id : ℕ
  pub fingerprint : F
  pub revision : ℕ

-- `movie_projection_offset`
pub record ProjectionRow : Type 0 where
  pub projection_name : Text
  pub projection_key : Text
  pub entity_type : Text
  pub min_slice : ℕ
  pub max_slice : ℕ
  pub processing_mode : Text
  pub projection_offset : ℕ

pub record Database (F : Type 0) : Type 0 where
  -- `movie_durable_state`
  pub states : List DurableStateRecord
  pub operations : List (OperationRow F)
  -- `movie_durable_change`, by `global_offset`, with its entry of `sqlite_sequence`
  pub changes : List DurableStateChange
  pub sequence : ℕ
  pub projections : List ProjectionRow
  -- the one row of `movie_projection_feed`
  pub high_watermark : ℕ
  pub compacted_through : ℕ

abbrev pub empty_database : {F : Type 0} → Database F
empty_database = record {
  states = [];
  operations = [];
  changes = [];
  sequence = 0;
  projections = [];
  high_watermark = 0;
  compacted_through = 0;
}

-- `SELECT ... FROM movie_durable_state WHERE entity_type = ? AND entity_id = ?`
unfoldable pub find_state : PersistenceId → List DurableStateRecord → Option DurableStateRecord
find_state id [] = none
find_state id (r ∷ rs) = if same_id r.persistence_id id then some r else find_state id rs

-- `current[0] if current is not None else 0`
abbrev pub revision_or_0 : Option DurableStateRecord → ℕ
revision_or_0 none = 0
revision_or_0 (some r) = r.revision

abbrev pub actual_revision : PersistenceId → List DurableStateRecord → ℕ
actual_revision id rs = revision_or_0 (find_state id rs)

-- `INSERT ... ON CONFLICT(entity_type, entity_id) DO UPDATE`
unfoldable pub put_state : DurableStateRecord → List DurableStateRecord → List DurableStateRecord
put_state r [] = r ∷ []
put_state r (s ∷ rs) =
    let rest = put_state r rs in
    if same_id s.persistence_id r.persistence_id then r ∷ rs else s ∷ rest

-- `SELECT fingerprint, revision FROM movie_durable_operation`
unfoldable pub find_operation :
    {F : Type 0} → PersistenceId → ℕ → List (OperationRow F) → Option (OperationRow F)
find_operation id op [] = none
find_operation id op (r ∷ rs) =
    if same_id r.persistence_id id && eqb r.operation_id op then some r else find_operation id op rs

-- `SELECT max(global_offset)`, with 0 where there is none
unfoldable pub max_offset : List DurableStateChange → ℕ
max_offset [] = 0
max_offset (c ∷ cs) = max c.offset (max_offset cs)
