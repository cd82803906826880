-- ===== src/Persistence/Store/Projection.antt =====
-- The projection offsets and the compaction of the change feed in movie/persistence/sqlite.py:
-- `_projection_register`, `_projection_save_offset`, `_projection_commit`, `_compact_changes` and
-- `_delete_projection_offset`.
use movie.Common.{
  ℕ, suc, Bool, true, false, not, ◌&&◌, ◌||◌, List, [], ◌∷◌, ◌++◌, Option, none, some, eqb, leb,
  ltb, min, length, take, is_empty, ◌==◌, nat_eq, list_eq, if◌then◌else◌,
}
use movie.Remoting.Text.Utf8.{Text}
use movie.Persistence.Model.{DurableStateChange}
use movie.Persistence.Store.Tables.{Database, ProjectionRow}

-- `WHERE projection_name = ? AND projection_key = ?`
unfoldable pub is_projection : Text → Text → ProjectionRow → Bool
is_projection name key r = r.projection_name == name && r.projection_key == key

unfoldable pub find_projection : Text → Text → List ProjectionRow → Option ProjectionRow
find_projection name key [] = none
find_projection name key (r ∷ rs) =
    if is_projection name key r then some r else find_projection name key rs

-- `UPDATE movie_projection_offset SET projection_offset = ? WHERE ... AND projection_offset = ?`: the
-- rows afterwards, and `rowcount`. The name and the key are the primary key.
unfoldable pub update_offset : Text → Text → ℕ → ℕ → List ProjectionRow → List ProjectionRow × ℕ
update_offset name key expected new [] = ([], 0)
update_offset name key expected new (r ∷ rs) =
    let (rest, n) = update_offset name key expected new rs in
    if is_projection name key r && eqb r.projection_offset expected
    then (record r { projection_offset = new } ∷ rest, suc n)
    else (r ∷ rest, n)

pub data Registration : Type 0 where
  ok baseline_required invalid_baseline source_conflict : Registration

abbrev pub source_matches : ProjectionRow → ProjectionRow → Bool
source_matches stored r =
    stored.entity_type == r.entity_type
    && eqb stored.min_slice r.min_slice
    && eqb stored.max_slice r.max_slice
    && stored.processing_mode == r.processing_mode

-- The offset of a row that there is, or -1, for which `none` stands.
abbrev pub offset_of : Option ProjectionRow → Option ℕ
offset_of none = none
offset_of (some r) = some r.projection_offset

abbrev is_offset : ℕ → Option ℕ → Bool
is_offset expected none = false
is_offset expected (some n) = eqb n expected

-- `SELECT min(projection_offset)`
unfoldable pub min_offset : List ProjectionRow → Option ℕ
min_offset [] = none
min_offset (r ∷ rs) = elim (min_offset rs) [
  | none ↦ some r.projection_offset
  | some n ↦ some (min r.projection_offset n)
]

-- `WHERE global_offset <= ?`
unfoldable pub through : ℕ → List DurableStateChange → List DurableStateChange
through n [] = []
through n (c ∷ cs) = if leb c.offset n then c ∷ through n cs else through n cs

-- What `DELETE ... WHERE global_offset <= ?` leaves.
unfoldable pub beyond : ℕ → List DurableStateChange → List DurableStateChange
beyond n [] = []
beyond n (c ∷ cs) = if leb c.offset n then beyond n cs else c ∷ beyond n cs

unfoldable pub last_offset : ℕ → List DurableStateChange → ℕ
last_offset n [] = n
last_offset n (c ∷ cs) = last_offset c.offset cs

unfoldable pub without : Text → Text → List ProjectionRow → List ProjectionRow
without name key [] = []
without name key (r ∷ rs) =
    if is_projection name key r then without name key rs else r ∷ without name key rs

module _ {F : Type 0} where
  abbrev insert_projection : ProjectionRow → Database F → Database F
  insert_projection r db = record db { projections = db.projections ++ (r ∷ []) }

  -- The row asked for, with 0 for an offset.
  abbrev pub register_new : Option ℕ → ProjectionRow → Database F → (ℕ × Registration) × Database F
  register_new none r db =
      if ltb 0 db.compacted_through
      then ((0, Registration.baseline_required), db)
      else ((0, Registration.ok), insert_projection (record r { projection_offset = 0 }) db)
  register_new (some initial) r db =
      if leb db.compacted_through initial && leb initial db.high_watermark
      then (
        (initial, Registration.ok),
        insert_projection (record r { projection_offset = initial }) db,
      )
      else ((0, Registration.invalid_baseline), db)

  -- `_projection_register`
  unfoldable pub projection_register :
      Option ℕ → ProjectionRow → Database F → (ℕ × Registration) × Database F
  projection_register initial r db =
      elim (find_projection r.projection_name r.projection_key db.projections) [
        | none ↦ register_new initial r db
        | some stored ↦ (
          (
            stored.projection_offset,
            if source_matches stored r then Registration.ok else Registration.source_conflict,
          ),
          db,
        )
      ]

  -- `_projection_save_offset`
  unfoldable pub projection_save_offset :
      Text → Text → ℕ → ℕ → Database F → (Bool × Option ℕ) × Database F
  projection_save_offset name key expected new db =
      let (rows, count) = update_offset name key expected new db.projections in
      if eqb count 1 then ((true, some new), record db { projections = rows }) else (
        (false, offset_of (find_projection name key db.projections)),
        record db { projections = rows },
      )

  -- `_projection_commit`, with whether `apply`, which writes the tables of the application in the
  -- same transaction, returns: a failure rolls back. `none` is its exception.
  unfoldable pub projection_commit :
      Text → Text → ℕ → ℕ → Bool → Database F → Option (Bool × Option ℕ) × Database F
  projection_commit name key expected new applies db =
      let actual = offset_of (find_projection name key db.projections) in
      let (rows, count) = update_offset name key expected new db.projections in
      if not (is_offset expected actual)
      then (some (false, actual), db)
      else if not applies
      then (none, db)
      else if eqb count 1
      then (some (true, some new), record db { projections = rows })
      else (some (false, some expected), db)

  -- `DELETE` and `UPDATE`, with the number of rows deleted
  abbrev pub delete_through : ℕ → Database F → ℕ × Database F
  delete_through n db =
      let deleted = length (through n db.changes) in
      (
        deleted,
        if eqb deleted 0
            then db
            else record db { changes = beyond n db.changes; compacted_through = n },
      )

  abbrev pub compact_from : ℕ → Option ℕ → Database F → ℕ × Database F
  compact_from limit none db = (0, db)
  compact_from limit (some minimum) db =
      let offsets = take limit (through minimum db.changes) in
      if eqb minimum 0 || is_empty offsets
      then (0, db)
      else delete_through (last_offset 0 offsets) db

  -- `_compact_changes`
  unfoldable pub compact_changes : ℕ → Database F → ℕ × Database F
  compact_changes limit db = compact_from limit (min_offset db.projections) db

  -- `_delete_projection_offset`
  unfoldable pub retire_projection : Text → Text → Database F → Bool × Database F
  retire_projection name key db =
      let left = without name key db.projections in
      (eqb (length db.projections) (suc (length left)), record db { projections = left })
