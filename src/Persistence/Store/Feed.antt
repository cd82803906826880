-- ===== src/Persistence/Store/Feed.antt =====
-- `_changes` and `_read_changes` of movie/persistence/sqlite.py.
use movie.Common.{
  ℕ, zero, suc, ◌+◌, ◌≡◌, Bool, true, false, ◌&&◌, List, [], ◌∷◌, none, some, leb, ltb, min, max,
  length, take, ◌==◌, nat_eq, list_eq, if◌then◌else◌,
}
use movie.Remoting.Text.Utf8.{Text, encode}
use movie.Persistence.Errors.{PersistenceError, Attempt, returned, raised, ◌>>=◌, check}
use movie.Persistence.Model.{Content, DurableStateChange, DurableStateChangeBatch}
use movie.Persistence.Store.Tables.{Database}
use movie.Persistence.Store.Projection.{last_offset}

pub record Query : Type 0 where
  pub entity_type : Text
  pub min_slice : ℕ
  pub max_slice : ℕ
  pub after_offset : ℕ
  pub limit : ℕ
  pub max_bytes : ℕ
  pub scan_limit : ℕ

-- The bytes of a manifest and a payload: `coalesce(length(...), 0) + coalesce(length(payload), 0)`.
unfoldable pub state_bytes : Content → ℕ
state_bytes none = 0
state_bytes (some (manifest, payload)) =
    elim (encode manifest) [ none ↦ 0 | some bytes ↦ length bytes ] + length payload

-- `entity_type = ? AND persistence_slice BETWEEN ? AND ?`
unfoldable pub matches : Query → DurableStateChange → Bool
matches q c =
    c.persistence_id.entity_type == q.entity_type
    && leb q.min_slice c.slice
    && leb c.slice q.max_slice

-- `WHERE ... AND global_offset > ? AND global_offset <= ? ORDER BY global_offset`
unfoldable pub window : Query → ℕ → ℕ → List DurableStateChange → List DurableStateChange
window q lo hi [] = []
window q lo hi (c ∷ cs) =
    if matches q c && ltb lo c.offset && leb c.offset hi
    then c ∷ window q lo hi cs
    else window q lo hi cs

-- The loop over the cursor, with so many rows to go, the bytes of those before and whether there are
-- any: the rows, and `exhausted`.
unfoldable pub fetch :
    ℕ → ℕ → ℕ → ℕ → Bool → List DurableStateChange → Attempt (List DurableStateChange × Bool)
fetch max_state_bytes max_bytes zero retained any cursor = returned ([], false)
fetch max_state_bytes max_bytes (suc left) retained any [] = returned ([], true)
fetch max_state_bytes max_bytes (suc left) retained any (row ∷ cursor) =
    let rest =
      fetch max_state_bytes max_bytes left (retained + state_bytes row.content) true cursor in
    if ltb max_state_bytes (state_bytes row.content)
    then raised PersistenceError.capacity_exceeded
    else if any && ltb max_bytes (retained + state_bytes row.content)
    then returned ([], false)
    else rest >>= λ (r : List DurableStateChange × Bool). returned (row ∷ r.0, r.1)

-- The offset of the batch: `changes[-1]` has an element wherever the scan is not exhausted.
abbrev pub batch : Query → ℕ → List DurableStateChange × Bool → DurableStateChangeBatch
batch q scan_through (rows, exhausted) = record {
  changes = rows;
  offset = if exhausted then max q.after_offset scan_through else last_offset 0 rows;
}

module _ {F : Type 0} where
  -- `_read_changes`, with the batch that `_changes` makes of the rows
  unfoldable pub read_changes : ℕ → Query → Database F → Attempt DurableStateChangeBatch
  unfolding window fetch
  read_changes max_state_bytes q db = do
    _ ←
        check (leb db.compacted_through q.after_offset)
          (PersistenceError.change_feed_compacted q.after_offset db.compacted_through)
    let scan_through = min db.high_watermark (q.after_offset + q.scan_limit)
    let cursor = take q.limit (window q q.after_offset scan_through db.changes)
    r ← fetch max_state_bytes q.max_bytes q.limit 0 false cursor
    returned (batch q scan_through r)

  -- `_changes`, with whether the deadline passes before the read is done: the read is then
  -- interrupted, and what it found is not used. Errors of SQLite itself are left out.
  unfoldable pub changes : Bool → ℕ → Query → Database F → Attempt DurableStateChangeBatch
  changes expired max_state_bytes q db =
      if expired
      then raised PersistenceError.operation_timeout
      else read_changes max_state_bytes q db

  -- A query that returns has read what it returns.
  pub changes-read_changes :
      (expired : Bool) (max_state_bytes : ℕ) (q : Query) (db : Database F)
      (b : DurableStateChangeBatch)
      → changes expired max_state_bytes q db ≡ returned b
      → read_changes max_state_bytes q db ≡ returned b
  unfolding changes
  changes-read_changes false m q db b h = h
  changes-read_changes true m q db b h = absurd (cc h)
