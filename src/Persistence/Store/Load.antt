-- ===== src/Persistence/Store/Load.antt =====
-- `_load` of movie/persistence/sqlite.py.
use movie.Common.{
  ℕ, Bool, true, false, Option, none, some, Option-cases, ltb, ◌≡◌, arith, if◌then◌else◌,
}
use movie.Persistence.Errors.{PersistenceError, Attempt, returned, raised}
use movie.Persistence.Model.{PersistenceId, DurableStateRecord}
use movie.Persistence.Store.Tables.{Database, find_state}
use movie.Persistence.Store.Feed.{state_bytes}

abbrev load_found : ℕ → Option DurableStateRecord → Attempt (Option DurableStateRecord)
load_found max_state_bytes none = returned none
load_found max_state_bytes (some r) =
    if ltb max_state_bytes (state_bytes r.content)
    then raised PersistenceError.capacity_exceeded
    else returned (some r)

-- `_load`, with whether its deadline passes.
unfoldable pub load :
    {F : Type 0} → ℕ → Bool → PersistenceId → Database F → Attempt (Option DurableStateRecord)
load max_state_bytes expired id db =
    if expired
    then raised PersistenceError.operation_timeout
    else load_found max_state_bytes (find_state id db.states)

pub load-returned :
    {F : Type 0} (max_state_bytes : ℕ) (expired : Bool) (id : PersistenceId) (db : Database F)
    → (found : Option DurableStateRecord) → load max_state_bytes expired id db ≡ returned found
    → found ≡ find_state id db.states
unfolding load
load-returned max_state_bytes true id db found h = absurd (cc h)
load-returned max_state_bytes false id db found h =
    ground (arith, h, Option-cases (find_state id db.states))
