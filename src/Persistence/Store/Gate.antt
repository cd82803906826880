-- ===== src/Persistence/Store/Gate.antt =====
-- The states of the store of movie/persistence/sqlite.py and the operations that it admits: `start`,
-- `_submit`, `_projection_operation` and `stop`. Each function is a block under the store's condition.
use movie.Common.{
  ℕ, suc, ◌+◌, ◌-◌, Bool, true, false, not, ◌&&◌, List, [], ◌∷◌, Option, none, some, eqb, leb, ltb,
  length, is_empty, if◌then◌else◌,
}
use movie.Persistence.Errors.{PersistenceError, Attempt, returned, raised}

-- `_State`
pub data StoreState : Type 0 where
  new starting running stopping stopped : StoreState

-- Whether `_startup` is a future, and `_startup_settled`.
pub data Startup : Type 0 where
  not_begun in_progress settled : Startup

pub record Gate : Type 0 where
  pub operation_capacity : ℕ
  pub pending_byte_capacity : ℕ
  pub state : StoreState
  pub startup : Startup
  pub connected : Bool
  -- the futures of the worker, each a number, with the bytes they retain
  pub pending : List (ℕ × ℕ)
  pub internal_operations : ℕ
  pub pending_bytes : ℕ
  -- whether a thread in `_stop_before` has passed its waits
  pub drained : Bool

abbrev pub new_gate : ℕ → ℕ → Gate
new_gate operation_capacity pending_byte_capacity = record {
  operation_capacity = operation_capacity;
  pending_byte_capacity = pending_byte_capacity;
  state = StoreState.new;
  startup = Startup.not_begun;
  connected = false;
  pending = [];
  internal_operations = 0;
  pending_bytes = 0;
  drained = false;
}

abbrev pub is_new : StoreState → Bool
is_new StoreState.new = true
is_new _ = false

abbrev pub is_running : StoreState → Bool
is_running StoreState.running = true
is_running _ = false

-- `self._state in (_State.RUNNING, _State.STOPPING)`
abbrev pub is_serving : StoreState → Bool
is_serving StoreState.running = true
is_serving StoreState.stopping = true
is_serving _ = false

abbrev is_settled : Startup → Bool
is_settled Startup.in_progress = false
is_settled _ = true

-- The first block of `start`, with whether the worker takes the coroutine.
unfoldable pub start : Bool → Gate → Attempt (Unit {0}) × Gate
start accepts g =
    if not (is_new g.state)
    then (raised PersistenceError.not_running, g)
    else if accepts
    then (returned tt, record g { state = StoreState.starting; startup = Startup.in_progress })
    else (raised PersistenceError.not_running, record g { state = StoreState.stopped })

abbrev started : StoreState → StoreState
started StoreState.starting = StoreState.running
started s = s

abbrev not_started : StoreState → StoreState
not_started StoreState.starting = StoreState.stopped
not_started s = s

-- `_complete_startup`, with whether the file was opened.
unfoldable pub complete_startup : Bool → Gate → Gate
complete_startup true g = record g {
  state = started g.state;
  startup = Startup.settled;
  connected = true;
}
complete_startup false g = record g { state = not_started g.state; startup = Startup.settled }

-- The block of `_submit`, with the future that the worker gives, if it does.
unfoldable pub submit : Option ℕ → ℕ → Gate → Attempt (Unit {0}) × Gate
submit source retained_bytes g =
    if not (is_running g.state)
    then (raised PersistenceError.not_running, g)
    else if leb g.operation_capacity (length g.pending + g.internal_operations)
    then (raised PersistenceError.capacity_exceeded, g)
    else if ltb g.pending_byte_capacity (g.pending_bytes + retained_bytes)
    then (raised PersistenceError.capacity_exceeded, g)
    else elim source [
      | none ↦ (raised PersistenceError.capacity_exceeded, g)
      | some future ↦ (
        returned tt,
        record g {
          pending = (future, retained_bytes) ∷ g.pending;
          pending_bytes = g.pending_bytes + retained_bytes;
        },
      )
    ]

-- `self._pending.pop(source, 0)`: what it returns and what it leaves.
unfoldable pub pop : ℕ → List (ℕ × ℕ) → ℕ × List (ℕ × ℕ)
pop source [] = (0, [])
pop source ((future, bytes) ∷ rest) =
    let (found, left) = pop source rest in
    if eqb future source then (bytes, rest) else (found, (future, bytes) ∷ left)

-- The block of `complete` in `_submit`.
unfoldable pub complete : ℕ → Gate → Gate
complete source g = record g {
  pending = (pop source g.pending).1;
  pending_bytes = g.pending_bytes - (pop source g.pending).0;
}

-- The blocks of `_projection_operation`, before and after the operation.
unfoldable pub enter_operation : Gate → Attempt (Unit {0}) × Gate
enter_operation g =
    if not (is_serving g.state)
    then (raised PersistenceError.not_running, g)
    else if leb g.operation_capacity (length g.pending + g.internal_operations)
    then (raised PersistenceError.capacity_exceeded, g)
    else (returned tt, record g { internal_operations = suc g.internal_operations })

unfoldable pub leave_operation : Gate → Gate
leave_operation g = record g { internal_operations = g.internal_operations - 1 }

abbrev stopping_from : StoreState → StoreState
stopping_from StoreState.starting = StoreState.stopping
stopping_from StoreState.running = StoreState.stopping
stopping_from s = s

-- `prepare_stop`
unfoldable pub prepare_stop : Gate → Gate
prepare_stop g = record g { state = stopping_from g.state }

abbrev ending : StoreState → StoreState
ending StoreState.stopped = StoreState.stopped
ending StoreState.new = StoreState.stopped
ending s = StoreState.stopping

-- The first block of `_stop_before`, up to its waits.
unfoldable pub begin_stop : Gate → Gate
begin_stop g = record g { state = ending g.state }

-- Whether the waits of `_stop_before` are over.
abbrev pub is_quiet : Gate → Bool
is_quiet g = is_settled g.startup && is_empty g.pending && eqb g.internal_operations 0

abbrev pub pass_waits : Gate → Gate
pass_waits g = record g { drained = true }

-- The last block of `_stop_before`.
unfoldable pub end_stop : Gate → Gate
end_stop g = record g { connected = false; state = StoreState.stopped }
