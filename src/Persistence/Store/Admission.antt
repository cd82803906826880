-- ===== src/Persistence/Store/Admission.antt =====
-- The store of movie/persistence/sqlite.py under its threads: what it admits, and what is left when it
-- has stopped.
use movie.Common.{ℕ, ◌+◌, ◌≤◌, ◌<◌, ◌≡◌, Bool, true, false, List, [], ◌∷◌, Option, length, arith}
use movie.Persistence.Store.Gate.{
  StoreState, Startup, Gate, new_gate, is_new, is_running, is_serving, start, complete_startup,
  submit, pop, complete, enter_operation, leave_operation, prepare_stop, begin_stop, is_quiet,
  pass_waits, end_stop,
}

-- The blocks, where the code can run them: the startup completes once, an operation that leaves has
-- entered, and `_stop_before` runs its blocks in turn.
infix 3 ◌⟶◌
pub data ◌⟶◌ (g : Gate) : Gate → Type 0 where
  starts : (accepts : Bool) → g ⟶ (start accepts g).1
  opens : (opened : Bool) → g.startup ≡ Startup.in_progress → g ⟶ complete_startup opened g
  submits : (source : Option ℕ) (retained_bytes : ℕ) → g ⟶ (submit source retained_bytes g).1
  completes : (source : ℕ) → g ⟶ complete source g
  enters : g ⟶ (enter_operation g).1
  leaves : 0 < g.internal_operations → g ⟶ leave_operation g
  prepares_stop : g ⟶ prepare_stop g
  begins_stop : g ⟶ begin_stop g
  waits : g.state ≡ StoreState.stopping → is_quiet g ≡ true → g ⟶ pass_waits g
  ends_stop : g.drained ≡ true → g ⟶ end_stop g

pub data Reachable (operation_capacity pending_byte_capacity : ℕ) : Gate → Type 0 where
  created :
      Reachable operation_capacity pending_byte_capacity
        (new_gate operation_capacity pending_byte_capacity)
  step :
      {g h : Gate}
      → Reachable operation_capacity pending_byte_capacity g
      → g ⟶ h
      → Reachable operation_capacity pending_byte_capacity h

-- The bytes that the pending operations retain.
unfoldable pub retained : List (ℕ × ℕ) → ℕ
retained [] = 0
retained ((future, bytes) ∷ rest) = bytes + retained rest

pop-retained :
    (source : ℕ) (pending : List (ℕ × ℕ))
    → ((pop source pending).0 + retained (pop source pending).1 ≡ retained pending)
      × (length (pop source pending).1 ≤ length pending)
unfolding pop retained
pop-retained source [] = ground arith
pop-retained source ((future, bytes) ∷ rest) = ground (arith, pop-retained source rest)

abbrev is_opening : StoreState → Bool
is_opening StoreState.starting = true
is_opening StoreState.stopping = true
is_opening _ = false

abbrev in_progress : Startup → Bool
in_progress Startup.in_progress = true
in_progress _ = false

-- What holds between any two blocks.
abbrev pub IsAdmitted : ℕ → ℕ → Gate → Type 0
IsAdmitted operation_capacity pending_byte_capacity g =
    (g.operation_capacity ≡ operation_capacity)
    × (g.pending_byte_capacity ≡ pending_byte_capacity)
    × (g.pending_bytes ≡ retained g.pending)
    × (g.pending_bytes ≤ pending_byte_capacity)
    × (length g.pending + g.internal_operations ≤ operation_capacity)
    × (is_serving g.state ≡ false → length g.pending ≡ 0)
    × (is_serving g.state ≡ false → g.connected ≡ false)
    × (g.drained ≡ true → length g.pending ≡ 0)
    × (g.drained ≡ true → is_running g.state ≡ false)
    × (g.drained ≡ true → is_new g.state ≡ false)
    × (in_progress g.startup ≡ true → is_opening g.state ≡ true)
    × (in_progress g.startup ≡ true → g.drained ≡ false)

start-IsAdmitted :
    (oc bc : ℕ) (g : Gate) (accepts : Bool)
    → IsAdmitted oc bc g
    → IsAdmitted oc bc (start accepts g).1
unfolding start
start-IsAdmitted oc bc g accepts i = ground (arith)

complete_startup-IsAdmitted :
    (oc bc : ℕ) (g : Gate) (opened : Bool)
    → IsAdmitted oc bc g
    → g.startup ≡ Startup.in_progress
    → IsAdmitted oc bc (complete_startup opened g)
unfolding complete_startup
complete_startup-IsAdmitted oc bc g opened i e = ground (arith)

submit-IsAdmitted :
    (oc bc : ℕ) (g : Gate) (source : Option ℕ) (retained_bytes : ℕ)
    → IsAdmitted oc bc g
    → IsAdmitted oc bc (submit source retained_bytes g).1
unfolding submit retained
submit-IsAdmitted oc bc g source retained_bytes i = ground (arith)

complete-IsAdmitted :
    (oc bc : ℕ) (g : Gate) (source : ℕ) → IsAdmitted oc bc g → IsAdmitted oc bc (complete source g)
unfolding complete
complete-IsAdmitted oc bc g source i = ground (arith, pop-retained source g.pending)

enter_operation-IsAdmitted :
    (oc bc : ℕ) (g : Gate) → IsAdmitted oc bc g → IsAdmitted oc bc (enter_operation g).1
unfolding enter_operation
enter_operation-IsAdmitted oc bc g i = ground (arith)

leave_operation-IsAdmitted :
    (oc bc : ℕ) (g : Gate)
    → IsAdmitted oc bc g
    → 0 < g.internal_operations
    → IsAdmitted oc bc (leave_operation g)
unfolding leave_operation
leave_operation-IsAdmitted oc bc g i e = ground (arith)

prepare_stop-IsAdmitted :
    (oc bc : ℕ) (g : Gate) → IsAdmitted oc bc g → IsAdmitted oc bc (prepare_stop g)
unfolding prepare_stop
prepare_stop-IsAdmitted oc bc g i = ground (arith)

begin_stop-IsAdmitted :
    (oc bc : ℕ) (g : Gate) → IsAdmitted oc bc g → IsAdmitted oc bc (begin_stop g)
unfolding begin_stop
begin_stop-IsAdmitted oc bc g i = ground (arith)

pass_waits-IsAdmitted :
    (oc bc : ℕ) (g : Gate)
    → IsAdmitted oc bc g
    → g.state ≡ StoreState.stopping
    → is_quiet g ≡ true
    → IsAdmitted oc bc (pass_waits g)
pass_waits-IsAdmitted oc bc g i e q = ground (arith)

end_stop-IsAdmitted :
    (oc bc : ℕ) (g : Gate) → IsAdmitted oc bc g → g.drained ≡ true → IsAdmitted oc bc (end_stop g)
unfolding end_stop
end_stop-IsAdmitted oc bc g i e = ground (arith)

step-IsAdmitted : (oc bc : ℕ) (g h : Gate) → g ⟶ h → IsAdmitted oc bc g → IsAdmitted oc bc h
step-IsAdmitted oc bc g _ (starts accepts) i = start-IsAdmitted oc bc g accepts i
step-IsAdmitted oc bc g _ (opens opened e) i = complete_startup-IsAdmitted oc bc g opened i e
step-IsAdmitted oc bc g _ (submits source bytes) i = submit-IsAdmitted oc bc g source bytes i
step-IsAdmitted oc bc g _ (completes source) i = complete-IsAdmitted oc bc g source i
step-IsAdmitted oc bc g _ enters i = enter_operation-IsAdmitted oc bc g i
step-IsAdmitted oc bc g _ (leaves e) i = leave_operation-IsAdmitted oc bc g i e
step-IsAdmitted oc bc g _ prepares_stop i = prepare_stop-IsAdmitted oc bc g i
step-IsAdmitted oc bc g _ begins_stop i = begin_stop-IsAdmitted oc bc g i
step-IsAdmitted oc bc g _ (waits e q) i = pass_waits-IsAdmitted oc bc g i e q
step-IsAdmitted oc bc g _ (ends_stop e) i = end_stop-IsAdmitted oc bc g i e

Reachable-IsAdmitted : (oc bc : ℕ) (g : Gate) → Reachable oc bc g → IsAdmitted oc bc g
unfolding retained
Reachable-IsAdmitted oc bc _ created = ground arith
Reachable-IsAdmitted oc bc _ (step {g} {h} before s) =
    step-IsAdmitted oc bc g h s (Reachable-IsAdmitted oc bc g before)

-- Whatever the threads of the store do: the bytes that are counted as pending are those of the pending
-- operations and at most the configured capacity, and the pending operations together with those of
-- projections are at most as many as configured.
pub Reachable-bounds :
    (operation_capacity pending_byte_capacity : ℕ) (g : Gate)
    → Reachable operation_capacity pending_byte_capacity g
    → (g.pending_bytes ≡ retained g.pending)
      × (retained g.pending ≤ pending_byte_capacity)
      × (length g.pending + g.internal_operations ≤ operation_capacity)
Reachable-bounds operation_capacity pending_byte_capacity g reachable =
    ground (arith, Reachable-IsAdmitted operation_capacity pending_byte_capacity g reachable)

-- A store that is neither running nor stopping, so one that has stopped, has no operation that was
-- submitted and is not complete, and no connection.
pub Reachable-idle :
    (operation_capacity pending_byte_capacity : ℕ) (g : Gate)
    → Reachable operation_capacity pending_byte_capacity g
    → is_serving g.state ≡ false
    → (length g.pending ≡ 0) × (g.connected ≡ false)
Reachable-idle operation_capacity pending_byte_capacity g reachable over =
    ground (arith, Reachable-IsAdmitted operation_capacity pending_byte_capacity g reachable)
