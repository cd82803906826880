-- ===== src/Persistence/Store/AdmissionExamples.antt =====
-- A store that is started, takes an operation of 40 bytes, and is stopped.
use movie.Common.{◌+◌, ◌≤◌, ◌≡◌, refl, true, false, some, length}
use movie.Persistence.Store.Gate.{
  Gate, new_gate, is_serving, start, complete_startup, submit, pop, complete, begin_stop,
  pass_waits, end_stop,
}
use movie.Persistence.Store.Admission
use movie.Persistence.Store.Admission.{Reachable, retained, Reachable-bounds, Reachable-idle}

abbrev small_gate : Gate
small_gate = new_gate 2 100

abbrev busy_gate : Gate
busy_gate = (submit (some 7) 40 (complete_startup true (start true small_gate).1)).1

busy-Reachable : Reachable 2 100 busy_gate
unfolding start
busy-Reachable =
    Admission.step
      (Admission.step (Admission.step Admission.created (Admission.starts true))
        (Admission.opens true refl))
      (Admission.submits (some 7) 40)

Reachable-bounds_example :
    (busy_gate.pending_bytes ≡ retained busy_gate.pending)
    × (retained busy_gate.pending ≤ 100)
    × (length busy_gate.pending + busy_gate.internal_operations ≤ 2)
Reachable-bounds_example = Reachable-bounds 2 100 busy_gate busy-Reachable

abbrev stopped_gate : Gate
stopped_gate = end_stop (pass_waits (begin_stop (complete 7 busy_gate)))

stopped-Reachable : Reachable 2 100 stopped_gate
unfolding start complete_startup submit pop complete begin_stop
stopped-Reachable =
    Admission.step
      (Admission.step
        (Admission.step (Admission.step busy-Reachable (Admission.completes 7))
          Admission.begins_stop)
        (Admission.waits refl refl))
      (Admission.ends_stop refl)

stopped_over : is_serving stopped_gate.state ≡ false
unfolding end_stop
stopped_over = refl

Reachable-idle_example : (length stopped_gate.pending ≡ 0) × (stopped_gate.connected ≡ false)
Reachable-idle_example = Reachable-idle 2 100 stopped_gate stopped-Reachable stopped_over
