-- ===== src/Mailbox/Reachable.antt =====
-- The invariant of the machine, by induction on the steps that lead to a state.
use movie.Common.{ℕ, ◌≡◌, refl, sym, subst, Bool, true, false, arith, Option, none, some}
use movie.Mailbox.State.{Mailbox, new_mailbox, close, stop_user_messages}
use movie.Mailbox.Enqueue.{admit, roll_back}
use movie.Mailbox.Run.{
  Batch, begin_run, take_batch, restore_batch, check_more, take_inline, drop_in_flight,
  recover_failed, end_run,
}
use movie.Mailbox.Machine
use movie.Mailbox.Machine.{Phase, Machine, ◌at◌, ◌⟶◌, Reachable, when, chosen}
use movie.Mailbox.Invariant.{
  IsBounded, held_size, held_by, SameQueues, SameQueues-IsBounded, admit-IsBounded,
  roll_back-IsBounded, close-IsBounded, stop_user_messages-IsBounded, drop_in_flight-IsBounded,
  release-IsBounded, take_batch-IsBounded, restore_batch-IsBounded, begin_run-SameQueues,
  check_more-SameQueues, recover_failed-SameQueues, take_inline-SameQueues, end_run-SameQueues,
}

abbrev pub is_running : {M : Type 0} → Phase M → Bool
is_running Phase.idle = false
is_running _ = true

-- The messages of the mailbox that the running thread holds.
abbrev pub held : {M : Type 0} → Phase M → ℕ
held (Phase.invoking batch) = held_size batch
held _ = 0

abbrev pub IsSound : {M : Type 0} → ℕ → Machine M → Type 0
IsSound capacity (b at p) = IsBounded capacity (held p) b × (b.running ≡ is_running p)

module _ {M : Type 0} (capacity : ℕ) where
  when-held : (t : Bool) (p q : Phase M) → held p ≡ 0 → held q ≡ 0 → held (when t p q) ≡ 0
  when-held true p q h k = h
  when-held false p q h k = k

  -- A block that changes only flags, whatever the thread goes on to.
  flags-IsBounded :
      (b c : Mailbox M) (t : Bool) (p q : Phase M)
      → SameQueues b c
      → held p ≡ 0
      → held q ≡ 0
      → IsBounded capacity 0 b
      → IsBounded capacity (held (when t p q)) c
  flags-IsBounded b c t p q same zero zero' h =
      subst (λ n. IsBounded capacity n c) (sym (when-held t p q zero zero'))
        (SameQueues-IsBounded capacity 0 b c same h)

  chosen-held : (o : Option (Batch M)) → held_by o ≡ held (chosen o)
  chosen-held none = refl
  chosen-held (some batch) = refl

  new_mailbox-IsSound :
      (throughput : ℕ) (b : Mailbox M)
      → new_mailbox capacity throughput ≡ some b
      → IsSound capacity (b at Phase.idle)
  unfolding new_mailbox
  new_mailbox-IsSound throughput b h = (
    record {
      same_capacity = ground arith;
      within_capacity = ground arith;
      held_in_flight = ground arith;
      closed_messages = ground arith;
      closed_system = ground arith;
      closed_accepting = ground arith;
    },
    ground arith,
  )

  -- Every step keeps the invariant.
  step-IsSound : (s t : Machine M) → s ⟶ t → IsSound capacity s → IsSound capacity t
  unfolding admit roll_back close stop_user_messages begin_run take_batch restore_batch check_more
      take_inline drop_in_flight recover_failed end_run
  step-IsSound _ _ (Machine.admits {b} {p} u can m) (h, r) =
      (admit-IsBounded capacity (held p) b u can m h, ground (arith, r))
  step-IsSound _ _ (Machine.rolls_back {b} {p} u id) (h, r) =
      (roll_back-IsBounded capacity (held p) b u id h, ground (arith, r))
  step-IsSound _ _ (Machine.closes {b} {p}) (h, r) = (close-IsBounded capacity (held p) b h, r)
  step-IsSound _ _ (Machine.stops {b} {p}) (h, r) =
      (stop_user_messages-IsBounded capacity (held p) b h, r)
  step-IsSound _ _ (Machine.begins {b}) (h, r) = (
    flags-IsBounded b _ _ Phase.choosing Phase.idle (begin_run-SameQueues b) refl refl h,
    ground (arith, r),
  )
  step-IsSound _ _ (Machine.requests {b} {p} e) (h, r) =
      (SameQueues-IsBounded capacity (held p) b _ (begin_run-SameQueues b) h, ground (arith, r, e))
  step-IsSound _ _ (Machine.takes {b} can) (h, r) = (
    subst (λ n. IsBounded capacity n (take_batch can b).1) (chosen-held (take_batch can b).0)
        (take_batch-IsBounded capacity 0 b can h),
    ground (arith, r),
  )
  step-IsSound _ _ (Machine.processes {b} {batch} remaining short) (h, r) =
      (restore_batch-IsBounded capacity 0 b batch remaining short h, ground (arith, r))
  step-IsSound _ _ (Machine.batch_fails {b} {batch} remaining short) (h, r) =
      (restore_batch-IsBounded capacity 0 b batch remaining short h, ground (arith, r))
  step-IsSound _ _ (Machine.raises {b} {batch}) (h, r) =
      (release-IsBounded capacity (held_size batch) b h, r)
  step-IsSound _ _ (Machine.checks {b} can) (h, r) = (
    flags-IsBounded b _ _ Phase.offering Phase.ending (check_more-SameQueues b can) refl refl h,
    ground (arith, r),
  )
  step-IsSound _ _ Machine.offers (h, r) = (h, r)
  step-IsSound _ _ Machine.offer_refused (h, r) = (h, r)
  step-IsSound _ _ Machine.offer_raises (h, r) = (h, r)
  step-IsSound _ _ (Machine.ran_inline {b}) (h, r) = (
    flags-IsBounded b _ _ Phase.choosing Phase.ending (take_inline-SameQueues b) refl refl h,
    ground (arith, r),
  )
  step-IsSound _ _ (Machine.drops {b}) (h, r) = (drop_in_flight-IsBounded capacity 0 b h, r)
  step-IsSound _ _ (Machine.recovers {b} can) (h, r) = (
    flags-IsBounded b _ _ Phase.republishing Phase.ending (check_more-SameQueues b can) refl refl h,
    ground (arith, r),
  )
  step-IsSound _ _ Machine.republishes (h, r) = (h, r)
  step-IsSound _ _ (Machine.republish_fails {b}) (h, r) = (
    flags-IsBounded b _ _ Phase.rescuing Phase.ending (recover_failed-SameQueues b) refl refl h,
    ground (arith, r),
  )
  step-IsSound _ _ Machine.rescues (h, r) = (h, r)
  step-IsSound _ _ Machine.rescue_raises (h, r) = (h, r)
  step-IsSound _ _ (Machine.ends {b}) (h, r) = (
    flags-IsBounded b _ _ Phase.choosing Phase.idle (end_run-SameQueues b) refl refl h,
    ground (arith, r),
  )

  pub Reachable-IsSound :
      (throughput : ℕ) (s : Machine M) → Reachable capacity throughput s → IsSound capacity s
  Reachable-IsSound throughput _ (Machine.starts {b} e) = new_mailbox-IsSound throughput b e
  Reachable-IsSound throughput _ (Machine.steps {s} {t} reached step) =
      step-IsSound s t step (Reachable-IsSound throughput s reached)
