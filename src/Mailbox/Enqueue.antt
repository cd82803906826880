-- ===== src/Mailbox/Enqueue.antt =====
-- `_enqueue`, `send`, `try_send` and `sendSystem` of movie/mailbox/default.py.
use movie.Common.{
  ℕ, suc, ◌+◌, not, ◌&&◌, ◌||◌, Bool, true, false, List, [], ◌∷◌, ◌++◌, leb, eqb, length,
  if◌then◌else◌,
}
use movie.Mailbox.State.{Item, Mailbox, has_no_messages}

pub data MailboxAdmissionResult : Type 0 where
  accepted stopping full : MailboxAdmissionResult

-- What a call of `_enqueue` ends with: its result, or the exception that it raises.
pub data Outcome : Type 0 where
  returned : MailboxAdmissionResult → Outcome
  raised_capacity_exceeded raised_dispatch_error : Outcome

-- What the first block under the lock decides.
pub data Admission : Type 0 where
  refused_stopping refused_full queued : Admission
  -- the entry queued, for which the mailbox has to be dispatched
  published : ℕ → Admission

-- Whether `dispatch` returned or raised.
pub data Dispatched : Type 0 where
  delivered failed : Dispatched

-- What the block decides that runs under the lock when `dispatch` has raised.
pub record RollBack : Type 0 where
  pub lifecycle_accepted : Bool
  pub publish_fallback : Bool

module _ {M : Type 0} where
  -- `target.append(item)`
  abbrev pub append_to : Bool → Item M → Mailbox M → Mailbox M
  append_to true item b = record b { messages = b.messages ++ (item ∷ []) }
  append_to false item b = record b { system_messages = b.system_messages ++ (item ∷ []) }

  abbrev pub queue_of : Bool → Mailbox M → List (Item M)
  queue_of true b = b.messages
  queue_of false b = b.system_messages

  -- The first block under the lock.
  unfoldable pub admit : Bool → Bool → M → Mailbox M → Admission × Mailbox M
  admit user_message can_process message b =
      if b.closed || (user_message && not b.accepting_user_messages)
      then (Admission.refused_stopping, b)
      else if user_message && leb b.capacity (length b.messages + b.in_flight_user_messages)
      then (Admission.refused_full, b)
      else if b.scheduled || (user_message && not can_process)
      then (Admission.queued, append_to user_message (Item.plain message) b)
      else (
        Admission.published b.next_entry,
        record (append_to user_message (Item.entry b.next_entry message) b) {
          scheduled = true;
          next_entry = suc b.next_entry;
        },
      )

  abbrev pub is_entry : ℕ → Item M → Bool
  is_entry id (Item.plain m) = false
  is_entry id (Item.entry i m) = eqb i id

  -- `next((queued for queued in target if queued is entry), None) is not None`
  abbrev pub has_entry : ℕ → List (Item M) → Bool
  has_entry id [] = false
  has_entry id (x ∷ xs) = is_entry id x || has_entry id xs

  -- `target.remove(entry)` removes the first element that `==` finds equal to it. `_Entry` is private to the
  -- module and inherits `==` by identity; a message is taken not to compare equal to one.
  abbrev pub remove_entry : ℕ → List (Item M) → List (Item M)
  remove_entry id [] = []
  remove_entry id (x ∷ xs) = let rest = remove_entry id xs in if is_entry id x then xs else x ∷ rest

  abbrev withdraw : Bool → ℕ → Mailbox M → Mailbox M
  withdraw true id b = record b { messages = remove_entry id b.messages }
  withdraw false id b = b

  unfoldable pub roll_back : Bool → ℕ → Mailbox M → RollBack × Mailbox M
  roll_back user_message id b =
      let found = has_entry id (queue_of user_message b) in
      let left = if found then withdraw user_message id b else b in
      let fallback = found && not (has_no_messages left) in
      (
        record { lifecycle_accepted = found && not user_message; publish_fallback = fallback },
        if fallback
            then record left { scheduled = true }
            else if found
            then record left { scheduled = false }
            else left,
      )

  -- `self._dispatcher.dispatch` and `dispatch_system` are the environment: they may run the
  -- mailbox inline, and other threads may change it meanwhile.
  module _ (dispatch dispatch_system : Mailbox M → Dispatched × Mailbox M) where
    -- The end of the `except` clause.
    abbrev end_roll_back : RollBack → Dispatched → Outcome
    end_roll_back r Dispatched.failed = Outcome.raised_dispatch_error
    end_roll_back r Dispatched.delivered =
        if r.lifecycle_accepted
        then Outcome.returned MailboxAdmissionResult.accepted
        else Outcome.raised_dispatch_error

    abbrev fall_back : RollBack × Mailbox M → Outcome × Mailbox M
    fall_back (r, b) =
        let (sent, after) = dispatch_system b in
        if r.publish_fallback
        then (end_roll_back r sent, after)
        else (end_roll_back r Dispatched.delivered, b)

    abbrev publish_entry : Bool → ℕ → Dispatched × Mailbox M → Outcome × Mailbox M
    publish_entry user_message id (Dispatched.delivered, b) =
        (Outcome.returned MailboxAdmissionResult.accepted, b)
    publish_entry user_message id (Dispatched.failed, b) = fall_back (roll_back user_message id b)

    abbrev conclude : Bool → Bool → Admission × Mailbox M → Outcome × Mailbox M
    conclude user_message report_full (Admission.refused_stopping, b) =
        (Outcome.returned MailboxAdmissionResult.stopping, b)
    conclude user_message report_full (Admission.refused_full, b) = (
      if report_full
          then Outcome.returned MailboxAdmissionResult.full
          else Outcome.raised_capacity_exceeded,
      b,
    )
    conclude user_message report_full (Admission.queued, b) =
        (Outcome.returned MailboxAdmissionResult.accepted, b)
    conclude user_message report_full (Admission.published id, b) =
        publish_entry user_message id (dispatch b)

    unfoldable pub enqueue : Bool → Bool → Bool → M → Mailbox M → Outcome × Mailbox M
    unfolding roll_back
    enqueue user_message report_full can_process message b =
        conclude user_message report_full (admit user_message can_process message b)

    unfoldable pub send : Bool → M → Mailbox M → Outcome × Mailbox M
    send can_process message b = enqueue true false can_process message b

    -- `except Exception: return MailboxAdmissionResult.FULL`
    abbrev caught : Outcome × Mailbox M → MailboxAdmissionResult × Mailbox M
    caught (Outcome.returned r, b) = (r, b)
    caught (_, b) = (MailboxAdmissionResult.full, b)

    unfoldable pub try_send : Bool → M → Mailbox M → MailboxAdmissionResult × Mailbox M
    try_send can_process message b = caught (enqueue true true can_process message b)

    unfoldable pub send_system : Bool → M → Mailbox M → Outcome × Mailbox M
    send_system can_process message b = enqueue false false can_process message b
