-- ===== src/Mailbox/Examples.antt =====
-- A mailbox of two messages, run step by step.
use movie.Common.{ℕ, ◌≡◌, refl, true, false, ◌||◌, ◌⊎◌, [], ◌∷◌, ◌++◌, none, some}
use movie.Mailbox.State.{Item, Mailbox, new_mailbox}
use movie.Mailbox.Enqueue.{
  Admission, MailboxAdmissionResult, Outcome, Dispatched, admit, roll_back, enqueue, try_send, send,
  queue_of,
}
use movie.Mailbox.Run.{Batch, take_batch, restore_batch}
use movie.Mailbox.Machine
use movie.Mailbox.Machine.{Phase, Machine, Reachable}
use movie.Mailbox.Fifo.{
  contents, refuses, is_refusal, restore_batch-take_batch, admit-cases, roll_back-admit,
}

abbrev empty : Mailbox ℕ
empty = record {
  capacity = 2;
  throughput = 2;
  messages = [];
  system_messages = [];
  in_flight_user_messages = 0;
  scheduled = false;
  running = false;
  inline_run_requested = false;
  accepting_user_messages = true;
  closed = false;
  next_entry = 0;
}

abbrev one : Mailbox ℕ
one = record empty { messages = Item.entry 0 10 ∷ []; scheduled = true; next_entry = 1 }

abbrev two : Mailbox ℕ
two = record one { messages = Item.entry 0 10 ∷ Item.plain 11 ∷ [] }

abbrev running : Mailbox ℕ
running = record two { messages = []; in_flight_user_messages = 2 }

abbrev both : Batch ℕ
both = record { system = false; messages = 10 ∷ 11 ∷ [] }

-- A third message, which fits as soon as one of the two is processed.
abbrev later : Mailbox ℕ
later = record running { messages = Item.plain 12 ∷ [] }

-- A dispatcher that takes every mailbox, and one that takes none.
abbrev willing : Mailbox ℕ → Dispatched × Mailbox ℕ
willing b = (Dispatched.delivered, b)

abbrev unwilling : Mailbox ℕ → Dispatched × Mailbox ℕ
unwilling b = (Dispatched.failed, b)

starts : new_mailbox 2 2 ≡ some empty
unfolding new_mailbox
starts = refl

no_capacity : new_mailbox {M = ℕ} 0 2 ≡ none
unfolding new_mailbox
no_capacity = refl

admits_first : admit true true 10 empty ≡ (Admission.published 0, one)
unfolding admit
admits_first = refl

takes_both : take_batch true two ≡ (some both, running)
unfolding take_batch
takes_both = refl

full_raises : send willing willing true 12 two ≡ (Outcome.raised_capacity_exceeded, two)
unfolding send enqueue admit
full_raises = refl

full_reports : try_send willing willing true 12 two ≡ (MailboxAdmissionResult.full, two)
unfolding try_send enqueue admit
full_reports = refl

-- Nothing is left of a message that no dispatcher takes, except that its number is used up.
withdrawn :
    try_send unwilling unwilling true 10 empty
    ≡ (MailboxAdmissionResult.full, record empty { next_entry = 1 })
unfolding try_send enqueue admit roll_back
withdrawn = refl

-- The actor processes 10 and suspends itself, while 12 arrives.
restore_batch-take_batch_example :
    ((10 ∷ []) ++ contents (restore_batch false (11 ∷ []) later).messages ≡ 10 ∷ 11 ∷ 12 ∷ [])
    × (false ≡ false → (two.system_messages ≡ []) × (true ≡ true))
restore_batch-take_batch_example =
    restore_batch-take_batch true two running later both (10 ∷ []) (11 ∷ []) (Item.plain 12 ∷ [])
      takes_both refl refl refl

admit-cases_example :
    ((is_refusal (admit true true 12 two).0 ≡ true)
      × ((admit true true 12 two).1 ≡ two)
      × (refuses true two ≡ true))
    ⊎ ((is_refusal (admit true true 12 two).0 ≡ false)
        × (contents (queue_of true (admit true true 12 two).1) ≡ 10 ∷ 11 ∷ 12 ∷ [])
        × (queue_of false (admit true true 12 two).1 ≡ [])
        × (((admit true true 12 two).1.scheduled || false) ≡ true)
        × (refuses true two ≡ false))
admit-cases_example = admit-cases true true 12 two

roll_back-admit_example :
    ((roll_back true 0 one).1.messages ≡ [])
    × ((roll_back true 0 one).1.system_messages ≡ [])
    × ((roll_back true 0 one).1.in_flight_user_messages ≡ 0)
    × ((roll_back true 0 one).1.scheduled ≡ false)
    × ((roll_back true 0 one).0.publish_fallback ≡ false)
roll_back-admit_example =
    roll_back-admit 2 2 true 10 empty one Phase.idle 0 (Machine.starts starts) admits_first
