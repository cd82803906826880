-- ===== src/Mailbox/Invariant.antt =====
-- What holds of `DefaultMailbox` in every state that its threads can bring it to.
use movie.Common.{
  ℕ, ◌+◌, ◌≤◌, ◌≡◌, refl, sym, ◌∙◌, Bool, true, false, ◌⊎◌, inl, inr, List, [], ◌∷◌, Option, none,
  some, if◌then◌else◌, map, length, length-append, length-drop, length-take, take, min, arith,
}
use movie.Mailbox.State.{Item, Mailbox, message_of, close, stop_user_messages}
use movie.Mailbox.Enqueue.{admit, roll_back, remove_entry}
use movie.Mailbox.Run.{
  Batch, begin_run, take_batch, restore_batch, check_more, take_inline, drop_in_flight,
  recover_failed, end_run,
}

-- The mailbox keeps its capacity, also for a thread that holds so many messages of it; once it is
-- closed it holds none.
pub record IsBounded {M : Type 0} (capacity held : ℕ) (b : Mailbox M) : Type 0 where
  pub same_capacity : b.capacity ≡ capacity
  pub within_capacity : length b.messages + b.in_flight_user_messages ≤ capacity
  pub held_in_flight : (b.closed ≡ true) ⊎ (held ≤ b.in_flight_user_messages)
  pub closed_messages : b.closed ≡ true → b.messages ≡ []
  pub closed_system : b.closed ≡ true → b.system_messages ≡ []
  pub closed_accepting : b.closed ≡ true → b.accepting_user_messages ≡ false

abbrev pub held_size : {M : Type 0} → Batch M → ℕ
held_size batch = if batch.system then 0 else length batch.messages

abbrev pub held_by : {M : Type 0} → Option (Batch M) → ℕ
held_by none = 0
held_by (some batch) = held_size batch

length-map : {A B : Type 0} (f : A → B) (xs : List A) → length (map f xs) ≡ length xs
length-map f [] = refl
length-map f (x ∷ xs) = omega (arith, length-map f xs)

module _ {M : Type 0} (capacity held : ℕ) (b : Mailbox M) where
  pub admit-IsBounded :
      (u can : Bool) (m : M)
      → IsBounded capacity held b
      → IsBounded capacity held (admit u can m b).1
  unfolding admit
  admit-IsBounded u can m h = record {
    same_capacity = ground (arith, h.same_capacity);
    within_capacity = ground (
      arith,
      h.same_capacity,
      h.within_capacity,
      length-append b.messages (Item.plain m ∷ []),
      length-append b.messages (Item.entry b.next_entry m ∷ []),
    );
    held_in_flight = ground (arith, h.held_in_flight);
    closed_messages = ground (arith, h.closed_messages);
    closed_system = ground (arith, h.closed_system);
    closed_accepting = ground (arith, h.closed_accepting);
  }

  pub restore_batch-IsBounded :
      (batch : Batch M) (remaining : List M)
      → length remaining ≤ length batch.messages
      → IsBounded capacity (held_size batch) b
      → IsBounded capacity 0 (restore_batch batch.system remaining b)
  unfolding restore_batch
  restore_batch-IsBounded batch remaining short h = record {
    same_capacity = ground (arith, h.same_capacity);
    within_capacity = ground (
      arith,
      h.held_in_flight,
      h.within_capacity,
      length-append (map Item.plain remaining) b.messages,
      length-map {B = Item M} Item.plain remaining,
    );
    held_in_flight = inr (omega arith);
    closed_messages = ground (arith, h.closed_messages);
    closed_system = ground (arith, h.closed_system);
    closed_accepting = ground (arith, h.closed_accepting);
  }

  pub take_batch-IsBounded :
      (can : Bool)
      → IsBounded capacity 0 b
      → IsBounded capacity (held_by (take_batch can b).0) (take_batch can b).1
  unfolding take_batch
  take_batch-IsBounded can h =
      let n = min b.throughput (length b.messages) in
      record {
        same_capacity = ground (arith, h.same_capacity);
        within_capacity =
            ground (arith, h.within_capacity, length-drop n b.messages, length-take n b.messages);
        held_in_flight =
            ground (arith, h.held_in_flight, length-map message_of (take n b.messages));
        closed_messages = ground (arith, h.closed_messages);
        closed_system = ground (arith, h.closed_system);
        closed_accepting = ground (arith, h.closed_accepting);
      }

  length-remove_entry : (id : ℕ) (xs : List (Item M)) → length (remove_entry id xs) ≤ length xs
  length-remove_entry id [] = omega arith
  length-remove_entry id (x ∷ xs) = ground (arith, length-remove_entry id xs)

  pub roll_back-IsBounded :
      (u : Bool) (id : ℕ) → IsBounded capacity held b → IsBounded capacity held (roll_back u id b).1
  unfolding roll_back
  roll_back-IsBounded u id h = record {
    same_capacity = ground (arith, h.same_capacity);
    within_capacity = ground (arith, h.within_capacity, length-remove_entry id b.messages);
    held_in_flight = ground (arith, h.held_in_flight);
    closed_messages = ground (arith, h.closed_messages);
    closed_system = ground (arith, h.closed_system);
    closed_accepting = ground (arith, h.closed_accepting);
  }

  pub close-IsBounded : IsBounded capacity held b → IsBounded capacity held (close b)
  unfolding close
  close-IsBounded h = record {
    same_capacity = h.same_capacity;
    within_capacity = omega arith;
    held_in_flight = inl refl;
    closed_messages = λ _. refl;
    closed_system = λ _. refl;
    closed_accepting = λ _. refl;
  }

  pub stop_user_messages-IsBounded :
      IsBounded capacity held b → IsBounded capacity held (stop_user_messages b).1
  unfolding stop_user_messages
  stop_user_messages-IsBounded h = record {
    same_capacity = h.same_capacity;
    within_capacity = omega (arith, h.within_capacity);
    held_in_flight = h.held_in_flight;
    closed_messages = λ _. refl;
    closed_system = h.closed_system;
    closed_accepting = λ _. refl;
  }

  pub drop_in_flight-IsBounded : IsBounded capacity 0 b → IsBounded capacity 0 (drop_in_flight b)
  unfolding drop_in_flight
  drop_in_flight-IsBounded h = record {
    same_capacity = h.same_capacity;
    within_capacity = omega (arith, h.within_capacity);
    held_in_flight = inr (omega arith);
    closed_messages = h.closed_messages;
    closed_system = h.closed_system;
    closed_accepting = h.closed_accepting;
  }

  -- The thread drops what it holds.
  pub release-IsBounded : IsBounded capacity held b → IsBounded capacity 0 b
  release-IsBounded h = record {
    same_capacity = h.same_capacity;
    within_capacity = h.within_capacity;
    held_in_flight = inr (omega arith);
    closed_messages = h.closed_messages;
    closed_system = h.closed_system;
    closed_accepting = h.closed_accepting;
  }

-- The other blocks change only flags.
pub record SameQueues {M : Type 0} (b c : Mailbox M) : Type 0 where
  pub capacity : c.capacity ≡ b.capacity
  pub messages : c.messages ≡ b.messages
  pub system_messages : c.system_messages ≡ b.system_messages
  pub in_flight : c.in_flight_user_messages ≡ b.in_flight_user_messages
  pub accepting : c.accepting_user_messages ≡ b.accepting_user_messages
  pub closed : c.closed ≡ b.closed

pub SameQueues-IsBounded :
    {M : Type 0} (capacity held : ℕ) (b c : Mailbox M)
    → SameQueues b c
    → IsBounded capacity held b
    → IsBounded capacity held c
SameQueues-IsBounded capacity held b c s h = record {
  same_capacity = s.capacity ∙ h.same_capacity;
  within_capacity = rw (s.messages, s.in_flight) h.within_capacity;
  held_in_flight = rw (s.closed, s.in_flight) h.held_in_flight;
  closed_messages = λ e. s.messages ∙ h.closed_messages (sym s.closed ∙ e);
  closed_system = λ e. s.system_messages ∙ h.closed_system (sym s.closed ∙ e);
  closed_accepting = λ e. s.accepting ∙ h.closed_accepting (sym s.closed ∙ e);
}

module _ {M : Type 0} (b : Mailbox M) where
  pub begin_run-SameQueues : SameQueues b (begin_run b).1
  unfolding begin_run
  begin_run-SameQueues = record {
    capacity = ground arith;
    messages = ground arith;
    system_messages = ground arith;
    in_flight = ground arith;
    accepting = ground arith;
    closed = ground arith;
  }

  pub check_more-SameQueues : (can : Bool) → SameQueues b (check_more can b).1
  unfolding check_more
  check_more-SameQueues can = record {
    capacity = ground arith;
    messages = ground arith;
    system_messages = ground arith;
    in_flight = ground arith;
    accepting = ground arith;
    closed = ground arith;
  }

  pub recover_failed-SameQueues : SameQueues b (recover_failed b).1
  unfolding recover_failed
  recover_failed-SameQueues = record {
    capacity = ground arith;
    messages = ground arith;
    system_messages = ground arith;
    in_flight = ground arith;
    accepting = ground arith;
    closed = ground arith;
  }

  pub take_inline-SameQueues : SameQueues b (take_inline b).1
  unfolding take_inline
  take_inline-SameQueues = record {
    capacity = refl;
    messages = refl;
    system_messages = refl;
    in_flight = refl;
    accepting = refl;
    closed = refl;
  }

  pub end_run-SameQueues : SameQueues b (end_run b).1
  unfolding end_run
  end_run-SameQueues = record {
    capacity = refl;
    messages = refl;
    system_messages = refl;
    in_flight = refl;
    accepting = refl;
    closed = refl;
  }
