-- ===== src/Mailbox/Run.antt =====
-- The blocks of `__call__`, `_run_batch`, `_restore_batch` and `_recover_after_failure` of
-- movie/mailbox/default.py that run under the lock.
use movie.Common.{
  ℕ, ◌+◌, not, ◌&&◌, ◌||◌, Bool, true, false, List, ◌++◌, Option, none, some, map, length, take,
  drop, min, is_empty, if◌then◌else◌,
}
use movie.Mailbox.State.{Item, Mailbox, message_of, has_no_messages}

-- The messages of a batch, and whether they are system messages.
pub record Batch (M : Type 0) : Type 0 where
  pub system : Bool
  pub messages : List M

module _ {M : Type 0} where
  -- The first block of `__call__`: whether this call goes on to run the mailbox.
  unfoldable pub begin_run : Mailbox M → Bool × Mailbox M
  begin_run b =
      if b.running
      then (false, record b { inline_run_requested = true })
      else (true, record b { running = true })

  -- The guards that both blocks of `_run_batch` and `_recover_after_failure` begin with.
  abbrev pub must_stop : Bool → Mailbox M → Bool
  must_stop can_process b =
      b.closed || has_no_messages b || (is_empty b.system_messages && not can_process)

  abbrev pub batch_size : Mailbox M → List (Item M) → ℕ
  batch_size b source = min b.throughput (length source)

  abbrev pub take_system_batch : Mailbox M → Batch M × Mailbox M
  take_system_batch b = (
    record {
      system = true;
      messages = map message_of (take (batch_size b b.system_messages) b.system_messages);
    },
    record b { system_messages = drop (batch_size b b.system_messages) b.system_messages },
  )

  abbrev pub take_user_batch : Mailbox M → Batch M × Mailbox M
  take_user_batch b = (
    record {
      system = false;
      messages = map message_of (take (batch_size b b.messages) b.messages);
    },
    record b {
      messages = drop (batch_size b b.messages) b.messages;
      in_flight_user_messages =
          b.in_flight_user_messages + length (take (batch_size b b.messages) b.messages);
    },
  )

  abbrev some_batch : Batch M × Mailbox M → Option (Batch M) × Mailbox M
  some_batch (batch, b) = (some batch, b)

  -- The first block of `_run_batch`: the batch to run, or none when it returns.
  unfoldable pub take_batch : Bool → Mailbox M → Option (Batch M) × Mailbox M
  take_batch can_process b =
      if must_stop can_process b
      then (none, record b { scheduled = false })
      else some_batch
          (if is_empty b.system_messages then take_user_batch b else take_system_batch b)

  -- `_restore_batch`
  unfoldable pub restore_batch : Bool → List M → Mailbox M → Mailbox M
  restore_batch system messages b =
      let idle = if system then b else record b { in_flight_user_messages = 0 } in
      if b.closed || is_empty messages
      then idle
      else if system
      then record idle { system_messages = map Item.plain messages ++ b.system_messages }
      else record idle { messages = map Item.plain messages ++ b.messages }

  -- The second block of `_run_batch`, and the first of `_recover_after_failure`: whether the
  -- mailbox has to be dispatched again.
  unfoldable pub check_more : Bool → Mailbox M → Bool × Mailbox M
  check_more can_process b =
      if must_stop can_process b then (false, record b { scheduled = false }) else (true, b)

  -- `ran_inline = self._inline_run_requested`, and the reset behind it
  unfoldable pub take_inline : Mailbox M → Bool × Mailbox M
  take_inline b = (b.inline_run_requested, record b { inline_run_requested = false })

  -- `except BaseException` of `__call__`
  unfoldable pub drop_in_flight : Mailbox M → Mailbox M
  drop_in_flight b = record b { in_flight_user_messages = 0 }

  -- The block of `_recover_after_failure` that runs when `dispatch` has raised: `has_lifecycle`.
  unfoldable pub recover_failed : Mailbox M → Bool × Mailbox M
  recover_failed b =
      let has_lifecycle = not (is_empty b.system_messages) in
      (has_lifecycle, if has_lifecycle then b else record b { scheduled = false })

  -- The last block of `__call__`: whether it runs once more.
  unfoldable pub end_run : Mailbox M → Bool × Mailbox M
  end_run b = (
    b.inline_run_requested,
    record b {
      inline_run_requested = false;
      running = if b.inline_run_requested then b.running else false;
    },
  )
