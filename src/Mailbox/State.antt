-- ===== src/Mailbox/State.antt =====
-- The state of `DefaultMailbox` in movie/mailbox/default.py, with `stop_user_messages` and `close`.
use movie.Common.{
  ℕ, ◌||◌, ◌&&◌, Bool, true, false, List, [], leb, map, Option, none, some, is_empty,
}

-- What the two queues hold: a bare message, or an `_Entry`, which its number identifies.
pub data Item (M : Type 0) : Type 0 where
  plain : M → Item M
  entry : ℕ → M → Item M

-- `item.message if isinstance(item, _Entry) else item`
abbrev pub message_of : {M : Type 0} → Item M → M
message_of (Item.plain m) = m
message_of (Item.entry id m) = m

pub record Mailbox (M : Type 0) : Type 0 where
  pub capacity : ℕ
  pub throughput : ℕ
  pub messages : List (Item M)
  pub system_messages : List (Item M)
  pub in_flight_user_messages : ℕ
  pub scheduled : Bool
  pub running : Bool
  pub inline_run_requested : Bool
  pub accepting_user_messages : Bool
  pub closed : Bool
  -- the identity of the next `_Entry`
  pub next_entry : ℕ

-- `__init__`, which raises ValueError on a capacity or a throughput that is not positive
unfoldable pub new_mailbox : {M : Type 0} → ℕ → ℕ → Option (Mailbox M)
new_mailbox capacity throughput = elim (leb capacity 0 || leb throughput 0) [
  | true ↦ none
  | false ↦ some (record {
    capacity = capacity;
    throughput = throughput;
    messages = [];
    system_messages = [];
    in_flight_user_messages = 0;
    scheduled = false;
    running = false;
    inline_run_requested = false;
    accepting_user_messages = true;
    closed = false;
    next_entry = 0;
  })
]

module _ {M : Type 0} where
  unfoldable pub close : Mailbox M → Mailbox M
  close b = record b {
    accepting_user_messages = false;
    closed = true;
    messages = [];
    system_messages = [];
    in_flight_user_messages = 0;
  }

  -- The messages returned, and the mailbox afterwards.
  unfoldable pub stop_user_messages : Mailbox M → List M × Mailbox M
  stop_user_messages b =
      (map message_of b.messages, record b { accepting_user_messages = false; messages = [] })

  -- `not self._system_messages and not self._messages`
  abbrev pub has_no_messages : Mailbox M → Bool
  has_no_messages b = is_empty b.system_messages && is_empty b.messages
