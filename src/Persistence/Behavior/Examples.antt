-- ===== src/Persistence/Behavior/Examples.antt =====
-- A durable counter: a command is a number, which it adds, and the codec writes one byte.
use movie.Common.{
  ℕ, suc, ◌+◌, ◌≡◌, ◌≤◌, refl, true, false, [], ◌∷◌, Option, some, none, length, nat_eq,
}
use movie.Remoting.Text.Utf8.{Text, Bytes}
use movie.Persistence.Errors.{returned}
use movie.Persistence.Model.{PersistenceId, Content}
use movie.Persistence.Store.Tables.{empty_database, actual_revision, find_state, find_operation}
use movie.Persistence.Store.Mutate.{Mutation, mutate}
use movie.Persistence.Store.Load.{load}
use movie.Persistence.Behavior.Effect.{Application, persist_effect, then_run, copy_state}
use movie.Persistence.Behavior.Actor.{
  write_request, recovery_completed, running, content_state, recovered, complete_recovery, receive,
  durable_state_behavior,
}
use movie.Persistence.Behavior.System
use movie.Persistence.Behavior.System.{Pair, Reachable}
use movie.Persistence.Behavior.Current.{IsStable}
use movie.Persistence.Behavior.Guarantees.{
  IsSuccessor, Reachable-runs, Reachable-recovers, write-replaces,
}

abbrev fingerprint_length : Content → ℕ
fingerprint_length none = 0
fingerprint_length (some (manifest, payload)) = suc (length payload)

abbrev slice_7 : PersistenceId → ℕ
slice_7 id = 7

abbrev decode_counter : Text × Bytes → Option ℕ
decode_counter (manifest, []) = none
decode_counter (manifest, b ∷ bs) = some b

abbrev counter : Application ℕ ℕ ℕ
counter = record {
  encode = λ (n : ℕ). some (99 ∷ [], n ∷ []);
  decode = decode_counter;
  empty_state = 0;
  handle_command = λ (n : ℕ) (k : ℕ). some (then_run 1 (persist_effect (n + k) (suc n)));
  on_recovery_completed = λ (n : ℕ) (revision : ℕ). true;
  callback = λ (k : ℕ) (n : ℕ). true;
}

counter-IsStable : IsStable counter
unfolding copy_state
counter-IsStable e state h = refl

abbrev counter_id : PersistenceId
counter_id = record { entity_type = 99 ∷ []; entity_id = 49 ∷ [] }

abbrev created_pair : Pair ℕ ℕ ℕ
created_pair = record { actor = durable_state_behavior true; store = empty_database }

abbrev loaded_pair : Pair ℕ ℕ ℕ
loaded_pair = record created_pair {
  actor = record created_pair.actor {
    request = none;
    inbox = some (recovery_completed (returned none) false);
  };
}

abbrev running_pair : Pair ℕ ℕ ℕ
running_pair = record created_pair {
  actor = record created_pair.actor {
    request = none;
    phase = running;
    suspended = false;
    state = some 0;
  };
}

running-Reachable : Reachable fingerprint_length slice_7 100 counter counter_id running_pair
unfolding load find_state complete_recovery recovered copy_state
running-Reachable =
    System.step (System.step (System.created true empty_database) (System.loads false false refl))
      (System.delivers true (recovery_completed (returned none) false) refl refl)

Reachable-runs_example :
    (running_pair.actor.phase ≡ running)
    × (0 ≤ 0)
    × ((state : ℕ) × (running_pair.actor.state ≡ some state))
unfolding find_state
Reachable-runs_example =
    Reachable-runs fingerprint_length slice_7 100 counter counter_id running_pair counter-IsStable
      running-Reachable refl refl

nothing_stored : actual_revision counter_id running_pair.store.states ≡ 0
unfolding find_state
nothing_stored = refl

Reachable-recovers_example :
    recovered counter (find_state counter_id running_pair.store.states) ≡ some (0, 0)
Reachable-recovers_example =
    Reachable-recovers fingerprint_length slice_7 100 counter counter_id running_pair 0
      counter-IsStable running-Reachable refl refl refl nothing_stored

abbrev sent_write : Mutation
sent_write = record {
  persistence_id = counter_id;
  expected_revision = 0;
  operation_id = 1;
  content = some (99 ∷ [], 4 ∷ []);
  now = 20;
}

abbrev writing_pair : Pair ℕ ℕ ℕ
writing_pair = record running_pair {
  actor = receive counter counter_id true 20 4 running_pair.actor;
}

writing-Reachable : Reachable fingerprint_length slice_7 100 counter counter_id writing_pair
writing-Reachable = System.step running-Reachable (System.receives true 20 4 refl refl)

write_sent : writing_pair.actor.request ≡ some (write_request sent_write)
unfolding receive copy_state content_state
write_sent = refl

writing_live : System.is_stopped writing_pair.actor.phase ≡ false
unfolding receive copy_state content_state
writing_live = refl

write_returns :
    (mutate fingerprint_length slice_7 false sent_write writing_pair.store).0
    ≡ returned (record { revision = 1; duplicate = false })
unfolding mutate find_operation find_state
write_returns = refl

write-replaces_example :
    IsSuccessor fingerprint_length slice_7 100 counter counter_id writing_pair false sent_write
write-replaces_example =
    write-replaces fingerprint_length slice_7 100 counter counter_id writing_pair false sent_write
      (record { revision = 1; duplicate = false }) counter-IsStable writing-Reachable writing_live
      write_sent write_returns refl
