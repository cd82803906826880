-- ===== src/DeadLetters/Examples.antt =====
-- A window of two events, of which three were published.
use movie.Common.{ℕ, ◌≡◌, refl, false, [], ◌∷◌, some, get_elem?}
use movie.DeadLetters.Broker.{
  drain, DeadLetterBroker, DeadLetterSubscription, append_bounded, dead_letter_broker, publish,
  poll, advance_cursor,
}
use movie.DeadLetters.Window.{Reachable, created, step, publishes}
use movie.DeadLetters.Polls.{poll-reads}
use movie.DeadLetters.Drain.{up_to, drain-reads}

abbrev full_broker : DeadLetterBroker ℕ
full_broker = record {
  capacity = 2;
  max_subscriptions = 5;
  entries = (1, 12) ∷ (2, 13) ∷ [];
  next_sequence = 3;
  subscriptions = [];
  closed = false;
}

full-Reachable : Reachable 2 5 (full_broker, 11 ∷ 12 ∷ 13 ∷ [])
unfolding dead_letter_broker publish append_bounded
full-Reachable = step (step (step (created refl) (publishes 11)) (publishes 12)) (publishes 13)

abbrev early : DeadLetterSubscription
early = record { identity = 9; cursor = 0; dropped = 0; closed = false }

abbrev after_early : DeadLetterSubscription
after_early = record early { cursor = 2; dropped = 1 }

early_polled : poll full_broker early ≡ (some 12, after_early)
unfolding poll advance_cursor
early_polled = refl

poll-reads_example :
    (get_elem? {A = ℕ} (11 ∷ 12 ∷ 13 ∷ []) 1 ≡ some 12)
    × (after_early.cursor ≡ 2)
    × (after_early.dropped ≡ 1)
poll-reads_example =
    poll-reads 2 5 full_broker (11 ∷ 12 ∷ 13 ∷ []) early after_early 12 full-Reachable refl
      early_polled

drain-reads_example :
    (s' : DeadLetterSubscription) × (drain (some 1) full_broker early
      ≡ some (up_to (some 1) (12 ∷ 13 ∷ []), s'))
drain-reads_example =
    drain-reads 2 5 full_broker (11 ∷ 12 ∷ 13 ∷ []) full-Reachable (some 1) early refl

-- The one that is taken of the two.
one_of_two : up_to {E = ℕ} (some 1) (12 ∷ 13 ∷ []) ≡ 12 ∷ []
unfolding up_to
one_of_two = refl
