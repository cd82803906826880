-- ===== src/DeadLetters/Broker.antt =====
-- `DeadLetterBroker` and `DeadLetterSubscription` of movie/actor/dead_letter.py.
use movie.Common.{
  ℕ, zero, suc, ◌+◌, ◌-◌, Bool, true, false, ◌||◌, List, [], ◌∷◌, ◌++◌, Option, none, some, eqb,
  leb, ltb, length, get_elem?, nat_eq, if◌then◌else◌,
}

pub record DeadLetterBroker (E : Type 0) : Type 0 where
  pub capacity : ℕ
  pub max_subscriptions : ℕ
  pub entries : List (ℕ × E)
  pub next_sequence : ℕ
  -- the subscriptions, each a number
  pub subscriptions : List ℕ
  pub closed : Bool

pub record DeadLetterSubscription : Type 0 where
  pub identity : ℕ
  pub cursor : ℕ
  pub dropped : ℕ
  pub closed : Bool

-- `append` on a deque of a maximal length
unfoldable pub append_bounded : {A : Type 0} → ℕ → List A → A → List A
append_bounded capacity [] x = if eqb capacity 0 then [] else x ∷ []
append_bounded capacity (y ∷ ys) x =
    if ltb (suc (length ys)) capacity then y ∷ (ys ++ (x ∷ [])) else ys ++ (x ∷ [])

-- `discard` of a set
unfoldable pub discarded : ℕ → List ℕ → List ℕ
discarded identity [] = []
discarded identity (x ∷ xs) =
    let on = discarded identity xs in if eqb x identity then on else x ∷ on

-- `limit is None or len(dead_letters) < limit`, of the events left
abbrev pub wants_more : Option ℕ → Bool
wants_more none = true
wants_more (some zero) = false
wants_more (some (suc n)) = true

abbrev pub one_less : Option ℕ → Option ℕ
one_less none = none
one_less (some n) = some (n - 1)

module _ {E : Type 0} where
  -- `DeadLetterBroker(...)`
  unfoldable pub dead_letter_broker : ℕ → ℕ → Option (DeadLetterBroker E)
  dead_letter_broker capacity max_subscriptions =
      if eqb capacity 0 || eqb max_subscriptions 0
      then none
      else some (record {
        capacity = capacity;
        max_subscriptions = max_subscriptions;
        entries = [];
        next_sequence = 0;
        subscriptions = [];
        closed = false;
      })

  -- `publish`
  unfoldable pub publish : E → DeadLetterBroker E → Bool × DeadLetterBroker E
  publish dead_letter b = if b.closed then (false, b) else (
    true,
    record b {
      entries = append_bounded b.capacity b.entries (b.next_sequence, dead_letter);
      next_sequence = suc b.next_sequence;
    },
  )

  -- `subscribe`, with the identity of the new object; none where it raises
  unfoldable pub subscribe :
      ℕ → DeadLetterBroker E → Option DeadLetterSubscription × DeadLetterBroker E
  subscribe identity b =
      if b.closed || leb b.max_subscriptions (length b.subscriptions) then (none, b) else (
        some
            (record { identity = identity; cursor = b.next_sequence; dropped = 0; closed = false }),
        record b { subscriptions = identity ∷ b.subscriptions },
      )

  -- `close` of the broker
  unfoldable pub close_broker : DeadLetterBroker E → DeadLetterBroker E
  close_broker b = record b { closed = true }

  abbrev pub advance_to : List (ℕ × E) → DeadLetterSubscription → DeadLetterSubscription
  advance_to [] s = s
  advance_to ((first, e) ∷ rest) s =
      if ltb s.cursor first
      then record s { dropped = s.dropped + (first - s.cursor); cursor = first }
      else s

  -- `_advance_cursor`
  unfoldable pub advance_cursor :
      DeadLetterBroker E → DeadLetterSubscription → DeadLetterSubscription
  advance_cursor b s = advance_to b.entries s

  abbrev pub taken : Option (ℕ × E) → DeadLetterSubscription → Option E × DeadLetterSubscription
  taken none s = (none, s)
  taken (some (sequence, e)) s = (some e, record s { cursor = suc sequence })

  abbrev pub poll_entries :
      List (ℕ × E) → DeadLetterSubscription → Option E × DeadLetterSubscription
  poll_entries [] s = (none, s)
  poll_entries ((first, e) ∷ rest) s = taken (get_elem? ((first, e) ∷ rest) (s.cursor - first)) s

  -- `_poll`
  unfoldable pub poll :
      DeadLetterBroker E → DeadLetterSubscription → Option E × DeadLetterSubscription
  poll b s = if s.closed then (none, s) else poll_entries b.entries (advance_cursor b s)

  -- `_unsubscribe`, which `DeadLetterSubscription.close` calls
  unfoldable pub unsubscribe :
      DeadLetterBroker E → DeadLetterSubscription → DeadLetterSubscription × DeadLetterBroker E
  unsubscribe b s = if s.closed then (s, b) else (
    record s { closed = true },
    record b { subscriptions = discarded s.identity b.subscriptions },
  )

  abbrev pub with_event :
      E → Option (List E × DeadLetterSubscription) → Option (List E × DeadLetterSubscription)
  with_event e none = none
  with_event e (some (es, s)) = some (e ∷ es, s)

  -- The loop of `drain`, in at most so many rounds and with so many events left of the limit; none where it
  -- has not ended by then.
  unfoldable pub drain_within :
      ℕ
      → Option ℕ
      → DeadLetterBroker E
      → DeadLetterSubscription
      → Option (List E × DeadLetterSubscription)
  drain_within zero limit b s = none
  drain_within (suc rounds) limit b s = elim (wants_more limit) [
    | false ↦ some ([], s)
    | true ↦
        let polled = poll b s in
        elim polled.0 [
          | none ↦ some ([], polled.1)
          | some e ↦ with_event e (drain_within rounds (one_less limit) b polled.1)
        ]
  ]

  -- `drain`: each round that goes on takes one of the entries.
  abbrev pub drain :
      Option ℕ
      → DeadLetterBroker E
      → DeadLetterSubscription
      → Option (List E × DeadLetterSubscription)
  drain limit b s = drain_within (suc (length b.entries)) limit b s
