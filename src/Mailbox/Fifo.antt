-- ===== src/Mailbox/Fifo.antt =====
-- The order of the messages of `DefaultMailbox`, and what becomes of a message that is refused or
-- whose dispatch fails.
use movie.Common.{
  ℕ, ◌≡◌, refl, sym, ap, ◌∙◌, Bool, true, false, not, ◌&&◌, ◌||◌, leb, ◌+◌, List, [], ◌∷◌, ◌++◌,
  append_assoc, some, map, length, take, drop, take-append-drop, min, arith, is_empty, eqb_iff,
  Bool-cases, ◌⊎◌, inl, inr,
}
use movie.Mailbox.State.{Item, Mailbox, message_of, has_no_messages}
use movie.Mailbox.Enqueue.{Admission, admit, roll_back, queue_of, has_entry, remove_entry}
use movie.Mailbox.Machine.{Phase, ◌at◌, Reachable}
use movie.Mailbox.Fresh.{has_entry-below, Reachable-IsFresh}
use movie.Mailbox.Run.{Batch, take_batch, restore_batch}

map-append {ℓ κ} :
    {A : Type ℓ} {B : Type κ} (f : A → B) (xs ys : List A) → map f (xs ++ ys) ≡ map f xs ++ map f ys
map-append f [] ys = refl
map-append f (x ∷ xs) ys = ap (◌∷◌ (f x)) (map-append f xs ys)

abbrev pub is_refusal : Admission → Bool
is_refusal Admission.refused_stopping = true
is_refusal Admission.refused_full = true
is_refusal _ = false

module _ {M : Type 0} where
  abbrev pub contents : List (Item M) → List M
  contents xs = map message_of xs

  map_plain : (xs : List M) → contents (map Item.plain xs) ≡ xs
  map_plain [] = refl
  map_plain (x ∷ xs) = ap (◌∷◌ x) (map_plain xs)

  contents_split :
      (n : ℕ) (xs : List (Item M)) → contents (take n xs) ++ contents (drop n xs) ≡ contents xs
  contents_split n xs =
      sym (map-append message_of (take n xs) (drop n xs)) ∙ ap contents (take-append-drop n xs)

  is_empty_nil : (xs : List (Item M)) → is_empty xs ≡ true → xs ≡ []
  is_empty_nil [] h = refl
  is_empty_nil (x ∷ xs) h = absurd (cc h)

  -- What a batch that was taken says of the mailbox before.
  take_batch-eq-some :
      (can : Bool) (b c : Mailbox M) (batch : Batch M)
      → take_batch can b ≡ (some batch, c)
      → (b.closed ≡ false)
        × (batch.messages ++ contents (queue_of (not batch.system) c)
            ≡ contents (queue_of (not batch.system) b))
        × (queue_of batch.system c ≡ queue_of batch.system b)
        × ((batch.system ≡ false) → (b.system_messages ≡ []) × (can ≡ true))
  unfolding take_batch
  take_batch-eq-some can b c batch h = (
    ground arith,
    ground (
      arith,
      contents_split (min b.throughput (length b.messages)) b.messages,
      contents_split (min b.throughput (length b.system_messages)) b.system_messages,
    ),
    ground arith,
    λ user. (is_empty_nil b.system_messages (ground arith), ground arith),
  )

  restored-queue :
      (system : Bool) (remaining : List M) (b : Mailbox M)
      → b.closed ≡ false
      → contents (queue_of (not system) (restore_batch system remaining b))
        ≡ remaining ++ contents (queue_of (not system) b)
  unfolding restore_batch
  restored-queue system remaining b h = ground (
    arith,
    map-append message_of (map Item.plain remaining) b.messages,
    map-append message_of (map Item.plain remaining) b.system_messages,
    map_plain remaining,
  )

  -- After a failed dispatch that nothing came before
  has_entry-append :
      (id : ℕ) (m : M) (xs : List (Item M)) → has_entry id (xs ++ (Item.entry id m ∷ [])) ≡ true
  has_entry-append id m [] = ground (arith, eqb_iff id id)
  has_entry-append id m (x ∷ xs) = ground (arith, has_entry-append id m xs)

  remove_entry-append :
      (id : ℕ) (m : M) (xs : List (Item M))
      → has_entry id xs ≡ false
      → remove_entry id (xs ++ (Item.entry id m ∷ [])) ≡ xs
  remove_entry-append id m [] h = ground (arith, eqb_iff id id)
  remove_entry-append id m (x ∷ xs) h = ground (arith, h, remove_entry-append id m xs)

  -- Whatever other threads do while the actor has a batch, if only they append `late` to its queue
  -- and do not close the mailbox, the messages that the actor has processed, followed by what the
  -- queue holds once the others are restored, are the queue at first followed by `late`; a batch of
  -- user messages is taken only when no system message waits and the actor can process it.
  pub restore_batch-take_batch :
      (can : Bool) (b c d : Mailbox M) (batch : Batch M) (processed remaining : List M)
      (late : List (Item M))
      → take_batch can b ≡ (some batch, c)
      → batch.messages ≡ processed ++ remaining
      → queue_of (not batch.system) d ≡ queue_of (not batch.system) c ++ late
      → d.closed ≡ false
      → (processed
            ++ contents (queue_of (not batch.system) (restore_batch batch.system remaining d))
          ≡ contents (queue_of (not batch.system) b) ++ contents late)
        × (batch.system ≡ false → (b.system_messages ≡ []) × (can ≡ true))
  restore_batch-take_batch can b c d batch processed remaining late taken split appended
        open_still =
      let (_, whole, _, first) = take_batch-eq-some can b c batch taken in
      (
        ap (λ x. processed ++ x) (restored-queue batch.system remaining d open_still)
            ∙ sym (append_assoc processed remaining _)
            ∙ ap (λ x. x ++ contents (queue_of (not batch.system) d)) (sym split)
            ∙ ap (λ x. batch.messages ++ contents x) appended
            ∙ ap (λ x. batch.messages ++ x)
                (map-append message_of (queue_of (not batch.system) c) late)
            ∙ sym (append_assoc batch.messages _ _)
            ∙ ap (λ x. x ++ contents late) whole,
        first,
      )

  -- The guards of the first block of `_enqueue`.
  abbrev pub refuses : Bool → Mailbox M → Bool
  refuses user b =
      b.closed
      || (user && not b.accepting_user_messages)
      || (user && leb b.capacity (length b.messages + b.in_flight_user_messages))

  -- The first block of `_enqueue` leaves the mailbox as it is when it refuses the message, and
  -- else puts the message at the end of its queue, leaves the other queue as it is, and has the
  -- mailbox scheduled unless a user message waits for a suspended actor. It refuses exactly the
  -- messages for a closed mailbox, and the user messages for one that accepts none or is full.
  pub admit-cases :
      (user can : Bool) (m : M) (b : Mailbox M)
      → ((is_refusal (admit user can m b).0 ≡ true)
          × ((admit user can m b).1 ≡ b)
          × (refuses user b ≡ true))
        ⊎ ((is_refusal (admit user can m b).0 ≡ false)
            × (contents (queue_of user (admit user can m b).1)
                ≡ contents (queue_of user b) ++ (m ∷ []))
            × (queue_of (not user) (admit user can m b).1 ≡ queue_of (not user) b)
            × ((admit user can m b).1.scheduled || (user && not can) ≡ true)
            × (refuses user b ≡ false))
  unfolding admit
  admit-cases user can m b = elim (Bool-cases (refuses user b)) [
    | inl e ↦ inl (ground (arith, e), ground (arith, e), e)
    | inr e ↦ inr (
      ground (arith, e),
      ground (
        arith,
        e,
        map-append message_of b.messages (Item.plain m ∷ []),
        map-append message_of b.messages (Item.entry b.next_entry m ∷ []),
        map-append message_of b.system_messages (Item.plain m ∷ []),
        map-append message_of b.system_messages (Item.entry b.next_entry m ∷ []),
      ),
      ground (arith, e),
      ground (arith, e),
      e,
    )
  ]

  -- What the published entry is.
  admit-published :
      (can : Bool) (m : M) (b c : Mailbox M) (id : ℕ)
      → admit true can m b ≡ (Admission.published id, c)
      → (c.messages ≡ b.messages ++ (Item.entry b.next_entry m ∷ []))
        × (id ≡ b.next_entry)
        × (c.system_messages ≡ b.system_messages)
        × (c.in_flight_user_messages ≡ b.in_flight_user_messages)
  unfolding admit
  admit-published can m b c id h = (ground arith, ground arith, ground arith, ground arith)

  roll_back-found :
      (id : ℕ) (c : Mailbox M) (xs : List (Item M))
      → has_entry id c.messages ≡ true
      → remove_entry id c.messages ≡ xs
      → ((roll_back true id c).1.messages ≡ xs)
        × ((roll_back true id c).1.system_messages ≡ c.system_messages)
        × ((roll_back true id c).1.in_flight_user_messages ≡ c.in_flight_user_messages)
        × ((roll_back true id c).1.scheduled ≡ not (is_empty c.system_messages && is_empty xs))
        × ((roll_back true id c).0.publish_fallback
            ≡ not (is_empty c.system_messages && is_empty xs))
  unfolding roll_back
  roll_back-found id c xs found left = (
    ground (arith, found, left),
    ground (arith, found, left),
    ground (arith, found, left),
    ground (arith, found, left),
    ground (arith, found, left),
  )

  -- What the block for a failed dispatch makes of an entry that is new.
  withdrawn_fresh :
      (can : Bool) (m : M) (b c : Mailbox M) (id : ℕ)
      → has_entry b.next_entry b.messages ≡ false
      → admit true can m b ≡ (Admission.published id, c)
      → ((roll_back true id c).1.messages ≡ b.messages)
        × ((roll_back true id c).1.system_messages ≡ b.system_messages)
        × ((roll_back true id c).1.in_flight_user_messages ≡ b.in_flight_user_messages)
        × ((roll_back true id c).1.scheduled ≡ not (has_no_messages b))
        × ((roll_back true id c).0.publish_fallback ≡ not (has_no_messages b))
  withdrawn_fresh can m b c id fresh h =
      let (queue, same, system, flight) = admit-published can m b c id h in
      let entry_there : has_entry id c.messages ≡ true =
        rw (queue, same) (has_entry-append b.next_entry m b.messages) in
      let entry_gone : remove_entry id c.messages ≡ b.messages =
        rw (queue, same) (remove_entry-append b.next_entry m b.messages fresh) in
      rw (sym system, sym flight) (roll_back-found id c b.messages entry_there entry_gone)

  -- When a mailbox that its threads have brought to any state admits a user message and has to be
  -- dispatched for it, and the dispatch raises before another thread sees the mailbox, the block
  -- that handles this takes exactly the message back: the queues and the messages in flight are as
  -- before. The mailbox stays scheduled exactly when messages wait.
  pub roll_back-admit :
      (capacity throughput : ℕ) (can : Bool) (m : M) (b c : Mailbox M) (p : Phase M) (id : ℕ)
      → Reachable capacity throughput (b at p)
      → admit true can m b ≡ (Admission.published id, c)
      → ((roll_back true id c).1.messages ≡ b.messages)
        × ((roll_back true id c).1.system_messages ≡ b.system_messages)
        × ((roll_back true id c).1.in_flight_user_messages ≡ b.in_flight_user_messages)
        × ((roll_back true id c).1.scheduled ≡ not (has_no_messages b))
        × ((roll_back true id c).0.publish_fallback ≡ not (has_no_messages b))
  roll_back-admit capacity throughput can m b c p id reached h =
      withdrawn_fresh can m b c id
        (has_entry-below b.next_entry b.messages
          (Reachable-IsFresh capacity throughput (b at p) reached))
        h
