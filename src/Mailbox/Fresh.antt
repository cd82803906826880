-- ===== src/Mailbox/Fresh.antt =====
-- The number of the next `_Entry` is new: no entry of the user queue has it.
use movie.Common.{
  ℕ, zero, suc, ◌≡◌, refl, Bool, true, false, ◌&&◌, List, [], ◌∷◌, ◌++◌, some, map, drop, min,
  length, ltb, arith,
}
use movie.Mailbox.State.{Item, Mailbox, new_mailbox, close, stop_user_messages}
use movie.Mailbox.Enqueue.{admit, roll_back, has_entry, remove_entry}
use movie.Mailbox.Run.{
  begin_run, take_batch, restore_batch, check_more, take_inline, drop_in_flight, recover_failed,
  end_run,
}
use movie.Mailbox.Machine
use movie.Mailbox.Machine.{Phase, Machine, ◌at◌, ◌⟶◌, Reachable}

module _ {M : Type 0} where
  abbrev pub below : ℕ → List (Item M) → Bool
  below n [] = true
  below n (Item.plain m ∷ xs) = below n xs
  below n (Item.entry i m ∷ xs) = ltb i n && below n xs

  below-append :
      (n : ℕ) (xs ys : List (Item M))
      → below n xs ≡ true
      → below n ys ≡ true
      → below n (xs ++ ys) ≡ true
  below-append n [] ys h k = k
  below-append n (Item.plain m ∷ xs) ys h k = below-append n xs ys h k
  below-append n (Item.entry i m ∷ xs) ys h k = ground (arith, h, k, below-append n xs ys)

  below-suc : (n : ℕ) (xs : List (Item M)) → below n xs ≡ true → below (suc n) xs ≡ true
  below-suc n [] h = refl
  below-suc n (Item.plain m ∷ xs) h = below-suc n xs h
  below-suc n (Item.entry i m ∷ xs) h = ground (arith, h, below-suc n xs)

  below-drop : (n k : ℕ) (xs : List (Item M)) → below n xs ≡ true → below n (drop k xs) ≡ true
  below-drop n zero xs h = h
  below-drop n (suc k) [] h = refl
  below-drop n (suc k) (Item.plain m ∷ xs) h = below-drop n k xs h
  below-drop n (suc k) (Item.entry i m ∷ xs) h = ground (arith, h, below-drop n k xs)

  below-plain : (n : ℕ) (ms : List M) → below n (map Item.plain ms) ≡ true
  below-plain n [] = refl
  below-plain n (m ∷ ms) = below-plain n ms

  below-remove_entry :
      (n id : ℕ) (xs : List (Item M)) → below n xs ≡ true → below n (remove_entry id xs) ≡ true
  below-remove_entry n id [] h = refl
  below-remove_entry n id (Item.plain m ∷ xs) h = below-remove_entry n id xs h
  below-remove_entry n id (Item.entry i m ∷ xs) h = ground (arith, h, below-remove_entry n id xs)

  pub has_entry-below : (n : ℕ) (xs : List (Item M)) → below n xs ≡ true → has_entry n xs ≡ false
  has_entry-below n [] h = refl
  has_entry-below n (Item.plain m ∷ xs) h = has_entry-below n xs h
  has_entry-below n (Item.entry i m ∷ xs) h = ground (arith, h, has_entry-below n xs)

  abbrev pub IsFresh : Machine M → Type 0
  IsFresh (b at p) = below b.next_entry b.messages ≡ true

  admit-IsFresh :
      (u can : Bool) (m : M) (b : Mailbox M)
      → below b.next_entry b.messages ≡ true
      → below (admit u can m b).1.next_entry (admit u can m b).1.messages ≡ true
  unfolding admit
  admit-IsFresh u can m b h = ground (
    arith,
    h,
    below-append b.next_entry b.messages (Item.plain m ∷ []),
    below-suc b.next_entry b.messages,
    below-append (suc b.next_entry) b.messages (Item.entry b.next_entry m ∷ []),
  )

  -- The other blocks keep the number, and add no entry.
  step-IsFresh : (s t : Machine M) → s ⟶ t → IsFresh s → IsFresh t
  unfolding roll_back close stop_user_messages begin_run take_batch restore_batch check_more
      take_inline drop_in_flight recover_failed end_run
  step-IsFresh _ _ (Machine.admits {b} {p} u can m) h = admit-IsFresh u can m b h
  step-IsFresh _ _ (Machine.rolls_back {b} {p} u id) h =
      ground (arith, h, below-remove_entry b.next_entry id b.messages)
  step-IsFresh _ _ (Machine.closes {b} {p}) h = refl
  step-IsFresh _ _ (Machine.stops {b} {p}) h = refl
  step-IsFresh _ _ (Machine.begins {b}) h = ground (arith, h)
  step-IsFresh _ _ (Machine.requests {b} {p} e) h = ground (arith, h)
  step-IsFresh _ _ (Machine.takes {b} can) h =
      ground (arith, h, below-drop b.next_entry (min b.throughput (length b.messages)) b.messages)
  step-IsFresh _ _ (Machine.processes {b} {batch} remaining short) h = ground (
    arith,
    h,
    below-plain b.next_entry remaining,
    below-append b.next_entry (map Item.plain remaining) b.messages,
  )
  step-IsFresh _ _ (Machine.batch_fails {b} {batch} remaining short) h = ground (
    arith,
    h,
    below-plain b.next_entry remaining,
    below-append b.next_entry (map Item.plain remaining) b.messages,
  )
  step-IsFresh _ _ Machine.raises h = h
  step-IsFresh _ _ (Machine.checks {b} can) h = ground (arith, h)
  step-IsFresh _ _ Machine.offers h = h
  step-IsFresh _ _ Machine.offer_refused h = h
  step-IsFresh _ _ Machine.offer_raises h = h
  step-IsFresh _ _ (Machine.ran_inline {b}) h = h
  step-IsFresh _ _ (Machine.drops {b}) h = h
  step-IsFresh _ _ (Machine.recovers {b} can) h = ground (arith, h)
  step-IsFresh _ _ Machine.republishes h = h
  step-IsFresh _ _ (Machine.republish_fails {b}) h = ground (arith, h)
  step-IsFresh _ _ Machine.rescues h = h
  step-IsFresh _ _ Machine.rescue_raises h = h
  step-IsFresh _ _ (Machine.ends {b}) h = h

  new_mailbox-IsFresh :
      (capacity throughput : ℕ) (b : Mailbox M)
      → new_mailbox capacity throughput ≡ some b
      → below b.next_entry b.messages ≡ true
  unfolding new_mailbox
  new_mailbox-IsFresh capacity throughput b e = ground arith

  pub Reachable-IsFresh :
      (capacity throughput : ℕ) (s : Machine M) → Reachable capacity throughput s → IsFresh s
  Reachable-IsFresh capacity throughput _ (Machine.starts {b} e) =
      new_mailbox-IsFresh capacity throughput b e
  Reachable-IsFresh capacity throughput _ (Machine.steps {s} {t} reached step) =
      step-IsFresh s t step (Reachable-IsFresh capacity throughput s reached)
