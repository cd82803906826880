-- ===== src/Remoting/Text/Sort.antt =====
-- Python's `sorted`: stable, by a three-way comparison of the keys. The orders that
-- movie/remoting/wire.py and serialization.py sort by are those of bytes and of tuples.
use movie.Common.{
  ℕ, ◌≡◌, refl, ap, ◌∙◌, not, ◌&&◌, ◌||◌, List, [], ◌∷◌, none, some, arith, length, compare,
  Ordering, All, Eq, ◌==◌, contains, unique,
}
use movie.Remoting.Text.Utf8.{Text, Bytes, encode}

-- Tuples compare by their first difference.
abbrev pub then_by : Ordering → Ordering → Ordering
then_by Ordering.lt second = Ordering.lt
then_by Ordering.eq second = second
then_by Ordering.gt second = Ordering.gt

unfoldable pub compare_list {ℓ} : {A : Type ℓ} → (A → A → Ordering) → List A → List A → Ordering
compare_list cmp [] [] = Ordering.eq
compare_list cmp [] (y ∷ ys) = Ordering.lt
compare_list cmp (x ∷ xs) [] = Ordering.gt
compare_list cmp (x ∷ xs) (y ∷ ys) = then_by (cmp x y) (compare_list cmp xs ys)

unfoldable pub compare_bytes : Bytes → Bytes → Ordering
unfolding compare_list
compare_bytes = compare_list compare

-- `item.encode("utf-8")` as a key. Each text that the codec sorts has passed `_text_bytes` before.
abbrev pub utf8_key : Text → Bytes
utf8_key t = elim (encode t) [ none ↦ [] | some bytes ↦ bytes ]

unfoldable pub compare_text : Text → Text → Ordering
unfolding compare_bytes
compare_text a b = compare_bytes (utf8_key a) (utf8_key b)

module _ {ℓ} {A : Type ℓ} (cmp : A → A → Ordering) where
  unfoldable pub insert : A → List A → List A
  insert x [] = x ∷ []
  insert x (y ∷ ys) = elim (cmp x y) [ Ordering.gt ↦ y ∷ insert x ys | _ ↦ x ∷ y ∷ ys ]

  unfoldable pub sort : List A → List A
  unfolding insert
  sort [] = []
  sort (x ∷ xs) = insert x (sort xs)

  length-insert : (x : A) (ys : List A) → length (insert x ys) ≡ length (x ∷ ys)
  unfolding insert
  length-insert x [] = refl
  length-insert x (y ∷ ys) = ground (arith, length-insert x ys)

  pub length-sort : (xs : List A) → length (sort xs) ≡ length xs
  unfolding sort
  length-sort [] = refl
  length-sort (x ∷ xs) = length-insert x (sort xs) ∙ ap ℕ.suc (length-sort xs)

  All-insert {κ} : (P : A → Type κ) (x : A) (ys : List A) → P x → All P ys → All P (insert x ys)
  unfolding insert
  All-insert P x [] p h = (p, tt)
  All-insert P x (y ∷ ys) p h =
      elim (cmp x y) as (λ o. All P (elim o [ Ordering.gt ↦ y ∷ insert x ys | _ ↦ x ∷ y ∷ ys ])) [
        | Ordering.gt ↦ (h.0, All-insert P x ys p h.1)
        | Ordering.lt ↦ (p, h)
        | Ordering.eq ↦ (p, h)
      ]

  pub All-sort {κ} : (P : A → Type κ) (xs : List A) → All P xs → All P (sort xs)
  unfolding sort
  All-sort P [] h = tt
  All-sort P (x ∷ xs) h = All-insert P x (sort xs) h.0 (All-sort P xs h.1)

  module _ ⦃e : Eq A⦄ where
    contains-insert : (x a : A) (ys : List A) → contains (insert x ys) a ≡ (a == x || contains ys a)
    unfolding insert
    contains-insert x a [] = refl
    contains-insert x a (y ∷ ys) = ground (arith, contains-insert x a ys)

    contains-sort : (a : A) (xs : List A) → contains (sort xs) a ≡ contains xs a
    unfolding sort
    contains-sort a [] = refl
    contains-sort a (x ∷ xs) = ground (arith, contains-insert x a (sort xs), contains-sort a xs)

    unique-insert :
        (x : A) (ys : List A) → unique (insert x ys) ≡ (not (contains ys x) && unique ys)
    unfolding insert
    unique-insert x [] = refl
    unique-insert x (y ∷ ys) =
        ground (arith, contains-insert x y ys, unique-insert x ys, e.beq_iff x y, e.beq_iff y x)

    -- Sorting a set keeps its elements distinct.
    pub unique-sort : (xs : List A) → unique (sort xs) ≡ unique xs
    unfolding sort
    unique-sort [] = refl
    unique-sort (x ∷ xs) =
        ground (arith, unique-insert x (sort xs), contains-sort x xs, unique-sort xs)
