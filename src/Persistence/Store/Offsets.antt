-- ===== src/Persistence/Store/Offsets.antt =====
-- Lemmas on changes in the order of their offsets, which the feed, the compaction and the writes share.
use movie.Common.{
  ℕ, zero, suc, ◌≤◌, ◌<◌, ◌≡◌, refl, false, List, [], ◌∷◌, ◌++◌, leb, max, take, is_empty, All,
  arith, subst, inl, inr, Bool-cases,
}
use movie.Persistence.Model.{DurableStateChange}
use movie.Persistence.Store.Tables.{max_offset}
use movie.Persistence.Store.Projection.{through, beyond, last_offset}
use movie.Persistence.Store.Feed.{Query, window}

-- Offsets that increase, all above a number.
abbrev pub Above : ℕ → List DurableStateChange → Type 0
Above n [] = Unit
Above n (c ∷ cs) = (n < c.offset) × Above c.offset cs

pub last_offset-Above : (n : ℕ) (cs : List DurableStateChange) → Above n cs → n ≤ last_offset n cs
unfolding last_offset
last_offset-Above n [] h = omega arith
last_offset-Above n (c ∷ cs) (a, h) = omega (arith, a, last_offset-Above c.offset cs h)

pub Above-append :
    (n : ℕ) (cs : List DurableStateChange) (c : DurableStateChange)
    → Above n cs
    → last_offset n cs < c.offset
    → Above n (cs ++ (c ∷ []))
unfolding last_offset
Above-append n [] c h l = (l, tt)
Above-append n (d ∷ cs) c (a, h) l = (a, Above-append d.offset cs c h l)

pub last_offset-append :
    (n : ℕ) (cs : List DurableStateChange) (c : DurableStateChange)
    → last_offset n (cs ++ (c ∷ [])) ≡ c.offset
unfolding last_offset
last_offset-append n [] c = refl
last_offset-append n (d ∷ cs) c = last_offset-append d.offset cs c

-- The last of the offsets has what they all have.
pub last_offset-All :
    (P : ℕ → Type 0) (n : ℕ) (cs : List DurableStateChange)
    → P n
    → All (λ (c : DurableStateChange). P c.offset) cs
    → P (last_offset n cs)
unfolding last_offset
last_offset-All P n [] p h = p
last_offset-All P n (c ∷ cs) p (a, h) = last_offset-All P c.offset cs a h

pub last_offset-All_some :
    (P : ℕ → Type 0) (n : ℕ) (cs : List DurableStateChange)
    → is_empty cs ≡ false
    → All (λ (c : DurableStateChange). P c.offset) cs
    → P (last_offset n cs)
unfolding last_offset
last_offset-All_some P n [] e h = absurd (cc e)
last_offset-All_some P n (c ∷ cs) e (a, h) = last_offset-All P c.offset cs a h

pub take-All :
    (P : DurableStateChange → Type 0) (n : ℕ) (cs : List DurableStateChange)
    → All P cs
    → All P (take n cs)
take-All P zero cs h = tt
take-All P (suc n) [] h = tt
take-All P (suc n) (c ∷ cs) (a, h) = (a, take-All P n cs h)

pub through-All :
    (P : DurableStateChange → Type 0) (n : ℕ) (cs : List DurableStateChange)
    → All P cs
    → All P (through n cs)
unfolding through
through-All P n [] h = tt
through-All P n (c ∷ cs) (a, h) = ground (arith, through-All P n cs h)

pub through_bound :
    (n : ℕ) (cs : List DurableStateChange)
    → All (λ (c : DurableStateChange). c.offset ≤ n) (through n cs)
unfolding through
through_bound n [] = tt
through_bound n (c ∷ cs) = ground (arith, through_bound n cs)

pub beyond_bound :
    (n : ℕ) (cs : List DurableStateChange)
    → All (λ (c : DurableStateChange). n < c.offset) (beyond n cs)
unfolding beyond
beyond_bound n [] = tt
beyond_bound n (c ∷ cs) = ground (arith, beyond_bound n cs)

pub beyond-beyond :
    (m n : ℕ) (cs : List DurableStateChange) → m ≤ n → beyond n (beyond m cs) ≡ beyond n cs
unfolding beyond
beyond-beyond m n [] h = refl
beyond-beyond m n (c ∷ cs) h = ground (arith, beyond-beyond m n cs h)

pub beyond-append :
    (n : ℕ) (cs : List DurableStateChange) (c : DurableStateChange)
    → n < c.offset
    → beyond n (cs ++ (c ∷ [])) ≡ beyond n cs ++ (c ∷ [])
unfolding beyond
beyond-append n [] c h = ground (arith, h)
beyond-append n (d ∷ cs) c h = ground (arith, beyond-append n cs c h)

-- Of changes none of which is beyond a number, the deletion through it leaves none.
pub beyond-last_offset :
    (n m : ℕ) (cs : List DurableStateChange) → Above m cs → last_offset m cs ≤ n → beyond n cs ≡ []
unfolding beyond last_offset
beyond-last_offset n m [] h l = refl
beyond-last_offset n m (c ∷ cs) (a, h) l =
    ground (arith, last_offset-Above c.offset cs h, beyond-last_offset n c.offset cs h l)

Above-cons :
    (n : ℕ) (c : DurableStateChange) (cs : List DurableStateChange)
    → n < c.offset
    → Above c.offset cs
    → Above n (c ∷ cs)
Above-cons n c cs a h = (a, h)

pub beyond-Above :
    (n m k : ℕ) (cs : List DurableStateChange) → Above m cs → k ≤ max n m → Above k (beyond n cs)
unfolding beyond
beyond-Above n m k [] h l = tt
beyond-Above n m k (c ∷ cs) (a, h) l = elim (Bool-cases (leb c.offset n)) [
  | inl gone ↦
      subst (Above k) (ground (arith, gone))
        (beyond-Above n c.offset k cs h (ground (arith, gone, l, a)))
  | inr left ↦ subst (Above k) {x = c ∷ beyond n cs} (ground (arith, left)) (
      Above-cons k c (beyond n cs) (ground (arith, left, l, a))
        (beyond-Above n c.offset c.offset cs h (ground arith)))
]

pub beyond_upper :
    (n m top : ℕ) (cs : List DurableStateChange)
    → Above m cs
    → last_offset m cs ≤ top
    → All (λ (c : DurableStateChange). c.offset ≤ top) (beyond n cs)
unfolding beyond last_offset
beyond_upper n m top [] h l = tt
beyond_upper n m top (c ∷ cs) (a, h) l =
    ground (arith, beyond_upper n c.offset top cs h l, last_offset-Above c.offset cs h, l)

pub max_offset-beyond :
    (n m : ℕ) (cs : List DurableStateChange)
    → Above m cs
    → max_offset (beyond n cs) ≤ last_offset m cs
unfolding max_offset beyond last_offset
max_offset-beyond n m [] h = omega arith
max_offset-beyond n m (c ∷ cs) (a, h) =
    ground (arith, max_offset-beyond n c.offset cs h, last_offset-Above c.offset cs h)

pub max_offset-append :
    (cs : List DurableStateChange) (c : DurableStateChange)
    → max_offset (cs ++ (c ∷ [])) ≡ max (max_offset cs) c.offset
unfolding max_offset
max_offset-append [] c = omega arith
max_offset-append (d ∷ cs) c = omega (arith, max_offset-append cs c)

-- A window reads nothing that was deleted before its start.
pub window-beyond :
    (q : Query) (n lo hi : ℕ) (cs : List DurableStateChange)
    → n ≤ lo
    → window q lo hi (beyond n cs) ≡ window q lo hi cs
unfolding window beyond
window-beyond q n lo hi [] h = refl
window-beyond q n lo hi (c ∷ cs) h = ground (arith, window-beyond q n lo hi cs h)
