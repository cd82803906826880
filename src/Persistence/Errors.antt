-- ===== src/Persistence/Errors.antt =====
-- The exceptions of movie/persistence that the model raises, and calls that end with one.
use movie.Common.{ℕ, ◌≡◌, refl, ◌⊎◌, inl, inr, Bool, true, false}

pub data PersistenceError : Type 0 where
  invalid_value : PersistenceError
  operation_timeout operation_conflict capacity_exceeded not_running : PersistenceError
  concurrent_write : ℕ → ℕ → PersistenceError
  change_feed_compacted : ℕ → ℕ → PersistenceError

pub data Attempt (R : Type 0) : Type 0 where
  raised : PersistenceError → Attempt R
  returned : R → Attempt R

-- What follows a call that returns.
infixl 5 ◌>>=◌
abbrev pub ◌>>=◌ : {R S : Type 0} → Attempt R → (R → Attempt S) → Attempt S
raised e >>= next = raised e
returned r >>= next = next r

abbrev pub check : Bool → PersistenceError → Attempt (Unit {0})
check false e = raised e
check true e = returned tt

pub Attempt-cases :
    {R : Type 0} (a : Attempt R)
    → ((e : PersistenceError) × (a ≡ raised e)) ⊎ ((r : R) × (a ≡ returned r))
Attempt-cases (raised e) = inl (e, refl)
Attempt-cases (returned r) = inr (r, refl)
