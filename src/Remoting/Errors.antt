-- ===== src/Remoting/Errors.antt =====
-- movie/remoting/errors.py: the exceptions of the protocol core as values, without their messages.
use movie.Common.{◌≡◌, refl, Bool, true, false, ◌⊎◌, inl, inr}

pub data Error : Type 0 where
  protocol_validation serializer_registry serializer_negotiation : Error
  invalid_preamble malformed_frame frame_too_large : Error
  unsupported_frame unsupported_feature unsupported_header_version wrong_stream : Error

-- A call that returns, or the exception that it raises.
pub data Result {ℓ} (R : Type ℓ) : Type ℓ where
  err : Error → Result R
  ok : R → Result R

-- `if not condition: raise`
abbrev pub require : Bool → Error → Result (Unit {0})
require false e = err e
require true e = ok tt

infixl 5 ◌>>=◌
abbrev pub ◌>>=◌ {ℓ κ} : {R : Type ℓ} {S : Type κ} → Result R → (R → Result S) → Result S
err raised >>= next = err raised
ok value >>= next = next value

infixl 5 ◌>>◌
abbrev pub ◌>>◌ {ℓ} : {S : Type ℓ} → Result (Unit {0}) → Result S → Result S
first >> rest = first >>= λ _. rest

-- `except SerializerRegistryError as error: raise ...`: the error is replaced by another.
abbrev pub raise_as {ℓ} : {A : Type ℓ} → Error → Result A → Result A
raise_as e (ok a) = ok a
raise_as e (err _) = err e

-- A sequence of calls returns only when each of them does.
pub >>=-eq-ok {ℓ κ} :
    {R : Type ℓ} {S : Type κ} {b : S} (first : Result R) (next : R → Result S)
    → (first >>= next) ≡ ok b
    → (value : R) × (first ≡ ok value) × (next value ≡ ok b)
>>=-eq-ok (err raised) next h = cc
>>=-eq-ok (ok value) next h = (value, refl, h)

pub require-eq-ok {ℓ} :
    {B : Type ℓ} (t : Bool) (e : Error) (k : Result B) {b : B}
    → (require t e >> k) ≡ ok b
    → (t ≡ true) × (k ≡ ok b)
require-eq-ok true e k h = (refl, h)
require-eq-ok false e k h = cc

pub Result-cases {ℓ} :
    {A : Type ℓ} (r : Result A) → ((a : A) × (r ≡ ok a)) ⊎ ((e : Error) × (r ≡ err e))
Result-cases (ok a) = inl (a, refl)
Result-cases (err e) = inr (e, refl)

pub ok-injective {ℓ} : {A : Type ℓ} {a b : A} → ok a ≡ ok b → a ≡ b
ok-injective h = cc
