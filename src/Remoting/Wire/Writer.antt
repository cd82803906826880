-- ===== src/Remoting/Wire/Writer.antt =====
-- `_Writer` of movie/remoting/wire.py with the checks that raise `ProtocolValidationError`. A
-- method takes the bytes written so far and returns them with its own appended, or raises.
use movie.Common.{
  ℕ, zero, suc, ◌/◌, ◌%◌, Bool, not, List, [], ◌∷◌, ◌++◌, ◌&&◌, leb, length, min, ◌==◌, nat_eq,
}
use movie.Remoting.Errors
use movie.Remoting.Errors.{Error, Result, ok, err, protocol_validation}
use movie.Remoting.Text.Utf8.{Text, Bytes}
use movie.Remoting.Text.{Unicode, text_bytes}
use movie.Remoting.Wire.Types.{max_u8, max_u16, max_u32, max_u64}

-- `struct.pack` of an unsigned number of `n` bytes, and `UUID.bytes` for `n = 16`: big-endian.
unfoldable pub big_endian : ℕ → ℕ → Bytes
big_endian zero v = []
big_endian (suc n) v = big_endian n (v / 256) ++ (v % 256) ∷ []

-- `_uint` and `_uuid`
abbrev pub uint_from : ℕ → ℕ → ℕ → Error → Result ℕ
uint_from minimum value maximum e =
    Errors.◌>>◌ (Errors.require (leb minimum value && leb value maximum) e) (ok value)

abbrev pub uint : ℕ → ℕ → Error → Result ℕ
uint value maximum e = uint_from 0 value maximum e

abbrev pub uuid_of : ℕ → Error → Result ℕ
uuid_of value e = Errors.◌>>◌ (Errors.require (not (value == 0)) e) (ok value)

abbrev pub Writer : Type 0
Writer = Bytes → Result Bytes

infixl 5 ◌>>◌
unfoldable pub ◌>>◌ : Writer → Writer → Writer
◌>>◌ w k written = Errors.◌>>=◌ (w written) k

-- `if not condition: raise`, between two writes
unfoldable pub require : Bool → Error → Writer
require t e written = Errors.◌>>◌ (Errors.require t e) (ok written)

-- A local name for the value of a call that may raise.
unfoldable pub given {ℓ} : {A : Type ℓ} → Result A → (A → Writer) → Writer
given m k written = Errors.◌>>=◌ m (λ a. k a written)

unfoldable pub done : Writer
done written = ok written

unfoldable pub raw : Bytes → Writer
raw value written = ok (written ++ value)

unfoldable pub u8 : ℕ → Writer
u8 value = given (uint value max_u8 protocol_validation) (λ v. raw (big_endian 1 v))

unfoldable pub u16 : ℕ → Writer
u16 value = given (uint value max_u16 protocol_validation) (λ v. raw (big_endian 2 v))

unfoldable pub u32 : ℕ → Writer
u32 value = given (uint value max_u32 protocol_validation) (λ v. raw (big_endian 4 v))

unfoldable pub u64 : ℕ → Writer
u64 value = given (uint value max_u64 protocol_validation) (λ v. raw (big_endian 8 v))

unfoldable pub uuid : ℕ → Writer
uuid value = given (uuid_of value protocol_validation) (λ v. raw (big_endian 16 v))

-- `for item in items: write(item)`
unfoldable pub each {ℓ} : {A : Type ℓ} → (A → Writer) → List A → Writer
unfolding done
each write [] = done
each write (x ∷ xs) = do write x; each write xs

module _ ⦃u : Unicode⦄ where
  unfoldable pub string16_within : ℕ → Bool → Text → Writer
  string16_within maximum nonempty value =
      given (text_bytes value (min maximum max_u16) protocol_validation nonempty)
        λ encoded. do u16 (length encoded); raw encoded
