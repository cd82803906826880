-- ===== src/Remoting/Wire/Reader.antt =====
-- `_Reader` of movie/remoting/wire.py. The position in the buffer is the list of the bytes that are
-- left; a method returns its value and what it leaves, or raises `MalformedFrameError`.
use movie.Common.{
  is_empty, ℕ, zero, suc, ◌+◌, ◌*◌, Bool, List, [], ◌∷◌, leb, length, take, drop, if◌then◌else◌,
}
use mathlib.Core.List.{foldl}
use movie.Remoting.Errors
use movie.Remoting.Errors.{Error, Result, ok, err, malformed_frame}
use movie.Remoting.Text.Utf8.{Text, Bytes, decode}
use movie.Remoting.Text.{Unicode, text_bytes, decoded}
use movie.Remoting.Wire.Writer.{uuid_of}

-- `struct.unpack` of an unsigned number, and `UUID(bytes=...)`
unfoldable pub from_big_endian : Bytes → ℕ
from_big_endian = foldl (λ value b. value * 256 + b) 0

abbrev pub Reader {ℓ} : Type ℓ → Type ℓ
Reader A = Bytes → Result (A × Bytes)

module _ {ℓ κ} {A : Type ℓ} {B : Type κ} where
  infixl 5 ◌>>=◌
  unfoldable pub ◌>>=◌ : Reader A → (A → Reader B) → Reader B
  ◌>>=◌ r k left = Errors.◌>>=◌ (r left) (λ (a, left'). k a left')

unfoldable pub pure {ℓ} : {A : Type ℓ} → A → Reader A
pure a left = ok (a, left)

unfoldable pub lift {ℓ} : {A : Type ℓ} → Result A → Reader A
lift m left = Errors.◌>>=◌ m (λ a. ok (a, left))

abbrev pub require : Bool → Error → Reader (Unit {0})
require t e = lift (Errors.require t e)

infixl 5 ◌>>◌
abbrev pub ◌>>◌ {ℓ} : {B : Type ℓ} → Reader (Unit {0}) → Reader B → Reader B
r >> k = r >>= λ _. k

-- `_take`, and `raw`, which copies what it returns
unfoldable pub take_bytes : ℕ → Reader Bytes
take_bytes count left =
    if leb count (length left) then ok (take count left, drop count left) else err malformed_frame

unfoldable pub uint_bytes : ℕ → Reader ℕ
uint_bytes count = do bytes ← take_bytes count; pure (from_big_endian bytes)

unfoldable pub u8 : Reader ℕ
u8 = uint_bytes 1

unfoldable pub u16 : Reader ℕ
u16 = uint_bytes 2

unfoldable pub u32 : Reader ℕ
u32 = uint_bytes 4

unfoldable pub u64 : Reader ℕ
u64 = uint_bytes 8

unfoldable pub uuid : Reader ℕ
uuid = do value ← uint_bytes 16; lift (uuid_of value malformed_frame)

-- `tuple(read() for _ in range(count))`
unfoldable pub times {ℓ} : {A : Type ℓ} → ℕ → Reader A → Reader (List A)
times zero read = pure []
times (suc n) read = do x ← read; xs ← times n read; pure (x ∷ xs)

-- `finish`
unfoldable pub finish : Reader (Unit {0})
finish left = if is_empty left then ok (tt, left) else err malformed_frame

module _ ⦃u : Unicode⦄ where
  unfoldable pub string16_within : ℕ → Bool → Reader Text
  string16_within maximum nonempty = do
    count ← u16
    require (leb count maximum) malformed_frame
    bytes ← take_bytes count
    value ← lift (decoded (decode bytes) malformed_frame)
    _ ← lift (text_bytes value maximum malformed_frame nonempty)
    pure value
