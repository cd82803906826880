-- ===== src/Remoting/Text.antt =====
-- Text on the wire: Python's `str` as its code points, strict UTF-8, and `_text_bytes` of
-- movie/remoting/wire.py with `_encoded_text` of movie/remoting/serialization.py, which is the same
-- function with another exception.
pub mod Utf8
pub mod Sort
use movie.Common.{
  ℕ, ◌≤◌, ◌≡◌, Bool, not, List, [], ◌∷◌, ◌&&◌, leb, is_empty, length, arith, Option, some, none,
}
use movie.Remoting.Errors.{Error, Result, ok, err, ◌>>=◌, ◌>>◌, require}
use Utf8.{Text, Bytes, encode, decode, decode-encode}

-- `unicodedata.is_normalized("NFC", value)` reads the tables of the Unicode database, which are not
-- part of the repository: the model takes the test as a parameter.
pub record Unicode : Type 0 where
  pub is_normalized : Text → Bool

-- `value.encode("utf-8", errors="strict")`, with `UnicodeEncodeError` turned into `e`
abbrev encoded : Option Bytes → Error → Result Bytes
encoded none e = err e
encoded (some bs) e = ok bs

-- `bytes.decode("utf-8", errors="strict")`, with `UnicodeDecodeError` turned into `e`
abbrev pub decoded : Option Text → Error → Result Text
decoded none e = err e
decoded (some t) e = ok t

module _ ⦃u : Unicode⦄ where
  unfoldable pub text_bytes : Text → ℕ → Error → Bool → Result Bytes
  text_bytes value maximum error_type nonempty = do
    require (u.is_normalized value) error_type
    bytes ← encoded (encode value) error_type
    require (not (nonempty && is_empty bytes)) error_type
    require (leb (length bytes) maximum) error_type
    ok bytes

  -- What a success of `text_bytes` says: the text is read back from its bytes, and a later test of
  -- it under a bound that is no lower passes, whatever exception a failure would raise.
  pub text_bytes-eq-ok :
      (value : Text) (maximum maximum' : ℕ) (e e' : Error) (nonempty : Bool) (bytes : Bytes)
      → maximum ≤ maximum'
      → text_bytes value maximum e nonempty ≡ ok bytes
      → (length bytes ≤ maximum)
        × (decode bytes ≡ some value)
        × (text_bytes value maximum' e' nonempty ≡ ok bytes)
  unfolding text_bytes
  text_bytes-eq-ok value maximum maximum' e e' nonempty bytes h =
      ground (arith, decode-encode value bytes)
