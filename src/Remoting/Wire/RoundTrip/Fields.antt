-- ===== src/Remoting/Wire/RoundTrip/Fields.antt =====
-- The fields that every frame is made of: numbers, UUIDs, texts and counted sequences.
use movie.Common.{
  ℕ, ◌^◌, ◌≤◌, ◌<◌, ◌≡◌, refl, ap, ◌∙◌, subst, Bool, true, List, [], ◌∷◌, ◌++◌, map, length, min,
  take-append, drop-append, length-append, arith, All, nat_eq, le→leb,
}
use movie.Remoting.Errors.{Error, ok, protocol_validation, malformed_frame}
use movie.Remoting.Text.Utf8.{Text, Bytes}
use movie.Remoting.Text.{Unicode, text_bytes, text_bytes-eq-ok, decoded}
use movie.Remoting.Wire.Types.{max_u8, max_u16, max_u32, max_u64, uuid_mod}
use movie.Remoting.Wire.Writer
use movie.Remoting.Wire.Writer.{Writer, raw, big_endian, uint_from, uint, uuid_of, each}
use movie.Remoting.Wire.Reader
use movie.Remoting.Wire.Reader.{Reader, take_bytes, uint_bytes, times}
use movie.Remoting.Wire.RoundTrip.Numbers.{length-big_endian, from-big_endian}
use movie.Remoting.Wire.RoundTrip.{
  RoundTrip, RoundTrip-done, RoundTrip-given, RoundTrip-last, RoundTrip-then,
  RoundTrip-read-require, lift-ok, bind-lift,
}

pub RoundTrip-raw : (bytes : Bytes) → RoundTrip (raw bytes) (take_bytes (length bytes)) bytes
unfolding raw take_bytes
RoundTrip-raw bytes = record {
  at = λ written result q. (
    bytes,
    cc,
    λ rest. ground (
      arith,
      length-append bytes rest,
      take-append (length bytes) bytes rest refl,
      drop-append (length bytes) bytes rest refl,
    ),
  );
}

RoundTrip-uint : (n v : ℕ) → v < 256 ^ n → RoundTrip (raw (big_endian n v)) (uint_bytes n) v
unfolding uint_bytes
RoundTrip-uint n v h =
    RoundTrip-last _ _ _ (big_endian n v) v
      (rw length-big_endian at (RoundTrip-raw (big_endian n v)))
      (ap Reader.pure (from-big_endian n v h))

uint-eq-ok :
    (minimum value maximum : ℕ) (e : Error) (v : ℕ)
    → uint_from minimum value maximum e ≡ ok v
    → (v ≡ value) × (minimum ≤ value) × (value ≤ maximum)
uint-eq-ok minimum value maximum e v h = ground arith

packed-RoundTrip :
    (n v maximum : ℕ)
    → maximum < 256 ^ n
    → RoundTrip
        (Writer.given (uint v maximum protocol_validation) (λ b. raw (big_endian n b)))
        (uint_bytes n)
        v
packed-RoundTrip n v maximum h = RoundTrip-given _ _ _ _ λ b p.
    let (e, _, below) = uint-eq-ok 0 v maximum protocol_validation b p in
    rw e (RoundTrip-uint n v (omega arith))

pub RoundTrip-u8 : (v : ℕ) → RoundTrip (Writer.u8 v) Reader.u8 v
unfolding Writer.u8 Reader.u8
RoundTrip-u8 v = packed-RoundTrip 1 v max_u8 (omega arith)

pub RoundTrip-u16 : (v : ℕ) → RoundTrip (Writer.u16 v) Reader.u16 v
unfolding Writer.u16 Reader.u16
RoundTrip-u16 v = packed-RoundTrip 2 v max_u16 (omega arith)

pub RoundTrip-u32 : (v : ℕ) → RoundTrip (Writer.u32 v) Reader.u32 v
unfolding Writer.u32 Reader.u32
RoundTrip-u32 v = packed-RoundTrip 4 v max_u32 (omega arith)

pub RoundTrip-u64 : (v : ℕ) → RoundTrip (Writer.u64 v) Reader.u64 v
unfolding Writer.u64 Reader.u64
RoundTrip-u64 v = packed-RoundTrip 8 v max_u64 (omega arith)

uuid-eq-ok :
    (value : ℕ) (e e' : Error) (v : ℕ)
    → uuid_of value e ≡ ok v
    → (v ≡ value) × (uuid_of value e' ≡ ok value)
uuid-eq-ok value e e' v h = ground arith

pub RoundTrip-uuid : (v : ℕ) → v < uuid_mod → RoundTrip (Writer.uuid v) Reader.uuid v
unfolding Writer.uuid Reader.uuid
RoundTrip-uuid v h = RoundTrip-given _ _ _ _ λ b p.
    let (e, again) = uuid-eq-ok v protocol_validation malformed_frame b p in
    rw e (RoundTrip-last _ _ _ v v (RoundTrip-uint 16 v (omega arith)) (lift-ok _ v again))

module _ ⦃u : Unicode⦄ where
  -- The length of an encoded text and its bytes, where the text has passed its test.
  pub RoundTrip-encoded :
      (maximum maximum' : ℕ) (nonempty : Bool) (value : Text) (bytes : Bytes)
      → maximum ≤ maximum'
      → text_bytes value maximum protocol_validation nonempty ≡ ok bytes
      → RoundTrip
          (Writer.◌>>◌ (Writer.u16 (length bytes)) (raw bytes))
          (Reader.string16_within maximum' nonempty)
          value
  unfolding Reader.string16_within
  RoundTrip-encoded maximum maximum' nonempty value bytes h p =
      let (fits, back, again) =
        text_bytes-eq-ok value maximum maximum' protocol_validation malformed_frame nonempty bytes h
          p in
      RoundTrip-then _ _ _ _ (length bytes) value (RoundTrip-u16 (length bytes)) (
        RoundTrip-read-require _ _ _ _ _ (le→leb _ _ (omega arith)) (
          RoundTrip-last _ _ _ bytes value (RoundTrip-raw bytes) (
            bind-lift _ _ value (ap (λ o. decoded o malformed_frame) back)
            ∙ bind-lift _ _ bytes again)))

  pub RoundTrip-string16 :
      (maximum : ℕ) (nonempty : Bool) (value : Text)
      → RoundTrip
          (Writer.string16_within maximum nonempty value)
          (Reader.string16_within maximum nonempty)
          value
  unfolding Writer.string16_within
  RoundTrip-string16 maximum nonempty value = RoundTrip-given _ _ _ _ λ bytes p.
      RoundTrip-encoded (min maximum max_u16) maximum nonempty value bytes (omega arith) p

-- Item by item; `P` is what the items of the sequence have in common.
pub RoundTrip-each {ℓ κ} :
    {A B : Type ℓ} (P : A → Type κ) (write : A → Writer) (read : Reader B) (f : A → B)
    → ((x : A) → P x → RoundTrip (write x) read (f x))
    → (xs : List A) → All P xs
    → RoundTrip (each write xs) (times (length xs) read) (map f xs)
unfolding each times
RoundTrip-each P write read f h [] p = RoundTrip-done []
RoundTrip-each P write read f h (x ∷ xs) p =
    RoundTrip-then _ _ _ _ (f x) _ (h x p.0)
      (RoundTrip-last _ _ _ (map f xs) _ (RoundTrip-each P write read f h xs p.1) refl)

map_self {ℓ} : {A : Type ℓ} (xs : List A) → map (λ x. x) xs ≡ xs
map_self [] = refl
map_self (x ∷ xs) = ap (◌∷◌ x) (map_self xs)

All-any {ℓ} : {A : Type ℓ} (xs : List A) → All (λ _. Unit {0}) xs
All-any [] = tt
All-any (x ∷ xs) = (tt, All-any xs)

-- The same where each item is read as it is.
pub RoundTrip-items {ℓ κ} :
    {A : Type ℓ} (P : A → Type κ) (write : A → Writer) (read : Reader A)
    → ((x : A) → P x → RoundTrip (write x) read x)
    → (xs : List A) → All P xs
    → RoundTrip (each write xs) (times (length xs) read) xs
RoundTrip-items P write read h xs p =
    subst (RoundTrip _ _) (map_self xs) (RoundTrip-each P write read (λ x. x) h xs p)

pub RoundTrip-texts :
    ⦃u : Unicode⦄ (maximum : ℕ) (xs : List Text)
    → RoundTrip
        (each (Writer.string16_within maximum true) xs)
        (times (length xs) (Reader.string16_within maximum true))
        xs
RoundTrip-texts maximum xs =
    RoundTrip-items (λ _. Unit {0}) _ _ (λ x _. RoundTrip-string16 maximum true x) xs (All-any xs)

-- Bytes, and a packed number, read in front of what follows.
pub bind-take_bytes {ℓ} :
    {A : Type ℓ} (n : ℕ) (bytes : Bytes) (k : Bytes → Reader A) (rest : Bytes)
    → length bytes ≡ n
    → Reader.◌>>=◌ (take_bytes n) k (bytes ++ rest) ≡ k bytes rest
unfolding take_bytes Reader.◌>>=◌
bind-take_bytes n bytes k rest h =
    ground (arith, take-append n bytes rest h, drop-append n bytes rest h, length-append bytes rest)

pub bind-uint_bytes {ℓ} :
    {A : Type ℓ} (n v : ℕ) (k : ℕ → Reader A) (rest : Bytes)
    → v < 256 ^ n
    → Reader.◌>>=◌ (uint_bytes n) k (big_endian n v ++ rest) ≡ k v rest
unfolding uint_bytes take_bytes Reader.◌>>=◌ Reader.pure
bind-uint_bytes n v k rest h = ground (
  arith,
  take-append n (big_endian n v) rest (length-big_endian n v),
  drop-append n (big_endian n v) rest (length-big_endian n v),
  length-append (big_endian n v) rest,
  length-big_endian n v,
  from-big_endian n v h,
)
