-- ===== src/Http/Decimal.antt =====
-- `str` and `int` of decimal numbers, as movie/http/codec.py uses them for Content-Length.
use movie.Common.{
  ℕ, zero, suc, ◌+◌, ◌-◌, ◌*◌, ◌/◌, ◌%◌, ◌≤◌, ◌<◌, ◌≡◌, refl, ◌⊎◌, inl, inr, true, not, ◌&&◌, [],
  ◌∷◌, ◌++◌, eqb, leb, ltb, length, is_empty, arith, Bool-cases, length-append, if◌then◌else◌,
}
use movie.Remoting.Text.Utf8.{Text, Bytes}
use movie.Http.Octets.{all_bytes, is_digit, int_from, str_within, str}
use movie.Http.AllBytes.{all_bytes-append}
use movie.Http.Parser.{Parsed, refused, returned, Limits, parse_length, lstrip_zeros, or_zero}

digit-bound : (n : ℕ) → n < 10 → is_digit (48 + n) ≡ true
digit-bound n l = ground (arith, l)

pub str_within-digits : (k n : ℕ) → all_bytes is_digit (str_within k n) ≡ true
unfolding str_within all_bytes
str_within-digits zero n = refl
str_within-digits (suc k) n = elim (Bool-cases (ltb n 10)) [
  | inl small ↦ ground (arith, small)
  | inr large ↦
      let last : all_bytes is_digit ((48 + n % 10) ∷ []) ≡ true = ground (arith, large) in
      ground (
        arith,
        large,
        all_bytes-append is_digit (str_within k (n / 10)) ((48 + n % 10) ∷ [])
            (str_within-digits k (n / 10)) last,
      )
]

int_from-append : (n : ℕ) (xs ys : Bytes) → int_from n (xs ++ ys) ≡ int_from (int_from n xs) ys
unfolding int_from
int_from-append n [] ys = refl
int_from-append n (x ∷ xs) ys = int_from-append (n * 10 + (x - 48)) xs ys

int_from-str_within : (k n : ℕ) → n < k → int_from 0 (str_within k n) ≡ n
unfolding str_within int_from
int_from-str_within zero n l = absurd (omega (arith, l))
int_from-str_within (suc k) n l = elim (Bool-cases (ltb n 10)) [
  | inl small ↦ ground (arith, small)
  | inr large ↦
      let ih = int_from-str_within k (n / 10) (ground (arith, l, large)) in
      let both = int_from-append 0 (str_within k (n / 10)) ((48 + n % 10) ∷ []) in
      ground (arith, large, ih, both)
]

-- What `int` gives for the digits of `str`.
pub int_from-str : (n : ℕ) → int_from 0 (str n) ≡ n
int_from-str n = int_from-str_within (suc n) n (omega arith)

pub str-length : (n : ℕ) → 1 ≤ length (str n)
unfolding str_within
str-length n = elim (Bool-cases (ltb n 10)) [
  | inl small ↦ ground (arith, small)
  | inr large ↦ ground (arith, large, length-append (str_within n (n / 10)) ((48 + n % 10) ∷ []))
]

-- The number with so many zeros after it.
shift : ℕ → ℕ → ℕ
shift n zero = n
shift n (suc k) = shift (n * 10) k

shift_mono : (k n m : ℕ) → n ≤ m → shift n k ≤ shift m k
unfolding shift
shift_mono zero n m l = l
shift_mono (suc k) n m l = shift_mono k (n * 10) (m * 10) (omega (arith, l))

shift-longer : (k j n : ℕ) → k ≤ j → shift n k ≤ shift n j
unfolding shift
shift-longer zero zero n l = omega arith
shift-longer zero (suc j) n l = omega (arith, shift-longer zero j (n * 10) (omega arith))
shift-longer (suc k) zero n l = absurd (omega (arith, l))
shift-longer (suc k) (suc j) n l = shift-longer k j (n * 10) (omega (arith, l))

int_from-least : (xs : Bytes) (n : ℕ) → shift n (length xs) ≤ int_from n xs
unfolding shift int_from
int_from-least [] n = omega arith
int_from-least (x ∷ xs) n = omega (
  arith,
  shift_mono (length xs) (n * 10) (n * 10 + (x - 48)) (omega arith),
  int_from-least xs (n * 10 + (x - 48)),
)

int_from-bound :
    (xs : Bytes) (n : ℕ) → all_bytes is_digit xs ≡ true → int_from n xs < shift (suc n) (length xs)
unfolding shift int_from all_bytes
int_from-bound [] n h = omega arith
int_from-bound (x ∷ xs) n h =
    let digit : x ≤ 57 = ground (arith, h) in
    let digits : all_bytes is_digit xs ≡ true = ground (arith, h) in
    omega (
      arith,
      shift_mono (length xs) (suc (n * 10 + (x - 48))) (suc n * 10) (omega (arith, digit)),
      int_from-bound xs (n * 10 + (x - 48)) digits,
    )

int_from-lstrip_zeros :
    (value : Text) → int_from 0 (or_zero (lstrip_zeros value)) ≡ int_from 0 value
unfolding lstrip_zeros int_from
int_from-lstrip_zeros [] = refl
int_from-lstrip_zeros (c ∷ rest) = elim (Bool-cases (eqb c 48)) [
  | inl is_zero ↦ ground (arith, is_zero, int_from-lstrip_zeros rest)
  | inr digit ↦ ground (arith, digit)
]

-- Without its zeros in front, a text of digits has at most one digit or starts with another one.
int_from-lstrip_zeros-least :
    (value : Text)
    → all_bytes is_digit value ≡ true
    → (length (or_zero (lstrip_zeros value)) ≤ 1)
      ⊎ (shift 1 (length (or_zero (lstrip_zeros value)) - 1) ≤ int_from 0 value)
unfolding lstrip_zeros int_from all_bytes
int_from-lstrip_zeros-least [] h = inl (omega arith)
int_from-lstrip_zeros-least (c ∷ rest) h = elim (Bool-cases (eqb c 48)) [
  | inl is_zero ↦
      let ih = int_from-lstrip_zeros-least rest (ground (arith, h)) in ground (arith, is_zero, ih)
  | inr digit ↦
      let least = int_from-least rest (c - 48) in
      let more = shift_mono (length rest) 1 (c - 48) (ground (arith, digit, h)) in
      inr (ground (arith, digit, least, more))
]

-- A text with more digits than the limit is past the limit.
longer-int_from :
    (value : Text) (max : ℕ)
    → all_bytes is_digit value ≡ true
    → length (str max) < length (or_zero (lstrip_zeros value))
    → max < int_from 0 value
longer-int_from value max h l = elim (int_from-lstrip_zeros-least value h) [
  | inl short ↦ absurd (omega (arith, short, l, str-length max))
  | inr least ↦ omega (
    arith,
    least,
    int_from-bound (str max) 0 (str_within-digits (suc max) max),
    int_from-str max,
    shift-longer (length (str max)) (length (or_zero (lstrip_zeros value)) - 1) 1
        (omega (arith, l)),
  )
]

-- The number that the text is, if it is one and within the limit.
abbrev pub number_within : ℕ → Text → Parsed ℕ
number_within max value =
    if not (is_empty value) && all_bytes is_digit value
    then if leb (int_from 0 value) max then returned (int_from 0 value) else refused 413
    else refused 400

-- The value of a Content-Length header is read as the decimal number that it is: nothing else than digits
-- is accepted, a number past the limit is refused with 413, and the test of the count of digits, which
-- keeps `int` from reading a long text, refuses nothing that the limit allows.
pub parse_length-number_within :
    (limits : Limits) (value : Text)
    → parse_length limits value ≡ number_within limits.max_body_bytes value
parse_length-number_within limits value =
    let same = int_from-lstrip_zeros value in
    elim (Bool-cases (not (is_empty value) && all_bytes is_digit value)) [
      | inr bad ↦ ground (arith, bad)
      | inl digits ↦
          elim (Bool-cases
            (leb (length (or_zero (lstrip_zeros value))) (length (str limits.max_body_bytes)))) [
              | inl short ↦ ground (arith, digits, short, same)
              | inr long ↦
                  let past =
                    longer-int_from value limits.max_body_bytes (ground (arith, digits))
                      (ground (arith, long)) in
                  ground (arith, digits, long, past)
            ]
    ]
