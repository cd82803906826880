-- ===== src/Http/Parser.antt =====
-- `HttpRequestParser` of movie/http/codec.py. An `HttpProtocolError` is its status.
use movie.Common.{
  ℕ, ◌+◌, Bool, true, false, not, ◌&&◌, ◌||◌, List, [], ◌∷◌, Option, none, some, eqb, leb, ltb,
  length, is_empty, contains, ◌==◌, nat_eq, list_eq, if◌then◌else◌,
}
use movie.Remoting.Text.Utf8.{Text, Bytes}
use movie.Http.Octets.{split_at, partition, strip_blanks, all_bytes, is_digit, int_from, str}
use movie.Http.Model.{Casing, HttpHeaders}

pub data Parsed (R : Type 0) : Type 0 where
  refused : ℕ → Parsed R
  returned : R → Parsed R

-- What follows a call that returns.
infixl 5 ◌>>=◌
abbrev pub ◌>>=◌ : {R S : Type 0} → Parsed R → (R → Parsed S) → Parsed S
refused s >>= next = refused s
returned r >>= next = next r

abbrev pub require : Bool → ℕ → Parsed (Unit {0})
require false status = refused status
require true status = returned tt

pub record Limits : Type 0 where
  pub max_request_line_bytes : ℕ
  pub max_header_bytes : ℕ
  pub max_header_count : ℕ
  pub max_body_bytes : ℕ
  pub max_buffer_bytes : ℕ

-- Whether `HttpRequestParser(...)` returns.
unfoldable pub valid_limits : Limits → Bool
valid_limits l =
    not (
      eqb l.max_request_line_bytes 0
      || eqb l.max_header_bytes 0
      || eqb l.max_header_count 0
      || eqb l.max_body_bytes 0
      || eqb l.max_buffer_bytes 0)
    && leb l.max_request_line_bytes l.max_header_bytes
    && leb (l.max_header_bytes + l.max_body_bytes) l.max_buffer_bytes

-- `_TOKEN_BYTES`
unfoldable pub is_token : ℕ → Bool
is_token b =
    (leb 48 b && leb b 57)
    || (leb 65 b && leb b 90)
    || (leb 97 b && leb b 122)
    || contains
        (b'!' ∷ b'#' ∷ b'$' ∷ b'%' ∷ b'&' ∷ 39 ∷ b'*' ∷ b'+' ∷ b'-' ∷ b'.' ∷ b'^' ∷ b'_' ∷ b'`'
          ∷ b'|' ∷ b'~' ∷ [])
        b

abbrev is_ascii : ℕ → Bool
is_ascii b = ltb b 128

-- `(byte < 32 and byte != 9) or byte == 127`, the bytes that no value may have
abbrev pub is_control : ℕ → Bool
is_control b = (ltb b 32 && not (eqb b 9)) || eqb b 127

abbrev pub http_1_1 : Text
http_1_1 = b'H' ∷ b'T' ∷ b'T' ∷ b'P' ∷ b'/' ∷ b'1' ∷ b'.' ∷ b'1' ∷ []

abbrev is_target_byte : ℕ → Bool
is_target_byte b = not (ltb b 33 || eqb b 127)

-- `_parse_request_line`, of the parts
unfoldable pub parse_parts : List Bytes → Parsed (Text × Text)
parse_parts (method ∷ target ∷ version ∷ []) = do
  _ ← require (not (is_empty method) && not (is_empty target) && not (is_empty version)) 400
  _ ← require (all_bytes is_token method) 400
  _ ←
      require (all_bytes is_ascii method && all_bytes is_ascii target && all_bytes is_ascii version)
        400
  _ ← require (all_bytes is_target_byte target) 400
  _ ← require (version == http_1_1) 400
  returned (method, target)
parse_parts parts = refused 400

abbrev pub parse_request_line : Bytes → Parsed (Text × Text)
parse_request_line line = parse_parts (split_at 32 line)

abbrev starts_blank : Bytes → Bool
starts_blank [] = true
starts_blank (c ∷ rest) = eqb c 32 || eqb c 9

abbrev host_name : Text
host_name = b'h' ∷ b'o' ∷ b's' ∷ b't' ∷ []

abbrev pub content_length_name : Text
content_length_name =
    b'c' ∷ b'o' ∷ b'n' ∷ b't' ∷ b'e' ∷ b'n' ∷ b't' ∷ b'-' ∷ b'l' ∷ b'e' ∷ b'n' ∷ b'g' ∷ b't' ∷ b'h'
    ∷ []

abbrev pub transfer_encoding_name : Text
transfer_encoding_name =
    b't' ∷ b'r' ∷ b'a' ∷ b'n' ∷ b's' ∷ b'f' ∷ b'e' ∷ b'r' ∷ b'-' ∷ b'e' ∷ b'n' ∷ b'c' ∷ b'o' ∷ b'd'
    ∷ b'i' ∷ b'n' ∷ b'g' ∷ []

-- `[value for name, value in headers if name == ...]`
unfoldable pub values_of : Text → HttpHeaders → List Text
values_of name [] = []
values_of name ((header, value) ∷ rest) =
    let on = values_of name rest in if header == name then value ∷ on else on

abbrev has_one : List Text → Bool
has_one (value ∷ []) = not (is_empty value)
has_one values = false

-- `value.lstrip("0") or "0"`
unfoldable pub lstrip_zeros : Text → Text
lstrip_zeros [] = []
lstrip_zeros (c ∷ rest) = let on = lstrip_zeros rest in if eqb c 48 then on else c ∷ rest

abbrev pub or_zero : Text → Text
or_zero [] = 48 ∷ []
or_zero (c ∷ rest) = c ∷ rest

module _ (casing : Casing) (limits : Limits) where
  abbrev pub parse_field : Option (Bytes × Bytes) → Parsed (Text × Text)
  parse_field none = refused 400
  parse_field (some (name, raw_value)) = do
    _ ← require (not (is_empty name) && all_bytes is_token name) 400
    _ ← require (all_bytes (λ b. not (is_control b)) (strip_blanks raw_value)) 400
    returned (casing.lower name, strip_blanks raw_value)

  -- The loop of `_parse_headers`
  unfoldable pub parse_fields : List Bytes → Parsed HttpHeaders
  parse_fields [] = returned []
  parse_fields (line ∷ lines) = do
    _ ← require (not (starts_blank line)) 400
    field ← parse_field (partition 58 line)
    fields ← parse_fields lines
    returned (field ∷ fields)

  -- `_parse_headers`
  unfoldable pub parse_headers : List Bytes → Parsed HttpHeaders
  parse_headers lines = do
    _ ← require (leb (length lines) limits.max_header_count) 431
    headers ← parse_fields lines
    _ ← require (has_one (values_of host_name headers)) 400
    returned headers

module _ (limits : Limits) where
  abbrev pub parse_length : Text → Parsed ℕ
  parse_length value = do
    _ ← require (not (is_empty value) && all_bytes is_digit value) 400
    _ ←
        require (leb (length (or_zero (lstrip_zeros value))) (length (str limits.max_body_bytes)))
          413
    _ ← require (leb (int_from 0 (or_zero (lstrip_zeros value))) limits.max_body_bytes) 413
    returned (int_from 0 (or_zero (lstrip_zeros value)))

  abbrev pub only_length : List Text → Parsed ℕ
  only_length [] = returned 0
  only_length (value ∷ []) = parse_length value
  only_length (value ∷ other ∷ more) = refused 400

  -- `_content_length`
  unfoldable pub content_length : HttpHeaders → Parsed ℕ
  content_length headers = do
    let lengths = values_of content_length_name headers
    let transfer_encodings = values_of transfer_encoding_name headers
    _ ← require (is_empty transfer_encodings || is_empty lengths) 400
    _ ← require (is_empty transfer_encodings) 501
    only_length lengths
