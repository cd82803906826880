-- ===== src/Http/Lengths.antt =====
-- `_content_length` of movie/http/codec.py: which headers state how long the body is.
use movie.Common.{
  ℕ, ◌≤◌, ◌≡◌, refl, ◌⊎◌, inl, inr, true, not, ◌&&◌, List, [], ◌∷◌, leb, is_empty, arith,
  Bool-cases,
}
use movie.Remoting.Text.Utf8.{Text}
use movie.Http.Octets.{all_bytes, is_digit, int_from}
use movie.Http.Model.{HttpHeaders}
use movie.Http.Parser.{
  returned, Limits, values_of, content_length_name, transfer_encoding_name, only_length,
  content_length,
}
use movie.Http.Decimal.{parse_length-number_within}

is_empty-nil : (values : List Text) → is_empty values ≡ true → values ≡ []
is_empty-nil [] h = refl
is_empty-nil (value ∷ values) h = absurd (cc h)

-- The only statements of a length that are accepted: none at all, for 0, or one in decimal digits.
unfoldable pub IsStated : ℕ → List Text → Type 0
IsStated n values =
    ((values ≡ []) × (n ≡ 0))
    ⊎ ((value : Text) × (values ≡ value ∷ [])
        × (all_bytes is_digit value ≡ true)
        × (int_from 0 value ≡ n))

only_length-IsStated :
    (limits : Limits) (values : List Text) (n : ℕ)
    → only_length limits values ≡ returned n
    → IsStated n values × (n ≤ limits.max_body_bytes)
unfolding IsStated
only_length-IsStated limits [] n h =
    let none_read : n ≡ 0 = ground (arith, h) in (inl (refl, none_read), ground (arith, none_read))
only_length-IsStated limits (value ∷ []) n h =
    let read = parse_length-number_within limits value in
    elim (Bool-cases (not (is_empty value) && all_bytes is_digit value)) [
      | inr bad ↦ absurd (ground (arith, h, read, bad))
      | inl digits ↦ elim (Bool-cases (leb (int_from 0 value) limits.max_body_bytes)) [
        | inr past ↦ absurd (ground (arith, h, read, digits, past))
        | inl within ↦
            let same : int_from 0 value ≡ n = ground (arith, h, read, digits, within) in
            (inr (value, refl, ground (arith, digits), same), ground (arith, same, within))
      ]
    ]
only_length-IsStated limits (value ∷ other ∷ more) n h = absurd (cc h)

-- A request whose length is accepted states it in one way only: it has no Transfer-Encoding and at most
-- one Content-Length, whose digits are the length, and the length is within the limit.
pub content_length-IsStated :
    (limits : Limits) (headers : HttpHeaders) (n : ℕ)
    → content_length limits headers ≡ returned n
    → (values_of transfer_encoding_name headers ≡ [])
      × IsStated n (values_of content_length_name headers)
      × (n ≤ limits.max_body_bytes)
unfolding content_length
content_length-IsStated limits headers n h =
    let lengths = values_of content_length_name headers in
    elim (Bool-cases (is_empty (values_of transfer_encoding_name headers))) [
      | inl without ↦
          let (stated, within) =
            only_length-IsStated limits lengths n (ground (arith, h, without)) in
          (is_empty-nil (values_of transfer_encoding_name headers) without, stated, within)
      | inr encoded ↦ elim (Bool-cases (is_empty lengths)) [
        | inl alone ↦ absurd (ground (arith, h, encoded, alone))
        | inr both ↦ absurd (ground (arith, h, encoded, both))
      ]
    ]
