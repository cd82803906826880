-- ===== src/Http/Model.antt =====
-- movie/http/model.py: the requests and responses, with their headers.
use movie.Common.{
  ℕ, Bool, true, false, not, ◌&&◌, ◌||◌, List, [], ◌∷◌, Option, none, some, leb, is_empty, ◌==◌,
  nat_eq, list_eq, if◌then◌else◌,
}
use movie.Remoting.Text.Utf8.{Text, Bytes}
use movie.Http.Octets.{split_at}

-- `str.lower` and `str.strip`, which read the Unicode database.
pub record Casing : Type 0 where
  pub lower : Text → Text
  pub strip : Text → Text

abbrev pub HttpHeaders : Type 0
HttpHeaders = List (Text × Text)

-- Whether `_normalize_headers` returns.
unfoldable pub normalize_headers : HttpHeaders → Bool
normalize_headers [] = true
normalize_headers ((name, value) ∷ rest) = not (is_empty name) && normalize_headers rest

pub record HttpRequest : Type 0 where
  pub method : Text
  pub target : Text
  pub headers : HttpHeaders
  pub body : Bytes

-- A reason of none has the text that the table gives.
pub record HttpResponse : Type 0 where
  pub status : ℕ
  pub headers : HttpHeaders
  pub body : Bytes
  pub reason : Option Text

-- `HttpRequest(...)`, whose version is always "HTTP/1.1"; none where it raises
unfoldable pub http_request : Text → Text → HttpHeaders → Bytes → Option HttpRequest
http_request method target headers body =
    if is_empty method || is_empty target || not (normalize_headers headers)
    then none
    else some (record { method = method; target = target; headers = headers; body = body })

-- `HttpResponse(...)`; none where it raises
unfoldable pub http_response : ℕ → HttpHeaders → Bytes → Option Text → Option HttpResponse
http_response status headers body reason =
    if not (leb 100 status && leb status 599) || not (normalize_headers headers)
    then none
    else some (record { status = status; headers = headers; body = body; reason = reason })

-- `"close"`
abbrev pub close_token : Text
close_token = 99 ∷ 108 ∷ 111 ∷ 115 ∷ 101 ∷ []

-- `"connection"`
abbrev pub connection_name : Text
connection_name = 99 ∷ 111 ∷ 110 ∷ 110 ∷ 101 ∷ 99 ∷ 116 ∷ 105 ∷ 111 ∷ 110 ∷ []

module _ (casing : Casing) where
  -- `_header_values`
  unfoldable pub header_values : HttpHeaders → Text → List Text
  header_values [] name = []
  header_values ((header, value) ∷ rest) name =
      let on = header_values rest name in
      if casing.lower header == casing.lower name then value ∷ on else on

  -- `header`
  abbrev pub header : HttpHeaders → Text → Option Text
  header headers name = elim (header_values headers name) [
    | [] ↦ none
    | value ∷ values ↦ some value
  ]

  unfoldable pub any_token : List Text → Bool
  any_token [] = false
  any_token (token ∷ tokens) = casing.lower (casing.strip token) == close_token || any_token tokens

  unfoldable pub any_value : List Text → Bool
  any_value [] = false
  any_value (value ∷ values) = any_token (split_at 44 value) || any_value values

  -- `_connection_close`
  abbrev pub connection_close : HttpHeaders → Bool
  connection_close headers = any_value (header_values headers connection_name)
