-- ===== src/Http/Response.antt =====
-- `render_response` of movie/http/codec.py.
use movie.Common.{
  ℕ, Bool, not, ◌&&◌, ◌||◌, List, [], ◌∷◌, ◌++◌, Option, none, some, eqb, leb, ltb, length,
  is_empty, contains, ◌==◌, nat_eq, list_eq, if◌then◌else◌,
}
use movie.Remoting.Text.Utf8.{Text, Bytes}
use movie.Http.Octets.{crlf, all_bytes, str}
use movie.Http.Model.{
  Casing, HttpHeaders, HttpResponse, connection_name, connection_close, close_token,
}
use movie.Http.Parser.{is_token, is_control, http_1_1, content_length_name, transfer_encoding_name}

abbrev pub reason_of : ℕ → List (ℕ × Text) → Text
reason_of status [] = []
reason_of status ((s, reason) ∷ rest) = if eqb s status then reason else reason_of status rest

-- `_REASONS`
abbrev reasons : List (ℕ × Text)
reasons =
    (100, b'C' ∷ b'o' ∷ b'n' ∷ b't' ∷ b'i' ∷ b'n' ∷ b'u' ∷ b'e' ∷ [])
    ∷ (200, b'O' ∷ b'K' ∷ [])
    ∷ (201, b'C' ∷ b'r' ∷ b'e' ∷ b'a' ∷ b't' ∷ b'e' ∷ b'd' ∷ [])
    ∷ (202, b'A' ∷ b'c' ∷ b'c' ∷ b'e' ∷ b'p' ∷ b't' ∷ b'e' ∷ b'd' ∷ [])
    ∷ (204, b'N' ∷ b'o' ∷ 32 ∷ b'C' ∷ b'o' ∷ b'n' ∷ b't' ∷ b'e' ∷ b'n' ∷ b't' ∷ [])
    ∷ (
      301,
      b'M' ∷ b'o' ∷ b'v' ∷ b'e' ∷ b'd' ∷ 32 ∷ b'P' ∷ b'e' ∷ b'r' ∷ b'm' ∷ b'a' ∷ b'n' ∷ b'e' ∷ b'n'
          ∷ b't' ∷ b'l' ∷ b'y' ∷ [],
    )
    ∷ (302, b'F' ∷ b'o' ∷ b'u' ∷ b'n' ∷ b'd' ∷ [])
    ∷ (304, b'N' ∷ b'o' ∷ b't' ∷ 32 ∷ b'M' ∷ b'o' ∷ b'd' ∷ b'i' ∷ b'f' ∷ b'i' ∷ b'e' ∷ b'd' ∷ [])
    ∷ (400, b'B' ∷ b'a' ∷ b'd' ∷ 32 ∷ b'R' ∷ b'e' ∷ b'q' ∷ b'u' ∷ b'e' ∷ b's' ∷ b't' ∷ [])
    ∷ (404, b'N' ∷ b'o' ∷ b't' ∷ 32 ∷ b'F' ∷ b'o' ∷ b'u' ∷ b'n' ∷ b'd' ∷ [])
    ∷ (
      405,
      b'M' ∷ b'e' ∷ b't' ∷ b'h' ∷ b'o' ∷ b'd' ∷ 32 ∷ b'N' ∷ b'o' ∷ b't' ∷ 32 ∷ b'A' ∷ b'l' ∷ b'l'
          ∷ b'o' ∷ b'w' ∷ b'e' ∷ b'd' ∷ [],
    )
    ∷ (
      408,
      b'R' ∷ b'e' ∷ b'q' ∷ b'u' ∷ b'e' ∷ b's' ∷ b't' ∷ 32 ∷ b'T' ∷ b'i' ∷ b'm' ∷ b'e' ∷ b'o' ∷ b'u'
          ∷ b't' ∷ [],
    )
    ∷ (
      413,
      b'C' ∷ b'o' ∷ b'n' ∷ b't' ∷ b'e' ∷ b'n' ∷ b't' ∷ 32 ∷ b'T' ∷ b'o' ∷ b'o' ∷ 32 ∷ b'L' ∷ b'a'
          ∷ b'r' ∷ b'g' ∷ b'e' ∷ [],
    )
    ∷ (414, b'U' ∷ b'R' ∷ b'I' ∷ 32 ∷ b'T' ∷ b'o' ∷ b'o' ∷ 32 ∷ b'L' ∷ b'o' ∷ b'n' ∷ b'g' ∷ [])
    ∷ (
      431,
      b'R' ∷ b'e' ∷ b'q' ∷ b'u' ∷ b'e' ∷ b's' ∷ b't' ∷ 32 ∷ b'H' ∷ b'e' ∷ b'a' ∷ b'd' ∷ b'e' ∷ b'r'
          ∷ 32 ∷ b'F' ∷ b'i' ∷ b'e' ∷ b'l' ∷ b'd' ∷ b's' ∷ 32 ∷ b'T' ∷ b'o' ∷ b'o' ∷ 32 ∷ b'L'
          ∷ b'a' ∷ b'r' ∷ b'g' ∷ b'e' ∷ [],
    )
    ∷ (
      500,
      b'I' ∷ b'n' ∷ b't' ∷ b'e' ∷ b'r' ∷ b'n' ∷ b'a' ∷ b'l' ∷ 32 ∷ b'S' ∷ b'e' ∷ b'r' ∷ b'v' ∷ b'e'
          ∷ b'r' ∷ 32 ∷ b'E' ∷ b'r' ∷ b'r' ∷ b'o' ∷ b'r' ∷ [],
    )
    ∷ (
      501,
      b'N' ∷ b'o' ∷ b't' ∷ 32 ∷ b'I' ∷ b'm' ∷ b'p' ∷ b'l' ∷ b'e' ∷ b'm' ∷ b'e' ∷ b'n' ∷ b't' ∷ b'e'
          ∷ b'd' ∷ [],
    )
    ∷ (
      503,
      b'S' ∷ b'e' ∷ b'r' ∷ b'v' ∷ b'i' ∷ b'c' ∷ b'e' ∷ 32 ∷ b'U' ∷ b'n' ∷ b'a' ∷ b'v' ∷ b'a' ∷ b'i'
          ∷ b'l' ∷ b'a' ∷ b'b' ∷ b'l' ∷ b'e' ∷ [],
    )
    ∷ []

-- The reason: the response's own or the table's.
abbrev pub reason_text : HttpResponse → Text
reason_text response = elim response.reason [
  | some reason ↦ reason
  | none ↦ reason_of response.status reasons
]

abbrev is_latin : ℕ → Bool
is_latin c = ltb c 256

abbrev is_ascii : ℕ → Bool
is_ascii c = ltb c 128

abbrev pub body_allowed : HttpResponse → Bool
body_allowed response = not (contains (204 ∷ 205 ∷ 304 ∷ []) response.status)

-- `status_line[:-2]`
abbrev pub status_line : HttpResponse → Bytes
status_line response = http_1_1 ++ (32 ∷ str response.status ++ (32 ∷ reason_text response))

-- `payload`
abbrev pub payload : Bool → HttpResponse → Bytes
payload head_request response =
    if head_request || not (body_allowed response) then [] else response.body

-- `"trailer"`
abbrev trailer_name : Text
trailer_name = b't' ∷ b'r' ∷ b'a' ∷ b'i' ∷ b'l' ∷ b'e' ∷ b'r' ∷ []

-- `encoded_name + b": " + encoded_value`
abbrev pub field_line : Text → Text → Bytes
field_line name value = name ++ (58 ∷ 32 ∷ value)

-- Whether the header is one that `render_response` writes itself.
abbrev pub is_owned : Casing → Text → Bool
is_owned casing name =
    casing.lower name == content_length_name || casing.lower name == connection_name

abbrev conflicts : Casing → Text → Bool
conflicts casing name =
    casing.lower name == transfer_encoding_name || casing.lower name == trailer_name

-- Whether the loop over the headers goes past one.
abbrev pub is_renderable : Casing → Text → Text → Bool
is_renderable casing name value =
    not (conflicts casing name)
    && (all_bytes is_ascii name && all_bytes is_latin value)
    && (not (is_empty name) && all_bytes is_token name)
    && all_bytes (λ b. not (is_control b)) value

abbrev put_first : Bytes → Option (List Bytes) → Option (List Bytes)
put_first line none = none
put_first line (some lines) = some (line ∷ lines)

-- The loop over `response.headers`, with none where it raises.
unfoldable pub rendered_headers : Casing → HttpHeaders → Option (List Bytes)
rendered_headers casing [] = some []
rendered_headers casing ((name, value) ∷ rest) =
    let on = rendered_headers casing rest in
    if is_owned casing name
    then on
    else if is_renderable casing name value
    then put_first (field_line name value ++ crlf) on
    else none

-- `"Content-Length"` and `"Connection: close"`
abbrev pub content_length_line : ℕ → Bytes
content_length_line n =
    field_line
      (b'C' ∷ b'o' ∷ b'n' ∷ b't' ∷ b'e' ∷ b'n' ∷ b't' ∷ b'-' ∷ b'L' ∷ b'e' ∷ b'n' ∷ b'g' ∷ b't'
        ∷ b'h' ∷ [])
      (str n)

abbrev pub close_line : Bytes
close_line =
    field_line (b'C' ∷ b'o' ∷ b'n' ∷ b'n' ∷ b'e' ∷ b'c' ∷ b't' ∷ b'i' ∷ b'o' ∷ b'n' ∷ [])
      close_token

abbrev pub declared_length : HttpResponse → ℕ
declared_length response = if body_allowed response then length response.body else 0

-- What follows the loop: the two headers that the function writes itself.
abbrev pub length_headers : HttpResponse → List Bytes
length_headers response =
    if contains (204 ∷ 304 ∷ []) response.status
    then []
    else content_length_line (declared_length response) ∷ []

abbrev pub close_headers : Bool → List Bytes
close_headers close = if close then close_line ∷ [] else []

-- `b"".join`
unfoldable pub join : List Bytes → Bytes
join [] = []
join (part ∷ parts) = part ++ join parts

abbrev pub with_crlf : List Bytes → List Bytes
with_crlf [] = []
with_crlf (line ∷ lines) = (line ++ crlf) ∷ with_crlf lines

-- `close or response.close_requested`
abbrev pub closes : Casing → Bool → HttpResponse → Bool
closes casing close response = close || connection_close casing response.headers

-- What `render_response` raises on before it reads the headers.
abbrev pub is_acceptable : HttpResponse → Bool
is_acceptable response =
    not (leb 100 response.status && ltb response.status 200)
    && not (contains (reason_text response) 13 || contains (reason_text response) 10)
    && all_bytes is_latin (status_line response)
    && all_bytes (λ b. not (is_control b)) (status_line response)
    && (body_allowed response || is_empty response.body)

module _ (casing : Casing) (close head_request : Bool) where
  abbrev pub put_together : HttpResponse → Option (List Bytes) → Option Bytes
  put_together response none = none
  put_together response (some lines) = some (
      (status_line response ++ crlf)
      ++ (join (
            lines
            ++ (with_crlf (length_headers response)
                ++ with_crlf (close_headers (closes casing close response))))
          ++ (crlf ++ payload head_request response)))

  -- `render_response`, with none for its `ValueError`
  unfoldable pub render_response : HttpResponse → Option Bytes
  render_response response =
      if is_acceptable response
      then put_together response (rendered_headers casing response.headers)
      else none
