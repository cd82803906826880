-- ===== src/Http/Splitting.antt =====
-- The head and the body of what `render_response` of movie/http/codec.py writes.
use movie.Common.{
  ℕ, suc, ◌≡◌, refl, sym, ap, ◌∙◌, subst, inl, inr, Bool, true, false, not, List, [], ◌∷◌, ◌++◌,
  some, contains, nat_eq, All, arith, Bool-cases, Option-cases, if◌then◌else◌,
}
use movie.Remoting.Text.Utf8.{Text, Bytes}
use movie.Http.Octets.{crlf, all_bytes, str, is_digit}
use movie.Http.AllBytes.{all_bytes-append, all_bytes_weaker}
use movie.Http.Model.{Casing, HttpHeaders, HttpResponse}
use movie.Http.Parser.{is_token, is_control}
use movie.Http.Response.{
  status_line, payload, field_line, is_owned, is_renderable, rendered_headers, declared_length,
  length_headers, close_headers, with_crlf, join, closes, put_together, is_acceptable,
  render_response,
}
use movie.Http.Framing.{not_return, IsLine, IsFramed, join-IsFramed}
use movie.Http.Decimal.{str_within-digits}

-- The lines of the headers that the response has, without those that `render_response` writes itself.
unfoldable pub field_lines : Casing → HttpHeaders → List Bytes
field_lines casing [] = []
field_lines casing ((name, value) ∷ rest) =
    if is_owned casing name
    then field_lines casing rest
    else field_line name value ∷ field_lines casing rest

-- The lines of the head.
unfoldable pub head_lines : Casing → Bool → HttpResponse → List Bytes
head_lines casing close response =
    status_line response
    ∷ (field_lines casing response.headers
        ++ (length_headers response ++ close_headers (closes casing close response)))

token-not_return : (b : ℕ) → is_token b ≡ true → not_return b ≡ true
unfolding is_token
token-not_return b h = ground (arith, h)

control-not_return : (b : ℕ) → not (is_control b) ≡ true → not_return b ≡ true
control-not_return b h = ground (arith, h)

digit-not_return : (b : ℕ) → is_digit b ≡ true → not_return b ≡ true
digit-not_return b h = ground (arith, h)

-- A header that is written is a line.
field_line-IsLine :
    (casing : Casing) (name value : Text)
    → is_renderable casing name value ≡ true
    → IsLine (field_line name value)
unfolding all_bytes
field_line-IsLine casing [] value h = absurd (ground (arith, h))
field_line-IsLine casing (c ∷ name) value h =
    let head : is_token c ≡ true = ground (arith, h) in
    let tokens : all_bytes is_token name ≡ true = ground (arith, h) in
    let plain : all_bytes (λ b. not (is_control b)) value ≡ true = ground (arith, h) in
    let first = token-not_return c head in
    let names = all_bytes_weaker is_token not_return name token-not_return tokens in
    let values : all_bytes not_return (58 ∷ 32 ∷ value) ≡ true =
      all_bytes_weaker (λ b. not (is_control b)) not_return value control-not_return plain in
    let rest = all_bytes-append not_return name (58 ∷ 32 ∷ value) names values in
    ground (arith, first, rest)

-- What the loop over the headers does where it returns.
rendered_headers-field_lines :
    (casing : Casing) (headers : HttpHeaders) (lines : List Bytes)
    → rendered_headers casing headers ≡ some lines
    → (lines ≡ with_crlf (field_lines casing headers)) × All IsLine (field_lines casing headers)
unfolding rendered_headers field_lines
rendered_headers-field_lines casing [] lines h = (ground (arith, h), tt)
rendered_headers-field_lines casing ((name, value) ∷ rest) lines h =
    elim (Bool-cases (is_owned casing name)) [
      | inl owned ↦
          let (same, clean) =
            rendered_headers-field_lines casing rest lines (ground (arith, h, owned)) in
          (ground (arith, owned, same), ground (arith, owned, clean))
      | inr sent ↦ elim (Bool-cases (is_renderable casing name value)) [
        | inr bad ↦ absurd (ground (arith, h, sent, bad))
        | inl good ↦ elim (Option-cases (rendered_headers casing rest)) [
          | inl nothing ↦ absurd (ground (arith, h, sent, good, nothing))
          | inr (others, found) ↦
              let (same, clean) = rendered_headers-field_lines casing rest others found in
              let line = field_line-IsLine casing name value good in
              (ground (arith, h, sent, good, found, same), ground (arith, sent, line, clean))
        ]
      ]
    ]

length_headers-IsLine : (response : HttpResponse) → All IsLine (length_headers response)
unfolding all_bytes
length_headers-IsLine response =
    let digits =
      all_bytes_weaker is_digit not_return (str (declared_length response)) digit-not_return
        (str_within-digits (suc (declared_length response)) (declared_length response)) in
    elim (Bool-cases (contains (204 ∷ 304 ∷ []) response.status)) [
      | inl without ↦ ground (arith, without)
      | inr stated ↦ ground (arith, stated, digits)
    ]

close_headers-IsLine : (close : Bool) → All IsLine (close_headers close)
unfolding all_bytes
close_headers-IsLine true = (refl, tt)
close_headers-IsLine false = tt

status_line-IsLine :
    (response : HttpResponse)
    → all_bytes (λ b. not (is_control b)) (status_line response) ≡ true
    → IsLine (status_line response)
unfolding all_bytes
status_line-IsLine response h =
    all_bytes_weaker (λ b. not (is_control b)) not_return (status_line response) control-not_return
      h

some-injective : {x y : Bytes} → some x ≡ some y → x ≡ y
some-injective h = cc h

All-append : (xs ys : List Bytes) → All IsLine xs → All IsLine ys → All IsLine (xs ++ ys)
All-append [] ys h k = k
All-append (x ∷ xs) ys (p, h) k = (p, All-append xs ys h k)

with_crlf-append : (xs ys : List Bytes) → with_crlf (xs ++ ys) ≡ with_crlf xs ++ with_crlf ys
with_crlf-append [] ys = refl
with_crlf-append (x ∷ xs) ys = ap (λ zs. (x ++ crlf) ∷ zs) (with_crlf-append xs ys)

-- What `render_response` returns is a head whose lines are the status line, the headers of the response
-- without those that the function writes itself, and those; the first place where a head can end is where
-- this one ends, so no reason, name or value puts a line or an end of its own into it; and what follows is
-- the body that is due.
pub render_response-IsFramed :
    (casing : Casing) (close head_request : Bool) (response : HttpResponse) (bytes : Bytes)
    → render_response casing close head_request response ≡ some bytes
    → IsFramed (head_lines casing close response) (payload head_request response) bytes
unfolding render_response head_lines
render_response-IsFramed casing close head_request response bytes h =
    elim (Bool-cases (is_acceptable response)) [
      | inr bad ↦ absurd (ground (arith, h, bad))
      | inl good ↦ elim (Option-cases (rendered_headers casing response.headers)) [
        | inl nothing ↦ absurd (ground (arith, h, good, nothing))
        | inr (lines, found) ↦
            let (same, clean) = rendered_headers-field_lines casing response.headers lines found in
            let fields = field_lines casing response.headers in
            let own = length_headers response in
            let closing = close_headers (closes casing close response) in
            let body = payload head_request response in
            let first = status_line-IsLine response (ground (arith, good)) in
            let framed =
              join-IsFramed (status_line response) (fields ++ (own ++ closing)) body first (
                All-append fields (own ++ closing) clean (
                  All-append own closing (length_headers-IsLine response)
                    (close_headers-IsLine (closes casing close response)))) in
            let written : put_together casing close head_request response (some lines)
                ≡ some bytes =
              ground (arith, h, good, found) in
            let parts : with_crlf (fields ++ (own ++ closing))
                ≡ lines ++ (with_crlf own ++ with_crlf closing) =
              with_crlf-append fields (own ++ closing)
              ∙ ap (λ ys. with_crlf fields ++ ys) (with_crlf-append own closing)
              ∙ ap (λ ys. ys ++ (with_crlf own ++ with_crlf closing)) (sym same) in
            let whole : (status_line response ++ crlf)
                  ++ (join (with_crlf (fields ++ (own ++ closing))) ++ (crlf ++ body))
                ≡ bytes =
              ap (λ ys. (status_line response ++ crlf) ++ (join ys ++ (crlf ++ body))) parts
              ∙ some-injective written in
            subst (IsFramed (status_line response ∷ (fields ++ (own ++ closing))) body) whole framed
      ]
    ]
