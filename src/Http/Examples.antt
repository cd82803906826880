-- ===== src/Http/Examples.antt =====
-- The parser and the renderer of movie/http/codec.py at small requests and responses.
use movie.Common.{
  ℕ, ◌+◌, ◌≤◌, ◌≡◌, refl, true, false, not, ◌&&◌, [], ◌∷◌, ◌++◌, none, some, eqb, leb, length,
  arith, is_empty, if◌then◌else◌,
}
use movie.Remoting.Text.Utf8.{Text, Bytes}
use movie.Http.Octets.{
  crlf, starts_with, find, split_lines, split_at, partition, strip_left, strip_right, all_bytes,
  int_from, str_within,
}
use movie.Http.Model.{Casing, HttpHeaders, HttpResponse, header_values, any_token, any_value}
use movie.Http.Parser.{
  parse_length, Limits, returned, is_token, parse_parts, values_of, lstrip_zeros, parse_fields,
  parse_headers, content_length, content_length_name, transfer_encoding_name, http_1_1,
}
use movie.Http.Feed.{parse_one, drain_buffer, feed, finish}
use movie.Http.Chunks.{joined, feed-append}
use movie.Http.Resume.{feed-length, feed-resumed, finish-feed}
use movie.Http.LineEnd.{feed-line_end}
use movie.Http.Response.{rendered_headers, join, render_response, payload}
use movie.Http.Framing.{IsFramed}
use movie.Http.Decimal.{number_within, parse_length-number_within}
use movie.Http.Lengths.{IsStated, content_length-IsStated}
use movie.Http.Splitting.{head_lines, render_response-IsFramed}

lower_byte : ℕ → ℕ
lower_byte b = if leb 65 b && leb b 90 then b + 32 else b

lower_ascii : Text → Text
lower_ascii [] = []
lower_ascii (b ∷ rest) = lower_byte b ∷ lower_ascii rest

abbrev ascii : Casing
ascii = record { lower = lower_ascii; strip = λ text. text }

abbrev small : Limits
small = record {
  max_request_line_bytes = 14;
  max_header_bytes = 60;
  max_header_count = 3;
  max_body_bytes = 40;
  max_buffer_bytes = 100;
}

-- "GET / HTTP/1.1"
abbrev get_line : Bytes
get_line = b'G' ∷ b'E' ∷ b'T' ∷ 32 ∷ b'/' ∷ 32 ∷ http_1_1

-- "Host: a" and the end of the head
abbrev host_field : Bytes
host_field = b'H' ∷ b'o' ∷ b's' ∷ b't' ∷ 58 ∷ 32 ∷ b'a' ∷ 13 ∷ 10 ∷ 13 ∷ 10 ∷ []

-- One request and the start of the next.
abbrev first_read : Bytes
first_read = get_line ++ (crlf ++ (host_field ++ (b'G' ∷ [])))

abbrev second_read : Bytes
second_read = b'E' ∷ b'T' ∷ []

feed-first_read : (feed ascii small [] none first_read).error ≡ none
unfolding feed drain_buffer parse_one find starts_with split_lines split_at partition strip_left
    strip_right all_bytes is_token parse_parts parse_fields parse_headers content_length values_of
    lower_ascii lower_byte
feed-first_read = refl

feed-append_example :
    feed ascii small [] none (first_read ++ second_read)
    ≡ joined
        (feed ascii small [] none first_read)
        (feed ascii small (feed ascii small [] none first_read).buffer none second_read)
feed-append_example =
    feed-append ascii small [] first_read second_read feed-first_read (omega arith)

-- Two requests in one read, of which the first call may return one.
abbrev two_requests : Bytes
two_requests = get_line ++ (crlf ++ (host_field ++ (get_line ++ (crlf ++ host_field))))

feed-two_requests : (feed ascii small [] (some 1) two_requests).error ≡ none
unfolding feed drain_buffer parse_one find starts_with split_lines split_at partition strip_left
    strip_right all_bytes is_token parse_parts parse_fields parse_headers content_length values_of
    lower_ascii lower_byte
feed-two_requests = refl

feed-resumed_example :
    feed ascii small [] none two_requests
    ≡ joined
        (feed ascii small [] (some 1) two_requests)
        (feed ascii small (feed ascii small [] (some 1) two_requests).buffer none [])
feed-resumed_example =
    feed-resumed ascii small [] (some 1) two_requests feed-two_requests (omega arith)

finish-feed_example :
    finish ascii small (feed ascii small [] none first_read).buffer none ≡ record {
      error = if is_empty (feed ascii small [] none first_read).buffer then none else some 400;
      requests = [];
      buffer = (feed ascii small [] none first_read).buffer;
    }
finish-feed_example = finish-feed ascii small [] first_read (omega arith) feed-first_read

-- The byte that is left of the first read.
feed-left : (feed ascii small [] none first_read).buffer ≡ b'G' ∷ []
unfolding feed drain_buffer parse_one find starts_with split_lines split_at partition strip_left
    strip_right all_bytes is_token parse_parts parse_fields parse_headers content_length values_of
    lower_ascii lower_byte
feed-left = refl

feed-length_example : length (feed ascii small get_line (some 1) first_read).buffer ≤ 100
feed-length_example = feed-length ascii small get_line (some 1) first_read (omega arith)

get_line-not_return : all_bytes (λ b. not (eqb b 13)) get_line ≡ true
unfolding all_bytes
get_line-not_return = refl

feed-line_end_example :
    (feed ascii small [] none (get_line ++ crlf)
      ≡ record { error = none; requests = []; buffer = get_line ++ crlf })
    × ((feed ascii small [] none (get_line ++ (13 ∷ []))).error ≡ some 414)
feed-line_end_example =
    feed-line_end ascii small get_line get_line-not_return refl (omega arith) (omega arith)

parse_length-number_within_example :
    parse_length small (48 ∷ 48 ∷ 55 ∷ []) ≡ number_within 40 (48 ∷ 48 ∷ 55 ∷ [])
parse_length-number_within_example = parse_length-number_within small (48 ∷ 48 ∷ 55 ∷ [])

-- "content-length: 007" after another header
abbrev sized : HttpHeaders
sized = (b'h' ∷ [], b'a' ∷ []) ∷ (content_length_name, 48 ∷ 48 ∷ 55 ∷ []) ∷ []

content_length-sized : content_length small sized ≡ returned 7
unfolding content_length values_of all_bytes lstrip_zeros int_from str_within
content_length-sized = refl

content_length-IsStated_example :
    (values_of transfer_encoding_name sized ≡ [])
    × IsStated 7 (values_of content_length_name sized)
    × (7 ≤ 40)
content_length-IsStated_example = content_length-IsStated small sized 7 content_length-sized

-- A response of its own reason, with a header that is written and one that is not.
abbrev greeting : HttpResponse
greeting = record {
  status = 200;
  headers = (b'X' ∷ [], b'a' ∷ 9 ∷ []) ∷ (content_length_name, 48 ∷ []) ∷ [];
  body = b'h' ∷ b'i' ∷ [];
  reason = none;
}

abbrev greeting_head : Bytes
greeting_head = http_1_1 ++ (32 ∷ b'2' ∷ b'0' ∷ b'0' ∷ 32 ∷ b'O' ∷ b'K' ∷ [])

abbrev greeting_length : Bytes
greeting_length =
    b'C' ∷ b'o' ∷ b'n' ∷ b't' ∷ b'e' ∷ b'n' ∷ b't' ∷ b'-' ∷ b'L' ∷ b'e' ∷ b'n' ∷ b'g' ∷ b't' ∷ b'h'
    ∷ 58 ∷ 32 ∷ b'2' ∷ []

abbrev greeting_bytes : Bytes
greeting_bytes =
    greeting_head
    ++ (crlf
        ++ (b'X'
            ∷ 58
            ∷ 32
            ∷ b'a'
            ∷ 9
            ∷ 13
            ∷ 10
            ∷ (greeting_length ++ (crlf ++ (crlf ++ (b'h' ∷ b'i' ∷ []))))))

render_response-greeting : render_response ascii false false greeting ≡ some greeting_bytes
unfolding render_response rendered_headers join all_bytes is_token str_within header_values
    any_value any_token lower_ascii lower_byte
render_response-greeting = refl

render_response-IsFramed_example :
    IsFramed (head_lines ascii false greeting) (payload false greeting) greeting_bytes
render_response-IsFramed_example =
    render_response-IsFramed ascii false false greeting greeting_bytes render_response-greeting
