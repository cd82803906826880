-- ===== src/Http/Feed.antt =====
-- `_parse_one`, `feed` and `finish` of `HttpRequestParser` in movie/http/codec.py.
use movie.Common.{
  ℕ, zero, suc, ◌+◌, ◌-◌, Bool, true, false, ◌||◌, List, [], ◌∷◌, ◌++◌, Option, none, some, eqb,
  leb, ltb, length, take, drop, is_empty, if◌then◌else◌,
}
use movie.Remoting.Text.Utf8.{Bytes}
use movie.Http.Octets.{crlf, head_end, find, find_from, split_lines}
use movie.Http.Model.{Casing, HttpRequest}
use movie.Http.Parser.{
  Parsed, refused, returned, ◌>>=◌, require, Limits, parse_request_line, parse_headers,
  content_length,
}

-- The first line and those after it.
abbrev pub first_line : List Bytes → Bytes
first_line [] = []
first_line (line ∷ lines) = line

abbrev pub other_lines : List Bytes → List Bytes
other_lines [] = []
other_lines (line ∷ lines) = lines

-- What a call of `feed` or `finish` does: the status of its exception, if it raises, the requests, which
-- the exception carries too, and the buffer.
pub record Fed : Type 0 where
  pub error : Option ℕ
  pub requests : List HttpRequest
  pub buffer : Bytes

abbrev pub with_request : HttpRequest → Fed → Fed
with_request r f = record f { requests = r ∷ f.requests }

-- `max_requests is None or len(requests) < max_requests`, of those left
abbrev pub wants_more : Option ℕ → Bool
wants_more none = true
wants_more (some zero) = false
wants_more (some (suc n)) = true

abbrev pub one_less : Option ℕ → Option ℕ
one_less none = none
one_less (some n) = some (n - 1)

module _ (casing : Casing) (limits : Limits) where
  -- The head is complete and ends at the offset. The constructor of the request has nothing to refuse.
  abbrev pub parse_head : Bytes → ℕ → Parsed (Option (HttpRequest × ℕ))
  parse_head buffer at = do
    _ ← require (leb (at + 4) limits.max_header_bytes) 431
    let lines = split_lines (take at buffer)
    line ← parse_request_line (first_line lines)
    headers ← parse_headers casing limits (other_lines lines)
    body_bytes ← content_length limits headers
    returned (
        if ltb (length buffer) (at + 4 + body_bytes)
        then none
        else some (
          record {
            method = line.0;
            target = line.1;
            headers = headers;
            body = take body_bytes (drop (at + 4) buffer);
          },
          at + 4 + body_bytes,
        ))

  abbrev pub parse_after_line : Bytes → Option ℕ → Parsed (Option (HttpRequest × ℕ))
  parse_after_line buffer none = do
    _ ← require (leb (length buffer) limits.max_header_bytes) 431
    returned none
  parse_after_line buffer (some at) = parse_head buffer at

  abbrev pub parse_line_end : Bytes → Option ℕ → Parsed (Option (HttpRequest × ℕ))
  parse_line_end buffer none = do
    _ ← require (leb (length buffer) limits.max_request_line_bytes) 414
    returned none
  parse_line_end buffer (some line_end) = do
    _ ← require (leb line_end limits.max_request_line_bytes) 414
    parse_after_line buffer (find_from head_end line_end buffer)

  -- `_parse_one`
  unfoldable pub parse_one : Bytes → Parsed (Option (HttpRequest × ℕ))
  parse_one buffer = parse_line_end buffer (find crlf buffer)

  -- The loop of `feed`, in at most so many rounds: a round that goes on takes at least four bytes.
  unfoldable pub drain_buffer : ℕ → Option ℕ → Bytes → Fed
  drain_buffer zero max_requests buffer = record { error = none; requests = []; buffer = buffer }
  drain_buffer (suc rounds) max_requests buffer = elim (wants_more max_requests) [
    | false ↦ record { error = none; requests = []; buffer = buffer }
    | true ↦ elim (parse_one buffer) [
      | refused status ↦ record { error = some status; requests = []; buffer = buffer }
      | returned none ↦ record { error = none; requests = []; buffer = buffer }
      | returned (some (request, consumed)) ↦
          with_request request (drain_buffer rounds (one_less max_requests) (drop consumed buffer))
    ]
  ]

  -- `feed`, with what it keeps in the buffer
  unfoldable pub feed : Bytes → Option ℕ → Bytes → Fed
  feed buffer max_requests received =
      if ltb limits.max_buffer_bytes (length buffer + length received)
      then record { error = some 413; requests = []; buffer = buffer }
      else drain_buffer (suc (length (buffer ++ received))) max_requests (buffer ++ received)

  abbrev reached : Option ℕ → ℕ → Bool
  reached none n = false
  reached (some m) n = eqb m 0 || eqb n m

  -- `finish`
  unfoldable pub finish : Bytes → Option ℕ → Fed
  finish buffer max_requests =
      let fed = feed buffer max_requests [] in
      elim fed.error [
        | some status ↦ fed
        | none ↦
            if reached max_requests (length fed.requests)
            then fed
            else if is_empty fed.buffer
            then fed
            else record fed { error = some 400 }
      ]
