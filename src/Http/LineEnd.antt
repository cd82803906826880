-- ===== src/Http/LineEnd.antt =====
-- A request line of the greatest length in movie/http/codec.py, with its end in one read or in two.
use movie.Common.{
  ◌+◌, ◌≤◌, ◌≡◌, refl, ap, ◌∙◌, true, [], ◌∷◌, ◌++◌, none, some, length, drop, length-append, arith,
}
use movie.Remoting.Text.Utf8.{Bytes}
use movie.Http.Octets.{crlf, head_end, find, starts_with, all_bytes}
use movie.Http.Model.{Casing}
use movie.Http.Parser.{refused, returned, Limits}
use movie.Http.Feed.{Fed, parse_one, feed}
use movie.Http.Framing.{not_return, find-line}
use movie.Http.Chunks.{feed-drain_buffer, drain_buffer-refused, drain_buffer-stopped}

drop-line : (line tail : Bytes) → drop (length line) (line ++ tail) ≡ tail
drop-line [] tail = refl
drop-line (c ∷ line) tail = drop-line line tail

module _ (casing : Casing) (limits : Limits) where
  parse_one-half :
      (line : Bytes)
      → all_bytes not_return line ≡ true
      → length line ≡ limits.max_request_line_bytes
      → parse_one casing limits (line ++ (13 ∷ [])) ≡ refused 414
  unfolding parse_one find starts_with
  parse_one-half line h l =
      let nowhere : find crlf (line ++ (13 ∷ [])) ≡ none = find-line (10 ∷ []) line (13 ∷ []) h in
      ground (arith, nowhere, l, length-append line (13 ∷ []))

  parse_one-whole :
      (line : Bytes)
      → all_bytes not_return line ≡ true
      → length line ≡ limits.max_request_line_bytes
      → limits.max_request_line_bytes + 2 ≤ limits.max_header_bytes
      → parse_one casing limits (line ++ crlf) ≡ returned none
  unfolding parse_one find starts_with
  parse_one-whole line h l fits =
      let found : find crlf (line ++ crlf) ≡ some (length line + 0) =
        find-line (10 ∷ []) line crlf h in
      let line_end : find crlf (line ++ crlf) ≡ some (length line) =
        found ∙ ap some (omega arith) in
      let nowhere : find head_end (drop (length line) (line ++ crlf)) ≡ none =
        ap (find head_end) (drop-line line crlf) in
      ground (arith, line_end, nowhere, l, fits, length-append line crlf)

  -- A request line of exactly the greatest length that the limits allow, which has no carriage return of
  -- its own: where one read brings it with the two bytes of its end, `feed` takes it and waits for the
  -- headers; where the read stops between those two bytes, `feed` raises 414, as for a line too long.
  pub feed-line_end :
      (line : Bytes)
      → all_bytes not_return line ≡ true
      → length line ≡ limits.max_request_line_bytes
      → limits.max_request_line_bytes + 2 ≤ limits.max_header_bytes
      → limits.max_header_bytes ≤ limits.max_buffer_bytes
      → (feed casing limits [] none (line ++ crlf)
          ≡ record { error = none; requests = []; buffer = line ++ crlf })
        × ((feed casing limits [] none (line ++ (13 ∷ []))).error ≡ some 414)
  feed-line_end line h l fits room =
      let half =
        feed-drain_buffer casing limits [] none (line ++ (13 ∷ []))
          (omega (arith, l, fits, room, length-append line (13 ∷ []))) in
      (
        feed-drain_buffer casing limits [] none (line ++ crlf)
              (omega (arith, l, fits, room, length-append line crlf))
            ∙ drain_buffer-stopped casing limits (length (line ++ crlf)) (line ++ crlf)
                (parse_one-whole line h l fits),
        ap (λ (x : Fed). x.error) half
            ∙ drain_buffer-refused casing limits (length (line ++ (13 ∷ []))) 414
                (line ++ (13 ∷ [])) (parse_one-half line h l),
      )
