-- ===== src/Actor/Path/RoundTrip.antt =====
-- `parse_actor_path` of movie/actor/path.py on what `canonical` writes.
use movie.Common.{
  ℕ, ◌≡◌, ◌↔◌, refl, sym, ap, ◌∙◌, true, false, List, [], ◌∷◌, ◌++◌, Option, none, some, drop,
  is_empty, ◌==◌, nat_eq, list_eq, list_beq_iff, arith, append_assoc, append-nil,
}
use movie.Remoting.Text.Utf8.{Text}
use movie.Http.Octets.{all_bytes, find, starts_with, partition}
use movie.Http.AllBytes.{all_bytes-append}
use movie.Actor.Path.Names.{is_remote_name}
use movie.Actor.Path.Endpoint.{
  Address, scheme_end, endpoint_text, at_text, address_text, parse_endpoint, is_same_endpoint,
  is_address,
}
use movie.Actor.Path.Tree.{
  ActorPath, root, address, elements, join_slash, canonical, is_same_path, are_remote_names,
  movie_protocol,
}
use movie.Actor.Path.Parse.{
  is_path_char, split_scheme, descend, parse_remote, parse_system, parse_authority, parse_scheme,
  parse_actor_path,
}
use movie.Actor.Path.Cut.{partition-append, partition-none, HasNoSlash, split_at-join_slash}
use movie.Actor.Path.Chars.{
  is_endpoint_char, has_plain_host, name-endpoint_chars, name_no_at, name_no_slash, no_slash,
  path_chars, names_no_slash, join_slash-path_chars, at_text-chars,
}
use movie.Actor.Path.Descend.{
  without_uid, names_below, elements-names_below, canonical-without_uid, is_same_endpoint-same,
  address-system, descend-without_uid,
}

module _ (ipv6 : Text → Option Text) where
  -- The address is read again from its text.
  parse_system-at_text :
      (system : Text) (host : Option Text) (port : Option ℕ)
      → is_address ipv6
          (record { protocol = movie_protocol; system = system; host = host; port = port })
        ≡ true
      → parse_system ipv6 (system ++ at_text host port) (partition 64 (system ++ at_text host port))
        ≡ some (record { protocol = movie_protocol; system = system; host = host; port = port })
  unfolding is_address
  parse_system-at_text system none none h =
      let name : is_remote_name system ≡ true = ground (arith, h) in
      let no_at = partition-none 64 system (name_no_at system name) in
      ap (λ x. parse_system ipv6 x (partition 64 x)) (append-nil system)
      ∙ ground (arith, name, no_at, h)
  parse_system-at_text system none (some port) h = absurd (ground (arith, h))
  parse_system-at_text system (some host) none h = absurd (ground (arith, h))
  parse_system-at_text system (some host) (some port) h =
      let name : is_remote_name system ≡ true = ground (arith, h) in
      let endpoint = endpoint_text host port in
      let cut = partition-append 64 system endpoint (name_no_at system name) in
      let same : is_same_endpoint host port (parse_endpoint ipv6 endpoint) ≡ true =
        ground (arith, h) in
      let read = is_same_endpoint-same host port (parse_endpoint ipv6 endpoint) same in
      ground (arith, name, cut, read, h)

abbrev remainder_of : Text → Option Text → Option ℕ → List Text → Text
remainder_of system host port names = (system ++ at_text host port) ++ (47 ∷ join_slash names)

canonical-remainder_of :
    (path : ActorPath)
    → (address path).protocol ≡ movie_protocol
    → canonical path
      ≡ movie_protocol
        ++ (scheme_end
            ++ remainder_of
                (address path).system
                (address path).host
                (address path).port
                (names_below path))
unfolding canonical address_text
canonical-remainder_of path h =
    let a = address path in
    let authority = a.system ++ at_text a.host a.port in
    let below = names_below path in
    ap (λ parts. address_text a ++ (47 ∷ join_slash (drop 1 parts))) (elements-names_below path)
    ∙ ap (λ p. (p ++ (scheme_end ++ authority)) ++ (47 ∷ join_slash below)) h
    ∙ append_assoc movie_protocol (scheme_end ++ authority) (47 ∷ join_slash below)
    ∙ ap (λ x. movie_protocol ++ x) (append_assoc scheme_end authority (47 ∷ join_slash below))

split_scheme-movie :
    (rest : Text)
    → split_scheme (movie_protocol ++ (scheme_end ++ rest)) ≡ some (movie_protocol, rest)
unfolding find starts_with
split_scheme-movie rest = refl

join_slash-is_empty :
    (name : Text) (names : List Text)
    → is_remote_name name ≡ true
    → is_empty (join_slash (name ∷ names)) ≡ false
unfolding join_slash is_remote_name
join_slash-is_empty [] names h = absurd (ground (arith, h))
join_slash-is_empty (c ∷ name) [] h = refl
join_slash-is_empty (c ∷ name) (next ∷ names) h = refl

parse_remote-descend :
    (uuid : Text → Option ℕ) (value : Text) (names : List Text) (a : Address) (path : ActorPath)
    → descend uuid names (root a) ≡ some path
    → canonical path ≡ value
    → are_remote_names names ≡ true
    → parse_remote uuid value (join_slash names) (some a) ≡ some path
unfolding descend join_slash are_remote_names
parse_remote-descend uuid value [] a path d e h = d
parse_remote-descend uuid value (name ∷ names) a path d e h =
    let first : is_remote_name name ≡ true = ground (arith, h) in
    let rest : are_remote_names names ≡ true = ground (arith, h) in
    let filled = join_slash-is_empty name names first in
    let cut =
      split_at-join_slash name names (name_no_slash name first) (names_no_slash names rest) in
    let same : (canonical path == value) ≡ true = (list_beq_iff (canonical path) value).1 e in
    ground (arith, filled, cut, d, same, first, rest)

-- The names are read again.
parse_remote-join_slash :
    (uuid : Text → Option ℕ) (path : ActorPath)
    → are_remote_names (names_below path) ≡ true
    → parse_remote uuid (canonical path) (join_slash (names_below path)) (some (address path))
      ≡ some (without_uid path)
parse_remote-join_slash uuid path h =
    parse_remote-descend uuid (canonical path) (names_below path) (address path) (without_uid path)
      (descend-without_uid uuid path h) (canonical-without_uid path) h

remainder-chars :
    (system : Text) (host : Option Text) (port : Option ℕ) (names : List Text)
    → is_remote_name system ≡ true
    → (elim host [ none ↦ true | some h ↦ all_bytes is_endpoint_char h ]) ≡ true
    → are_remote_names names ≡ true
    → (all_bytes is_path_char
          (movie_protocol ++ (scheme_end ++ remainder_of system host port names))
        ≡ true)
      × HasNoSlash (system ++ at_text host port)
unfolding all_bytes
remainder-chars system host port names s p n =
    let authority = system ++ at_text host port in
    let plain : all_bytes is_endpoint_char authority ≡ true =
      all_bytes-append is_endpoint_char system (at_text host port) (name-endpoint_chars system s)
        (at_text-chars host port p) in
    let below : all_bytes is_path_char (47 ∷ join_slash names) ≡ true =
      join_slash-path_chars names n in
    (
      all_bytes-append is_path_char authority (47 ∷ join_slash names) (path_chars authority plain)
          below,
      no_slash authority plain,
    )

system-at_text-is_empty :
    (system rest : Text) → is_remote_name system ≡ true → is_empty (system ++ rest) ≡ false
unfolding is_remote_name
system-at_text-is_empty [] rest h = absurd (ground (arith, h))
system-at_text-is_empty (c ∷ system) rest h = refl

-- A path of the protocol "movie" whose address its constructor accepts and whose elements below the root
-- are names that a remote system resolves is read again from its text, root paths included: the result
-- is the path without the UUIDs of its children, for any readers of IPv6 addresses and UUIDs. The host, if
-- there is one, has none of the characters `/`, `#`, `?` and `%`, and is ASCII.
pub parse_actor_path-canonical :
    (ipv6 : Text → Option Text) (uuid : Text → Option ℕ) (path : ActorPath)
    → (address path).protocol ≡ movie_protocol
    → is_address ipv6 (address path) ≡ true
    → has_plain_host (address path) ≡ true
    → are_remote_names (drop 1 (elements path)) ≡ true
    → parse_actor_path ipv6 uuid (canonical path) ≡ some (without_uid path)
unfolding parse_actor_path
parse_actor_path-canonical ipv6 uuid path m valid plain names =
    let a = address path in
    let below = names_below path in
    let resolved : are_remote_names below ≡ true =
      ap (λ parts. are_remote_names (drop 1 parts)) (sym (elements-names_below path)) ∙ names in
    let whole = canonical-remainder_of path m in
    let system : is_remote_name a.system ≡ true = address-system ipv6 a valid in
    let (chars, slashless) = remainder-chars a.system a.host a.port below system plain resolved in
    let authority = a.system ++ at_text a.host a.port in
    let filled = system-at_text-is_empty a.system (at_text a.host a.port) system in
    let cut = partition-append 47 authority (join_slash below) slashless in
    let scheme = split_scheme-movie (authority ++ (47 ∷ join_slash below)) in
    let read = parse_remote-join_slash uuid path resolved in
    let renamed : record {
      protocol = movie_protocol;
      system = a.system;
      host = a.host;
      port = a.port;
    }
        ≡ a =
      ap (λ p. record { protocol = p; system = a.system; host = a.host; port = a.port }) (sym m) in
    let found : parse_system ipv6 authority (partition 64 authority) ≡ some a =
      parse_system-at_text ipv6 a.system a.host a.port (ap (is_address ipv6) renamed ∙ valid)
      ∙ ap some renamed in
    let chars_path : all_bytes is_path_char (canonical path) ≡ true =
      ap (all_bytes is_path_char) whole ∙ chars in
    let scheme_path = ap split_scheme whole ∙ scheme in
    let inner : parse_authority ipv6 uuid (canonical path) (some (authority, join_slash below))
        ≡ some (without_uid path) =
      ground (arith, filled, found, read) in
    let outer : parse_scheme ipv6 uuid (canonical path)
          (some (movie_protocol, authority ++ (47 ∷ join_slash below)))
        ≡ some (without_uid path) =
      ap (parse_authority ipv6 uuid (canonical path)) cut ∙ inner in
    ground (arith, chars_path, scheme_path, outer)

-- Equality of such paths, which compares their texts, holds exactly if they are the same but for the UUIDs
-- of their children: no two of them that have different addresses or names are written alike.
pub is_same_path-without_uid :
    (path other : ActorPath)
    → (address path).protocol ≡ movie_protocol
    → (address other).protocol ≡ movie_protocol
    → (ipv6 : Text → Option Text) → is_address ipv6 (address path) ≡ true
    → is_address ipv6 (address other) ≡ true
    → has_plain_host (address path) ≡ true
    → has_plain_host (address other) ≡ true
    → are_remote_names (drop 1 (elements path)) ≡ true
    → are_remote_names (drop 1 (elements other)) ≡ true
    → (is_same_path path other ≡ true) ↔ (without_uid path ≡ without_uid other)
is_same_path-without_uid path other m m' ipv6 v v' p p' n n' =
    let no_uuid : Text → Option ℕ = λ text. none in
    let one = parse_actor_path-canonical ipv6 no_uuid path m v p n in
    let two = parse_actor_path-canonical ipv6 no_uuid other m' v' p' n' in
    (
      λ same.
          let texts : canonical path ≡ canonical other =
            (list_beq_iff (canonical path) (canonical other)).0 same in
          let paths : some (without_uid path) ≡ some (without_uid other) =
            sym one ∙ ap (parse_actor_path ipv6 no_uuid) texts ∙ two in
          cc paths,
      λ paths.
          (list_beq_iff (canonical path) (canonical other)).1
            (sym (canonical-without_uid path) ∙ ap canonical paths ∙ canonical-without_uid other),
    )
