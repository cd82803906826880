-- ===== src/Actor/Path/Examples.antt =====
-- Paths of movie/actor/path.py, with an IPv6 host and without one.
use movie.Common.{
  ℕ, ◌≡◌, ◌↔◌, refl, true, [], ◌∷◌, ◌++◌, Option, none, some, ◌==◌, nat_eq, list_eq, drop,
  if◌then◌else◌,
}
use movie.Remoting.Text.Utf8.{Text}
use movie.Http.Octets.{all_bytes, find, starts_with, partition, split_at, int_from, str_within}
use movie.Actor.Path.Names.{is_protocol, is_name_char, is_remote_name, is_host}
use movie.Actor.Path.Endpoint.{Address, parse_port, parse_endpoint, is_address, address_text}
use movie.Actor.Path.Tree.{
  ActorPath, root, child, address, elements, join_slash, canonical, is_same_path, are_remote_names,
  movie_protocol, split_last, child_path,
}
use movie.Actor.Path.Chars.{has_plain_host}
use movie.Actor.Path.Parse.{descend, parse_actor_path}
use movie.Actor.Path.Descend.{without_uid}
use movie.Actor.Path.RoundTrip.{parse_actor_path-canonical, is_same_path-without_uid}

-- "::1", the one IPv6 address that these tests know
abbrev loopback : Text
loopback = 58 ∷ 58 ∷ b'1' ∷ []

abbrev ipv6 : Text → Option Text
ipv6 host = if host == loopback then some loopback else none

abbrev uuid : Text → Option ℕ
uuid text = none

abbrev here : Address
here = record {
  protocol = movie_protocol;
  system = b'a' ∷ [];
  host = some loopback;
  port = some 80;
}

-- "movie://a@[::1]:80/u/v", whose last child has a UUID
abbrev worker : ActorPath
worker = child (b'v' ∷ []) (child (b'u' ∷ []) (root here) none) (some 7)

here-is_address : is_address ipv6 here ≡ true
unfolding is_address is_protocol is_remote_name is_name_char parse_endpoint parse_port all_bytes
    partition int_from str_within
here-is_address = refl

worker-names : are_remote_names ((b'u' ∷ []) ∷ (b'v' ∷ []) ∷ []) ≡ true
unfolding are_remote_names is_remote_name is_name_char all_bytes
worker-names = refl

worker-plain : has_plain_host (address worker) ≡ true
unfolding address all_bytes
worker-plain = refl

worker-is_address : is_address ipv6 (address worker) ≡ true
unfolding address
worker-is_address = here-is_address

worker-protocol : (address worker).protocol ≡ movie_protocol
unfolding address
worker-protocol = refl

worker-elements : are_remote_names (drop 1 (elements worker)) ≡ true
unfolding elements
worker-elements = worker-names

parse_actor_path-canonical_example :
    parse_actor_path ipv6 uuid (canonical worker) ≡ some (without_uid worker)
parse_actor_path-canonical_example =
    parse_actor_path-canonical ipv6 uuid worker worker-protocol worker-is_address worker-plain
      worker-elements

-- The same path without a UUID.
abbrev twin : ActorPath
twin = child (b'v' ∷ []) (child (b'u' ∷ []) (root here) none) none

twin-plain : has_plain_host (address twin) ≡ true
unfolding address all_bytes
twin-plain = refl

twin-is_address : is_address ipv6 (address twin) ≡ true
unfolding address
twin-is_address = here-is_address

twin-protocol : (address twin).protocol ≡ movie_protocol
unfolding address
twin-protocol = refl

twin-elements : are_remote_names (drop 1 (elements twin)) ≡ true
unfolding elements
twin-elements = worker-names

is_same_path-without_uid_example :
    (is_same_path worker twin ≡ true) ↔ (without_uid worker ≡ without_uid twin)
is_same_path-without_uid_example =
    is_same_path-without_uid worker twin worker-protocol twin-protocol ipv6 worker-is_address
      twin-is_address worker-plain twin-plain worker-elements twin-elements

-- "movie://a@h:080/" and "movie://a@h:080/u"
abbrev padded : Text
padded =
    b'm' ∷ b'o' ∷ b'v' ∷ b'i' ∷ b'e' ∷ 58 ∷ 47 ∷ 47 ∷ b'a' ∷ 64 ∷ b'h' ∷ 58 ∷ b'0' ∷ b'8' ∷ b'0'
    ∷ 47 ∷ []

padded_address : Address
padded_address = record {
  protocol = movie_protocol;
  system = b'a' ∷ [];
  host = some (b'h' ∷ []);
  port = some 80;
}

-- A root is read from a text that is not its own.
parse_actor_path-padded : parse_actor_path ipv6 uuid padded ≡ some (root padded_address)
unfolding parse_actor_path find starts_with partition all_bytes is_address is_protocol
    is_remote_name is_name_char is_host parse_endpoint parse_port int_from str_within padded_address
parse_actor_path-padded = refl

-- A child is not.
parse_actor_path-padded_child : parse_actor_path ipv6 uuid (padded ++ (b'u' ∷ [])) ≡ none
unfolding parse_actor_path find starts_with partition all_bytes is_address is_protocol
    is_remote_name is_name_char is_host parse_endpoint parse_port int_from str_within split_at
    are_remote_names descend child_path split_last canonical address_text address elements
    join_slash
parse_actor_path-padded_child = refl
