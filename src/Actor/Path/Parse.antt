-- ===== src/Actor/Path/Parse.antt =====
-- `parse_actor_path` and `is_remote_actor_path` of movie/actor/path.py.
use movie.Common.{
  ℕ, ◌+◌, Bool, false, not, ◌&&◌, ◌||◌, List, [], ◌∷◌, Option, none, some, eqb, is_empty, take,
  drop, ◌==◌, nat_eq, list_eq, if◌then◌else◌,
}
use movie.Remoting.Text.Utf8.{Text}
use movie.Http.Octets.{all_bytes, find, partition, split_at}
use movie.Actor.Path.Names.{is_remote_name}
use movie.Actor.Path.Endpoint.{Address, is_ascii, scheme_end, parse_endpoint, new_address}
use movie.Actor.Path.Tree.{ActorPath, root, child_path, canonical, are_remote_names, movie_protocol}

-- A character that a path may have: ASCII and none of `#`, `?` and `%`
abbrev pub is_path_char : ℕ → Bool
is_path_char c = is_ascii c && not (eqb c 35 || eqb c 63 || eqb c 37)

abbrev pub cut : Text → Option ℕ → Option (Text × Text)
cut value none = none
cut value (some at) = some (take at value, drop (at + 3) value)

-- `split("://", 1)`
abbrev pub split_scheme : Text → Option (Text × Text)
split_scheme value = cut value (find scheme_end value)

abbrev pub if_canonical : Text → Option ActorPath → Option ActorPath
if_canonical value none = none
if_canonical value (some path) = if canonical path == value then some path else none

abbrev pub root_path : Option Address → Option ActorPath
root_path none = none
root_path (some a) = some (root a)

module _ (uuid : Text → Option ℕ) where
  -- The loop over the elements.
  unfoldable pub descend : List Text → ActorPath → Option ActorPath
  descend [] path = some path
  descend (element ∷ rest) path = elim (child_path uuid path element) [
    | none ↦ none
    | some next ↦ descend rest next
  ]

  abbrev pub parse_elements : Text → List Text → Option Address → Option ActorPath
  parse_elements value names none = none
  parse_elements value names (some a) =
      if are_remote_names names then if_canonical value (descend names (root a)) else none

  abbrev pub parse_remote : Text → Text → Option Address → Option ActorPath
  parse_remote value remote_path a =
      if is_empty remote_path then root_path a else parse_elements value (split_at 47 remote_path) a

module _ (ipv6 : Text → Option Text) where
  abbrev pub address_of : Text → Option (Text × Option ℕ) → Option Address
  address_of system none = none
  address_of system (some (host, port)) = new_address ipv6 movie_protocol system (some host) port

  abbrev pub parse_system : Text → Option (Text × Text) → Option Address
  parse_system authority none =
      if is_remote_name authority then new_address ipv6 movie_protocol authority none none else none
  parse_system authority (some (system, endpoint)) =
      if is_remote_name system then address_of system (parse_endpoint ipv6 endpoint) else none

module _ (ipv6 : Text → Option Text) (uuid : Text → Option ℕ) where
  abbrev pub parse_authority : Text → Option (Text × Text) → Option ActorPath
  parse_authority value none = none
  parse_authority value (some (authority, remote_path)) =
      if is_empty authority
      then none
      else parse_remote uuid value remote_path
          (parse_system ipv6 authority (partition 64 authority))

  abbrev pub parse_scheme : Text → Option (Text × Text) → Option ActorPath
  parse_scheme value none = none
  parse_scheme value (some (protocol, remainder)) =
      if protocol == movie_protocol then parse_authority value (partition 47 remainder) else none

  -- `parse_actor_path`
  unfoldable pub parse_actor_path : Text → Option ActorPath
  parse_actor_path value =
      if all_bytes is_path_char value then parse_scheme value (split_scheme value) else none

-- `is_remote_actor_path`
unfoldable pub is_remote_actor_path : Text → Bool
is_remote_actor_path [] = false
is_remote_actor_path (c ∷ rest) = eqb c 47 && are_remote_names (split_at 47 rest)
