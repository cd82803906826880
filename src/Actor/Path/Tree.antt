-- ===== src/Actor/Path/Tree.antt =====
-- `ActorPath`, `RootActorPath` and `ChildActorPath` of movie/actor/path.py.
use movie.Common.{
  ℕ, Bool, true, ◌&&◌, ◌||◌, List, [], ◌∷◌, ◌++◌, Option, none, some, eqb, ltb, length, drop,
  contains, ◌==◌, nat_eq, list_eq, if◌then◌else◌,
}
use movie.Remoting.Text.Utf8.{Text}
use movie.Actor.Path.Names.{is_remote_name}
use movie.Actor.Path.Endpoint.{Address, address_text}

-- A child has its name, its parent and, perhaps, the number of its UUID.
pub data ActorPath : Type 0 where
  root : Address → ActorPath
  child : Text → ActorPath → Option ℕ → ActorPath

unfoldable pub address : ActorPath → Address
address (root a) = a
address (child name parent uid) = address parent

-- `elements`
unfoldable pub elements : ActorPath → List Text
elements (root a) = (47 ∷ []) ∷ []
elements (child name parent uid) = elements parent ++ (name ∷ [])

-- `"/".join`
unfoldable pub join_slash : List Text → Text
join_slash [] = []
join_slash (part ∷ []) = part
join_slash (part ∷ next ∷ parts) = part ++ (47 ∷ join_slash (next ∷ parts))

-- `remote_path`
abbrev pub remote_path : ActorPath → Text
remote_path path = 47 ∷ join_slash (drop 1 (elements path))

-- `canonical`, which is `__str__` too
unfoldable pub canonical : ActorPath → Text
canonical path = address_text (address path) ++ remote_path path

-- `__eq__`
abbrev pub is_same_path : ActorPath → ActorPath → Bool
is_same_path path other = canonical path == canonical other

unfoldable pub are_remote_names : List Text → Bool
are_remote_names [] = true
are_remote_names (name ∷ names) = is_remote_name name && are_remote_names names

-- `"movie"`
abbrev pub movie_protocol : Text
movie_protocol = b'm' ∷ b'o' ∷ b'v' ∷ b'i' ∷ b'e' ∷ []

-- `is_remote_resolvable`
unfoldable pub is_remote_resolvable : ActorPath → Bool
is_remote_resolvable path =
    (address path).protocol == movie_protocol
    && is_remote_name (address path).system
    && ltb 1 (length (elements path))
    && are_remote_names (drop 1 (elements path))

-- `rsplit("#", 1)` of a text that has the sign: none where it does not
unfoldable pub split_last : ℕ → Text → Option (Text × Text)
split_last b [] = none
split_last b (c ∷ rest) = elim (split_last b rest) [
  | some (l, r) ↦ some (c ∷ l, r)
  | none ↦ if eqb c b then some ([], rest) else none
]

-- `ChildActorPath(...)`
abbrev pub new_child : ActorPath → Text → Option ℕ → Option ActorPath
new_child parent name uid =
    if contains name 35 || contains name 47 then none else some (child name parent uid)

abbrev pub with_uid : ActorPath → Text → Option ℕ → Option ActorPath
with_uid parent name none = none
with_uid parent name (some uid) = new_child parent name (some uid)

-- `uuid.UUID(uid).int`, with none for its error, is the parameter.
module _ (uuid : Text → Option ℕ) where
  abbrev pub child_of_split : ActorPath → Text → Option (Text × Text) → Option ActorPath
  child_of_split parent name none = new_child parent name none
  child_of_split parent name (some (plain_name, uid)) = with_uid parent plain_name (uuid uid)

  -- `child`, with `split_name_and_uid`, and none for its `ValueError`
  unfoldable pub child_path : ActorPath → Text → Option ActorPath
  child_path parent name = child_of_split parent name (split_last 35 name)
