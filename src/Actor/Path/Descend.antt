-- ===== src/Actor/Path/Descend.antt =====
-- The elements of a path of movie/actor/path.py, and the path that they lead to from the root.
use movie.Common.{
  ℕ, ◌≡◌, refl, ap, ◌∙◌, inl, inr, true, false, List, [], ◌∷◌, ◌++◌, Option, none, some, drop,
  contains, ◌==◌, nat_eq, list_eq, list_beq_iff, arith, Bool-cases, Option-cases,
}
use movie.Remoting.Text.Utf8.{Text}
use movie.Http.Octets.{all_bytes}
use movie.Actor.Path.Names.{is_remote_name}
use movie.Actor.Path.Endpoint.{Address, address_text, is_same_endpoint, is_address}
use movie.Actor.Path.Tree.{
  ActorPath, root, child, address, elements, join_slash, canonical, are_remote_names, child_path,
}
use movie.Actor.Path.Parse.{descend}
use movie.Actor.Path.Cut.{is_other, split_last-none}
use movie.Actor.Path.Chars.{name_no_hash, name_no_slash}

-- The path with the UUIDs of its children left out, which `canonical` does not write.
unfoldable pub without_uid : ActorPath → ActorPath
without_uid (root a) = root a
without_uid (child name parent uid) = child name (without_uid parent) none

-- The elements below the root.
pub names_below : ActorPath → List Text
names_below (root a) = []
names_below (child name parent uid) = names_below parent ++ (name ∷ [])

pub elements-names_below : (path : ActorPath) → elements path ≡ (47 ∷ []) ∷ names_below path
unfolding elements names_below
elements-names_below (root a) = refl
elements-names_below (child name parent uid) =
    ap (λ parts. parts ++ (name ∷ [])) (elements-names_below parent)

address-without_uid : (path : ActorPath) → address (without_uid path) ≡ address path
unfolding address without_uid
address-without_uid (root a) = refl
address-without_uid (child name parent uid) = address-without_uid parent

elements-without_uid : (path : ActorPath) → elements (without_uid path) ≡ elements path
unfolding elements without_uid
elements-without_uid (root a) = refl
elements-without_uid (child name parent uid) =
    ap (λ parts. parts ++ (name ∷ [])) (elements-without_uid parent)

pub canonical-without_uid : (path : ActorPath) → canonical (without_uid path) ≡ canonical path
unfolding canonical
canonical-without_uid path =
    ap (λ a. address_text a ++ (47 ∷ join_slash (drop 1 (elements (without_uid path)))))
      (address-without_uid path)
    ∙ ap (λ parts. address_text (address path) ++ (47 ∷ join_slash (drop 1 parts)))
        (elements-without_uid path)

are_remote_names-append :
    (xs ys : List Text)
    → are_remote_names (xs ++ ys) ≡ true
    → (are_remote_names xs ≡ true) × (are_remote_names ys ≡ true)
unfolding are_remote_names
are_remote_names-append [] ys h = (refl, h)
are_remote_names-append (x ∷ xs) ys h =
    let (l, r) = are_remote_names-append xs ys (ground (arith, h)) in (ground (arith, h, l), r)

single-name : (name : Text) → are_remote_names (name ∷ []) ≡ true → is_remote_name name ≡ true
unfolding are_remote_names
single-name name h = ground (arith, h)

-- The endpoint that a check compares with another one.
pub is_same_endpoint-same :
    (host : Text) (port : ℕ) (found : Option (Text × Option ℕ))
    → is_same_endpoint host port found ≡ true
    → found ≡ some (host, some port)
is_same_endpoint-same host port none h = absurd (cc h)
is_same_endpoint-same host port (some (other, none)) h = absurd (cc h)
is_same_endpoint-same host port (some (other, some number)) h = elim (Bool-cases (other == host)) [
  | inl same ↦
      let name : other ≡ host = (list_beq_iff other host).0 same in
      let number_same : number ≡ port = ground (arith, h, same) in
      ap (λ x. some (x, some number)) name ∙ ap (λ n. some (host, some n)) number_same
  | inr apart ↦ absurd (ground (arith, h, apart))
]

pub address-system :
    (ipv6 : Text → Option Text) (a : Address)
    → is_address ipv6 a ≡ true
    → is_remote_name a.system ≡ true
unfolding is_address
address-system ipv6 a h = ground (arith, h)

pub other-contains :
    (b : ℕ) (name : Text) → all_bytes (is_other b) name ≡ true → contains name b ≡ false
unfolding all_bytes
other-contains b [] h = refl
other-contains b (c ∷ name) h = ground (arith, h, other-contains b name)

module _ (uuid : Text → Option ℕ) where
  child_path-new :
      (path : ActorPath) (name : Text)
      → is_remote_name name ≡ true
      → child_path uuid path name ≡ some (child name path none)
  unfolding child_path
  child_path-new path name h =
      let whole = split_last-none 35 name (name_no_hash name h) in
      let no_hash = other-contains 35 name (name_no_hash name h) in
      let slashless = other-contains 47 name (name_no_slash name h) in
      ground (arith, whole, no_hash, slashless)

  descend-append :
      (xs : List Text) (name : Text) (from at : ActorPath)
      → descend uuid xs from ≡ some at
      → is_remote_name name ≡ true
      → descend uuid (xs ++ (name ∷ [])) from ≡ some (child name at none)
  unfolding descend
  descend-append [] name from at d h =
      let same : from ≡ at = cc d in ground (arith, child_path-new from name h, same)
  descend-append (x ∷ xs) name from at d h = elim (Option-cases (child_path uuid from x)) [
    | inl nothing ↦ absurd (ground (arith, d, nothing))
    | inr (next, found) ↦
        let ih = descend-append xs name next at (ground (arith, d, found)) h in
        ground (arith, found, ih)
  ]

  -- The elements lead back to the path.
  pub descend-without_uid :
      (path : ActorPath)
      → are_remote_names (names_below path) ≡ true
      → descend uuid (names_below path) (root (address path)) ≡ some (without_uid path)
  unfolding names_below without_uid address descend
  descend-without_uid (root a) h = refl
  descend-without_uid (child name parent uid) h =
      let (below, own) = are_remote_names-append (names_below parent) (name ∷ []) h in
      descend-append (names_below parent) name (root (address parent)) (without_uid parent)
        (descend-without_uid parent below) (single-name name own)
