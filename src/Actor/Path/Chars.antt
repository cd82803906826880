-- ===== src/Actor/Path/Chars.antt =====
-- The characters of the names and addresses of movie/actor/path.py.
use movie.Common.{
  ℕ, suc, ◌≡◌, refl, Bool, true, ◌&&◌, List, [], ◌∷◌, ◌++◌, Option, none, some, contains, nat_eq,
  inl, inr, arith, All, Bool-cases,
}
use movie.Remoting.Text.Utf8.{Text}
use movie.Http.Octets.{all_bytes, is_digit, str}
use movie.Http.AllBytes.{all_bytes-append, all_bytes_weaker}
use movie.Http.Decimal.{str_within-digits}
use movie.Actor.Path.Names.{is_name_char, is_remote_name}
use movie.Actor.Path.Endpoint.{Address, host_text, port_text, at_text}
use movie.Actor.Path.Tree.{are_remote_names, join_slash}
use movie.Actor.Path.Parse.{is_path_char}
use movie.Actor.Path.Cut.{is_other, HasNoSlash}

-- A character of an authority: one of a path but no slash.
abbrev pub is_endpoint_char : ℕ → Bool
is_endpoint_char c = is_path_char c && is_other 47 c

-- Whether the host, if there is one, has such characters only, as all have but IPv6 hosts with a scope.
abbrev pub has_plain_host : Address → Bool
has_plain_host a = elim a.host [ none ↦ true | some host ↦ all_bytes is_endpoint_char host ]

name_char-endpoint : (c : ℕ) → is_name_char c ≡ true → is_endpoint_char c ≡ true
unfolding is_name_char
name_char-endpoint c h = ground (arith, h)

name_char-at : (c : ℕ) → is_name_char c ≡ true → is_other 64 c ≡ true
unfolding is_name_char
name_char-at c h = ground (arith, h)

name_char-hash : (c : ℕ) → is_name_char c ≡ true → is_other 35 c ≡ true
unfolding is_name_char
name_char-hash c h = ground (arith, h)

endpoint_char-slash : (c : ℕ) → is_endpoint_char c ≡ true → is_other 47 c ≡ true
endpoint_char-slash c h = ground (arith, h)

endpoint_char-path : (c : ℕ) → is_endpoint_char c ≡ true → is_path_char c ≡ true
endpoint_char-path c h = ground (arith, h)

digit-endpoint : (c : ℕ) → is_digit c ≡ true → is_endpoint_char c ≡ true
digit-endpoint c h = ground (arith, h)

module _ (name : Text) (h : is_remote_name name ≡ true) where
  name_chars : all_bytes is_name_char name ≡ true
  unfolding is_remote_name
  name_chars = ground (arith, h)

  pub name-endpoint_chars : all_bytes is_endpoint_char name ≡ true
  name-endpoint_chars =
      all_bytes_weaker is_name_char is_endpoint_char name name_char-endpoint name_chars

  pub name_no_at : all_bytes (is_other 64) name ≡ true
  name_no_at = all_bytes_weaker is_name_char (is_other 64) name name_char-at name_chars

  pub name_no_hash : all_bytes (is_other 35) name ≡ true
  name_no_hash = all_bytes_weaker is_name_char (is_other 35) name name_char-hash name_chars

  pub name_no_slash : HasNoSlash name
  name_no_slash =
      all_bytes_weaker is_endpoint_char (is_other 47) name endpoint_char-slash name-endpoint_chars

pub no_slash : (text : Text) → all_bytes is_endpoint_char text ≡ true → HasNoSlash text
no_slash text h = all_bytes_weaker is_endpoint_char (is_other 47) text endpoint_char-slash h

pub path_chars :
    (text : Text) → all_bytes is_endpoint_char text ≡ true → all_bytes is_path_char text ≡ true
path_chars text h = all_bytes_weaker is_endpoint_char is_path_char text endpoint_char-path h

pub names_no_slash : (names : List Text) → are_remote_names names ≡ true → All HasNoSlash names
unfolding are_remote_names
names_no_slash [] h = tt
names_no_slash (name ∷ names) h =
    (name_no_slash name (ground (arith, h)), names_no_slash names (ground (arith, h)))

pub join_slash-path_chars :
    (names : List Text)
    → are_remote_names names ≡ true
    → all_bytes is_path_char (join_slash names) ≡ true
unfolding join_slash are_remote_names all_bytes
join_slash-path_chars [] h = refl
join_slash-path_chars (name ∷ []) h =
    let first : is_remote_name name ≡ true = ground (arith, h) in
    path_chars name (name-endpoint_chars name first)
join_slash-path_chars (name ∷ next ∷ names) h =
    let first : is_remote_name name ≡ true = ground (arith, h) in
    let others : are_remote_names (next ∷ names) ≡ true = ground (arith, h) in
    let rest : all_bytes is_path_char (47 ∷ join_slash (next ∷ names)) ≡ true =
      join_slash-path_chars (next ∷ names) others in
    all_bytes-append is_path_char name (47 ∷ join_slash (next ∷ names))
      (path_chars name (name-endpoint_chars name first)) rest

host_text-chars :
    (host : Text)
    → all_bytes is_endpoint_char host ≡ true
    → all_bytes is_endpoint_char (host_text host) ≡ true
unfolding all_bytes
host_text-chars host h =
    let closed : all_bytes is_endpoint_char (host ++ (93 ∷ [])) ≡ true =
      all_bytes-append is_endpoint_char host (93 ∷ []) h refl in
    elim (Bool-cases (contains host 58)) [
      | inl colon ↦ ground (arith, colon, closed)
      | inr plain ↦ ground (arith, plain, h)
    ]

port_text-chars : (port : Option ℕ) → all_bytes is_endpoint_char (port_text port) ≡ true
unfolding all_bytes
port_text-chars none = refl
port_text-chars (some port) =
    all_bytes_weaker is_digit is_endpoint_char (str port) digit-endpoint
      (str_within-digits (suc port) port)

pub at_text-chars :
    (host : Option Text) (port : Option ℕ)
    → (elim host [ none ↦ true | some h ↦ all_bytes is_endpoint_char h ]) ≡ true
    → all_bytes is_endpoint_char (at_text host port) ≡ true
unfolding all_bytes
at_text-chars none port h = refl
at_text-chars (some host) port h =
    all_bytes-append is_endpoint_char (host_text host) (port_text port) (host_text-chars host h)
      (port_text-chars port)
