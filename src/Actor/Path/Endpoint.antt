-- ===== src/Actor/Path/Endpoint.antt =====
-- `Address`, `_parse_endpoint` and `_parse_port` of movie/actor/path.py, with none for their `ValueError`.
use movie.Common.{
  ℕ, Bool, true, false, not, ◌&&◌, [], ◌∷◌, ◌++◌, Option, none, some, eqb, leb, ltb, is_empty,
  length, contains, ◌==◌, nat_eq, list_eq, if◌then◌else◌,
}
use movie.Remoting.Text.Utf8.{Text}
use movie.Http.Octets.{all_bytes, is_digit, int_from, str, partition}
use movie.Actor.Path.Names.{is_protocol, is_remote_name, is_host}

abbrev pub is_ascii : ℕ → Bool
is_ascii c = ltb c 128

-- `_parse_port`: `int` raises `ValueError` on more than 4300 digits, leading zeros included.
unfoldable pub parse_port : Text → Option ℕ
parse_port value =
    if not (is_empty value) && all_bytes is_digit value && leb (length value) 4300
    then if leb 1 (int_from 0 value) && leb (int_from 0 value) 65535
      then some (int_from 0 value)
      else none
    else none

abbrev pub with_port : Text → Option ℕ → Option (Text × Option ℕ)
with_port host none = none
with_port host (some port) = some (host, some port)

-- What follows the bracket of an IPv6 host.
abbrev pub after_bracket : Text → Text → Option (Text × Option ℕ)
after_bracket host [] = some (host, none)
after_bracket host (c ∷ remaining) =
    if eqb c 58 then with_port host (parse_port remaining) else none

-- `partition(":")` of a text that has at most one colon
abbrev pub parse_plain : Text → Option (Text × Text) → Option (Text × Option ℕ)
parse_plain endpoint none = if is_host endpoint then some (endpoint, none) else none
parse_plain endpoint (some (host, port)) =
    if not (contains port 58) && is_host host then with_port host (parse_port port) else none

-- `str(ipaddress.IPv6Address(host))`, with none for its error, is the parameter.
module _ (ipv6 : Text → Option Text) where
  abbrev pub is_canonical : Text → Option Text → Bool
  is_canonical host none = false
  is_canonical host (some canonical) = canonical == host

  abbrev pub parse_bracketed : Option (Text × Text) → Option (Text × Option ℕ)
  parse_bracketed none = none
  parse_bracketed (some (host, remaining)) =
      if is_canonical host (ipv6 host) then after_bracket host remaining else none

  abbrev pub parse_checked : Text → Option (Text × Option ℕ)
  parse_checked [] = none
  parse_checked (c ∷ rest) =
      if eqb c 91
      then parse_bracketed (partition 93 rest)
      else parse_plain (c ∷ rest) (partition 58 (c ∷ rest))

  -- `_parse_endpoint`
  unfoldable pub parse_endpoint : Text → Option (Text × Option ℕ)
  parse_endpoint endpoint = if all_bytes is_ascii endpoint then parse_checked endpoint else none

pub record Address : Type 0 where
  pub protocol : Text
  pub system : Text
  pub host : Option Text
  pub port : Option ℕ

-- `f"[{host}]" if ":" in host else host`
abbrev pub host_text : Text → Text
host_text host = if contains host 58 then 91 ∷ (host ++ (93 ∷ [])) else host

-- `f"{host}:{port}"`
abbrev pub endpoint_text : Text → ℕ → Text
endpoint_text host port = host_text host ++ (58 ∷ str port)

abbrev pub port_text : Option ℕ → Text
port_text none = []
port_text (some port) = 58 ∷ str port

-- The part of `__str__` that follows the system.
abbrev pub at_text : Option Text → Option ℕ → Text
at_text none port = []
at_text (some host) port = 64 ∷ (host_text host ++ port_text port)

-- `"://"`
abbrev pub scheme_end : Text
scheme_end = 58 ∷ 47 ∷ 47 ∷ []

-- `Address.__str__`
unfoldable pub address_text : Address → Text
address_text a = a.protocol ++ (scheme_end ++ (a.system ++ at_text a.host a.port))

-- Whether the endpoint that is parsed again is the one that there was.
abbrev pub is_same_endpoint : Text → ℕ → Option (Text × Option ℕ) → Bool
is_same_endpoint host port none = false
is_same_endpoint host port (some (canonical_host, none)) = false
is_same_endpoint host port (some (canonical_host, some canonical_port)) =
    canonical_host == host && eqb canonical_port port

module _ (ipv6 : Text → Option Text) where
  abbrev pub is_endpoint : Option Text → Option ℕ → Bool
  is_endpoint none none = true
  is_endpoint none (some port) = false
  is_endpoint (some host) none = false
  is_endpoint (some host) (some port) =
      is_same_endpoint host port (parse_endpoint ipv6 (endpoint_text host port))

  -- Whether `Address.__post_init__` returns.
  unfoldable pub is_address : Address → Bool
  is_address a = is_protocol a.protocol && is_remote_name a.system && is_endpoint a.host a.port

  -- `Address(...)`
  abbrev pub new_address : Text → Text → Option Text → Option ℕ → Option Address
  new_address protocol system host port =
      let a : Address = record { protocol = protocol; system = system; host = host; port = port } in
      if is_address a then some a else none
