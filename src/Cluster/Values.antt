-- ===== src/Cluster/Values.antt =====
-- The checks of values in movie/cluster/_protocol.py, and `_WireMember`.
use movie.Common.{
  ℕ, ◌^◌, Bool, true, false, not, ◌&&◌, ◌||◌, List, [], ◌∷◌, Option, none, some, eqb, leb, ltb,
  length, contains, unique, ◌==◌, nat_eq, list_eq, if◌then◌else◌,
}
use movie.Remoting.Text.Utf8.{Text, Bytes}
use movie.Http.Octets.{all_bytes, is_digit}
use movie.Actor.Path.Names.{is_remote_name, is_host}
use movie.Cluster.Json.{Json}

-- What the module uses of Python's library: `json.dumps` and `json.loads`, with the entries of each object in
-- their order and none for a text that is no JSON or no UTF-8; `UUID(text).int` and `str(uuid)`; whether the address
-- that `ipaddress.ip_address` reads is unspecified; and `str(ipaddress.IPv6Address(text))`.
pub record Library : Type 0 where
  pub dumps : Json → Bytes
  pub loads : Bytes → Option Json
  pub read_uuid : Text → Option ℕ
  pub uuid_text : ℕ → Text
  pub ip_address : Text → Option Bool
  pub ipv6 : Text → Option Text

-- `_validate_name`, whose pattern is that of movie/actor/path.py
abbrev pub is_cluster_name : Text → Bool
is_cluster_name name = is_remote_name name

-- `_validate_uuid`, of the number of a UUID, which has 128 bits
unfoldable pub is_incarnation : ℕ → Bool
is_incarnation uid = not (eqb uid 0) && ltb uid (2 ^ 128)

abbrev is_ascii : ℕ → Bool
is_ascii c = ltb c 128

abbrev is_specified : Option Bool → Bool
is_specified none = true
is_specified (some unspecified) = not unspecified

abbrev is_same : Text → Option Text → Bool
is_same host none = false
is_same host (some canonical) = canonical == host

-- `_validate_host`
unfoldable pub is_member_host : Library → Text → Bool
is_member_host lib host =
    (leb 1 (length host) && leb (length host) 255 && all_bytes is_ascii host)
    && is_specified (lib.ip_address host)
    && (if contains host 58 then is_same host (lib.ipv6 host) else is_host host)

-- `_validate_port`
abbrev pub is_member_port : ℕ → Bool
is_member_port port = leb 1 port && leb port 65535

-- `"left"`
abbrev pub left_status : Text
left_status = b'l' ∷ b'e' ∷ b'f' ∷ b't' ∷ []

-- `_STATUSES`
abbrev pub statuses : List Text
statuses =
    (b'j' ∷ b'o' ∷ b'i' ∷ b'n' ∷ b'i' ∷ b'n' ∷ b'g' ∷ [])
    ∷ (b'u' ∷ b'p' ∷ [])
    ∷ (b'l' ∷ b'e' ∷ b'a' ∷ b'v' ∷ b'i' ∷ b'n' ∷ b'g' ∷ [])
    ∷ left_status
    ∷ []

-- `_REACHABILITIES`
abbrev pub reachabilities : List Text
reachabilities =
    (b'r' ∷ b'e' ∷ b'a' ∷ b'c' ∷ b'h' ∷ b'a' ∷ b'b' ∷ b'l' ∷ b'e' ∷ [])
    ∷ (b'u' ∷ b'n' ∷ b'r' ∷ b'e' ∷ b'a' ∷ b'c' ∷ b'h' ∷ b'a' ∷ b'b' ∷ b'l' ∷ b'e' ∷ [])
    ∷ []

abbrev is_hexadecimal : ℕ → Bool
is_hexadecimal c = is_digit c || (leb 97 c && leb c 102)

-- `_FINGERPRINT`
abbrev pub is_fingerprint : Text → Bool
is_fingerprint text = eqb (length text) 64 && all_bytes is_hexadecimal text

pub record WireMember : Type 0 where
  pub system_name : Text
  pub incarnation_uid : ℕ
  pub host : Text
  pub port : ℕ
  pub status : Text
  pub reachability : Text

-- Whether `_WireMember(...)` returns.
unfoldable pub is_wire_member : Library → WireMember → Bool
is_wire_member lib m =
    is_cluster_name m.system_name
    && is_incarnation m.incarnation_uid
    && is_member_host lib m.host
    && is_member_port m.port
    && contains statuses m.status
    && contains reachabilities m.reachability

-- The pair of the name and the UUID, as one list.
unfoldable pub identities : List WireMember → List (List ℕ)
identities [] = []
identities (m ∷ rest) = (m.incarnation_uid ∷ m.system_name) ∷ identities rest

unfoldable pub active_names : List WireMember → List Text
active_names [] = []
active_names (m ∷ rest) =
    let on = active_names rest in if m.status == left_status then on else m.system_name ∷ on

-- `_MAX_MEMBERS`
abbrev pub max_members : ℕ
max_members = 256

-- `_validate_members`
unfoldable pub are_members : List WireMember → Bool
are_members members =
    leb (length members) max_members && unique (identities members) && unique (active_names members)

unfoldable pub are_wire_members : Library → List WireMember → Bool
are_wire_members lib [] = true
are_wire_members lib (m ∷ rest) = is_wire_member lib m && are_wire_members lib rest
