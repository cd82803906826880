-- ===== src/Cluster/MemberReading.antt =====
-- The UUIDs and the members of movie/cluster/_protocol.py that JSON values stand for.
use movie.Common.{
  ℕ, suc, ◌&&◌, List, [], ◌∷◌, Option, none, some, leb, ◌==◌, nat_eq, list_eq, if◌then◌else◌,
}
use movie.Remoting.Text.Utf8.{Text}
use movie.Cluster.Keys.{
  host_key, incarnation_uid_key, members_key, port_key, reachability_key, status_key,
  system_name_key, member_keys,
}
use movie.Cluster.Json.{
  Json, array, JsonArray, end_array, item, JsonObject, ◌>>=◌, checked, require_object, as_text,
  lookup, text_at, natural_at,
}
use movie.Cluster.Values.{Library, WireMember, is_wire_member, max_members, is_incarnation}

unfoldable pub array_length : JsonArray → ℕ
array_length end_array = 0
array_length (item value rest) = suc (array_length rest)

module _ (lib : Library) where
  -- `_uuid_from_json`, of a string
  abbrev pub canonical_uuid : Text → Option ℕ → Option ℕ
  canonical_uuid text none = none
  canonical_uuid text (some uid) =
      if lib.uuid_text uid == text && is_incarnation uid then some uid else none

  abbrev pub uuid_from_json : Json → Option ℕ
  uuid_from_json value = as_text value >>= λ (text : Text). canonical_uuid text (lib.read_uuid text)

  abbrev pub uuid_at : Text → JsonObject → Option ℕ
  uuid_at key entries = lookup key entries >>= uuid_from_json

  -- `_member_from_json`
  unfoldable pub member_from_json : Json → Option WireMember
  member_from_json value = do
    entries ← require_object member_keys value
    system_name ← text_at system_name_key entries
    incarnation_uid ← uuid_at incarnation_uid_key entries
    host ← text_at host_key entries
    port ← natural_at port_key entries
    status ← text_at status_key entries
    reachability ← text_at reachability_key entries
    let m : WireMember = record {
      system_name = system_name;
      incarnation_uid = incarnation_uid;
      host = host;
      port = port;
      status = status;
      reachability = reachability;
    }
    checked (is_wire_member lib m) m

  unfoldable pub members_of : JsonArray → Option (List WireMember)
  members_of end_array = some []
  members_of (item value rest) = do
    m ← member_from_json value
    others ← members_of rest
    some (m ∷ others)

  -- `_members_from_json`
  abbrev pub members_from_json : Json → Option (List WireMember)
  members_from_json (array items) =
      if leb (array_length items) max_members then members_of items else none
  members_from_json value = none

  abbrev pub members_at : JsonObject → Option (List WireMember)
  members_at entries = lookup members_key entries >>= members_from_json
