-- ===== src/Cluster/Examples.antt =====
-- A heartbeat and its answer in the payloads of movie/cluster/_protocol.py.
use movie.Common.{
  ℕ, ◌^◌, ◌≤◌, ◌<◌, ◌≡◌, refl, true, [], ◌∷◌, Option, none, some, nat_eq, list_eq, arith,
}
use movie.Remoting.Text.Utf8.{Text}
use movie.Http.Octets.{all_bytes}
use movie.Actor.Path.Names.{is_remote_name, is_name_char, is_host}
use movie.Cluster.Json.{keys, is_plain, require_object, has_all, lookup}
use movie.Cluster.Values.{
  Library, WireMember, is_incarnation, is_member_host, is_wire_member, are_wire_members,
  are_members, identities, active_names, left_status,
}
use movie.Cluster.Messages.{Message, heartbeat_ack, is_heartbeat_ack, is_message}
use movie.Cluster.Manifests.{heartbeat_ack_type, manifest_of, find_type}
use movie.Cluster.Objects.{member_to_json, members_to_json, message_to_json}
use movie.Cluster.MemberReading.{member_from_json, array_length, members_of}
use movie.Cluster.Reading.{heartbeat_ack_from_json, message_from_json}
use movie.Cluster.Serializer.{serialize, deserialize, max_payload_bytes}
use movie.Cluster.Payloads.{deserialize-serialize}
use movie.Cluster.Accepted.{deserialize-is_message}

-- A UUID is written as one character, and one payload is read.
abbrev read_one : Text → Option ℕ
read_one [] = none
read_one (uid ∷ []) = some uid
read_one (uid ∷ more ∷ rest) = none

abbrev without_json : Library
without_json = record {
  dumps = λ value. b'{' ∷ [];
  loads = λ payload. none;
  read_uuid = read_one;
  uuid_text = λ uid. uid ∷ [];
  ip_address = λ text. none;
  ipv6 = λ text. none;
}

abbrev member : WireMember
member = record {
  system_name = b'a' ∷ [];
  incarnation_uid = 7;
  host = b'h' ∷ [];
  port = 65535;
  status = left_status;
  reachability = b'r' ∷ b'e' ∷ b'a' ∷ b'c' ∷ b'h' ∷ b'a' ∷ b'b' ∷ b'l' ∷ b'e' ∷ [];
}

abbrev answer : Message
answer = heartbeat_ack (record {
  cluster_name = b'c' ∷ [];
  source_system_name = b'a' ∷ [];
  source_incarnation_uid = 7;
  target_incarnation_uid = 8;
  membership_token = 9;
  sequence = 0;
  revision = 3;
  members = member ∷ [];
})

abbrev library : Library
library = record without_json { loads = λ payload. some (message_to_json without_json answer) }

read_one-uuid_text :
    (uid : ℕ) → uid < 2 ^ 128 → library.read_uuid (library.uuid_text uid) ≡ some uid
read_one-uuid_text uid bound = refl

answer-is_message : is_message library answer ≡ true
unfolding is_message is_heartbeat_ack is_remote_name is_name_char is_incarnation is_member_host
    is_host are_members identities active_names are_wire_members is_wire_member all_bytes
answer-is_message = refl

answer-json :
    library.loads (library.dumps (message_to_json library answer))
    ≡ some (message_to_json library answer)
unfolding message_to_json members_to_json member_to_json
answer-json = refl

answer-serialize : serialize library answer (manifest_of heartbeat_ack_type) 0 ≡ some (b'{' ∷ [])
unfolding serialize
answer-serialize = refl

deserialize-serialize_example :
    deserialize library (b'{' ∷ []) (manifest_of heartbeat_ack_type) 0 ≡ some answer
deserialize-serialize_example =
    deserialize-serialize library read_one-uuid_text answer (manifest_of heartbeat_ack_type) 0
      (b'{' ∷ []) answer-is_message answer-json (omega arith) answer-serialize

deserialize-answer :
    deserialize library (b'{' ∷ []) (manifest_of heartbeat_ack_type) 0 ≡ some answer
unfolding deserialize find_type is_plain keys message_from_json heartbeat_ack_from_json
    message_to_json members_to_json member_to_json require_object has_all lookup array_length
    members_of member_from_json is_heartbeat_ack is_remote_name is_name_char is_incarnation
    is_member_host is_host are_members identities active_names are_wire_members is_wire_member
    all_bytes
deserialize-answer = refl

deserialize-is_message_example :
    (is_message library answer ≡ true)
    × (manifest_of heartbeat_ack_type ≡ manifest_of heartbeat_ack_type)
    × (◌≡◌ {A = ℕ} 0 0)
    × (1 ≤ max_payload_bytes)
deserialize-is_message_example =
    deserialize-is_message library (b'{' ∷ []) (manifest_of heartbeat_ack_type) 0 answer
      deserialize-answer
