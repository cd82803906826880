-- ===== src/Cluster/Payloads.antt =====
-- The payloads of movie/cluster/_protocol.py: written and read, and what is accepted.
use movie.Common.{
  ℕ, ◌^◌, ◌≤◌, ◌<◌, ◌≡◌, refl, sym, ap, ◌∙◌, subst, inl, inr, true, ◌&&◌, List, [], ◌∷◌, some, eqb,
  length, ◌==◌, nat_eq, list_eq, list_beq_iff, arith, Bool-cases,
}
use movie.Remoting.Text.Utf8.{Text, Bytes}
use movie.Cluster.Json.{keys, is_plain, is_plain_array, is_plain_object}
use movie.Cluster.Values.{Library, WireMember}
use movie.Cluster.Messages.{
  Message, join_request, join_accepted, join_confirm, heartbeat, heartbeat_ack, membership_update,
  leave, leave_ack, is_message,
}
use movie.Cluster.Manifests.{
  MessageType, message_type, manifest_of, find_type, type_by_manifest, join_request_type,
  join_accepted_type, join_confirm_type, heartbeat_type, heartbeat_ack_type, membership_update_type,
  leave_type, leave_ack_type,
}
use movie.Cluster.Objects.{member_to_json, members_to_json, message_to_json}
use movie.Cluster.Reading.{message_from_json}
use movie.Cluster.Serializer.{serialize, deserialize, max_payload_bytes, load_plain}
use movie.Cluster.RoundTrip.{
  join_request_from_json-message_to_json, join_accepted_from_json-message_to_json,
  join_confirm_from_json-message_to_json, heartbeat_from_json-message_to_json,
  heartbeat_ack_from_json-message_to_json, membership_update_from_json-message_to_json,
  leave_from_json-message_to_json, leave_ack_from_json-message_to_json,
}

message_from_json-message_to_json :
    (lib : Library)
    → ((uid : ℕ) → uid < 2 ^ 128 → lib.read_uuid (lib.uuid_text uid) ≡ some uid)
    → (m : Message) → is_message lib m ≡ true
    → message_from_json lib (message_type m) (message_to_json lib m) ≡ some m
unfolding message_from_json is_message
message_from_json-message_to_json lib uuids (join_request m) h =
    join_request_from_json-message_to_json lib uuids m h
message_from_json-message_to_json lib uuids (join_accepted m) h =
    join_accepted_from_json-message_to_json lib uuids m h
message_from_json-message_to_json lib uuids (join_confirm m) h =
    join_confirm_from_json-message_to_json lib uuids m h
message_from_json-message_to_json lib uuids (heartbeat m) h =
    heartbeat_from_json-message_to_json lib uuids m h
message_from_json-message_to_json lib uuids (heartbeat_ack m) h =
    heartbeat_ack_from_json-message_to_json lib uuids m h
message_from_json-message_to_json lib uuids (membership_update m) h =
    membership_update_from_json-message_to_json lib uuids m h
message_from_json-message_to_json lib uuids (leave m) h =
    leave_from_json-message_to_json lib uuids m h
message_from_json-message_to_json lib uuids (leave_ack m) h =
    leave_ack_from_json-message_to_json lib uuids m h

members_to_json-is_plain :
    (lib : Library) (ms : List WireMember) → is_plain_array (members_to_json lib ms) ≡ true
unfolding members_to_json member_to_json is_plain is_plain_array is_plain_object keys
members_to_json-is_plain lib [] = refl
members_to_json-is_plain lib (m ∷ ms) = members_to_json-is_plain lib ms

message_to_json-is_plain : (lib : Library) (m : Message) → is_plain (message_to_json lib m) ≡ true
unfolding message_to_json is_plain is_plain_object is_plain_array keys
message_to_json-is_plain lib (join_request m) = refl
message_to_json-is_plain lib (join_accepted m) =
    ground (arith, members_to_json-is_plain lib m.members)
message_to_json-is_plain lib (join_confirm m) = refl
message_to_json-is_plain lib (heartbeat m) = refl
message_to_json-is_plain lib (heartbeat_ack m) =
    ground (arith, members_to_json-is_plain lib m.members)
message_to_json-is_plain lib (membership_update m) =
    ground (arith, members_to_json-is_plain lib m.members)
message_to_json-is_plain lib (leave m) = refl
message_to_json-is_plain lib (leave_ack m) = ground (arith, members_to_json-is_plain lib m.members)

type_by_manifest-manifest_of : (t : MessageType) → type_by_manifest (manifest_of t) ≡ some t
unfolding find_type
type_by_manifest-manifest_of join_request_type = refl
type_by_manifest-manifest_of join_accepted_type = refl
type_by_manifest-manifest_of join_confirm_type = refl
type_by_manifest-manifest_of heartbeat_type = refl
type_by_manifest-manifest_of heartbeat_ack_type = refl
type_by_manifest-manifest_of membership_update_type = refl
type_by_manifest-manifest_of leave_type = refl
type_by_manifest-manifest_of leave_ack_type = refl

-- A message that its constructor accepts, serialized with any manifest and minor version without an error,
-- is read again from the payload with the same ones, if `str` and `UUID` read each other, `json.loads`
-- reads the object of the message from the text that `json.dumps` gives for it, and that text is not longer than
-- the limit of a payload.
pub deserialize-serialize :
    (lib : Library)
    → ((uid : ℕ) → uid < 2 ^ 128 → lib.read_uuid (lib.uuid_text uid) ≡ some uid)
    → (m : Message) (manifest : Text) (protocol_minor : ℕ) (payload : Bytes)
    → is_message lib m ≡ true
    → lib.loads (lib.dumps (message_to_json lib m)) ≡ some (message_to_json lib m)
    → length (lib.dumps (message_to_json lib m)) ≤ max_payload_bytes
    → serialize lib m manifest protocol_minor ≡ some payload
    → deserialize lib payload manifest protocol_minor ≡ some m
unfolding serialize deserialize
deserialize-serialize lib uuids m manifest minor payload valid json short h =
    let value = message_to_json lib m in
    let plain = message_to_json-is_plain lib m in
    let read = message_from_json-message_to_json lib uuids m valid in
    let known = type_by_manifest-manifest_of (message_type m) in
    elim (Bool-cases (eqb minor 0 && manifest_of (message_type m) == manifest)) [
      | inr bad ↦ absurd (ground (arith, h, bad))
      | inl good ↦
          let named : manifest_of (message_type m) ≡ manifest =
            (list_beq_iff (manifest_of (message_type m)) manifest).0 (ground (arith, good)) in
          let typed : type_by_manifest manifest ≡ some (message_type m) =
            ap type_by_manifest (sym named) ∙ known in
          let written : lib.dumps value ≡ payload = ground (arith, h, good) in
          let loaded : load_plain lib payload ≡ some value =
            ap (load_plain lib) (sym written) ∙ ground (arith, json, plain) in
          let fits : length payload ≤ max_payload_bytes =
            subst (λ p. length p ≤ max_payload_bytes) written short in
          ground (arith, good, typed, loaded, fits, read)
    ]
