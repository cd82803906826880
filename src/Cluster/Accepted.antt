-- ===== src/Cluster/Accepted.antt =====
-- What `deserialize` of movie/cluster/_protocol.py accepts.
use movie.Common.{
  ℕ, ◌≤◌, ◌≡◌, sym, ap, ◌∙◌, inl, inr, true, List, [], ◌∷◌, some, length, ◌==◌, nat_eq, list_eq,
  list_beq_iff, arith, Bool-cases, Option-cases,
}
use movie.Remoting.Text.Utf8.{Text, Bytes}
use movie.Cluster.Json.{Json}
use movie.Cluster.Values.{Library}
use movie.Cluster.Messages.{Message, is_message}
use movie.Cluster.Manifests.{
  MessageType, message_type, manifest_of, find_type, type_by_manifest, message_types,
  join_request_type, join_accepted_type, join_confirm_type, heartbeat_type, heartbeat_ack_type,
  membership_update_type, leave_type, leave_ack_type,
}
use movie.Cluster.Reading.{
  join_request_from_json, join_accepted_from_json, join_confirm_from_json, heartbeat_from_json,
  heartbeat_ack_from_json, membership_update_from_json, leave_from_json, leave_ack_from_json,
  message_from_json,
}
use movie.Cluster.Serializer.{deserialize, max_payload_bytes, load_plain}

-- The message has passed its constructor and is of the type.
abbrev IsOfType : Library → MessageType → Message → Type 0
IsOfType lib t m = (is_message lib m ≡ true) × (message_type m ≡ t)

join_request_from_json-IsOfType :
    (lib : Library) (value : Json) (m : Message)
    → join_request_from_json lib value ≡ some m
    → IsOfType lib join_request_type m
unfolding join_request_from_json is_message
join_request_from_json-IsOfType lib value m h = ground (arith, h)

join_accepted_from_json-IsOfType :
    (lib : Library) (value : Json) (m : Message)
    → join_accepted_from_json lib value ≡ some m
    → IsOfType lib join_accepted_type m
unfolding join_accepted_from_json is_message
join_accepted_from_json-IsOfType lib value m h = ground (arith, h)

join_confirm_from_json-IsOfType :
    (lib : Library) (value : Json) (m : Message)
    → join_confirm_from_json lib value ≡ some m
    → IsOfType lib join_confirm_type m
unfolding join_confirm_from_json is_message
join_confirm_from_json-IsOfType lib value m h = ground (arith, h)

heartbeat_from_json-IsOfType :
    (lib : Library) (value : Json) (m : Message)
    → heartbeat_from_json lib value ≡ some m
    → IsOfType lib heartbeat_type m
unfolding heartbeat_from_json is_message
heartbeat_from_json-IsOfType lib value m h = ground (arith, h)

heartbeat_ack_from_json-IsOfType :
    (lib : Library) (value : Json) (m : Message)
    → heartbeat_ack_from_json lib value ≡ some m
    → IsOfType lib heartbeat_ack_type m
unfolding heartbeat_ack_from_json is_message
heartbeat_ack_from_json-IsOfType lib value m h = ground (arith, h)

membership_update_from_json-IsOfType :
    (lib : Library) (value : Json) (m : Message)
    → membership_update_from_json lib value ≡ some m
    → IsOfType lib membership_update_type m
unfolding membership_update_from_json is_message
membership_update_from_json-IsOfType lib value m h = ground (arith, h)

leave_from_json-IsOfType :
    (lib : Library) (value : Json) (m : Message)
    → leave_from_json lib value ≡ some m
    → IsOfType lib leave_type m
unfolding leave_from_json is_message
leave_from_json-IsOfType lib value m h = ground (arith, h)

leave_ack_from_json-IsOfType :
    (lib : Library) (value : Json) (m : Message)
    → leave_ack_from_json lib value ≡ some m
    → IsOfType lib leave_ack_type m
unfolding leave_ack_from_json is_message
leave_ack_from_json-IsOfType lib value m h = ground (arith, h)

message_from_json-IsOfType :
    (lib : Library) (t : MessageType) (value : Json) (m : Message)
    → message_from_json lib t value ≡ some m
    → IsOfType lib t m
unfolding message_from_json
message_from_json-IsOfType lib join_request_type value m h =
    join_request_from_json-IsOfType lib value m h
message_from_json-IsOfType lib join_accepted_type value m h =
    join_accepted_from_json-IsOfType lib value m h
message_from_json-IsOfType lib join_confirm_type value m h =
    join_confirm_from_json-IsOfType lib value m h
message_from_json-IsOfType lib heartbeat_type value m h = heartbeat_from_json-IsOfType lib value m h
message_from_json-IsOfType lib heartbeat_ack_type value m h =
    heartbeat_ack_from_json-IsOfType lib value m h
message_from_json-IsOfType lib membership_update_type value m h =
    membership_update_from_json-IsOfType lib value m h
message_from_json-IsOfType lib leave_type value m h = leave_from_json-IsOfType lib value m h
message_from_json-IsOfType lib leave_ack_type value m h = leave_ack_from_json-IsOfType lib value m h

find_type-manifest_of :
    (manifest : Text) (types : List MessageType) (t : MessageType)
    → find_type manifest types ≡ some t
    → manifest_of t ≡ manifest
unfolding find_type
find_type-manifest_of manifest [] t h = absurd (cc h)
find_type-manifest_of manifest (first ∷ rest) t h =
    elim (Bool-cases (manifest_of first == manifest)) [
      | inl here ↦
          let same : first ≡ t = ground (arith, h, here) in
          ap (λ x. manifest_of x) (sym same) ∙ (list_beq_iff (manifest_of first) manifest).0 here
      | inr on ↦ find_type-manifest_of manifest rest t (ground (arith, h, on))
    ]

-- Whatever bytes a peer sends: what `deserialize` returns has passed the checks of its constructor, those of
-- its members and of their uniqueness included, and is of the type that the manifest names, and the minor
-- version is 0 and the payload not longer than the limit.
pub deserialize-is_message :
    (lib : Library) (payload : Bytes) (manifest : Text) (protocol_minor : ℕ) (m : Message)
    → deserialize lib payload manifest protocol_minor ≡ some m
    → (is_message lib m ≡ true)
      × (manifest_of (message_type m) ≡ manifest)
      × (protocol_minor ≡ 0)
      × (length payload ≤ max_payload_bytes)
unfolding deserialize
deserialize-is_message lib payload manifest minor m h =
    elim (Option-cases (type_by_manifest manifest)) [
      | inl unknown ↦ absurd (ground (arith, h, unknown))
      | inr (t, known) ↦ elim (Option-cases (load_plain lib payload)) [
        | inl broken ↦ absurd (ground (arith, h, known, broken))
        | inr (value, loaded) ↦
            let read : message_from_json lib t value ≡ some m = ground (arith, h, known, loaded) in
            let (valid, typed) = message_from_json-IsOfType lib t value m read in
            (
              valid,
              ap manifest_of typed ∙ find_type-manifest_of manifest message_types t known,
              ground (arith, h, known, loaded),
              ground (arith, h, known, loaded),
            )
      ]
    ]
