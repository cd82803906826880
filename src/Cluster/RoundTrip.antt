-- ===== src/Cluster/RoundTrip.antt =====
-- What the serializer of movie/cluster/_protocol.py reads from what it has written.
use movie.Common.{
  ℕ, suc, ◌^◌, ◌<◌, ◌≡◌, refl, ap, true, List, [], ◌∷◌, some, length, ==_refl, nat_eq, list_eq,
  arith,
}
use movie.Cluster.Json.{string, array, keys, require_object, has_all, lookup}
use movie.Cluster.Values.{
  Library, WireMember, is_wire_member, are_wire_members, are_members, is_incarnation,
}
use movie.Cluster.Messages.{
  JoinRequest, JoinAccepted, JoinConfirm, Heartbeat, HeartbeatAck, MembershipUpdate, Leave,
  LeaveAck, join_request, join_accepted, join_confirm, heartbeat, heartbeat_ack, membership_update,
  leave, leave_ack, is_join_request, is_join_accepted, is_join_confirm, is_heartbeat,
  is_heartbeat_ack, is_membership_update, is_leave, is_leave_ack,
}
use movie.Cluster.Objects.{member_to_json, members_to_json, message_to_json}
use movie.Cluster.MemberReading.{
  uuid_from_json, member_from_json, array_length, members_of, members_from_json,
}
use movie.Cluster.Reading.{
  join_request_from_json, join_accepted_from_json, join_confirm_from_json, heartbeat_from_json,
  heartbeat_ack_from_json, membership_update_from_json, leave_from_json, leave_ack_from_json,
}

incarnation_bound : (uid : ℕ) → is_incarnation uid ≡ true → uid < 2 ^ 128
unfolding is_incarnation
incarnation_bound uid h = ground (arith, h)

member_incarnation :
    (lib : Library) (m : WireMember)
    → is_wire_member lib m ≡ true
    → is_incarnation m.incarnation_uid ≡ true
unfolding is_wire_member
member_incarnation lib m h = ground (arith, h)

array_length-members_to_json :
    (lib : Library) (ms : List WireMember) → array_length (members_to_json lib ms) ≡ length ms
unfolding array_length members_to_json
array_length-members_to_json lib [] = refl
array_length-members_to_json lib (m ∷ ms) = ap suc (array_length-members_to_json lib ms)

module _ (lib : Library)
    (uuids : (uid : ℕ) → uid < 2 ^ 128 → lib.read_uuid (lib.uuid_text uid) ≡ some uid) where
  uuid_from_json-uuid_text :
      (uid : ℕ)
      → is_incarnation uid ≡ true
      → uuid_from_json lib (string (lib.uuid_text uid)) ≡ some uid
  uuid_from_json-uuid_text uid h =
      let bound : uid < 2 ^ 128 = incarnation_bound uid h in
      let same = ==_refl (lib.uuid_text uid) in ground (arith, uuids uid bound, same, h)

  member_from_json-member_to_json :
      (m : WireMember)
      → is_wire_member lib m ≡ true
      → member_from_json lib (member_to_json lib m) ≡ some m
  unfolding member_from_json member_to_json require_object has_all keys lookup
  member_from_json-member_to_json m h =
      let uid = uuid_from_json-uuid_text m.incarnation_uid (member_incarnation lib m h) in
      ground (arith, uid, h)

  members_of-members_to_json :
      (ms : List WireMember)
      → are_wire_members lib ms ≡ true
      → members_of lib (members_to_json lib ms) ≡ some ms
  unfolding members_of members_to_json are_wire_members
  members_of-members_to_json [] h = refl
  members_of-members_to_json (m ∷ ms) h =
      let first = member_from_json-member_to_json m (ground (arith, h)) in
      let rest = members_of-members_to_json ms (ground (arith, h)) in ground (arith, first, rest)

  members_from_json-members_to_json :
      (ms : List WireMember)
      → are_members ms ≡ true
      → are_wire_members lib ms ≡ true
      → members_from_json lib (array (members_to_json lib ms)) ≡ some ms
  unfolding are_members
  members_from_json-members_to_json ms few h =
      let size = array_length-members_to_json lib ms in
      let read = members_of-members_to_json ms h in ground (arith, size, read, few)

  pub join_request_from_json-message_to_json :
      (m : JoinRequest)
      → is_join_request lib m ≡ true
      → join_request_from_json lib (message_to_json lib (join_request m)) ≡ some (join_request m)
  unfolding join_request_from_json message_to_json require_object has_all keys lookup
      is_join_request
  join_request_from_json-message_to_json m h =
      let source_incarnation_uid_read =
        uuid_from_json-uuid_text m.source_incarnation_uid (ground (arith, h)) in
      let source_control_actor_uid_read =
        uuid_from_json-uuid_text m.source_control_actor_uid (ground (arith, h)) in
      let target_incarnation_uid_read =
        uuid_from_json-uuid_text m.target_incarnation_uid (ground (arith, h)) in
      let request_id_read = uuid_from_json-uuid_text m.request_id (ground (arith, h)) in
      ground (
        arith, h, source_incarnation_uid_read, source_control_actor_uid_read,
        target_incarnation_uid_read, request_id_read,
      )

  pub join_accepted_from_json-message_to_json :
      (m : JoinAccepted)
      → is_join_accepted lib m ≡ true
      → join_accepted_from_json lib (message_to_json lib (join_accepted m)) ≡ some (join_accepted m)
  unfolding join_accepted_from_json message_to_json require_object has_all keys lookup
      is_join_accepted
  join_accepted_from_json-message_to_json m h =
      let source_incarnation_uid_read =
        uuid_from_json-uuid_text m.source_incarnation_uid (ground (arith, h)) in
      let target_incarnation_uid_read =
        uuid_from_json-uuid_text m.target_incarnation_uid (ground (arith, h)) in
      let request_id_read = uuid_from_json-uuid_text m.request_id (ground (arith, h)) in
      let membership_token_read = uuid_from_json-uuid_text m.membership_token (ground (arith, h)) in
      let members_read =
        members_from_json-members_to_json m.members (ground (arith, h)) (ground (arith, h)) in
      ground (
        arith, h, source_incarnation_uid_read, target_incarnation_uid_read, request_id_read,
        membership_token_read, members_read,
      )

  pub join_confirm_from_json-message_to_json :
      (m : JoinConfirm)
      → is_join_confirm lib m ≡ true
      → join_confirm_from_json lib (message_to_json lib (join_confirm m)) ≡ some (join_confirm m)
  unfolding join_confirm_from_json message_to_json require_object has_all keys lookup
      is_join_confirm
  join_confirm_from_json-message_to_json m h =
      let source_incarnation_uid_read =
        uuid_from_json-uuid_text m.source_incarnation_uid (ground (arith, h)) in
      let target_incarnation_uid_read =
        uuid_from_json-uuid_text m.target_incarnation_uid (ground (arith, h)) in
      let request_id_read = uuid_from_json-uuid_text m.request_id (ground (arith, h)) in
      let membership_token_read = uuid_from_json-uuid_text m.membership_token (ground (arith, h)) in
      ground (
        arith, h, source_incarnation_uid_read, target_incarnation_uid_read, request_id_read,
        membership_token_read,
      )

  pub heartbeat_from_json-message_to_json :
      (m : Heartbeat)
      → is_heartbeat lib m ≡ true
      → heartbeat_from_json lib (message_to_json lib (heartbeat m)) ≡ some (heartbeat m)
  unfolding heartbeat_from_json message_to_json require_object has_all keys lookup is_heartbeat
  heartbeat_from_json-message_to_json m h =
      let source_incarnation_uid_read =
        uuid_from_json-uuid_text m.source_incarnation_uid (ground (arith, h)) in
      let target_incarnation_uid_read =
        uuid_from_json-uuid_text m.target_incarnation_uid (ground (arith, h)) in
      let membership_token_read = uuid_from_json-uuid_text m.membership_token (ground (arith, h)) in
      ground
        (arith, h, source_incarnation_uid_read, target_incarnation_uid_read, membership_token_read)

  pub heartbeat_ack_from_json-message_to_json :
      (m : HeartbeatAck)
      → is_heartbeat_ack lib m ≡ true
      → heartbeat_ack_from_json lib (message_to_json lib (heartbeat_ack m)) ≡ some (heartbeat_ack m)
  unfolding heartbeat_ack_from_json message_to_json require_object has_all keys lookup
      is_heartbeat_ack
  heartbeat_ack_from_json-message_to_json m h =
      let source_incarnation_uid_read =
        uuid_from_json-uuid_text m.source_incarnation_uid (ground (arith, h)) in
      let target_incarnation_uid_read =
        uuid_from_json-uuid_text m.target_incarnation_uid (ground (arith, h)) in
      let membership_token_read = uuid_from_json-uuid_text m.membership_token (ground (arith, h)) in
      let members_read =
        members_from_json-members_to_json m.members (ground (arith, h)) (ground (arith, h)) in
      ground (
        arith, h, source_incarnation_uid_read, target_incarnation_uid_read, membership_token_read,
        members_read,
      )

  pub membership_update_from_json-message_to_json :
      (m : MembershipUpdate)
      → is_membership_update lib m ≡ true
      → membership_update_from_json lib (message_to_json lib (membership_update m))
        ≡ some (membership_update m)
  unfolding membership_update_from_json message_to_json require_object has_all keys lookup
      is_membership_update
  membership_update_from_json-message_to_json m h =
      let source_incarnation_uid_read =
        uuid_from_json-uuid_text m.source_incarnation_uid (ground (arith, h)) in
      let target_incarnation_uid_read =
        uuid_from_json-uuid_text m.target_incarnation_uid (ground (arith, h)) in
      let membership_token_read = uuid_from_json-uuid_text m.membership_token (ground (arith, h)) in
      let members_read =
        members_from_json-members_to_json m.members (ground (arith, h)) (ground (arith, h)) in
      ground (
        arith, h, source_incarnation_uid_read, target_incarnation_uid_read, membership_token_read,
        members_read,
      )

  pub leave_from_json-message_to_json :
      (m : Leave)
      → is_leave lib m ≡ true
      → leave_from_json lib (message_to_json lib (leave m)) ≡ some (leave m)
  unfolding leave_from_json message_to_json require_object has_all keys lookup is_leave
  leave_from_json-message_to_json m h =
      let source_incarnation_uid_read =
        uuid_from_json-uuid_text m.source_incarnation_uid (ground (arith, h)) in
      let target_incarnation_uid_read =
        uuid_from_json-uuid_text m.target_incarnation_uid (ground (arith, h)) in
      let membership_token_read = uuid_from_json-uuid_text m.membership_token (ground (arith, h)) in
      let request_id_read = uuid_from_json-uuid_text m.request_id (ground (arith, h)) in
      ground (
        arith, h, source_incarnation_uid_read, target_incarnation_uid_read, membership_token_read,
        request_id_read,
      )

  pub leave_ack_from_json-message_to_json :
      (m : LeaveAck)
      → is_leave_ack lib m ≡ true
      → leave_ack_from_json lib (message_to_json lib (leave_ack m)) ≡ some (leave_ack m)
  unfolding leave_ack_from_json message_to_json require_object has_all keys lookup is_leave_ack
  leave_ack_from_json-message_to_json m h =
      let source_incarnation_uid_read =
        uuid_from_json-uuid_text m.source_incarnation_uid (ground (arith, h)) in
      let target_incarnation_uid_read =
        uuid_from_json-uuid_text m.target_incarnation_uid (ground (arith, h)) in
      let request_id_read = uuid_from_json-uuid_text m.request_id (ground (arith, h)) in
      let members_read =
        members_from_json-members_to_json m.members (ground (arith, h)) (ground (arith, h)) in
      ground (
        arith, h, source_incarnation_uid_read, target_incarnation_uid_read, request_id_read,
        members_read,
      )
