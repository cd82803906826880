-- ===== src/Cluster/Reading.antt =====
-- The messages of movie/cluster/_protocol.py that JSON objects stand for.
use movie.Common.{Option, nat_eq, list_eq}
use movie.Cluster.Keys.{
  cluster_name_key, config_fingerprint_key, membership_token_key, request_id_key, revision_key,
  sequence_key, source_control_actor_uid_key, source_host_key, source_incarnation_uid_key,
  source_port_key, source_system_name_key, target_incarnation_uid_key, join_request_keys,
  join_accepted_keys, join_confirm_keys, heartbeat_keys, heartbeat_ack_keys, membership_update_keys,
  leave_keys, leave_ack_keys,
}
use movie.Cluster.Json.{Json, ◌>>=◌, checked, require_object, text_at, natural_at}
use movie.Cluster.Values.{Library}
use movie.Cluster.Messages.{
  Message, JoinRequest, JoinAccepted, JoinConfirm, Heartbeat, HeartbeatAck, MembershipUpdate, Leave,
  LeaveAck, join_request, join_accepted, join_confirm, heartbeat, heartbeat_ack, membership_update,
  leave, leave_ack, is_join_request, is_join_accepted, is_join_confirm, is_heartbeat,
  is_heartbeat_ack, is_membership_update, is_leave, is_leave_ack,
}
use movie.Cluster.Manifests.{
  MessageType, join_request_type, join_accepted_type, join_confirm_type, heartbeat_type,
  heartbeat_ack_type, membership_update_type, leave_type, leave_ack_type,
}
use movie.Cluster.MemberReading.{uuid_at, members_at}

module _ (lib : Library) where
  -- The constructors of the messages, and `_message_from_json`.
  unfoldable pub join_request_from_json : Json → Option Message
  join_request_from_json value = do
    entries ← require_object join_request_keys value
    cluster_name ← text_at cluster_name_key entries
    config_fingerprint ← text_at config_fingerprint_key entries
    source_system_name ← text_at source_system_name_key entries
    source_incarnation_uid ← uuid_at lib source_incarnation_uid_key entries
    source_host ← text_at source_host_key entries
    source_port ← natural_at source_port_key entries
    source_control_actor_uid ← uuid_at lib source_control_actor_uid_key entries
    target_incarnation_uid ← uuid_at lib target_incarnation_uid_key entries
    request_id ← uuid_at lib request_id_key entries
    let m : JoinRequest = record {
      cluster_name = cluster_name;
      config_fingerprint = config_fingerprint;
      source_system_name = source_system_name;
      source_incarnation_uid = source_incarnation_uid;
      source_host = source_host;
      source_port = source_port;
      source_control_actor_uid = source_control_actor_uid;
      target_incarnation_uid = target_incarnation_uid;
      request_id = request_id;
    }
    checked (is_join_request lib m) (join_request m)

  unfoldable pub join_accepted_from_json : Json → Option Message
  join_accepted_from_json value = do
    entries ← require_object join_accepted_keys value
    cluster_name ← text_at cluster_name_key entries
    source_system_name ← text_at source_system_name_key entries
    source_incarnation_uid ← uuid_at lib source_incarnation_uid_key entries
    target_incarnation_uid ← uuid_at lib target_incarnation_uid_key entries
    request_id ← uuid_at lib request_id_key entries
    membership_token ← uuid_at lib membership_token_key entries
    revision ← natural_at revision_key entries
    members ← members_at lib entries
    let m : JoinAccepted = record {
      cluster_name = cluster_name;
      source_system_name = source_system_name;
      source_incarnation_uid = source_incarnation_uid;
      target_incarnation_uid = target_incarnation_uid;
      request_id = request_id;
      membership_token = membership_token;
      revision = revision;
      members = members;
    }
    checked (is_join_accepted lib m) (join_accepted m)

  unfoldable pub join_confirm_from_json : Json → Option Message
  join_confirm_from_json value = do
    entries ← require_object join_confirm_keys value
    cluster_name ← text_at cluster_name_key entries
    source_system_name ← text_at source_system_name_key entries
    source_incarnation_uid ← uuid_at lib source_incarnation_uid_key entries
    target_incarnation_uid ← uuid_at lib target_incarnation_uid_key entries
    request_id ← uuid_at lib request_id_key entries
    membership_token ← uuid_at lib membership_token_key entries
    let m : JoinConfirm = record {
      cluster_name = cluster_name;
      source_system_name = source_system_name;
      source_incarnation_uid = source_incarnation_uid;
      target_incarnation_uid = target_incarnation_uid;
      request_id = request_id;
      membership_token = membership_token;
    }
    checked (is_join_confirm lib m) (join_confirm m)

  unfoldable pub heartbeat_from_json : Json → Option Message
  heartbeat_from_json value = do
    entries ← require_object heartbeat_keys value
    cluster_name ← text_at cluster_name_key entries
    source_system_name ← text_at source_system_name_key entries
    source_incarnation_uid ← uuid_at lib source_incarnation_uid_key entries
    target_incarnation_uid ← uuid_at lib target_incarnation_uid_key entries
    membership_token ← uuid_at lib membership_token_key entries
    sequence ← natural_at sequence_key entries
    let m : Heartbeat = record {
      cluster_name = cluster_name;
      source_system_name = source_system_name;
      source_incarnation_uid = source_incarnation_uid;
      target_incarnation_uid = target_incarnation_uid;
      membership_token = membership_token;
      sequence = sequence;
    }
    checked (is_heartbeat lib m) (heartbeat m)

  unfoldable pub heartbeat_ack_from_json : Json → Option Message
  heartbeat_ack_from_json value = do
    entries ← require_object heartbeat_ack_keys value
    cluster_name ← text_at cluster_name_key entries
    source_system_name ← text_at source_system_name_key entries
    source_incarnation_uid ← uuid_at lib source_incarnation_uid_key entries
    target_incarnation_uid ← uuid_at lib target_incarnation_uid_key entries
    membership_token ← uuid_at lib membership_token_key entries
    sequence ← natural_at sequence_key entries
    revision ← natural_at revision_key entries
    members ← members_at lib entries
    let m : HeartbeatAck = record {
      cluster_name = cluster_name;
      source_system_name = source_system_name;
      source_incarnation_uid = source_incarnation_uid;
      target_incarnation_uid = target_incarnation_uid;
      membership_token = membership_token;
      sequence = sequence;
      revision = revision;
      members = members;
    }
    checked (is_heartbeat_ack lib m) (heartbeat_ack m)

  unfoldable pub membership_update_from_json : Json → Option Message
  membership_update_from_json value = do
    entries ← require_object membership_update_keys value
    cluster_name ← text_at cluster_name_key entries
    source_system_name ← text_at source_system_name_key entries
    source_incarnation_uid ← uuid_at lib source_incarnation_uid_key entries
    target_incarnation_uid ← uuid_at lib target_incarnation_uid_key entries
    membership_token ← uuid_at lib membership_token_key entries
    revision ← natural_at revision_key entries
    members ← members_at lib entries
    let m : MembershipUpdate = record {
      cluster_name = cluster_name;
      source_system_name = source_system_name;
      source_incarnation_uid = source_incarnation_uid;
      target_incarnation_uid = target_incarnation_uid;
      membership_token = membership_token;
      revision = revision;
      members = members;
    }
    checked (is_membership_update lib m) (membership_update m)

  unfoldable pub leave_from_json : Json → Option Message
  leave_from_json value = do
    entries ← require_object leave_keys value
    cluster_name ← text_at cluster_name_key entries
    source_system_name ← text_at source_system_name_key entries
    source_incarnation_uid ← uuid_at lib source_incarnation_uid_key entries
    target_incarnation_uid ← uuid_at lib target_incarnation_uid_key entries
    membership_token ← uuid_at lib membership_token_key entries
    request_id ← uuid_at lib request_id_key entries
    let m : Leave = record {
      cluster_name = cluster_name;
      source_system_name = source_system_name;
      source_incarnation_uid = source_incarnation_uid;
      target_incarnation_uid = target_incarnation_uid;
      membership_token = membership_token;
      request_id = request_id;
    }
    checked (is_leave lib m) (leave m)

  unfoldable pub leave_ack_from_json : Json → Option Message
  leave_ack_from_json value = do
    entries ← require_object leave_ack_keys value
    cluster_name ← text_at cluster_name_key entries
    source_system_name ← text_at source_system_name_key entries
    source_incarnation_uid ← uuid_at lib source_incarnation_uid_key entries
    target_incarnation_uid ← uuid_at lib target_incarnation_uid_key entries
    request_id ← uuid_at lib request_id_key entries
    revision ← natural_at revision_key entries
    members ← members_at lib entries
    let m : LeaveAck = record {
      cluster_name = cluster_name;
      source_system_name = source_system_name;
      source_incarnation_uid = source_incarnation_uid;
      target_incarnation_uid = target_incarnation_uid;
      request_id = request_id;
      revision = revision;
      members = members;
    }
    checked (is_leave_ack lib m) (leave_ack m)

  unfoldable pub message_from_json : MessageType → Json → Option Message
  message_from_json join_request_type value = join_request_from_json value
  message_from_json join_accepted_type value = join_accepted_from_json value
  message_from_json join_confirm_type value = join_confirm_from_json value
  message_from_json heartbeat_type value = heartbeat_from_json value
  message_from_json heartbeat_ack_type value = heartbeat_ack_from_json value
  message_from_json membership_update_type value = membership_update_from_json value
  message_from_json leave_type value = leave_from_json value
  message_from_json leave_ack_type value = leave_ack_from_json value
