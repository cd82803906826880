-- ===== src/Cluster/Messages.antt =====
-- The messages of movie/cluster/_protocol.py and the checks of their constructors.
use movie.Common.{ℕ, Bool, ◌&&◌, List, nat_eq, list_eq}
use movie.Remoting.Text.Utf8.{Text}
use movie.Cluster.Values.{
  Library, WireMember, is_cluster_name, is_incarnation, is_member_host, is_member_port,
  is_fingerprint, are_members, are_wire_members,
}

pub record JoinRequest : Type 0 where
  pub cluster_name : Text
  pub config_fingerprint : Text
  pub source_system_name : Text
  pub source_incarnation_uid : ℕ
  pub source_host : Text
  pub source_port : ℕ
  pub source_control_actor_uid : ℕ
  pub target_incarnation_uid : ℕ
  pub request_id : ℕ

pub record JoinAccepted : Type 0 where
  pub cluster_name : Text
  pub source_system_name : Text
  pub source_incarnation_uid : ℕ
  pub target_incarnation_uid : ℕ
  pub request_id : ℕ
  pub membership_token : ℕ
  pub revision : ℕ
  pub members : List WireMember

pub record JoinConfirm : Type 0 where
  pub cluster_name : Text
  pub source_system_name : Text
  pub source_incarnation_uid : ℕ
  pub target_incarnation_uid : ℕ
  pub request_id : ℕ
  pub membership_token : ℕ

pub record Heartbeat : Type 0 where
  pub cluster_name : Text
  pub source_system_name : Text
  pub source_incarnation_uid : ℕ
  pub target_incarnation_uid : ℕ
  pub membership_token : ℕ
  pub sequence : ℕ

pub record HeartbeatAck : Type 0 where
  pub cluster_name : Text
  pub source_system_name : Text
  pub source_incarnation_uid : ℕ
  pub target_incarnation_uid : ℕ
  pub membership_token : ℕ
  pub sequence : ℕ
  pub revision : ℕ
  pub members : List WireMember

pub record MembershipUpdate : Type 0 where
  pub cluster_name : Text
  pub source_system_name : Text
  pub source_incarnation_uid : ℕ
  pub target_incarnation_uid : ℕ
  pub membership_token : ℕ
  pub revision : ℕ
  pub members : List WireMember

pub record Leave : Type 0 where
  pub cluster_name : Text
  pub source_system_name : Text
  pub source_incarnation_uid : ℕ
  pub target_incarnation_uid : ℕ
  pub membership_token : ℕ
  pub request_id : ℕ

pub record LeaveAck : Type 0 where
  pub cluster_name : Text
  pub source_system_name : Text
  pub source_incarnation_uid : ℕ
  pub target_incarnation_uid : ℕ
  pub request_id : ℕ
  pub revision : ℕ
  pub members : List WireMember

-- Whether the constructors return, of values of the right Python types. A member has passed its own.
unfoldable pub is_join_request : Library → JoinRequest → Bool
is_join_request lib m =
    is_cluster_name m.cluster_name
    && is_fingerprint m.config_fingerprint
    && is_cluster_name m.source_system_name
    && is_incarnation m.source_incarnation_uid
    && is_member_host lib m.source_host
    && is_member_port m.source_port
    && is_incarnation m.source_control_actor_uid
    && is_incarnation m.target_incarnation_uid
    && is_incarnation m.request_id

unfoldable pub is_join_accepted : Library → JoinAccepted → Bool
is_join_accepted lib m =
    is_cluster_name m.cluster_name
    && is_cluster_name m.source_system_name
    && is_incarnation m.source_incarnation_uid
    && is_incarnation m.target_incarnation_uid
    && is_incarnation m.request_id
    && is_incarnation m.membership_token
    && are_members m.members
    && are_wire_members lib m.members

unfoldable pub is_join_confirm : Library → JoinConfirm → Bool
is_join_confirm lib m =
    is_cluster_name m.cluster_name
    && is_cluster_name m.source_system_name
    && is_incarnation m.source_incarnation_uid
    && is_incarnation m.target_incarnation_uid
    && is_incarnation m.request_id
    && is_incarnation m.membership_token

unfoldable pub is_heartbeat : Library → Heartbeat → Bool
is_heartbeat lib m =
    is_cluster_name m.cluster_name
    && is_cluster_name m.source_system_name
    && is_incarnation m.source_incarnation_uid
    && is_incarnation m.target_incarnation_uid
    && is_incarnation m.membership_token

unfoldable pub is_heartbeat_ack : Library → HeartbeatAck → Bool
is_heartbeat_ack lib m =
    is_cluster_name m.cluster_name
    && is_cluster_name m.source_system_name
    && is_incarnation m.source_incarnation_uid
    && is_incarnation m.target_incarnation_uid
    && is_incarnation m.membership_token
    && are_members m.members
    && are_wire_members lib m.members

unfoldable pub is_membership_update : Library → MembershipUpdate → Bool
is_membership_update lib m =
    is_cluster_name m.cluster_name
    && is_cluster_name m.source_system_name
    && is_incarnation m.source_incarnation_uid
    && is_incarnation m.target_incarnation_uid
    && is_incarnation m.membership_token
    && are_members m.members
    && are_wire_members lib m.members

unfoldable pub is_leave : Library → Leave → Bool
is_leave lib m =
    is_cluster_name m.cluster_name
    && is_cluster_name m.source_system_name
    && is_incarnation m.source_incarnation_uid
    && is_incarnation m.target_incarnation_uid
    && is_incarnation m.membership_token
    && is_incarnation m.request_id

unfoldable pub is_leave_ack : Library → LeaveAck → Bool
is_leave_ack lib m =
    is_cluster_name m.cluster_name
    && is_cluster_name m.source_system_name
    && is_incarnation m.source_incarnation_uid
    && is_incarnation m.target_incarnation_uid
    && is_incarnation m.request_id
    && are_members m.members
    && are_wire_members lib m.members

pub data Message : Type 0 where
  join_request : JoinRequest → Message
  join_accepted : JoinAccepted → Message
  join_confirm : JoinConfirm → Message
  heartbeat : Heartbeat → Message
  heartbeat_ack : HeartbeatAck → Message
  membership_update : MembershipUpdate → Message
  leave : Leave → Message
  leave_ack : LeaveAck → Message

unfoldable pub is_message : Library → Message → Bool
is_message lib (join_request m) = is_join_request lib m
is_message lib (join_accepted m) = is_join_accepted lib m
is_message lib (join_confirm m) = is_join_confirm lib m
is_message lib (heartbeat m) = is_heartbeat lib m
is_message lib (heartbeat_ack m) = is_heartbeat_ack lib m
is_message lib (membership_update m) = is_membership_update lib m
is_message lib (leave m) = is_leave lib m
is_message lib (leave_ack m) = is_leave_ack lib m
