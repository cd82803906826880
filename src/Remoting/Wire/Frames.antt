-- ===== src/Remoting/Wire/Frames.antt =====
-- The dataclasses of movie/remoting/wire.py: the stream preamble, the frame header and the frames.
use movie.Common.{ℕ, ◌+◌, ◌-◌, List}
use movie.Remoting.Text.Utf8.{Text, Bytes}
use movie.Remoting.Serialization.{SerializerDescriptor, SerializerRoute}
use movie.Remoting.Wire.Types.{
  StreamKind, AssociationRole, FrameType, ReasonCode, header_after_length_size,
}

pub record StreamPreamble : Type 0 where
  pub stream_kind : StreamKind
  pub association_uid : ℕ
  pub lane_id : ℕ

pub record FrameHeader : Type 0 where
  pub frame_length : ℕ
  pub frame_type : FrameType
  pub flags : ℕ
  pub header_version : ℕ
  pub correlation_id : ℕ

abbrev pub total_length : FrameHeader → ℕ
total_length h = h.frame_length + 4

abbrev pub body_length : FrameHeader → ℕ
body_length h = h.frame_length - header_after_length_size

-- The six fields that `HELLO` and `HELLO_ACCEPT` share.
pub record Limits : Type 0 where
  pub maximum_frame_bytes : ℕ
  pub lane_count : ℕ
  pub outbound_message_limit : ℕ
  pub outbound_byte_limit : ℕ
  pub inbound_message_limit : ℕ
  pub inbound_byte_limit : ℕ

pub record Hello : Type 0 where
  pub protocol_major : ℕ
  pub protocol_minor : ℕ
  pub role : AssociationRole
  pub system_name : Text
  pub system_incarnation_uid : ℕ
  pub association_uid : ℕ
  pub endpoint_host : Text
  pub endpoint_port : ℕ
  pub limits : Limits
  pub serializers : List SerializerDescriptor
  pub capabilities : List Text
  pub correlation_id : ℕ

pub record HelloAccept : Type 0 where
  pub association_uid : ℕ
  pub protocol_minor : ℕ
  pub limits : Limits
  pub serializer_routes : List SerializerRoute
  pub capabilities : List Text
  pub correlation_id : ℕ

-- `GoAway` and `HelloReject`
pub record Notice : Type 0 where
  pub reason : ReasonCode
  pub detail : Text
  pub correlation_id : ℕ

pub record ResolveRequest : Type 0 where
  pub correlation_id : ℕ
  pub system_name : Text
  pub actor_path : Text

pub record ResolveResponse : Type 0 where
  pub correlation_id : ℕ
  pub system_incarnation_uid : ℕ
  pub actor_uid : ℕ
  pub actor_path : Text

pub record ResolveRejected : Type 0 where
  pub correlation_id : ℕ
  pub reason : ReasonCode
  pub detail : Text

pub record UserMessage : Type 0 where
  pub association_uid : ℕ
  pub lane_id : ℕ
  pub lane_sequence : ℕ
  pub sender_incarnation_uid : ℕ
  pub recipient_incarnation_uid : ℕ
  pub recipient_actor_uid : ℕ
  pub serializer_id : ℕ
  pub manifest : Text
  pub payload : Bytes
  pub correlation_id : ℕ

-- `RecipientUnavailable` and `DeserializationRejected`
pub record Advisory : Type 0 where
  pub association_uid : ℕ
  pub lane_id : ℕ
  pub lane_sequence : ℕ
  pub recipient_actor_uid : ℕ
  pub reason : ReasonCode
  pub detail : Text
  pub correlation_id : ℕ

pub data Frame : Type 0 where
  hello : Hello → Frame
  hello_accept : HelloAccept → Frame
  goaway hello_reject : Notice → Frame
  resolve_request : ResolveRequest → Frame
  resolve_response : ResolveResponse → Frame
  resolve_rejected : ResolveRejected → Frame
  user_message : UserMessage → Frame
  recipient_unavailable deserialization_rejected : Advisory → Frame

-- `_FRAME_TYPES`
abbrev pub frame_type : Frame → FrameType
frame_type (hello _) = FrameType.hello
frame_type (hello_accept _) = FrameType.hello_accept
frame_type (goaway _) = FrameType.goaway
frame_type (hello_reject _) = FrameType.hello_reject
frame_type (resolve_request _) = FrameType.resolve_request
frame_type (resolve_response _) = FrameType.resolve_response
frame_type (resolve_rejected _) = FrameType.resolve_rejected
frame_type (user_message _) = FrameType.user_message
frame_type (recipient_unavailable _) = FrameType.recipient_unavailable
frame_type (deserialization_rejected _) = FrameType.deserialization_rejected

abbrev pub correlation_id : Frame → ℕ
correlation_id (hello f) = f.correlation_id
correlation_id (hello_accept f) = f.correlation_id
correlation_id (goaway f) = f.correlation_id
correlation_id (hello_reject f) = f.correlation_id
correlation_id (resolve_request f) = f.correlation_id
correlation_id (resolve_response f) = f.correlation_id
correlation_id (resolve_rejected f) = f.correlation_id
correlation_id (user_message f) = f.correlation_id
correlation_id (recipient_unavailable f) = f.correlation_id
correlation_id (deserialization_rejected f) = f.correlation_id
