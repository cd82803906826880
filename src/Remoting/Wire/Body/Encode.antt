-- ===== src/Remoting/Wire/Body/Encode.antt =====
-- `_encode_body` of movie/remoting/wire.py.
use movie.Common.{not, ◌&&◌, [], map, leb, length, eqb, unique, nat_eq, list_eq, true}
use movie.Remoting.Errors.{Result, protocol_validation}
use movie.Remoting.Text.Utf8.{Text, Bytes}
use movie.Remoting.Text.{Unicode, text_bytes}
use movie.Remoting.Serialization.{SerializerDescriptor, max_manifest_bytes}
use movie.Remoting.Wire.Types.{FrameType, role_code, control_lane_id, max_u16}
use movie.Remoting.Wire.Frames.{
  Frame, Hello, HelloAccept, ResolveRequest, ResolveResponse, ResolveRejected, UserMessage,
  Advisory,
}
use movie.Remoting.Wire.Writer.{
  Writer, ◌>>◌, require, given, raw, u8, u16, u32, u64, uuid, each, string16_within,
}
use movie.Remoting.Wire.Parts.Names.{system_name, actor_path}
use movie.Remoting.Wire.Parts.Write.{
  write_limits, write_descriptor, write_capabilities, write_routes, write_reason, write_advisory,
  is_frame_reason,
}

module _ ⦃u : Unicode⦄ where
  unfoldable pub write_system_name : Text → Writer
  write_system_name value =
      given (system_name value protocol_validation) λ name. do u16 (length name); raw name

  unfoldable pub write_actor_path : Text → Writer
  write_actor_path value =
      given (actor_path value protocol_validation) λ path. do u16 (length path); raw path

  unfoldable pub write_hello : Hello → Writer
  write_hello f = do
    u16 f.protocol_major
    u16 f.protocol_minor
    u8 (role_code f.role)
    write_system_name f.system_name
    uuid f.system_incarnation_uid
    uuid f.association_uid
    string16_within max_u16 true f.endpoint_host
    u16 f.endpoint_port
    write_limits f.limits
    require (leb (length f.serializers) max_u16) protocol_validation
    require
        (unique (map (λ (d : SerializerDescriptor). d.serializer_id) f.serializers)
          && unique (map (λ (d : SerializerDescriptor). d.name) f.serializers))
        protocol_validation
    u16 (length f.serializers)
    each write_descriptor f.serializers
    write_capabilities f.capabilities

  unfoldable pub write_hello_accept : HelloAccept → Writer
  write_hello_accept f = do
    uuid f.association_uid
    u16 f.protocol_minor
    write_limits f.limits
    write_routes f.serializer_routes
    write_capabilities f.capabilities

  unfoldable pub write_resolve_request : ResolveRequest → Writer
  write_resolve_request f = do write_system_name f.system_name; write_actor_path f.actor_path

  unfoldable pub write_resolve_response : ResolveResponse → Writer
  write_resolve_response f = do
    uuid f.system_incarnation_uid
    uuid f.actor_uid
    write_actor_path f.actor_path

  unfoldable pub write_resolve_rejected : ResolveRejected → Writer
  write_resolve_rejected f = do
    require (is_frame_reason FrameType.resolve_rejected f.reason) protocol_validation
    write_reason f.reason f.detail

  unfoldable pub write_user_message : UserMessage → Writer
  write_user_message f = do
    uuid f.association_uid
    u16 f.lane_id
    require (not (eqb f.lane_id control_lane_id)) protocol_validation
    u64 f.lane_sequence
    uuid f.sender_incarnation_uid
    uuid f.recipient_incarnation_uid
    uuid f.recipient_actor_uid
    u32 f.serializer_id
    require (not (eqb f.serializer_id 0)) protocol_validation
    given (text_bytes f.manifest max_manifest_bytes protocol_validation true)
        λ manifest. do u16 (length manifest); u32 (length f.payload); raw manifest; raw f.payload

  unfoldable pub write_checked_advisory : FrameType → Advisory → Writer
  write_checked_advisory frame_type f = do
    require (is_frame_reason frame_type f.reason) protocol_validation
    write_advisory f

  unfoldable pub write_body : Frame → Writer
  write_body (Frame.hello f) = write_hello f
  write_body (Frame.hello_accept f) = write_hello_accept f
  write_body (Frame.goaway f) = write_reason f.reason f.detail
  write_body (Frame.hello_reject f) = write_reason f.reason f.detail
  write_body (Frame.resolve_request f) = write_resolve_request f
  write_body (Frame.resolve_response f) = write_resolve_response f
  write_body (Frame.resolve_rejected f) = write_resolve_rejected f
  write_body (Frame.user_message f) = write_user_message f
  write_body (Frame.recipient_unavailable f) =
      write_checked_advisory FrameType.recipient_unavailable f
  write_body (Frame.deserialization_rejected f) =
      write_checked_advisory FrameType.deserialization_rejected f

  unfoldable pub encode_body : Frame → Result Bytes
  encode_body f = write_body f []
