-- ===== src/Remoting/Wire/Body/Decode.antt =====
-- `_decode_body` of movie/remoting/wire.py.
use movie.Common.{ℕ, ◌+◌, not, ◌&&◌, map, leb, length, eqb, unique, nat_eq, list_eq, true}
use movie.Remoting.Errors
use movie.Remoting.Errors.{Result, ok, err, malformed_frame}
use movie.Remoting.Text.Utf8.{Bytes, decode}
use movie.Remoting.Text.{Unicode, text_bytes, decoded}
use movie.Remoting.Serialization.{SerializerDescriptor, max_manifest_bytes}
use movie.Remoting.Wire.Types.{FrameType, role_of, control_lane_id, max_u16}
use movie.Remoting.Wire.Frames.{
  Frame, Hello, HelloAccept, Notice, ResolveRequest, ResolveResponse, ResolveRejected, UserMessage,
  Advisory, FrameHeader,
}
use movie.Remoting.Wire.Reader.{
  Reader, ◌>>=◌, ◌>>◌, pure, lift, require, take_bytes, u8, u16, u32, u64, uuid, times,
  string16_within, finish,
}
use movie.Remoting.Wire.Parts.Write.{is_frame_reason}
use movie.Remoting.Wire.Parts.Read.{
  read_limits, read_descriptor, read_capabilities, read_routes, read_reason, read_advisory,
  read_system_name, read_actor_path, or_malformed,
}

-- `reader.remaining`
unfoldable pub remaining : Reader ℕ
remaining left = ok (length left, left)

module _ ⦃u : Unicode⦄ where
  unfoldable pub read_hello : ℕ → Reader Hello
  read_hello correlation_id = do
    protocol_major ← u16
    protocol_minor ← u16
    role_value ← u8
    role ← lift (or_malformed (role_of role_value))
    system_name ← read_system_name
    system_uid ← uuid
    association_uid ← uuid
    endpoint_host ← string16_within max_u16 true
    endpoint_port ← u16
    limits ← read_limits
    count ← u16
    serializers ← times count read_descriptor
    require
        (unique (map (λ (d : SerializerDescriptor). d.serializer_id) serializers)
          && unique (map (λ (d : SerializerDescriptor). d.name) serializers))
        malformed_frame
    capabilities ← read_capabilities
    pure (record {
      protocol_major = protocol_major;
      protocol_minor = protocol_minor;
      role = role;
      system_name = system_name;
      system_incarnation_uid = system_uid;
      association_uid = association_uid;
      endpoint_host = endpoint_host;
      endpoint_port = endpoint_port;
      limits = limits;
      serializers = serializers;
      capabilities = capabilities;
      correlation_id = correlation_id;
    })

  unfoldable pub read_hello_accept : ℕ → Reader HelloAccept
  read_hello_accept correlation_id = do
    association_uid ← uuid
    protocol_minor ← u16
    limits ← read_limits
    routes ← read_routes
    capabilities ← read_capabilities
    pure (record {
      association_uid = association_uid;
      protocol_minor = protocol_minor;
      limits = limits;
      serializer_routes = routes;
      capabilities = capabilities;
      correlation_id = correlation_id;
    })

  unfoldable pub read_notice : ℕ → Reader Notice
  read_notice correlation_id = do
    (reason, detail) ← read_reason
    pure (record { reason = reason; detail = detail; correlation_id = correlation_id })

  unfoldable pub read_resolve_request : ℕ → Reader ResolveRequest
  read_resolve_request correlation_id = do
    system_name ← read_system_name
    actor_path ← read_actor_path
    pure (record {
      correlation_id = correlation_id;
      system_name = system_name;
      actor_path = actor_path;
    })

  unfoldable pub read_resolve_response : ℕ → Reader ResolveResponse
  read_resolve_response correlation_id = do
    system_uid ← uuid
    actor_uid ← uuid
    actor_path ← read_actor_path
    pure (record {
      correlation_id = correlation_id;
      system_incarnation_uid = system_uid;
      actor_uid = actor_uid;
      actor_path = actor_path;
    })

  unfoldable pub read_resolve_rejected : ℕ → Reader ResolveRejected
  read_resolve_rejected correlation_id = do
    (reason, detail) ← read_reason
    require (is_frame_reason FrameType.resolve_rejected reason) malformed_frame
    pure (record { correlation_id = correlation_id; reason = reason; detail = detail })

  unfoldable pub read_user_message : ℕ → Reader UserMessage
  read_user_message correlation_id = do
    association_uid ← uuid
    lane_id ← u16
    require (not (eqb lane_id control_lane_id)) malformed_frame
    lane_sequence ← u64
    sender_uid ← uuid
    recipient_uid ← uuid
    actor_uid ← uuid
    serializer_id ← u32
    require (not (eqb serializer_id 0)) malformed_frame
    manifest_length ← u16
    require (leb manifest_length max_manifest_bytes) malformed_frame
    payload_length ← u32
    left ← remaining
    require (eqb (manifest_length + payload_length) left) malformed_frame
    manifest_bytes ← take_bytes manifest_length
    manifest ← lift (decoded (decode manifest_bytes) malformed_frame)
    _ ← lift (text_bytes manifest max_manifest_bytes malformed_frame true)
    payload ← take_bytes payload_length
    pure (record {
      association_uid = association_uid;
      lane_id = lane_id;
      lane_sequence = lane_sequence;
      sender_incarnation_uid = sender_uid;
      recipient_incarnation_uid = recipient_uid;
      recipient_actor_uid = actor_uid;
      serializer_id = serializer_id;
      manifest = manifest;
      payload = payload;
      correlation_id = correlation_id;
    })

  unfoldable pub read_checked_advisory : FrameType → ℕ → Reader Advisory
  read_checked_advisory frame_type correlation_id = do
    advisory ← read_advisory correlation_id
    require (is_frame_reason frame_type advisory.reason) malformed_frame
    pure advisory

  unfoldable pub read_body : FrameType → ℕ → Reader Frame
  read_body FrameType.hello id = do f ← read_hello id; pure (Frame.hello f)
  read_body FrameType.hello_accept id = do f ← read_hello_accept id; pure (Frame.hello_accept f)
  read_body FrameType.goaway id = do f ← read_notice id; pure (Frame.goaway f)
  read_body FrameType.hello_reject id = do f ← read_notice id; pure (Frame.hello_reject f)
  read_body FrameType.resolve_request id = do
    f ← read_resolve_request id
    pure (Frame.resolve_request f)
  read_body FrameType.resolve_response id = do
    f ← read_resolve_response id
    pure (Frame.resolve_response f)
  read_body FrameType.resolve_rejected id = do
    f ← read_resolve_rejected id
    pure (Frame.resolve_rejected f)
  read_body FrameType.user_message id = do f ← read_user_message id; pure (Frame.user_message f)
  read_body FrameType.recipient_unavailable id = do
    f ← read_checked_advisory FrameType.recipient_unavailable id
    pure (Frame.recipient_unavailable f)
  read_body FrameType.deserialization_rejected id = do
    f ← read_checked_advisory FrameType.deserialization_rejected id
    pure (Frame.deserialization_rejected f)

  unfoldable pub decode_body : FrameHeader → Bytes → Result Frame
  decode_body header body =
      Errors.◌>>=◌ (read_body header.frame_type header.correlation_id body)
        λ (frame, left). Errors.◌>>=◌ (finish left) λ _. ok frame
