-- ===== src/Remoting/Wire/Parts/Read.antt =====
-- The `_read_*` functions of movie/remoting/wire.py.
use movie.Common.{
  is_empty, ℕ, true, false, not, ◌&&◌, List, map, leb, eqb, unique, dedupe, ◌==◌, nat_eq, list_eq,
  Option, none, some,
}
use movie.Remoting.Errors.{Result, ok, err, malformed_frame, raise_as}
use movie.Remoting.Text.Utf8.{Text}
use movie.Remoting.Text.Sort.{sort, compare_text}
use movie.Remoting.Text.{Unicode}
use movie.Remoting.Serialization.{
  SerializerDescriptor, SerializerRoute, serializer_descriptor, serializer_route,
  max_manifest_bytes,
}
use movie.Remoting.Wire.Types.{ReasonCode, reason_of, common_header_size, control_lane_id, max_u16}
use movie.Remoting.Wire.Frames.{Limits, Advisory}
use movie.Remoting.Wire.Reader.{
  Reader, ◌>>=◌, ◌>>◌, pure, lift, require, u16, u32, u64, uuid, times, string16_within,
}
use movie.Remoting.Wire.Parts.Names.{system_name, actor_path}
use movie.Remoting.Wire.Parts.Write.{compare_route, route_eq, route_id}

unfoldable pub read_limits : Reader Limits
read_limits = do
  maximum_frame_bytes ← u32
  require (leb common_header_size maximum_frame_bytes) malformed_frame
  lane_count ← u16
  outbound_messages ← u32
  outbound_bytes ← u64
  inbound_messages ← u32
  inbound_bytes ← u64
  pure (record {
    maximum_frame_bytes = maximum_frame_bytes;
    lane_count = lane_count;
    outbound_message_limit = outbound_messages;
    outbound_byte_limit = outbound_bytes;
    inbound_message_limit = inbound_messages;
    inbound_byte_limit = inbound_bytes;
  })

-- `ReasonCode(value)`, with `ValueError` turned into `MalformedFrameError`
abbrev pub or_malformed {ℓ} : {A : Type ℓ} → Option A → Result A
or_malformed none = err malformed_frame
or_malformed (some a) = ok a

module _ ⦃u : Unicode⦄ where
  unfoldable pub read_manifest : Reader Text
  read_manifest = string16_within max_manifest_bytes true

  unfoldable pub read_descriptor : Reader SerializerDescriptor
  read_descriptor = do
    serializer_id ← u32
    name ← string16_within max_u16 true
    protocol_major ← u16
    protocol_minor ← u16
    readable_count ← u16
    readable ← times readable_count read_manifest
    writable_count ← u16
    writable ← times writable_count read_manifest
    require (unique readable && unique writable) malformed_frame
    lift (
        raise_as malformed_frame (
          serializer_descriptor serializer_id name protocol_major protocol_minor readable writable))

  unfoldable pub read_capabilities : Reader (List Text)
  read_capabilities = do
    count ← u16
    capabilities ← times count (string16_within max_u16 true)
    require (unique capabilities) malformed_frame
    pure capabilities

  unfoldable pub read_route : Reader SerializerRoute
  read_route = do
    origin_uid ← uuid
    serializer_id ← u32
    count ← u16
    manifests ← times count read_manifest
    let canonical = sort compare_text (dedupe manifests)
    require (not (is_empty manifests) && (manifests == canonical)) malformed_frame
    lift (raise_as malformed_frame (serializer_route origin_uid serializer_id manifests))

  unfoldable pub read_routes : Reader (List SerializerRoute)
  read_routes = do
    count ← u16
    routes ← times count read_route
    require (routes == sort compare_route routes) malformed_frame
    require (unique (map route_id routes)) malformed_frame
    pure routes

  unfoldable pub read_reason : Reader (ReasonCode × Text)
  read_reason = do
    value ← u16
    reason ← lift (or_malformed (reason_of value))
    detail ← string16_within max_u16 false
    pure (reason, detail)

  unfoldable pub read_advisory : ℕ → Reader Advisory
  read_advisory correlation_id = do
    association_uid ← uuid
    lane_id ← u16
    require (not (eqb lane_id control_lane_id)) malformed_frame
    lane_sequence ← u64
    recipient_actor_uid ← uuid
    (reason, detail) ← read_reason
    pure (record {
      association_uid = association_uid;
      lane_id = lane_id;
      lane_sequence = lane_sequence;
      recipient_actor_uid = recipient_actor_uid;
      reason = reason;
      detail = detail;
      correlation_id = correlation_id;
    })

  unfoldable pub read_system_name : Reader Text
  read_system_name = do
    value ← string16_within 255 true
    _ ← lift (system_name value malformed_frame)
    pure value

  unfoldable pub read_actor_path : Reader Text
  read_actor_path = do
    value ← string16_within max_u16 true
    _ ← lift (actor_path value malformed_frame)
    pure value
