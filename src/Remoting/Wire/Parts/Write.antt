-- ===== src/Remoting/Wire/Parts/Write.antt =====
-- The `_write_*` functions of movie/remoting/wire.py.
use movie.Common.{
  ℕ, Bool, true, false, not, ◌&&◌, List, [], ◌∷◌, map, leb, length, eqb, unique, ◌==◌, nat_eq,
  list_eq, list_beq_iff, Eq, ◌≡◌, ◌↔◌, arith, compare, Ordering,
}
use movie.Remoting.Errors.{protocol_validation}
use movie.Remoting.Text.Utf8.{Text}
use movie.Remoting.Text.Sort.{sort, compare_text, compare_bytes, compare_list, then_by, utf8_key}
use movie.Remoting.Text.{Unicode, text_bytes}
use movie.Remoting.Serialization.{SerializerDescriptor, SerializerRoute, max_manifest_bytes}
use movie.Remoting.Wire.Types.{
  FrameType, ReasonCode, reason_code, common_header_size, control_lane_id, max_u16,
}
use movie.Remoting.Wire.Frames.{Limits, Advisory}
use movie.Remoting.Wire.Writer.{
  Writer, ◌>>◌, require, given, done, u16, u32, u64, uuid, each, string16_within, big_endian,
}

-- `route.origin_incarnation_uid`, `route.serializer_id`: what must be unique among the routes
abbrev pub route_id : SerializerRoute → List ℕ
route_id r = r.origin_incarnation_uid ∷ r.serializer_id ∷ []

-- `_route_key`, compared
unfoldable pub compare_route : SerializerRoute → SerializerRoute → Ordering
compare_route a b =
    then_by
      (compare_bytes (big_endian 16 a.origin_incarnation_uid)
        (big_endian 16 b.origin_incarnation_uid))
      (then_by (compare a.serializer_id b.serializer_id)
        (compare_list compare_bytes (map utf8_key a.manifests) (map utf8_key b.manifests)))

abbrev pub route_beq : SerializerRoute → SerializerRoute → Bool
route_beq a b =
    eqb a.origin_incarnation_uid b.origin_incarnation_uid
    && eqb a.serializer_id b.serializer_id
    && a.manifests == b.manifests

pub route_beq_iff : (a b : SerializerRoute) → (route_beq a b ≡ true) ↔ (a ≡ b)
route_beq_iff a b = ground (arith, list_beq_iff a.manifests b.manifests)

instance abbrev pub route_eq : Eq SerializerRoute
route_eq = record { beq = route_beq; beq_iff = route_beq_iff }

unfoldable pub write_limits : Limits → Writer
write_limits l = do
  u32 l.maximum_frame_bytes
  require (leb common_header_size l.maximum_frame_bytes) protocol_validation
  u16 l.lane_count
  u32 l.outbound_message_limit
  u64 l.outbound_byte_limit
  u32 l.inbound_message_limit
  u64 l.inbound_byte_limit

-- `_FRAME_REASON_CODES` and `_validate_frame_reason`
abbrev pub is_frame_reason : FrameType → ReasonCode → Bool
is_frame_reason FrameType.resolve_rejected r = elim r [
  | ReasonCode.system_name_mismatch ↦ true
  | ReasonCode.actor_not_found ↦ true
  | ReasonCode.actor_stopping ↦ true
  | ReasonCode.invalid_path ↦ true
  | _ ↦ false
]
is_frame_reason FrameType.recipient_unavailable r = elim r [
  | ReasonCode.actor_not_found ↦ true
  | ReasonCode.actor_stopping ↦ true
  | ReasonCode.mailbox_full ↦ true
  | _ ↦ false
]
is_frame_reason FrameType.deserialization_rejected r = elim r [
  | ReasonCode.unknown_serializer ↦ true
  | ReasonCode.unsupported_manifest ↦ true
  | ReasonCode.malformed_payload ↦ true
  | _ ↦ false
]
is_frame_reason _ r = true

module _ ⦃u : Unicode⦄ where
  unfoldable pub write_manifest : Text → Writer
  write_manifest = string16_within max_manifest_bytes true

  unfoldable pub write_descriptor : SerializerDescriptor → Writer
  write_descriptor d = do
    u32 d.serializer_id
    string16_within max_u16 true d.name
    u16 d.protocol_major
    u16 d.protocol_minor
    let readable = sort compare_text d.readable_manifests
    let writable = sort compare_text d.writable_manifests
    u16 (length readable)
    each write_manifest readable
    u16 (length writable)
    each write_manifest writable

  -- `_text_bytes(capability, ...)` for its exception only
  unfoldable pub check_capability : Text → Writer
  check_capability capability =
      given (text_bytes capability max_u16 protocol_validation true) (λ _. done)

  unfoldable pub write_capabilities : List Text → Writer
  write_capabilities capabilities = do
    require (leb (length capabilities) max_u16) protocol_validation
    each check_capability capabilities
    require (unique capabilities) protocol_validation
    u16 (length capabilities)
    each (string16_within max_u16 true) capabilities

  unfoldable pub write_route : SerializerRoute → Writer
  write_route route = do
    uuid route.origin_incarnation_uid
    u32 route.serializer_id
    u16 (length route.manifests)
    each write_manifest route.manifests

  unfoldable pub write_routes : List SerializerRoute → Writer
  write_routes routes = do
    require (leb (length routes) max_u16) protocol_validation
    require (sort compare_route routes == routes) protocol_validation
    require (unique (map route_id routes)) protocol_validation
    u16 (length routes)
    each write_route routes

  unfoldable pub write_reason : ReasonCode → Text → Writer
  write_reason reason detail = do u16 (reason_code reason); string16_within max_u16 false detail

  unfoldable pub write_advisory : Advisory → Writer
  write_advisory a = do
    uuid a.association_uid
    u16 a.lane_id
    require (not (eqb a.lane_id control_lane_id)) protocol_validation
    u64 a.lane_sequence
    uuid a.recipient_actor_uid
    write_reason a.reason a.detail
