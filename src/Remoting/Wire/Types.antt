-- ===== src/Remoting/Wire/Types.antt =====
-- The constants, enumerations and dataclasses of movie/remoting/wire.py. A UUID is its 128-bit
-- `int`; a field of type `int` is a natural number.
use movie.Common.{
  ℕ, ◌+◌, ◌-◌, ◌^◌, ◌≡◌, refl, ap, Bool, ◌∷◌, [], Option, none, some, eqb, if◌then◌else◌,
}
use movie.Remoting.Text.Utf8.{Bytes}

abbrev pub magic : Bytes
magic = b'M' ∷ b'O' ∷ b'V' ∷ b'1' ∷ []

abbrev pub protocol_major : ℕ
protocol_major = 1

abbrev pub protocol_minor : ℕ
protocol_minor = 0

abbrev pub header_version : ℕ
header_version = 1

abbrev pub bootstrap_max_frame_bytes : ℕ
bootstrap_max_frame_bytes = 2 ^ 20

abbrev pub preamble_size : ℕ
preamble_size = 23

abbrev pub common_header_size : ℕ
common_header_size = 16

abbrev pub minimum_goaway_frame_bytes : ℕ
minimum_goaway_frame_bytes = common_header_size + 4

abbrev pub control_lane_id : ℕ
control_lane_id = 0xffff

abbrev pub max_u8 : ℕ
max_u8 = 2 ^ 8 - 1

abbrev pub max_u16 : ℕ
max_u16 = 2 ^ 16 - 1

abbrev pub max_u32 : ℕ
max_u32 = 2 ^ 32 - 1

abbrev pub max_u64 : ℕ
max_u64 = 2 ^ 64 - 1

-- Every value of the class `UUID` is below this bound.
abbrev pub uuid_mod : ℕ
uuid_mod = 2 ^ 128

abbrev pub header_after_length_size : ℕ
header_after_length_size = common_header_size - 4

abbrev pub user_message_fixed_body_size : ℕ
user_message_fixed_body_size = 84

pub data StreamKind : Type 0 where
  control delivery_lane multiplexed : StreamKind

abbrev pub stream_kind_code : StreamKind → ℕ
stream_kind_code control = 0
stream_kind_code delivery_lane = 1
stream_kind_code multiplexed = 2

abbrev pub stream_kind_of : ℕ → Option StreamKind
stream_kind_of n =
    if eqb n 0
    then some control
    else if eqb n 1
    then some delivery_lane
    else if eqb n 2
    then some multiplexed
    else none

abbrev pub kind_beq : StreamKind → StreamKind → Bool
kind_beq a b = eqb (stream_kind_code a) (stream_kind_code b)

pub data AssociationRole : Type 0 where
  initiator responder : AssociationRole

abbrev pub role_code : AssociationRole → ℕ
role_code initiator = 0
role_code responder = 1

abbrev pub role_of : ℕ → Option AssociationRole
role_of n = if eqb n 0 then some initiator else if eqb n 1 then some responder else none

pub data FrameType : Type 0 where
  hello hello_accept goaway hello_reject : FrameType
  resolve_request resolve_response resolve_rejected : FrameType
  user_message recipient_unavailable deserialization_rejected : FrameType

abbrev pub frame_type_code : FrameType → ℕ
frame_type_code hello = 0x01
frame_type_code hello_accept = 0x02
frame_type_code goaway = 0x03
frame_type_code hello_reject = 0x04
frame_type_code resolve_request = 0x10
frame_type_code resolve_response = 0x11
frame_type_code resolve_rejected = 0x12
frame_type_code user_message = 0x20
frame_type_code recipient_unavailable = 0x30
frame_type_code deserialization_rejected = 0x31

unfoldable pub frame_type_of : ℕ → Option FrameType
frame_type_of n =
    if eqb n 0x01
    then some hello
    else if eqb n 0x02
    then some hello_accept
    else if eqb n 0x03
    then some goaway
    else if eqb n 0x04
    then some hello_reject
    else if eqb n 0x10
    then some resolve_request
    else if eqb n 0x11
    then some resolve_response
    else if eqb n 0x12
    then some resolve_rejected
    else if eqb n 0x20
    then some user_message
    else if eqb n 0x30
    then some recipient_unavailable
    else if eqb n 0x31
    then some deserialization_rejected
    else none

pub data ReasonCode : Type 0 where
  normal_shutdown incompatible_version system_name_mismatch duplicate_association : ReasonCode
  unsupported_frame protocol_violation flow_control_violation : ReasonCode
  actor_not_found actor_stopping mailbox_full invalid_path : ReasonCode
  unknown_serializer unsupported_manifest malformed_payload : ReasonCode

abbrev pub reason_code : ReasonCode → ℕ
reason_code normal_shutdown = 0x0000
reason_code incompatible_version = 0x0001
reason_code system_name_mismatch = 0x0002
reason_code duplicate_association = 0x0003
reason_code unsupported_frame = 0x0004
reason_code protocol_violation = 0x0005
reason_code flow_control_violation = 0x0006
reason_code actor_not_found = 0x0010
reason_code actor_stopping = 0x0011
reason_code mailbox_full = 0x0012
reason_code invalid_path = 0x0013
reason_code unknown_serializer = 0x0020
reason_code unsupported_manifest = 0x0021
reason_code malformed_payload = 0x0022

unfoldable pub reason_of : ℕ → Option ReasonCode
reason_of n =
    if eqb n 0x0000
    then some normal_shutdown
    else if eqb n 0x0001
    then some incompatible_version
    else if eqb n 0x0002
    then some system_name_mismatch
    else if eqb n 0x0003
    then some duplicate_association
    else if eqb n 0x0004
    then some unsupported_frame
    else if eqb n 0x0005
    then some protocol_violation
    else if eqb n 0x0006
    then some flow_control_violation
    else if eqb n 0x0010
    then some actor_not_found
    else if eqb n 0x0011
    then some actor_stopping
    else if eqb n 0x0012
    then some mailbox_full
    else if eqb n 0x0013
    then some invalid_path
    else if eqb n 0x0020
    then some unknown_serializer
    else if eqb n 0x0021
    then some unsupported_manifest
    else if eqb n 0x0022
    then some malformed_payload
    else none

pub frame_type_of_code : (t : FrameType) → frame_type_of (frame_type_code t) ≡ some t
unfolding frame_type_of
frame_type_of_code hello = refl
frame_type_of_code _ = refl

pub reason_of_code : (r : ReasonCode) → reason_of (reason_code r) ≡ some r
unfolding reason_of
reason_of_code normal_shutdown = refl
reason_of_code _ = refl

pub frame_type_code-injective : (s t : FrameType) → frame_type_code s ≡ frame_type_code t → s ≡ t
frame_type_code-injective s t e =
    cc (frame_type_of_code s, frame_type_of_code t, ap frame_type_of e)
