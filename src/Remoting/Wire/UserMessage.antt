-- ===== src/Remoting/Wire/UserMessage.antt =====
-- The fast path of movie/remoting/wire.py for user messages: `_encode_user_message_frame` and
-- `_decode_user_message_frame`, which pack and unpack the fixed fields in one go.
pub mod RoundTrip
use movie.Common.{ℕ, ◌+◌, ◌-◌, not, ◌&&◌, Bool, true, List, [], ◌++◌, leb, eqb, length, take, drop}
use movie.Remoting.Errors.{
  Error, Result, ok, err, ◌>>=◌, ◌>>◌, require, protocol_validation, malformed_frame,
  frame_too_large,
}
use movie.Remoting.Text.Utf8.{Text, Bytes, decode}
use movie.Remoting.Text.{Unicode, text_bytes, decoded}
use movie.Remoting.Serialization.{max_manifest_bytes}
use movie.Remoting.Wire.Types.{
  FrameType, frame_type_code, header_version, control_lane_id, max_u16, max_u32, max_u64,
  common_header_size, user_message_fixed_body_size,
}
use movie.Remoting.Wire.Frames.{UserMessage, FrameHeader, body_length}
use movie.Remoting.Wire.Writer.{big_endian, uint, uuid_of}
use movie.Remoting.Wire.Reader
use movie.Remoting.Wire.Reader.{Reader, uint_bytes}
use movie.Remoting.Wire.Header.{effective_limit, validate_correlation}

-- `_USER_MESSAGE_PREFIX.size`
abbrev pub user_message_prefix_size : ℕ
user_message_prefix_size = common_header_size + user_message_fixed_body_size

-- `_USER_MESSAGE_BODY.pack`: the fields behind the common header
unfoldable pub pack_fixed_body : UserMessage → ℕ → Bytes
pack_fixed_body f manifest_length =
    big_endian 16 f.association_uid
    ++ (big_endian 2 f.lane_id
        ++ (big_endian 8 f.lane_sequence
            ++ (big_endian 16 f.sender_incarnation_uid
                ++ (big_endian 16 f.recipient_incarnation_uid
                    ++ (big_endian 16 f.recipient_actor_uid
                        ++ (big_endian 4 f.serializer_id
                            ++ (big_endian 2 manifest_length
                                ++ big_endian 4 (length f.payload))))))))

-- `_USER_MESSAGE_PREFIX.pack`
unfoldable pub pack_prefix : ℕ → UserMessage → ℕ → Bytes
pack_prefix total_length f manifest_length =
    big_endian 4 (total_length - 4)
    ++ (big_endian 1 (frame_type_code FrameType.user_message)
        ++ (big_endian 1 0
            ++ (big_endian 2 header_version
                ++ (big_endian 8 0 ++ pack_fixed_body f manifest_length))))

-- The nine fields of `_USER_MESSAGE_BODY.unpack_from`
pub record FixedBody : Type 0 where
  pub association : ℕ
  pub lane_id : ℕ
  pub lane_sequence : ℕ
  pub sender : ℕ
  pub recipient : ℕ
  pub actor : ℕ
  pub serializer_id : ℕ
  pub manifest_length : ℕ
  pub payload_length : ℕ

unfoldable pub unpack_fixed_body : Reader FixedBody
unpack_fixed_body = Reader.◌>>=◌ (uint_bytes 16) λ association.
    Reader.◌>>=◌ (uint_bytes 2) λ lane_id. Reader.◌>>=◌ (uint_bytes 8) λ lane_sequence.
      Reader.◌>>=◌ (uint_bytes 16) λ sender. Reader.◌>>=◌ (uint_bytes 16) λ recipient.
        Reader.◌>>=◌ (uint_bytes 16) λ actor. Reader.◌>>=◌ (uint_bytes 4) λ serializer_id.
          Reader.◌>>=◌ (uint_bytes 2) λ manifest_length.
            Reader.◌>>=◌ (uint_bytes 4) λ payload_length. Reader.pure (record {
              association = association;
              lane_id = lane_id;
              lane_sequence = lane_sequence;
              sender = sender;
              recipient = recipient;
              actor = actor;
              serializer_id = serializer_id;
              manifest_length = manifest_length;
              payload_length = payload_length;
            })

module _ ⦃u : Unicode⦄ where
  unfoldable pub encode_user_message_frame : UserMessage → ℕ → Result Bytes
  encode_user_message_frame f maximum_frame_bytes = do
    validate_correlation FrameType.user_message f.correlation_id protocol_validation
    _ ← uuid_of f.association_uid protocol_validation
    _ ← uint f.lane_id max_u16 protocol_validation
    require (not (eqb f.lane_id control_lane_id)) protocol_validation
    _ ← uint f.lane_sequence max_u64 protocol_validation
    _ ← uuid_of f.sender_incarnation_uid protocol_validation
    _ ← uuid_of f.recipient_incarnation_uid protocol_validation
    _ ← uuid_of f.recipient_actor_uid protocol_validation
    _ ← uint f.serializer_id max_u32 protocol_validation
    require (not (eqb f.serializer_id 0)) protocol_validation
    manifest ← text_bytes f.manifest max_manifest_bytes protocol_validation true
    payload_length ← uint (length f.payload) max_u32 protocol_validation
    let total_length = user_message_prefix_size + length manifest + payload_length
    limit ← effective_limit FrameType.user_message maximum_frame_bytes
    require (leb total_length limit) frame_too_large
    ok (pack_prefix total_length f (length manifest) ++ (manifest ++ f.payload))

  -- The checks of `_decode_user_message_frame` on the unpacked fields.
  unfoldable pub check_fixed_body : FixedBody → ℕ → Result (Unit {0})
  check_fixed_body b frame_body_length = do
    _ ← uuid_of b.association malformed_frame
    require (not (eqb b.lane_id control_lane_id)) malformed_frame
    _ ← uuid_of b.sender malformed_frame
    _ ← uuid_of b.recipient malformed_frame
    _ ← uuid_of b.actor malformed_frame
    require (not (eqb b.serializer_id 0)) malformed_frame
    require (leb b.manifest_length max_manifest_bytes) malformed_frame
    require
        (eqb (user_message_fixed_body_size + b.manifest_length + b.payload_length)
          frame_body_length)
        malformed_frame

  unfoldable pub decode_user_message_frame : Bytes → FrameHeader → Result UserMessage
  decode_user_message_frame frame header = do
    let body = drop common_header_size frame
    require (leb user_message_fixed_body_size (length body)) malformed_frame
    (b, _) ← unpack_fixed_body body
    check_fixed_body b (body_length header)
    let manifest_start = common_header_size + user_message_fixed_body_size
    let manifest_end = manifest_start + b.manifest_length
    let manifest_bytes = take b.manifest_length (drop manifest_start frame)
    manifest ← decoded (decode manifest_bytes) malformed_frame
    _ ← text_bytes manifest max_manifest_bytes malformed_frame true
    ok (record {
      association_uid = b.association;
      lane_id = b.lane_id;
      lane_sequence = b.lane_sequence;
      sender_incarnation_uid = b.sender;
      recipient_incarnation_uid = b.recipient;
      recipient_actor_uid = b.actor;
      serializer_id = b.serializer_id;
      manifest = manifest;
      payload = drop manifest_end frame;
      correlation_id = header.correlation_id;
    })
