-- ===== src/Remoting/Wire/Header.antt =====
-- The common frame header of movie/remoting/wire.py, and the stream on which a frame is valid.
pub mod Laws
use movie.Common.{
  ℕ, ◌+◌, ◌-◌, not, ◌&&◌, ◌||◌, Bool, true, false, List, [], ◌++◌, Option, none, some, leb, eqb,
  length, min,
}
use movie.Remoting.Errors.{
  Error, Result, ok, err, ◌>>=◌, ◌>>◌, require, protocol_validation, malformed_frame,
  frame_too_large, unsupported_frame, unsupported_feature, unsupported_header_version, wrong_stream,
}
use movie.Remoting.Text.Utf8.{Bytes}
use movie.Remoting.Wire.Types.{
  FrameType, frame_type_code, frame_type_of, StreamKind, kind_beq, max_u32, max_u64,
  common_header_size, header_after_length_size, bootstrap_max_frame_bytes, header_version,
}
use movie.Remoting.Wire.Frames.{FrameHeader}
use movie.Remoting.Wire.Writer.{big_endian, uint, uint_from}
use movie.Remoting.Wire.Reader
use movie.Remoting.Wire.Reader.{Reader, uint_bytes}

-- `_BOOTSTRAP_FRAME_TYPES`
abbrev pub is_bootstrap : FrameType → Bool
is_bootstrap FrameType.hello = true
is_bootstrap FrameType.hello_accept = true
is_bootstrap FrameType.hello_reject = true
is_bootstrap _ = false

-- `_ZERO_CORRELATION_TYPES`
abbrev pub is_zero_correlation : FrameType → Bool
is_zero_correlation FrameType.resolve_request = false
is_zero_correlation FrameType.resolve_response = false
is_zero_correlation FrameType.resolve_rejected = false
is_zero_correlation _ = true

-- `_CONTROL_FRAME_TYPES`
abbrev pub is_control_type : FrameType → Bool
is_control_type FrameType.user_message = false
is_control_type _ = true

abbrev pub frame_limit : FrameType → ℕ → ℕ
frame_limit t maximum = elim (is_bootstrap t) [
  | true ↦ min maximum bootstrap_max_frame_bytes
  | false ↦ maximum
]

unfoldable pub effective_limit : FrameType → ℕ → Result ℕ
effective_limit frame_type maximum_frame_bytes = do
  maximum ← uint_from common_header_size maximum_frame_bytes max_u32 protocol_validation
  ok (frame_limit frame_type maximum)

unfoldable pub validate_correlation : FrameType → ℕ → Error → Result (Unit {0})
validate_correlation frame_type correlation_id e = do
  _ ← uint correlation_id max_u64 e
  require (not (is_zero_correlation frame_type && not (eqb correlation_id 0))) e
  require (not (not (is_zero_correlation frame_type) && eqb correlation_id 0)) e

-- `struct.pack(">IBBHQ", frame_length, frame_type, 0, HEADER_VERSION, correlation_id)`
unfoldable pub pack_header : ℕ → FrameType → ℕ → Bytes
pack_header frame_length frame_type correlation_id =
    big_endian 4 frame_length
    ++ (big_endian 1 (frame_type_code frame_type)
        ++ (big_endian 1 0 ++ (big_endian 2 header_version ++ big_endian 8 correlation_id)))

unfoldable pub encode_common_header : FrameType → ℕ → ℕ → ℕ → Result Bytes
unfolding validate_correlation effective_limit
encode_common_header frame_type body_length correlation_id maximum_frame_bytes = do
  _ ← uint body_length (max_u32 - header_after_length_size) protocol_validation
  validate_correlation frame_type correlation_id protocol_validation
  let frame_length = header_after_length_size + body_length
  limit ← effective_limit frame_type maximum_frame_bytes
  require (leb (frame_length + 4) limit) frame_too_large
  ok (pack_header frame_length frame_type correlation_id)

pub record HeaderFields : Type 0 where
  pub frame_length : ℕ
  pub frame_type_value : ℕ
  pub flags : ℕ
  pub version : ℕ
  pub correlation_id : ℕ

-- `struct.unpack(">IBBHQ", ...)`
unfoldable pub unpack_header : Reader HeaderFields
unpack_header = Reader.◌>>=◌ (uint_bytes 4) λ frame_length.
    Reader.◌>>=◌ (uint_bytes 1) λ frame_type_value. Reader.◌>>=◌ (uint_bytes 1) λ flags.
      Reader.◌>>=◌ (uint_bytes 2) λ version. Reader.◌>>=◌ (uint_bytes 8) λ correlation_id.
        Reader.pure (record {
          frame_length = frame_length;
          frame_type_value = frame_type_value;
          flags = flags;
          version = version;
          correlation_id = correlation_id;
        })

abbrev or_unsupported {ℓ} : {A : Type ℓ} → Option A → Result A
or_unsupported none = err unsupported_frame
or_unsupported (some a) = ok a

-- What `decode_common_header` makes of the five fields.
unfoldable pub check_header : HeaderFields → ℕ → Result FrameHeader
unfolding validate_correlation effective_limit
check_header f maximum_frame_bytes = do
  require (leb header_after_length_size f.frame_length) malformed_frame
  let total_length = f.frame_length + 4
  _ ← uint_from common_header_size maximum_frame_bytes max_u32 protocol_validation
  require (leb total_length maximum_frame_bytes) frame_too_large
  frame_type ← or_unsupported (frame_type_of f.frame_type_value)
  limit ← effective_limit frame_type maximum_frame_bytes
  require (leb total_length limit) frame_too_large
  require (eqb f.flags 0) unsupported_feature
  require (eqb f.version header_version) unsupported_header_version
  validate_correlation frame_type f.correlation_id malformed_frame
  ok (record {
    frame_length = f.frame_length;
    frame_type = frame_type;
    flags = f.flags;
    header_version = f.version;
    correlation_id = f.correlation_id;
  })

unfoldable pub decode_common_header : Bytes → ℕ → Result FrameHeader
decode_common_header bytes maximum_frame_bytes = do
  require (leb common_header_size (length bytes)) malformed_frame
  (fields, _) ← unpack_header bytes
  check_header fields maximum_frame_bytes

abbrev expected_kind : FrameType → StreamKind
expected_kind t = elim (is_control_type t) [
  | true ↦ StreamKind.control
  | false ↦ StreamKind.delivery_lane
]

unfoldable pub validate_stream : FrameType → Option StreamKind → Result (Unit {0})
validate_stream frame_type none = ok tt
validate_stream frame_type (some StreamKind.multiplexed) = ok tt
validate_stream frame_type (some kind) =
    require (kind_beq kind (expected_kind frame_type)) wrong_stream
