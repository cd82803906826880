-- ===== src/Remoting/Wire/Codec.antt =====
-- `encode_frame`, `decode_frame` and `FrameCodec` of movie/remoting/wire.py.
pub mod RoundTrip
use movie.Common.{ℕ, eqb, length, drop, ◌++◌, Option}
use movie.Remoting.Errors.{
  Result, ok, err, ◌>>=◌, ◌>>◌, require, malformed_frame, protocol_validation,
}
use movie.Remoting.Text.Utf8.{Bytes}
use movie.Remoting.Text.{Unicode}
use movie.Remoting.Wire.Types.{FrameType, StreamKind, common_header_size, max_u32}
use movie.Remoting.Wire.Frames
use movie.Remoting.Wire.Frames.{Frame, FrameHeader, total_length}
use movie.Remoting.Wire.Writer.{uint_from}
use movie.Remoting.Wire.Body.Encode.{encode_body}
use movie.Remoting.Wire.Body.Decode.{decode_body}
use movie.Remoting.Wire.Header.{encode_common_header, decode_common_header, validate_stream}
use movie.Remoting.Wire.UserMessage.{encode_user_message_frame, decode_user_message_frame}

module _ ⦃u : Unicode⦄ where
  -- The path of every frame that is no user message.
  unfoldable pub encode_with_header : Frame → ℕ → Result Bytes
  encode_with_header frame maximum_frame_bytes = do
    body ← encode_body frame
    header ←
        encode_common_header (Frames.frame_type frame) (length body) (Frames.correlation_id frame)
          maximum_frame_bytes
    ok (header ++ body)

  abbrev encode_valid : Frame → ℕ → Result Bytes
  encode_valid (Frame.user_message f) maximum_frame_bytes =
      encode_user_message_frame f maximum_frame_bytes
  encode_valid frame maximum_frame_bytes = encode_with_header frame maximum_frame_bytes

  unfoldable pub encode_frame : Frame → ℕ → Option StreamKind → Result Bytes
  encode_frame frame maximum_frame_bytes stream_kind = do
    validate_stream (Frames.frame_type frame) stream_kind
    encode_valid frame maximum_frame_bytes

  abbrev decode_complete : FrameType → Bytes → FrameHeader → Result Frame
  decode_complete FrameType.user_message frame header = do
    f ← decode_user_message_frame frame header
    ok (Frame.user_message f)
  decode_complete _ frame header = decode_body header (drop common_header_size frame)

  unfoldable pub decode_frame : Bytes → ℕ → Option StreamKind → Result Frame
  decode_frame frame maximum_frame_bytes stream_kind = do
    header ← decode_common_header frame maximum_frame_bytes
    validate_stream header.frame_type stream_kind
    require (eqb (length frame) (total_length header)) malformed_frame
    decode_complete header.frame_type frame header

  -- `FrameCodec`: a codec is its limit, which the constructor has checked.
  pub record FrameCodec : Type 0 where
    pub maximum_frame_bytes : ℕ

  unfoldable pub frame_codec : ℕ → Result FrameCodec
  frame_codec maximum_frame_bytes = do
    maximum ← uint_from common_header_size maximum_frame_bytes max_u32 protocol_validation
    ok (record { maximum_frame_bytes = maximum })

  unfoldable pub codec_encode : FrameCodec → Frame → Option StreamKind → Result Bytes
  codec_encode codec frame stream_kind = encode_frame frame codec.maximum_frame_bytes stream_kind

  unfoldable pub codec_decode : FrameCodec → Bytes → Option StreamKind → Result Frame
  codec_decode codec frame stream_kind = decode_frame frame codec.maximum_frame_bytes stream_kind
