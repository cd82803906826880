-- ===== src/Remoting/Wire/Examples.antt =====
-- Concrete frames, preambles and headers of movie/remoting/wire.py.
use movie.Common.{ℕ, ◌≡◌, ◌≤◌, refl, [], ◌∷◌, ◌++◌, replicate, take, eqb, some, true, arith}
use movie.Remoting.Errors.{ok, err, wrong_stream}
use movie.Remoting.Text.{Unicode, text_bytes}
use movie.Remoting.Text.Utf8.{Bytes, encode}
use movie.Remoting.Wire.Types.{
  StreamKind, FrameType, common_header_size, header_version, frame_type_of,
}
use movie.Remoting.Wire.Frames.{Frame, UserMessage, StreamPreamble, FrameHeader, total_length}
use movie.Remoting.Wire.Header.{
  encode_common_header, decode_common_header, frame_limit, is_zero_correlation, validate_stream,
  validate_correlation, effective_limit, pack_header, unpack_header, check_header,
}
use movie.Remoting.Wire.Reader
use movie.Remoting.Wire.Reader.{uint_bytes, take_bytes, from_big_endian}
use movie.Remoting.Wire.Writer.{big_endian}
use movie.Remoting.Wire.UserMessage.{encode_user_message_frame, pack_prefix, pack_fixed_body}
use movie.Remoting.Wire.Header.Laws.{decode-encode_common_header, decode_common_header-bounds}
use movie.Remoting.Wire.Preamble.{encode_preamble, decode_preamble}
use movie.Remoting.Wire.Preamble.Laws.{decode-encode_preamble}
use movie.Remoting.Wire.Codec.{encode_frame, decode_frame}
use movie.Remoting.Wire.Codec.RoundTrip.{decode-encode_frame}

-- ASCII text is in normal form.
instance abbrev ascii : Unicode
ascii = record { is_normalized = λ _. true }

abbrev message : UserMessage
message = record {
  association_uid = 5;
  lane_id = 1;
  lane_sequence = 300;
  sender_incarnation_uid = 6;
  recipient_incarnation_uid = 7;
  recipient_actor_uid = 8;
  serializer_id = 9;
  manifest = 109 ∷ 49 ∷ [];
  payload = 1 ∷ 2 ∷ 255 ∷ [];
  correlation_id = 0;
}

abbrev lane : StreamPreamble
lane = record { stream_kind = StreamKind.delivery_lane; association_uid = 258; lane_id = 1 }

-- The 16 bytes of a small UUID.
abbrev small_uuid : ℕ → Bytes
small_uuid n = replicate 15 0 ++ (n ∷ [])

abbrev message_bytes : Bytes
message_bytes =
    (0 ∷ 0 ∷ 0 ∷ 101 ∷ 32 ∷ 0 ∷ 0 ∷ 1 ∷ [])
    ++ (replicate 8 0
        ++ (small_uuid 5
            ++ ((0 ∷ 1 ∷ [])
                ++ ((0 ∷ 0 ∷ 0 ∷ 0 ∷ 0 ∷ 0 ∷ 1 ∷ 44 ∷ [])
                    ++ (small_uuid 6
                        ++ (small_uuid 7
                            ++ (small_uuid 8
                                ++ (0 ∷ 0 ∷ 0 ∷ 9 ∷ 0 ∷ 2 ∷ 0 ∷ 0 ∷ 0 ∷ 3 ∷ 109 ∷ 49 ∷ 1 ∷ 2 ∷ 255
                                    ∷ []))))))))

message_encodes :
    encode_frame (Frame.user_message message) 4096 (some StreamKind.delivery_lane)
    ≡ ok message_bytes
unfolding encode_frame validate_stream encode_user_message_frame validate_correlation text_bytes
    encode effective_limit pack_prefix big_endian pack_fixed_body
message_encodes = refl

wrong_stream_rejected :
    encode_frame (Frame.user_message message) 4096 (some StreamKind.control) ≡ err wrong_stream
unfolding encode_frame validate_stream
wrong_stream_rejected = refl

decode-encode_frame_example :
    decode_frame message_bytes 4096 (some StreamKind.delivery_lane)
    ≡ ok (Frame.user_message message)
decode-encode_frame_example =
    decode-encode_frame (Frame.user_message message) 4096 (some StreamKind.delivery_lane)
      message_bytes
      (record {
        association = omega arith;
        sender = omega arith;
        recipient = omega arith;
        actor = omega arith;
      })
      message_encodes

abbrev lane_bytes : Bytes
lane_bytes = 77 ∷ 79 ∷ 86 ∷ 49 ∷ 1 ∷ (replicate 14 0 ++ (1 ∷ 2 ∷ 0 ∷ 1 ∷ []))

lane_encodes : encode_preamble lane (some 2) ≡ ok lane_bytes
unfolding encode_preamble big_endian
lane_encodes = refl

decode-encode_preamble_example :
    decode_preamble lane_bytes (some 2) (some 258) (some StreamKind.delivery_lane) ≡ ok lane
decode-encode_preamble_example =
    decode-encode_preamble lane (some 2) lane_bytes (omega arith) lane_encodes

abbrev header_bytes : Bytes
header_bytes = take 16 message_bytes

abbrev message_header : FrameHeader
message_header = record {
  frame_length = 101;
  frame_type = FrameType.user_message;
  flags = 0;
  header_version = 1;
  correlation_id = 0;
}

header_encodes : encode_common_header FrameType.user_message 89 0 4096 ≡ ok header_bytes
unfolding encode_common_header pack_header big_endian
header_encodes = refl

decode-encode_common_header_example :
    decode_common_header (header_bytes ++ (7 ∷ [])) 4096 ≡ ok message_header
decode-encode_common_header_example =
    decode-encode_common_header FrameType.user_message 89 0 4096 header_bytes (7 ∷ [])
      header_encodes

header_decodes : decode_common_header header_bytes 4096 ≡ ok message_header
unfolding decode_common_header unpack_header Reader.◌>>=◌ uint_bytes take_bytes Reader.pure
    check_header from_big_endian frame_type_of
header_decodes = refl

decode_common_header-bounds_example :
    (common_header_size ≤ total_length message_header)
    × (total_length message_header ≤ frame_limit FrameType.user_message 4096)
    × (message_header.flags ≡ 0)
    × (message_header.header_version ≡ header_version)
    × (is_zero_correlation FrameType.user_message ≡ eqb message_header.correlation_id 0)
decode_common_header-bounds_example =
    decode_common_header-bounds header_bytes 4096 message_header header_decodes
