-- ===== src/Remoting/Wire/Codec/RoundTrip.antt =====
-- Every frame that the codec sends is read back by the codec of the peer.
use movie.Common.{
  ℕ, ◌+◌, ◌≡◌, refl, sym, ◌∙◌, ap, [], ◌++◌, append-nil, length, length-append, drop, drop-append,
  eqb, arith, true, Option, eqb_iff,
}
use movie.Remoting.Errors
use movie.Remoting.Errors.{ok, ok-injective, malformed_frame, require}
use movie.Remoting.Text.Utf8.{Bytes}
use movie.Remoting.Text.{Unicode}
use movie.Remoting.Wire.Types.{
  FrameType, StreamKind, user_message_fixed_body_size, header_after_length_size, common_header_size,
  header_version,
}
use movie.Remoting.Wire.Frames
use movie.Remoting.Wire.Frames.{Frame, UserMessage, FrameHeader, total_length}
use movie.Remoting.Wire.Reader.{finish}
use movie.Remoting.Wire.Header.{pack_header, encode_common_header, validate_stream, is_control_type}
use movie.Remoting.Wire.Header.Laws.{
  encode_common_header-eq-ok, decode-encode_common_header, length-pack_header,
}
use movie.Remoting.Wire.Body.Encode.{encode_body}
use movie.Remoting.Wire.Body.Decode.{read_body, decode_body}
use movie.Remoting.Wire.Body.RoundTrip.{RoundTrip-body, IsControlFrame, canonical_frame}
use movie.Remoting.Wire.UserMessage.{encode_user_message_frame, pack_fixed_body}
use movie.Remoting.Wire.UserMessage.RoundTrip.{
  IsUserMessage, encode_user_message_frame-eq-ok, decode-encode_user_message_frame, message_header,
  packed-pieces, header-encoded, length-pack_fixed_body,
}
use movie.Remoting.Wire.Codec.{encode_with_header, encode_frame, decode_complete, decode_frame}

abbrev sent_header : FrameType → ℕ → ℕ → FrameHeader
sent_header t n c = record {
  frame_length = header_after_length_size + n;
  frame_type = t;
  flags = 0;
  header_version = header_version;
  correlation_id = c;
}

module _ ⦃u : Unicode⦄ where
  -- The fields of a frame are values of their classes: a UUID has 128 bits, and descriptors and
  -- routes have passed their constructors.
  abbrev pub IsFrame : Frame → Type 0
  IsFrame (Frame.user_message f) = IsUserMessage f
  IsFrame f = IsControlFrame f

  decode-encode_body :
      (f : Frame) (body : Bytes) (n : ℕ)
      → IsControlFrame f
      → encode_body f ≡ ok body
      → decode_body (sent_header (Frames.frame_type f) n (Frames.correlation_id f)) body
        ≡ ok (canonical_frame f)
  unfolding encode_body decode_body finish
  decode-encode_body f body n v p =
      let (bytes, e, reads) = (RoundTrip-body f v).at [] body p in
      let whole : read_body (Frames.frame_type f) (Frames.correlation_id f) body
          ≡ ok (canonical_frame f, []) =
        ap (read_body (Frames.frame_type f) (Frames.correlation_id f)) (e ∙ sym (append-nil bytes))
        ∙ reads [] in
      rw whole

  decode_complete-control :
      (t : FrameType) (frame : Bytes) (h : FrameHeader)
      → is_control_type t ≡ true
      → decode_complete t frame h ≡ decode_body h (drop common_header_size frame)
  decode_complete-control FrameType.user_message frame h p = cc
  decode_complete-control _ frame h p = refl

  IsControlFrame-type :
      (f : Frame) → IsControlFrame f → is_control_type (Frames.frame_type f) ≡ true
  IsControlFrame-type (Frame.user_message f) v = absurd v
  IsControlFrame-type _ v = refl

  decode-sent :
      (f : Frame) (maximum : ℕ) (kind : Option StreamKind) (header body : Bytes)
      → IsControlFrame f
      → validate_stream (Frames.frame_type f) kind ≡ ok tt
      → encode_body f ≡ ok body
      → encode_common_header (Frames.frame_type f) (length body) (Frames.correlation_id f) maximum
        ≡ ok header
      → decode_frame (header ++ body) maximum kind ≡ ok (canonical_frame f)
  unfolding decode_frame
  decode-sent f maximum kind header body v s b h =
      let t = Frames.frame_type f in
      let c = Frames.correlation_id f in
      let e = encode_common_header-eq-ok t (length body) c maximum header h in
      let sized : length header ≡ 16 =
        ap length e.packed ∙ length-pack_header (header_after_length_size + length body) t c in
      let total : eqb (length (header ++ body)) (header_after_length_size + length body + 4)
          ≡ true =
        (eqb_iff _ _).1 (omega (arith, length-append header body)) in
      rw
        (
          decode-encode_common_header t (length body) c maximum header body h,
          s,
          total,
          decode_complete-control t (header ++ body) (sent_header t (length body) c)
              (IsControlFrame-type f v),
          drop-append 16 header body sized,
        )
        (decode-encode_body f body (length body) v b)

  decode-control :
      (f : Frame) (maximum : ℕ) (kind : Option StreamKind) (bytes : Bytes)
      → IsControlFrame f
      → validate_stream (Frames.frame_type f) kind ≡ ok tt
      → encode_with_header f maximum ≡ ok bytes
      → decode_frame bytes maximum kind ≡ ok (canonical_frame f)
  unfolding encode_with_header
  decode-control f maximum kind bytes v s p =
      let (body, b, q) = Errors.>>=-eq-ok (encode_body f) _ p in
      let (header, h, r) =
        Errors.>>=-eq-ok
          (encode_common_header (Frames.frame_type f) (length body) (Frames.correlation_id f)
            maximum)
          _ q in
      rw (← ok-injective r) (decode-sent f maximum kind header body v s b h)

  decode-message :
      (f : UserMessage) (maximum : ℕ) (kind : Option StreamKind) (bytes : Bytes)
      → IsUserMessage f
      → validate_stream FrameType.user_message kind ≡ ok tt
      → encode_user_message_frame f maximum ≡ ok bytes
      → decode_frame bytes maximum kind ≡ ok (Frame.user_message f)
  unfolding decode_frame
  decode-message f maximum kind bytes v s p =
      let (manifest, e) = encode_user_message_frame-eq-ok f maximum bytes p in
      let n = user_message_fixed_body_size + length manifest + length f.payload in
      let header = pack_header (message_header f manifest).frame_length FrameType.user_message 0 in
      let body = pack_fixed_body f (length manifest) ++ (manifest ++ f.payload) in
      let total : eqb (length (header ++ body)) (header_after_length_size + n + 4) ≡ true =
        (eqb_iff _ _).1
          (omega (arith, length-append {0}, length-pack_header, length-pack_fixed_body)) in
      rw (
        packed-pieces f maximum manifest bytes e,
        decode-encode_common_header FrameType.user_message n 0 maximum header body
            (header-encoded f maximum manifest bytes e),
        s,
        total,
        decode-encode_user_message_frame f maximum manifest bytes v e,
      )

  -- A frame whose fields are values of their classes (UUIDs of 128 bits, and descriptors and routes
  -- that their constructors return), when it is encoded without an error under any frame limit and
  -- on any stream, is decoded under the same limit and on the same stream to itself, with each set
  -- of manifests of a HELLO listed in the order in which it was sent.
  pub decode-encode_frame :
      (f : Frame) (maximum : ℕ) (kind : Option StreamKind) (bytes : Bytes)
      → IsFrame f
      → encode_frame f maximum kind ≡ ok bytes
      → decode_frame bytes maximum kind ≡ ok (canonical_frame f)
  unfolding encode_frame
  decode-encode_frame (Frame.user_message f) maximum kind bytes v p =
      let (_, s, q) = Errors.>>=-eq-ok (validate_stream FrameType.user_message kind) _ p in
      decode-message f maximum kind bytes v s q
  decode-encode_frame f maximum kind bytes v p =
      let (_, s, q) = Errors.>>=-eq-ok (validate_stream (Frames.frame_type f) kind) _ p in
      decode-control f maximum kind bytes v s q
