-- ===== src/Remoting/Wire/UserMessage/RoundTrip.antt =====
-- A user message is read back from the frame that the fast path packs.
use movie.Common.{
  ℕ, ◌+◌, ◌-◌, ◌≤◌, ◌<◌, ◌≡◌, refl, sym, ◌∙◌, ap, ◌≢◌, inl, inr, ◌++◌, append_assoc, length,
  length-append, drop, take-append, drop-append, arith, le→leb, true,
}
use movie.Remoting.Errors.{Error, Result-cases, ok, err, protocol_validation, malformed_frame}
use movie.Remoting.Text.Utf8.{Bytes}
use movie.Remoting.Text.{Unicode, text_bytes, text_bytes-eq-ok}
use movie.Remoting.Serialization.{max_manifest_bytes}
use movie.Remoting.Wire.Types.{
  FrameType, max_u16, max_u32, max_u64, uuid_mod, common_header_size, user_message_fixed_body_size,
  header_after_length_size, header_version,
}
use movie.Remoting.Wire.Frames.{UserMessage, FrameHeader, body_length}
use movie.Remoting.Wire.Writer.{big_endian}
use movie.Remoting.Wire.Reader
use movie.Remoting.Wire.RoundTrip.Numbers.{length-big_endian}
use movie.Remoting.Wire.RoundTrip.Fields.{bind-uint_bytes}
use movie.Remoting.Wire.Header.{
  encode_common_header, pack_header, validate_correlation, effective_limit,
}
use movie.Remoting.Wire.Header.Laws.{length-pack_header}
use movie.Remoting.Wire.UserMessage.{
  FixedBody, user_message_prefix_size, pack_fixed_body, pack_prefix, unpack_fixed_body,
  encode_user_message_frame, check_fixed_body, decode_user_message_frame,
}

-- The UUIDs of the message have 128 bits.
pub record IsUserMessage (f : UserMessage) : Type 0 where
  pub association : f.association_uid < uuid_mod
  pub sender : f.sender_incarnation_uid < uuid_mod
  pub recipient : f.recipient_incarnation_uid < uuid_mod
  pub actor : f.recipient_actor_uid < uuid_mod

abbrev fixed_body : UserMessage → ℕ → FixedBody
fixed_body f manifest_length = record {
  association = f.association_uid;
  lane_id = f.lane_id;
  lane_sequence = f.lane_sequence;
  sender = f.sender_incarnation_uid;
  recipient = f.recipient_incarnation_uid;
  actor = f.recipient_actor_uid;
  serializer_id = f.serializer_id;
  manifest_length = manifest_length;
  payload_length = length f.payload;
}

pub length-pack_fixed_body : (f : UserMessage) (n : ℕ) → length (pack_fixed_body f n) ≡ 84
unfolding pack_fixed_body
length-pack_fixed_body f n = omega (arith, length-append {0}, length-big_endian)

pack_fixed_body-append :
    (f : UserMessage) (n : ℕ) (rest : Bytes)
    → pack_fixed_body f n ++ rest
      ≡ big_endian 16 f.association_uid
        ++ (big_endian 2 f.lane_id
            ++ (big_endian 8 f.lane_sequence
                ++ (big_endian 16 f.sender_incarnation_uid
                    ++ (big_endian 16 f.recipient_incarnation_uid
                        ++ (big_endian 16 f.recipient_actor_uid
                            ++ (big_endian 4 f.serializer_id
                                ++ (big_endian 2 n
                                    ++ (big_endian 4 (length f.payload) ++ rest))))))))
unfolding pack_fixed_body
pack_fixed_body-append f n rest = simp append_assoc

pub pack_prefix-eq :
    (total : ℕ) (f : UserMessage) (n : ℕ)
    → pack_prefix total f n
      ≡ pack_header (total - 4) FrameType.user_message 0 ++ pack_fixed_body f n
unfolding pack_prefix pack_header
pack_prefix-eq total f n = simp append_assoc

-- What the success of the encoder says.
pub record EncodedMessage ⦃u : Unicode⦄ (f : UserMessage) (maximum : ℕ) (manifest bytes : Bytes)
    : Type 0 where
  pub manifest_valid :
      text_bytes f.manifest max_manifest_bytes protocol_validation true ≡ ok manifest
  pub payload_fits : length f.payload ≤ max_u32
  pub lane_fits : f.lane_id ≤ max_u16
  pub sequence_fits : f.lane_sequence ≤ max_u64
  pub serializer_fits : f.serializer_id ≤ max_u32
  pub zero_correlation : f.correlation_id ≡ 0
  pub total_fits : user_message_prefix_size + length manifest + length f.payload ≤ maximum
  pub limit_fits : maximum ≤ max_u32
  pub limit_valid : common_header_size ≤ maximum
  pub packed :
      bytes
      ≡ pack_prefix
          (user_message_prefix_size + length manifest + length f.payload)
          f
          (length manifest)
        ++ (manifest ++ f.payload)
  pub accepted :
      check_fixed_body
        (fixed_body f (length manifest))
        (user_message_fixed_body_size + length manifest + length f.payload)
      ≡ ok tt

regroup : (a b c d : Bytes) → a ++ (b ++ (c ++ d)) ≡ (a ++ (b ++ c)) ++ d
regroup a b c d = simp append_assoc

-- The pieces of a frame: the header, the fixed fields, the manifest and the payload.
slices :
    (header fixed manifest payload : Bytes)
    → length header ≡ 16
    → length fixed ≡ 84
    → (drop 16 (header ++ (fixed ++ (manifest ++ payload))) ≡ fixed ++ (manifest ++ payload))
      × (drop 100 (header ++ (fixed ++ (manifest ++ payload))) ≡ manifest ++ payload)
      × (drop (100 + length manifest) (header ++ (fixed ++ (manifest ++ payload))) ≡ payload)
slices header fixed manifest payload h k = (
  drop-append 16 header _ h,
  ap (drop 100) (sym (append_assoc header fixed (manifest ++ payload)))
      ∙ drop-append 100 (header ++ fixed) (manifest ++ payload) (omega (arith, length-append {0})),
  ap (drop (100 + length manifest)) (regroup header fixed manifest payload)
      ∙ drop-append (100 + length manifest) (header ++ (fixed ++ manifest)) payload
          (omega (arith, length-append {0})),
)

module _ ⦃u : Unicode⦄ where
  encode-err :
      (f : UserMessage) (maximum : ℕ) (bytes : Bytes) (e : Error)
      → text_bytes f.manifest max_manifest_bytes protocol_validation true ≡ err e
      → encode_user_message_frame f maximum ≢ ok bytes
  unfolding encode_user_message_frame
  encode-err f maximum bytes e h = ground arith

  encode-ok :
      (f : UserMessage) (maximum : ℕ) (manifest bytes : Bytes)
      → text_bytes f.manifest max_manifest_bytes protocol_validation true ≡ ok manifest
      → encode_user_message_frame f maximum ≡ ok bytes
      → EncodedMessage f maximum manifest bytes
  unfolding encode_user_message_frame validate_correlation effective_limit check_fixed_body
  encode-ok f maximum manifest bytes v h =
      let (fits, _, _) =
        text_bytes-eq-ok f.manifest max_manifest_bytes max_manifest_bytes protocol_validation
          protocol_validation true manifest (omega arith) v in
      record {
        manifest_valid = v;
        payload_fits = ground arith;
        lane_fits = ground arith;
        sequence_fits = ground arith;
        serializer_fits = ground arith;
        zero_correlation = ground arith;
        total_fits = ground arith;
        limit_fits = ground arith;
        limit_valid = ground arith;
        packed = ground arith;
        accepted = ground arith;
      }

  pub encode_user_message_frame-eq-ok :
      (f : UserMessage) (maximum : ℕ) (bytes : Bytes)
      → encode_user_message_frame f maximum ≡ ok bytes
      → (manifest : Bytes) × EncodedMessage f maximum manifest bytes
  encode_user_message_frame-eq-ok f maximum bytes h =
      elim (Result-cases (text_bytes f.manifest max_manifest_bytes protocol_validation true)) [
        | inl (manifest, v) ↦ (manifest, encode-ok f maximum manifest bytes v h)
        | inr (e, v) ↦ absurd (encode-err f maximum bytes e v h)
      ]

  unpack-pack_fixed_body :
      (f : UserMessage) (maximum : ℕ) (manifest bytes rest : Bytes)
      → IsUserMessage f
      → EncodedMessage f maximum manifest bytes
      → unpack_fixed_body (pack_fixed_body f (length manifest) ++ rest)
        ≡ ok (fixed_body f (length manifest), rest)
  unfolding unpack_fixed_body
  unpack-pack_fixed_body f maximum manifest bytes rest v e =
      let (fits, _, _) =
        text_bytes-eq-ok f.manifest max_manifest_bytes max_manifest_bytes protocol_validation
          protocol_validation true manifest (omega arith) e.manifest_valid in
      ap unpack_fixed_body (pack_fixed_body-append f (length manifest) rest)
      ∙ bind-uint_bytes 16 f.association_uid _ _ (omega arith)
      ∙ bind-uint_bytes 2 f.lane_id _ _ (omega arith)
      ∙ bind-uint_bytes 8 f.lane_sequence _ _ (omega arith)
      ∙ bind-uint_bytes 16 f.sender_incarnation_uid _ _ (omega arith)
      ∙ bind-uint_bytes 16 f.recipient_incarnation_uid _ _ (omega arith)
      ∙ bind-uint_bytes 16 f.recipient_actor_uid _ _ (omega arith)
      ∙ bind-uint_bytes 4 f.serializer_id _ _ (omega arith)
      ∙ bind-uint_bytes 2 (length manifest) _ _ (omega arith)
      ∙ bind-uint_bytes 4 (length f.payload) _ _ (omega arith)
      ∙ unfold Reader.pure in refl

  abbrev pub message_header : UserMessage → Bytes → FrameHeader
  message_header f manifest = record {
    frame_length =
        header_after_length_size
        + (user_message_fixed_body_size + length manifest + length f.payload);
    frame_type = FrameType.user_message;
    flags = 0;
    header_version = header_version;
    correlation_id = 0;
  }

  decode_slices :
      (f : UserMessage) (maximum : ℕ) (manifest bytes frame : Bytes)
      → EncodedMessage f maximum manifest bytes
      → 84 ≤ length (drop 16 frame)
      → unpack_fixed_body (drop 16 frame)
        ≡ ok (fixed_body f (length manifest), manifest ++ f.payload)
      → drop 100 frame ≡ manifest ++ f.payload
      → drop (100 + length manifest) frame ≡ f.payload
      → decode_user_message_frame frame (message_header f manifest) ≡ ok f
  unfolding decode_user_message_frame
  decode_slices f maximum manifest bytes frame e long unpacked from_manifest from_payload =
      let (_, back, again) =
        text_bytes-eq-ok f.manifest max_manifest_bytes max_manifest_bytes protocol_validation
          malformed_frame true manifest (omega arith) e.manifest_valid in
      let total : body_length (message_header f manifest)
          ≡ user_message_fixed_body_size + length manifest + length f.payload =
        omega arith in
      rw
        (
          le→leb 84 _ long,
          unpacked,
          from_manifest,
          from_payload,
          take-append (length manifest) manifest f.payload refl,
          back,
          total,
          e.accepted,
          again,
        )
        (ap (λ c. ok (record f { correlation_id = c })) (sym e.zero_correlation))

  pub decode-encode_user_message_frame :
      (f : UserMessage) (maximum : ℕ) (manifest bytes : Bytes)
      → IsUserMessage f
      → EncodedMessage f maximum manifest bytes
      → decode_user_message_frame
          (pack_header (message_header f manifest).frame_length FrameType.user_message 0
            ++ (pack_fixed_body f (length manifest) ++ (manifest ++ f.payload)))
          (message_header f manifest)
        ≡ ok f
  decode-encode_user_message_frame f maximum manifest bytes v e =
      let (body, from_manifest, from_payload) =
        slices header fixed manifest f.payload (length-pack_header _ _ _)
          (length-pack_fixed_body f (length manifest)) in
      decode_slices f maximum manifest bytes _ e
        (omega (arith, ap length body, length-append {0}, length-pack_fixed_body))
        (ap unpack_fixed_body body
          ∙ unpack-pack_fixed_body f maximum manifest bytes (manifest ++ f.payload) v e)
        from_manifest from_payload
    where
      header : Bytes
      header = pack_header (message_header f manifest).frame_length FrameType.user_message 0

      fixed : Bytes
      fixed = pack_fixed_body f (length manifest)

  -- The frame begins with the header that the common encoder makes.
  pub packed-pieces :
      (f : UserMessage) (maximum : ℕ) (manifest bytes : Bytes)
      → EncodedMessage f maximum manifest bytes
      → bytes
        ≡ pack_header (message_header f manifest).frame_length FrameType.user_message 0
          ++ (pack_fixed_body f (length manifest) ++ (manifest ++ f.payload))
  packed-pieces f maximum manifest bytes e =
      let total = user_message_prefix_size + length manifest + length f.payload in
      let behind : total - 4 ≡ (message_header f manifest).frame_length = omega arith in
      e.packed
      ∙ ap (λ x. x ++ (manifest ++ f.payload)) (pack_prefix-eq total f (length manifest))
      ∙ append_assoc (pack_header (total - 4) FrameType.user_message 0) _ _
      ∙ ap
          (λ n.
            pack_header n FrameType.user_message 0
            ++ (pack_fixed_body f (length manifest) ++ (manifest ++ f.payload)))
          behind

  pub header-encoded :
      (f : UserMessage) (maximum : ℕ) (manifest bytes : Bytes)
      → EncodedMessage f maximum manifest bytes
      → encode_common_header FrameType.user_message
          (user_message_fixed_body_size + length manifest + length f.payload)
          0
          maximum
        ≡ ok (pack_header (message_header f manifest).frame_length FrameType.user_message 0)
  unfolding encode_common_header
  header-encoded f maximum manifest bytes e = ground arith
