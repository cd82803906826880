-- ===== src/Remoting/Wire/Header/Laws.antt =====
-- The header is read back as it was packed, and the limits hold on both sides.
use movie.Common.{
  ℕ, ◌+◌, ◌≤◌, ◌<◌, ◌≡◌, refl, ◌∙◌, ap, ◌++◌, append_assoc, length, length-append, arith, eqb,
}
use movie.Remoting.Errors.{ok}
use movie.Remoting.Text.Utf8.{Bytes}
use movie.Remoting.Wire.Types.{
  FrameType, frame_type_code, frame_type_of_code, max_u32, max_u64, common_header_size,
  header_after_length_size, header_version,
}
use movie.Remoting.Wire.Frames.{FrameHeader, total_length}
use movie.Remoting.Wire.Writer.{big_endian}
use movie.Remoting.Wire.Reader
use movie.Remoting.Wire.Reader.{Reader, uint_bytes}
use movie.Remoting.Wire.RoundTrip.Numbers.{length-big_endian}
use movie.Remoting.Wire.RoundTrip.Fields.{bind-uint_bytes}
use movie.Remoting.Wire.Header.{
  HeaderFields, pack_header, unpack_header, encode_common_header, decode_common_header,
  check_header, is_zero_correlation, frame_limit,
}

pub length-pack_header : (n : ℕ) (t : FrameType) (c : ℕ) → length (pack_header n t c) ≡ 16
unfolding pack_header
length-pack_header n t c = omega (arith, length-append {0}, length-big_endian)

pack_header-append :
    (n : ℕ) (t : FrameType) (c : ℕ) (rest : Bytes)
    → pack_header n t c ++ rest
      ≡ big_endian 4 n
        ++ (big_endian 1 (frame_type_code t)
            ++ (big_endian 1 0 ++ (big_endian 2 header_version ++ (big_endian 8 c ++ rest))))
unfolding pack_header
pack_header-append n t c rest = simp append_assoc

frame_type_code-lt : (t : FrameType) → frame_type_code t < 256
frame_type_code-lt FrameType.hello = omega arith
frame_type_code-lt _ = omega arith

abbrev pub packed_fields : ℕ → FrameType → ℕ → HeaderFields
packed_fields n t c = record {
  frame_length = n;
  frame_type_value = frame_type_code t;
  flags = 0;
  version = header_version;
  correlation_id = c;
}

pub unpack-pack_header :
    (n : ℕ) (t : FrameType) (c : ℕ) (rest : Bytes)
    → n ≤ max_u32
    → c ≤ max_u64
    → unpack_header (pack_header n t c ++ rest) ≡ ok (packed_fields n t c, rest)
unfolding unpack_header
unpack-pack_header n t c rest hn hc =
    ap unpack_header (pack_header-append n t c rest)
    ∙ bind-uint_bytes 4 n _ _ (omega arith)
    ∙ bind-uint_bytes 1 (frame_type_code t) _ _ (frame_type_code-lt t)
    ∙ bind-uint_bytes 1 0 _ _ (omega arith)
    ∙ bind-uint_bytes 2 header_version _ _ (omega arith)
    ∙ bind-uint_bytes 8 c _ _ (omega arith)
    ∙ unfold Reader.pure in refl

-- What the success of the encoder says.
pub record Encoded (t : FrameType) (n c maximum : ℕ) (bytes : Bytes) : Type 0 where
  pub packed : bytes ≡ pack_header (header_after_length_size + n) t c
  pub fits_length : header_after_length_size + n ≤ max_u32
  pub fits_id : c ≤ max_u64
  pub within_limit : common_header_size + n ≤ frame_limit t maximum
  pub checked :
      check_header (packed_fields (header_after_length_size + n) t c) maximum
      ≡ ok (record {
        frame_length = header_after_length_size + n;
        frame_type = t;
        flags = 0;
        header_version = header_version;
        correlation_id = c;
      })

pub encode_common_header-eq-ok :
    (t : FrameType) (n c maximum : ℕ) (bytes : Bytes)
    → encode_common_header t n c maximum ≡ ok bytes
    → Encoded t n c maximum bytes
unfolding encode_common_header check_header
encode_common_header-eq-ok t n c maximum bytes h = record {
  packed = ground arith;
  fits_length = ground arith;
  fits_id = ground arith;
  within_limit = ground arith;
  checked = ground (arith, frame_type_of_code t);
}

-- A header that is encoded without an error is decoded under the same limit, whatever bytes follow
-- it, to the length, the type and the correlation ID it was made of.
pub decode-encode_common_header :
    (t : FrameType) (n c maximum : ℕ) (bytes rest : Bytes)
    → encode_common_header t n c maximum ≡ ok bytes
    → decode_common_header (bytes ++ rest) maximum
      ≡ ok (record {
        frame_length = header_after_length_size + n;
        frame_type = t;
        flags = 0;
        header_version = header_version;
        correlation_id = c;
      })
unfolding decode_common_header
decode-encode_common_header t n c maximum bytes rest h =
    let e = encode_common_header-eq-ok t n c maximum bytes h in
    ground (
      arith,
      e.packed,
      e.checked,
      length-append bytes rest,
      length-pack_header (header_after_length_size + n) t c,
      unpack-pack_header (header_after_length_size + n) t c rest e.fits_length e.fits_id,
    )

-- Every header that the decoder accepts fits the limit of its frame type, has no flags and this
-- version, and has a zero correlation ID exactly where its type demands one.
pub decode_common_header-bounds :
    (data' : Bytes) (maximum : ℕ) (h : FrameHeader)
    → decode_common_header data' maximum ≡ ok h
    → (common_header_size ≤ total_length h)
      × (total_length h ≤ frame_limit h.frame_type maximum)
      × (h.flags ≡ 0)
      × (h.header_version ≡ header_version)
      × (is_zero_correlation h.frame_type ≡ eqb h.correlation_id 0)
unfolding decode_common_header check_header
decode_common_header-bounds data' maximum h p = ground arith
