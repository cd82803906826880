-- ===== src/Remoting/Wire/Preamble/Laws.antt =====
-- The preamble is read back by the peer that expects this association and kind of stream.
use movie.Common.{
  ℕ, ◌≤◌, ◌<◌, ◌≡◌, refl, sym, ◌∙◌, ap, ◌++◌, append_assoc, length, length-append, take, drop,
  take-append, drop-append, Option, none, some, arith, [], append-nil, ◌==◌, ==_refl, subst,
  list_eq, nat_eq,
}
use movie.Remoting.Errors.{ok, ok-injective, >>=-eq-ok, protocol_validation, invalid_preamble}
use movie.Remoting.Text.Utf8.{Bytes}
use movie.Remoting.Wire.Types.{
  StreamKind, stream_kind_code, stream_kind_of, magic, max_u16, uuid_mod,
}
use movie.Remoting.Wire.Frames.{StreamPreamble}
use movie.Remoting.Wire.Writer.{big_endian}
use movie.Remoting.Wire.Reader.{from_big_endian}
use movie.Remoting.Wire.RoundTrip.Numbers.{length-big_endian, from-big_endian}
use movie.Remoting.Wire.Preamble.{validate_preamble, encode_preamble, decode_preamble}

stream_kind_of_code : (k : StreamKind) → stream_kind_of (stream_kind_code k) ≡ some k
stream_kind_of_code StreamKind.control = refl
stream_kind_of_code _ = refl

kind_code-lt : (k : StreamKind) → stream_kind_code k < 256
kind_code-lt StreamKind.control = omega arith
kind_code-lt _ = omega arith

-- What a valid preamble says, with its own association and kind as those expected.
validate_preamble-eq-ok :
    (p : StreamPreamble) (lane_count : Option ℕ)
    → validate_preamble p protocol_validation lane_count none none ≡ ok tt
    → (p.lane_id ≤ max_u16)
      × (validate_preamble p invalid_preamble lane_count
            (some p.association_uid)
            (some p.stream_kind)
          ≡ ok tt)
unfolding validate_preamble
validate_preamble-eq-ok p lane_count h = ground arith

abbrev packed : StreamPreamble → Bytes
packed p =
    magic
    ++ (big_endian 1 (stream_kind_code p.stream_kind)
        ++ (big_endian 16 p.association_uid ++ big_endian 2 p.lane_id))

-- The slices of the 23 bytes.
slices :
    (kind uid lane : Bytes)
    → length kind ≡ 1
    → length uid ≡ 16
    → length lane ≡ 2
    → (take 4 (magic ++ (kind ++ (uid ++ lane))) ≡ magic)
      × (take 1 (drop 4 (magic ++ (kind ++ (uid ++ lane)))) ≡ kind)
      × (take 16 (drop 5 (magic ++ (kind ++ (uid ++ lane)))) ≡ uid)
      × (take 2 (drop 21 (magic ++ (kind ++ (uid ++ lane)))) ≡ lane)
      × (length (magic ++ (kind ++ (uid ++ lane))) ≡ 23)
slices kind uid lane k u l = (
  take-append 4 magic (kind ++ (uid ++ lane)) refl,
  take-append 1 kind (uid ++ lane) k,
  ap (take 16) (drop-append 1 kind (uid ++ lane) k) ∙ take-append 16 uid lane u,
  ap (λ (x : Bytes). take 2 (drop 17 x)) (sym (append_assoc kind uid lane))
      ∙ ap (take 2) (drop-append 17 (kind ++ uid) lane (omega (arith, length-append kind uid)))
      ∙ ap (take 2) (sym (append-nil lane))
      ∙ take-append 2 lane [] l,
  omega (arith, length-append {0}),
)

-- What the success of the encoder says.
encode_preamble-eq-ok :
    (p : StreamPreamble) (lane_count : Option ℕ) (bytes : Bytes)
    → encode_preamble p lane_count ≡ ok bytes
    → (validate_preamble p protocol_validation lane_count none none ≡ ok tt) × (packed p ≡ bytes)
unfolding encode_preamble
encode_preamble-eq-ok p lane_count bytes h =
    let (u, v, w) = >>=-eq-ok (validate_preamble p protocol_validation lane_count none none) _ h in
    (v, ok-injective w)

-- The decoder succeeds on bytes whose slices are those of a valid preamble.
decode_preamble-slices :
    (bytes : Bytes) (p : StreamPreamble) (lane_count : Option ℕ)
    → length bytes ≡ 23
    → take 4 bytes ≡ magic
    → from_big_endian (take 1 (drop 4 bytes)) ≡ stream_kind_code p.stream_kind
    → from_big_endian (take 16 (drop 5 bytes)) ≡ p.association_uid
    → from_big_endian (take 2 (drop 21 bytes)) ≡ p.lane_id
    → validate_preamble p invalid_preamble lane_count (some p.association_uid) (some p.stream_kind)
      ≡ ok tt
    → decode_preamble bytes lane_count (some p.association_uid) (some p.stream_kind) ≡ ok p
unfolding decode_preamble
decode_preamble-slices bytes p lane_count l m k u i valid = ground (
  arith,
  l,
  ap (λ x. x == magic) m,
  ==_refl magic,
  ap stream_kind_of k,
  stream_kind_of_code p.stream_kind,
  u,
  i,
  valid,
)

-- Any preamble that the encoder accepts, its UUID being one of 128 bits, is read back by the
-- decoder that has the same number of lanes and expects its association and its kind of stream.
pub decode-encode_preamble :
    (p : StreamPreamble) (lane_count : Option ℕ) (bytes : Bytes)
    → p.association_uid < uuid_mod
    → encode_preamble p lane_count ≡ ok bytes
    → decode_preamble bytes lane_count (some p.association_uid) (some p.stream_kind) ≡ ok p
decode-encode_preamble p lane_count bytes h e =
    let (v, w) = encode_preamble-eq-ok p lane_count bytes e in
    let (n, valid) = validate_preamble-eq-ok p lane_count v in
    let (a, b, c, d, l) =
      slices (big_endian 1 (stream_kind_code p.stream_kind)) (big_endian 16 p.association_uid)
        (big_endian 2 p.lane_id) (length-big_endian 1 _) (length-big_endian 16 _)
        (length-big_endian 2 _) in
    subst (λ x. decode_preamble x lane_count (some p.association_uid) (some p.stream_kind) ≡ ok p) w
      (decode_preamble-slices (packed p) p lane_count l a
        (ap from_big_endian b ∙ from-big_endian 1 _ (kind_code-lt p.stream_kind))
        (ap from_big_endian c ∙ from-big_endian 16 _ (omega arith))
        (ap from_big_endian d ∙ from-big_endian 2 _ (omega arith)) valid)
