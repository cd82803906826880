-- ===== src/Remoting/Wire/Preamble.antt =====
-- The stream preamble of movie/remoting/wire.py: `_validate_preamble`, `encode_preamble` and
-- `decode_preamble`.
pub mod Laws
use movie.Common.{
  ℕ, not, ◌&&◌, Bool, true, false, List, [], ◌∷◌, ◌++◌, Option, none, some, leb, ltb, eqb, length,
  take, drop, ◌==◌, nat_eq, list_eq,
}
use movie.Remoting.Errors.{
  Error, Result, ok, err, ◌>>=◌, ◌>>◌, require, protocol_validation, invalid_preamble,
}
use movie.Remoting.Text.Utf8.{Bytes}
use movie.Remoting.Wire.Types.{
  StreamKind, control, delivery_lane, multiplexed, kind_beq, stream_kind_code, stream_kind_of,
  magic, preamble_size, control_lane_id, max_u16,
}
use movie.Remoting.Wire.Frames.{StreamPreamble}
use movie.Remoting.Wire.Writer.{big_endian, uint, uuid_of}
use movie.Remoting.Wire.Reader.{from_big_endian}

-- The rule on the lane ID: 0xffff exactly on the streams that are no delivery lane.
abbrev pub lane_fits : StreamKind → ℕ → Bool
lane_fits control lane_id = eqb lane_id control_lane_id
lane_fits multiplexed lane_id = eqb lane_id control_lane_id
lane_fits delivery_lane lane_id = not (eqb lane_id control_lane_id)

-- `if lane_count is not None: ...`
abbrev check_lane_count : StreamKind → ℕ → Option ℕ → Error → Result (Unit {0})
check_lane_count kind lane_id none e = ok tt
check_lane_count kind lane_id (some lane_count) e = do
  _ ← uint lane_count max_u16 e
  require (not (kind_beq kind delivery_lane && leb lane_count lane_id)) e

abbrev check_association : ℕ → Option ℕ → Error → Result (Unit {0})
check_association uid none e = ok tt
check_association uid (some expected) e = require (eqb uid expected) e

abbrev check_kind : StreamKind → Option StreamKind → Error → Result (Unit {0})
check_kind kind none e = ok tt
check_kind kind (some expected) e = require (kind_beq kind expected) e

unfoldable pub validate_preamble :
    StreamPreamble → Error → Option ℕ → Option ℕ → Option StreamKind → Result (Unit {0})
validate_preamble preamble e lane_count expected_association_uid expected_kind = do
  uid ← uuid_of preamble.association_uid e
  lane_id ← uint preamble.lane_id max_u16 e
  require (lane_fits preamble.stream_kind lane_id) e
  check_lane_count preamble.stream_kind lane_id lane_count e
  check_association uid expected_association_uid e
  check_kind preamble.stream_kind expected_kind e

unfoldable pub encode_preamble : StreamPreamble → Option ℕ → Result Bytes
unfolding validate_preamble
encode_preamble preamble lane_count = do
  validate_preamble preamble protocol_validation lane_count none none
  ok (
      magic
      ++ (big_endian 1 (stream_kind_code preamble.stream_kind)
          ++ (big_endian 16 preamble.association_uid ++ big_endian 2 preamble.lane_id)))

abbrev or_invalid {ℓ} : {A : Type ℓ} → Option A → Result A
or_invalid none = err invalid_preamble
or_invalid (some a) = ok a

unfoldable pub decode_preamble :
    Bytes → Option ℕ → Option ℕ → Option StreamKind → Result StreamPreamble
unfolding validate_preamble
decode_preamble bytes lane_count expected_association_uid expected_kind = do
  require (eqb (length bytes) preamble_size) invalid_preamble
  require (take 4 bytes == magic) invalid_preamble
  kind ← or_invalid (stream_kind_of (from_big_endian (take 1 (drop 4 bytes))))
  let preamble : StreamPreamble = record {
    stream_kind = kind;
    association_uid = from_big_endian (take 16 (drop 5 bytes));
    lane_id = from_big_endian (take 2 (drop 21 bytes));
  }
  validate_preamble preamble invalid_preamble lane_count expected_association_uid expected_kind
  ok preamble
