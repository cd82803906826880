-- ===== src/Remoting/Wire/RoundTrip/Numbers.antt =====
-- Big-endian numbers: `struct.unpack` after `struct.pack`.
use mathlib.Core.List.{foldl-append}
use native.Mathlib.Nat.{div-lt_iff_lt-mul, pow-suc}
use movie.Common.{
  ℕ, zero, suc, ◌/◌, ◌%◌, ◌^◌, ◌<◌, ◌≡◌, refl, ◌∷◌, [], length, length-append, arith,
}
use movie.Remoting.Wire.Writer.{big_endian}
use movie.Remoting.Wire.Reader.{from_big_endian}

pub length-big_endian : (n v : ℕ) → length (big_endian n v) ≡ n
unfolding big_endian
length-big_endian zero v = refl
length-big_endian (suc n) v =
    omega (
      arith,
      length-append (big_endian n (v / 256)) ((v % 256) ∷ []),
      length-big_endian n (v / 256),
    )

pub from-big_endian : (n v : ℕ) → v < 256 ^ n → from_big_endian (big_endian n v) ≡ v
unfolding big_endian from_big_endian
from-big_endian zero v h = omega arith
from-big_endian (suc n) v h = rw foldl-append (
    omega
      (arith, from-big_endian n (v / 256) ((div-lt_iff_lt-mul (omega arith)).1 (rw pow-suc at h))))
