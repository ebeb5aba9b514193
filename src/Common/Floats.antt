-- ===== src/Common/Floats.antt =====
-- A C++ float as its IEEE-754 single bit pattern, a number below 2^32: what the code tests of a
-- float without arithmetic is read off the pattern, and its arithmetic is the record FloatOps.
use Prim.Native.Nat.{ℕ, ◌+◌, ◌/◌, ◌%◌}
use mathlib.Core.Bool.{Bool, not, ◌&&◌}
use augusta.Common.Tests.{ltb, leb, ◌==◌}

pub record Vec3 : Type 0 where
  pub x : ℕ
  pub y : ℕ
  pub z : ℕ

-- Vec3{}.
abbrev pub zero_vec : Vec3
zero_vec = record { x = 0; y = 0; z = 0 }

-- std::isfinite: the exponent's 8 bits are not all set.
unfoldable pub is_finite_float : ℕ → Bool
is_finite_float bits = not ((bits / 8388608) % 256 == 255)

-- std::fabs: the sign bit cleared.
abbrev pub fabs : ℕ → ℕ
fabs bits = bits % 2147483648

-- a > limit for patterns with no sign bit: the order of the patterns, and never for a NaN, whose
-- pattern is above infinity's.
unfoldable pub float_gt : ℕ → ℕ → Bool
float_gt a limit = ltb limit a && leb a 2139095040

-- What the machine and glm compute: the operators of float, std::sqrt, std::nearbyint, the casts to
-- and from a 32-bit integer in two's complement, and glm::length.
pub record FloatOps : Type 0 where
  pub add : ℕ → ℕ → ℕ
  pub sub : ℕ → ℕ → ℕ
  pub mul : ℕ → ℕ → ℕ
  pub div : ℕ → ℕ → ℕ
  pub sqrt : ℕ → ℕ
  pub nearbyint : ℕ → ℕ
  pub lt : ℕ → ℕ → Bool
  pub le : ℕ → ℕ → Bool
  pub eq : ℕ → ℕ → Bool
  pub to_int : ℕ → ℕ
  pub of_int : ℕ → ℕ
  pub vec_length : Vec3 → ℕ

-- std::isnan: the pattern without its sign is above infinity's.
abbrev pub is_nan : ℕ → Bool
is_nan bits = ltb 2139095040 (fabs bits)

-- Unary minus: the sign bit flipped.
abbrev pub neg : ℕ → ℕ
neg bits = (bits + 2147483648) % 4294967296
