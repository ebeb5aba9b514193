-- ===== src/Grid.antt =====
-- src/modules/math/include/augusta/grid.h: a float as a whole count of a grid's step. A float is its
-- bit pattern, and so is a count, in two's complement.
use augusta.Common.{ℕ, if◌then◌else◌, FloatOps, is_nan}

pub record Grid : Type 0 where
  pub step : ℕ
  pub min_steps : ℕ
  pub max_steps : ℕ

-- kAngleGrid: 2^-21, from -2^23 to 2^23 - 1.
abbrev pub angle_grid : Grid
angle_grid = record { step = 0x35000000; min_steps = 0xFF800000; max_steps = 0x7FFFFF }

module _ (ops : FloatOps) where
  -- std::clamp.
  abbrev pub clamp : ℕ → ℕ → ℕ → ℕ
  clamp v low high = if ops.lt v low then low else if ops.lt high v then high else v

  unfoldable pub to_steps : ℕ → Grid → ℕ
  to_steps v grid =
      let steps = ops.nearbyint (ops.div v grid.step) in
      if is_nan v
      then 0
      else ops.to_int (clamp steps (ops.of_int grid.min_steps) (ops.of_int grid.max_steps))

  unfoldable pub from_steps : ℕ → Grid → ℕ
  from_steps steps grid = ops.mul (ops.of_int steps) grid.step

  unfoldable pub snap_angle : ℕ → ℕ
  unfolding to_steps from_steps
  snap_angle v = from_steps (to_steps v angle_grid) angle_grid
