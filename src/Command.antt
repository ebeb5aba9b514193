-- ===== src/Command.antt =====
-- One tick of a player's intent: src/modules/gameplay/include/augusta/command.h, with the movement
-- input of the physics module that it carries. A float is its bit pattern.
use augusta.Common.{ℕ, ◌+◌, ◌*◌, ◌/◌, Bool, false, Vec3, zero_vec}

pub data Stance : Type 0 where
  standing crouching prone : Stance

pub record MovementInput : Type 0 where
  pub direction : Vec3
  pub sprint : Bool
  pub desired_stance : Stance

pub record Command : Type 0 where
  pub movement : MovementInput
  pub yaw : ℕ
  pub pitch : ℕ
  pub ads : Bool
  pub fire : Bool
  pub reload : Bool
  pub seen_tick : ℕ
  pub seen_fraction : ℕ

-- Command{}, as TickCommand's default.
abbrev pub idle_command : Command
idle_command = record {
  movement = record { direction = zero_vec; sprint = false; desired_stance = standing };
  yaw = 0;
  pitch = 0;
  ads = false;
  fire = false;
  reload = false;
  seen_tick = 0;
  seen_fraction = 0;
}

-- HeldTicks: kMaxHeldTime, 100 ms, in ticks at the rate, rounded up.
unfoldable pub held_ticks_at : ℕ → ℕ
held_ticks_at tick_rate_hz = (100 * tick_rate_hz + 999) / 1000
