-- ===== src/Weapon.antt =====
-- src/modules/gameplay/weapon.cpp and its header: the rifle, and what one tick of a command does to
-- it. A float is its bit pattern, what the machine computes on floats is the parameter `ops`, and
-- the rounds and the Burst index are bytes.
pub mod Rounds
pub mod Examples
use augusta.Common.{
  ℕ, ◌+◌, ◌-◌, ◌%◌, min, Bool, false, not, ◌&&◌, ◌||◌, Option, none, some, List, is_empty, length,
  get_elem?, ltb, if◌then◌else◌, FloatOps, neg,
}
use augusta.Command.{Command}
use augusta.Grid.{snap_angle}

pub record RecoilKick : Type 0 where
  pub pitch : ℕ
  pub yaw : ℕ

pub record RecoilOffset : Type 0 where
  pub pitch : ℕ
  pub yaw : ℕ

pub record Rifle : Type 0 where
  pub rounds_per_minute : ℕ
  pub muzzle_velocity : ℕ
  pub reload_seconds : ℕ
  pub recoil_recovery_per_second : ℕ
  pub ads_recoil_scale : ℕ
  pub ads_field_of_view : ℕ
  pub zero_range : ℕ
  pub recoil_pattern : List RecoilKick
  pub magazine_capacity : ℕ

pub record State : Type 0 where
  pub cooldown : ℕ
  pub reload_remaining : ℕ
  pub recoil : RecoilOffset
  pub rounds : ℕ
  pub burst_index : ℕ

pub record Result : Type 0 where
  pub state : State
  pub yaw : ℕ
  pub pitch : ℕ
  pub fired : Bool

-- RecoilOffset{}.
abbrev pub no_recoil : RecoilOffset
no_recoil = record { pitch = 0; yaw = 0 }

unfoldable pub loaded : Rifle → State
loaded rifle = record {
  cooldown = 0;
  reload_remaining = 0;
  recoil = no_recoil;
  rounds = rifle.magazine_capacity;
  burst_index = 0;
}

-- The bit patterns of 60.0F, 1e-4F and 1.0F.
abbrev pub seconds_per_minute : ℕ
seconds_per_minute = 0x42700000

abbrev pub ready_within : ℕ
ready_within = 0x38D1B717

abbrev pub one_float : ℕ
one_float = 0x3F800000

-- The kick that Kicked reads off a pattern that is not empty.
unfoldable pub kick_of : Rifle → State → Option RecoilKick
kick_of rifle state =
    get_elem? rifle.recoil_pattern (min state.burst_index (length rifle.recoil_pattern - 1))

module _ (ops : FloatOps) where
  -- A std::size_t index past the pattern is undefined in C++; here it leaves the offset alone.
  unfoldable pub kicked : Rifle → State → Bool → RecoilOffset
  unfolding kick_of
  kicked rifle state ads =
      let scale = if ads then rifle.ads_recoil_scale else one_float in
      let recoil = state.recoil in
      if is_empty rifle.recoil_pattern then recoil else elim (kick_of rifle state) [
        | none ↦ recoil
        | some kick ↦ record {
          pitch = snap_angle ops (ops.add recoil.pitch (ops.mul kick.pitch scale));
          yaw = snap_angle ops (ops.add recoil.yaw (ops.mul kick.yaw scale));
        }
      ]

  unfoldable pub recovered : RecoilOffset → ℕ → RecoilOffset
  recovered recoil angle =
      let size =
        ops.sqrt (ops.add (ops.mul recoil.pitch recoil.pitch) (ops.mul recoil.yaw recoil.yaw)) in
      let kept = ops.div (ops.sub size angle) size in
      if ops.le size angle then no_recoil else record {
        pitch = snap_angle ops (ops.mul recoil.pitch kept);
        yaw = snap_angle ops (ops.mul recoil.yaw kept);
      }

  unfoldable pub starts_reload : Rifle → State → Command → Bool
  starts_reload rifle state command =
      command.reload && ops.le state.reload_remaining 0 && ltb state.rounds rifle.magazine_capacity

  unfoldable pub reloading : Rifle → State → Command → Bool
  unfolding starts_reload
  reloading rifle state command =
      starts_reload rifle state command || ops.lt 0 state.reload_remaining

  unfoldable pub trigger : Rifle → State → Command → Bool
  unfolding reloading
  trigger rifle state command =
      command.fire && ltb 0 state.rounds && not (reloading rifle state command)

  -- Whether the tick fires a round.
  unfoldable pub fires : Rifle → State → Command → Bool
  unfolding trigger
  fires rifle state command = trigger rifle state command && ops.le state.cooldown ready_within

  -- What a fired round leaves: `--rounds` and `++burst_index` on bytes.
  unfoldable pub fire_round : Rifle → State → Bool → State → State
  unfolding kicked
  fire_round rifle state ads next = record next {
    rounds = (next.rounds + 255) % 256;
    cooldown = ops.add next.cooldown (ops.div seconds_per_minute rifle.rounds_per_minute);
    recoil = kicked rifle state ads;
    burst_index = (next.burst_index + 1) % 256;
  }

  -- What a tick without the trigger leaves.
  unfoldable pub rest : Rifle → State → ℕ → State → State
  unfolding recovered
  rest rifle state delta_time next = record next {
    burst_index = 0;
    recoil = recovered state.recoil (ops.mul rifle.recoil_recovery_per_second delta_time);
  }

  -- std::max(a, b): a < b ? b : a.
  abbrev fmax : ℕ → ℕ → ℕ
  fmax a b = if ops.lt a b then b else a

  unfoldable pub cool : Bool → ℕ → State → State
  cool pulled delta_time next = record next {
    cooldown = fmax (ops.sub next.cooldown delta_time) (if pulled then neg delta_time else 0);
  }

  -- A tick of the reload under way.
  unfoldable pub reload_tick : Rifle → ℕ → State → State
  reload_tick rifle delta_time next =
      let remaining = ops.sub next.reload_remaining delta_time in
      if ops.le remaining ready_within
      then record next { reload_remaining = 0; rounds = rifle.magazine_capacity }
      else record next { reload_remaining = remaining }

  unfoldable pub step : Rifle → State → Command → ℕ → Result
  unfolding starts_reload reloading trigger fires fire_round rest cool reload_tick
  step rifle state command delta_time =
      let pulled = trigger rifle state command in
      let fired = fires rifle state command in
      let started =
        if starts_reload rifle state command
        then record state { reload_remaining = rifle.reload_seconds }
        else state in
      let shot = if fired then fire_round rifle state command.ads started else started in
      let rested = if pulled then shot else rest rifle state delta_time shot in
      let cooled = cool pulled delta_time rested in
      record {
        state =
            if reloading rifle state command then reload_tick rifle delta_time cooled else cooled;
        yaw = if fired then ops.add command.yaw state.recoil.yaw else 0;
        pitch = if fired then ops.add command.pitch state.recoil.pitch else 0;
        fired = fired;
      }
