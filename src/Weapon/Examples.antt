-- ===== src/Weapon/Examples.antt =====
-- A rifle of three rounds on whole numbers in place of floats, and each theorem about rifles at it.
use augusta.Common.{
  ℕ, suc, ◌+◌, ◌-◌, ◌*◌, ◌/◌, ◌≤◌, ◌≡◌, ◌⊎◌, refl, true, false, List, [], ◌∷◌, ltb, leb, ◌==◌,
  arith, FloatOps, Vec3,
}
use augusta.Command.{Command, idle_command}
use augusta.Weapon.{
  Rifle, loaded, step, starts_reload, reloading, trigger, fires, fire_round, rest, cool,
  reload_tick,
}
use augusta.Weapon.Rounds.{Inv, run, loaded-Inv, step_rounds, shots_le}

abbrev pub x_of : Vec3 → ℕ
x_of v = v.x

abbrev pub toy_ops : FloatOps
toy_ops = record {
  add = ◌+◌;
  sub = ◌-◌;
  mul = ◌*◌;
  div = ◌/◌;
  sqrt = λ v. v;
  nearbyint = λ v. v;
  lt = ltb;
  le = leb;
  eq = ◌==◌;
  to_int = λ v. v;
  of_int = λ v. v;
  vec_length = x_of;
}

abbrev pub toy_rifle : Rifle
toy_rifle = record {
  rounds_per_minute = 1;
  muzzle_velocity = 1;
  reload_seconds = 1000000000;
  recoil_recovery_per_second = 1;
  ads_recoil_scale = 1;
  ads_field_of_view = 1;
  zero_range = 1;
  recoil_pattern = [];
  magazine_capacity = 3;
}

-- A tick longer than the wait between two rounds.
abbrev pub toy_tick : ℕ
toy_tick = 3000000000

abbrev pub holding_fire : Command
holding_fire = record idle_command { fire = true }

abbrev pub pressing_reload : Command
pressing_reload = record idle_command { reload = true }

abbrev trigger_held : List Command
trigger_held =
    holding_fire ∷ holding_fire ∷ holding_fire ∷ holding_fire ∷ pressing_reload ∷ holding_fire ∷ []

-- Three rounds of the first magazine, and one after the reload.
trigger_held_shots : (run toy_ops toy_rifle toy_tick trigger_held (loaded toy_rifle)).1 ≡ 4
unfolding run step starts_reload reloading trigger fires fire_round rest cool reload_tick loaded
trigger_held_shots = refl

step_rounds_example :
    let r = step toy_ops toy_rifle (loaded toy_rifle) holding_fire toy_tick in
    Inv toy_rifle r.state
    × (r.fired ≡ true → (suc r.state.rounds ≡ 3) × (r.state.burst_index ≡ 1))
    × (r.fired ≡ false → (r.state.rounds ≡ 3) ⊎ (r.state.rounds ≡ 3))
unfolding loaded
step_rounds_example =
    step_rounds toy_ops toy_rifle toy_tick (loaded toy_rifle) holding_fire
      (loaded-Inv toy_rifle (omega arith))

shots_le_example : (run toy_ops toy_rifle toy_tick trigger_held (loaded toy_rifle)).1 ≤ 6
shots_le_example = shots_le toy_ops toy_rifle toy_tick trigger_held refl (omega arith)
