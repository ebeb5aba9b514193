-- ===== src/Prediction/Examples.antt =====
-- A client on a line, with whole numbers in place of floats, and each theorem about the prediction
-- at it.
use augusta.Common.{ℕ, ◌+◌, ◌≡◌, refl, inl, inr, none, some, List, [], ◌∷◌, arith, zero_vec}
use augusta.Command.{Command}
use augusta.Physics.{BodyState, FallState, Physics, Laws}
use augusta.Weapon.{loaded}
use augusta.Weapon.Examples.{toy_ops, toy_rifle, toy_tick, holding_fire}
use augusta.Prediction.{
  Predicted, Entry, Acknowledgement, Impl, State, start, acknowledge, on_reconciliation,
  body_needs_correction, same_rifle, same_stance, stride_distance,
}
use augusta.Prediction.History.{Inv, predicted_at, newer_than, acknowledge_lem}
use augusta.Prediction.Server.{carry, mark, At, told}
use augusta.Prediction.Reconciled.{
  Ticked, run, next_after, run_history-Inv, reconciliation_repeat, reconciliation_carries,
}
use augusta.Prediction.Following.{server_of, run_of, client_follows_server}

-- A tick moves the body by one and adds one to its fall.
abbrev moved_by_one : BodyState → BodyState
moved_by_one b = record b { position = record b.position { x = b.position.x + 1 } }

abbrev falling_on : FallState → FallState
falling_on f = record { vertical_speed = f.vertical_speed + 1 }

abbrev toy_physics : Physics
toy_physics = record {
  World = BodyState × FallState;
  StaminaConfig = ℕ;
  Pacing = ℕ;
  pacing_of = λ b yaw. 0;
  set_stamina_config = λ w c. w;
  set_state = λ w b. (b, record { vertical_speed = 0 });
  step = λ w i t p. ((moved_by_one w.0, falling_on w.1), moved_by_one w.0);
  fall = λ w. w.1;
  restore = λ w b f. ((b, f), b);
}

abbrev toy_laws : Laws toy_physics
toy_laws = record {
  Rules = ℕ;
  rules = λ w. 0;
  held = λ w. w.0;
  snap = λ b. b;
  advance = λ r b f i t p. (moved_by_one b, falling_on f);
  advance_snapped = λ r b f i t p. refl;
  step_body = λ w i t p. refl;
  step_fall = λ w i t p. refl;
  step_held = λ w i t p. refl;
  step_rules = λ w i t p. refl;
  restore_body = λ w b f. refl;
  restore_held = λ w b f. refl;
  restore_fall = λ w b f. refl;
  restore_rules = λ w b f. refl;
  set_state_held = λ w b. refl;
}

abbrev fresh_body : BodyState
fresh_body = record {
  position = zero_vec;
  velocity = zero_vec;
  stance = holding_fire.movement.desired_stance;
  stamina = 0;
  exhausted = holding_fire.reload;
  stride = 0;
  previous_stance = holding_fire.movement.desired_stance;
  stance_progress = 255;
  grounded = holding_fire.reload;
}

abbrev still : FallState
still = record { vertical_speed = 0 }

abbrev fresh_state : State
unfolding loaded
fresh_state = record {
  local_body = fresh_body;
  total_correction = zero_vec;
  rifle = loaded toy_rifle;
  rifle_corrections = 0;
  total_rounds_fired = 0;
  rounds_fired = 0;
}

abbrev predicted_at_start : Predicted
predicted_at_start = record { body = fresh_body; fall = still; rifle = loaded toy_rifle }

-- A World that has sent commands 4 and 5.
abbrev sent_two : List Entry
sent_two =
    record { sequence = 4; command = holding_fire; predicted = predicted_at_start }
    ∷ record { sequence = 5; command = holding_fire; predicted = predicted_at_start }
    ∷ []

abbrev client_playing : Impl toy_ops toy_physics
client_playing = record {
  world = (fresh_body, still);
  rifle_rules = toy_rifle;
  rifle = loaded toy_rifle;
  tick_state = fresh_state;
  history = sent_two;
}

-- The server had the body far from where the client predicted it.
abbrev far : BodyState
far = record fresh_body { position = record zero_vec { x = 2000000000 } }

abbrev far_away : Acknowledgement
far_away = record { sequence = 4; body = far; rifle = loaded toy_rifle }

acknowledge_lem_example : acknowledge 4 sent_two ≡ (predicted_at 4 sent_two, newer_than 4 sent_two)
acknowledge_lem_example = acknowledge_lem 4 1 6 sent_two (omega arith, (omega arith, omega arith))

reconciliation_repeat_example :
    let once = on_reconciliation toy_ops toy_physics client_playing (some far_away) toy_tick in
    on_reconciliation toy_ops toy_physics once (some far_away) toy_tick ≡ once
reconciliation_repeat_example =
    reconciliation_repeat toy_ops toy_physics toy_tick client_playing far_away 1 6
      (omega arith, (omega arith, omega arith))

reconciliation_carries_example :
    let after = on_reconciliation toy_ops toy_physics client_playing (some far_away) toy_tick in
    let held = newer_than 4 sent_two in
    At toy_ops toy_physics toy_laws 0 toy_rifle toy_tick after (
      carry toy_ops toy_physics toy_laws 0 toy_rifle toy_tick
        (told far_away predicted_at_start)
        held)
    × (after.history
        ≡ mark toy_ops toy_physics toy_laws 0 toy_rifle toy_tick
            (told far_away predicted_at_start)
            held)
unfolding body_needs_correction same_rifle same_stance stride_distance loaded
reconciliation_carries_example =
    reconciliation_carries toy_ops toy_physics toy_tick toy_laws client_playing far_away
      predicted_at_start 1 6 (omega arith, (omega arith, omega arith)) refl refl refl

abbrev ticks : List Ticked
ticks =
    record { command = holding_fire; sequence = 6; ack = some far_away }
    ∷ record { command = holding_fire; sequence = 0; ack = none }
    ∷ record { command = holding_fire; sequence = 9; ack = some far_away }
    ∷ []

client_playing-Inv : Inv 6 client_playing.history
client_playing-Inv = record {
  between = (omega arith, (omega arith, omega arith));
  bounded = omega arith;
}

run_history-Inv_example :
    Inv (next_after 6 ticks) (run toy_ops toy_physics toy_tick client_playing ticks).history
run_history-Inv_example =
    run_history-Inv toy_ops toy_physics toy_tick client_playing ticks 6 client_playing-Inv
      (inr (omega arith), (inl refl, (inr (omega arith), tt)))

abbrev started : Impl toy_ops toy_physics
started = start toy_ops toy_physics client_playing zero_vec 0 toy_rifle

abbrev holding : ℕ → Command
holding n = holding_fire

-- The server tells of the first command on the second tick.
abbrev first_told : Acknowledgement
first_told =
    let there = server_of toy_ops toy_physics toy_laws toy_tick holding started 1 in
    record { sequence = 1; body = there.body; rifle = there.rifle }

client_follows_server_example :
    let acks = none ∷ some first_told ∷ none ∷ [] in
    let after = run_of toy_ops toy_physics toy_laws toy_tick holding started acks in
    let there = server_of toy_ops toy_physics toy_laws toy_tick holding started 3 in
    (after.tick_state.local_body ≡ there.body) × (after.rifle ≡ there.rifle)
client_follows_server_example =
    client_follows_server toy_ops toy_physics toy_laws toy_tick holding client_playing zero_vec 0
      toy_rifle (none ∷ some first_told ∷ none ∷ []) refl (tt, ((refl, refl), (tt, tt)))
