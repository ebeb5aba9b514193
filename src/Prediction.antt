-- ===== src/Prediction.antt =====
-- src/modules/prediction/: reconciliation.cpp's History and prediction.cpp's World, the local player
-- as the client predicts it and reconciles it with the server. A float is its bit pattern; physics
-- is the interface Physics. The five phases run in their order on each tick; logging and the
-- collision lines of a development build are left out.
pub mod History
pub mod Server
pub mod Agreement
pub mod Following
pub mod Reconciled
mod Examples
use augusta.Common.{
  ℕ, suc, ◌+◌, ◌-◌, ◌%◌, min, Bool, true, false, not, ◌&&◌, ◌||◌, ◌^◌, Option, none, some, List, [],
  ◌∷◌, ◌++◌, length, ltb, leb, ◌==◌, if◌then◌else◌, Vec3, zero_vec, FloatOps, fabs,
}
use augusta.Command.{Command, Stance, standing, crouching, prone, idle_command}
use augusta.Grid.{snap_angle}
use augusta.Physics.{BodyState, FallState, Physics}
use augusta.Weapon
use augusta.Weapon.{Rifle, RecoilOffset}

abbrev pub max_history : ℕ
max_history = 128

pub record Predicted : Type 0 where
  pub body : BodyState
  pub fall : FallState
  pub rifle : Weapon.State

-- History::Entry.
pub record Entry : Type 0 where
  pub sequence : ℕ
  pub command : Command
  pub predicted : Predicted

-- `entries_.pop_front()`.
abbrev pub pop_front : List Entry → List Entry
pop_front [] = []
pop_front (e ∷ es) = es

unfoldable pub record_entry : List Entry → Entry → List Entry
record_entry entries e =
    let grown = entries ++ e ∷ [] in
    if ltb max_history (length grown) then pop_front grown else grown

-- The loop of Acknowledge: what is older than the sequence is discarded.
unfoldable pub discard_older : ℕ → List Entry → List Entry
discard_older sequence [] = []
discard_older sequence (e ∷ es) =
    let rest = discard_older sequence es in if ltb e.sequence sequence then rest else e ∷ es

abbrev take_front : ℕ → List Entry → Option Predicted × List Entry
take_front sequence [] = (none, [])
take_front sequence (e ∷ es) =
    if e.sequence == sequence then (some e.predicted, es) else (none, e ∷ es)

unfoldable pub acknowledge : ℕ → List Entry → Option Predicted × List Entry
unfolding discard_older
acknowledge sequence entries = take_front sequence (discard_older sequence entries)

-- History::Replay with a step that changes a state of its own, `S`.
unfoldable pub replay {ℓ} :
    {S : Type ℓ} → (S → Command → S × Predicted) → S → List Entry → S × List Entry
replay step s [] = (s, [])
replay step s (e ∷ es) =
    let stepped = step s e.command in
    let rest = replay step stepped.0 es in (rest.0, record e { predicted = stepped.1 } ∷ rest.1)

pub record Acknowledgement : Type 0 where
  pub sequence : ℕ
  pub body : BodyState
  pub rifle : Weapon.State

-- State, less its collision lines.
pub record State : Type 0 where
  pub local_body : BodyState
  pub total_correction : Vec3
  pub rifle : Weapon.State
  pub rifle_corrections : ℕ
  pub total_rounds_fired : ℕ
  pub rounds_fired : ℕ

-- The bit pattern of 0.001F, both tolerances.
abbrev pub position_tolerance : ℕ
position_tolerance = 0x3A83126F

abbrev pub stamina_tolerance : ℕ
stamina_tolerance = 0x3A83126F

abbrev pub stride_tolerance : ℕ
stride_tolerance = 1

abbrev pub stride_steps : ℕ
stride_steps = 256

-- Of two Strides, each below 256, so the sum before the remainder is never negative.
unfoldable pub stride_distance : ℕ → ℕ → ℕ
stride_distance a b =
    let ahead = (a + stride_steps - b) % stride_steps in min ahead (stride_steps - ahead)

unfoldable pub same_stance : Stance → Stance → Bool
same_stance standing standing = true
same_stance crouching crouching = true
same_stance prone prone = true
same_stance _ _ = false

abbrev pub same_flag : Bool → Bool → Bool
same_flag true b = b
same_flag false b = not b

module _ (ops : FloatOps) where
  abbrev pub minus : Vec3 → Vec3 → Vec3
  minus a b = record { x = ops.sub a.x b.x; y = ops.sub a.y b.y; z = ops.sub a.z b.z }

  abbrev pub plus : Vec3 → Vec3 → Vec3
  plus a b = record { x = ops.add a.x b.x; y = ops.add a.y b.y; z = ops.add a.z b.z }

  unfoldable pub body_needs_correction : BodyState → BodyState → Bool
  unfolding same_stance stride_distance
  body_needs_correction authoritative predicted =
      ops.le position_tolerance (ops.vec_length (minus authoritative.position predicted.position))
      || not (same_stance authoritative.stance predicted.stance)
      || not (same_flag authoritative.exhausted predicted.exhausted)
      || not (same_flag authoritative.grounded predicted.grounded)
      || ops.le stamina_tolerance (fabs (ops.sub authoritative.stamina predicted.stamina))
      || ltb stride_tolerance (stride_distance authoritative.stride predicted.stride)
      || not (same_stance authoritative.previous_stance predicted.previous_stance)
      || not (authoritative.stance_progress == predicted.stance_progress)

  abbrev same_recoil : RecoilOffset → RecoilOffset → Bool
  same_recoil a b = ops.eq a.pitch b.pitch && ops.eq a.yaw b.yaw

  -- weapon::State's operator==.
  unfoldable pub same_rifle : Weapon.State → Weapon.State → Bool
  same_rifle a b =
      ops.eq a.cooldown b.cooldown
      && ops.eq a.reload_remaining b.reload_remaining
      && same_recoil a.recoil b.recoil
      && a.rounds == b.rounds
      && a.burst_index == b.burst_index

-- BodyState{}, at a position.
unfoldable pub body_at : Vec3 → BodyState
body_at spawn = record {
  position = spawn;
  velocity = zero_vec;
  stance = standing;
  stamina = 0x3F800000;
  exhausted = false;
  stride = 0;
  previous_stance = standing;
  stance_progress = 255;
  grounded = false;
}

module _ (ops : FloatOps) (physics : Physics) where
  -- World::Impl, less what Tick stages and what never changes.
  pub record Impl : Type 0 where
    pub world : physics.World
    pub rifle_rules : Rifle
    pub rifle : Weapon.State
    pub tick_state : State
    pub history : List Entry

  -- Impl::Move.
  unfoldable pub move : physics.World → BodyState → Command → ℕ → physics.World × BodyState
  move world body command delta_time =
      physics.step world command.movement delta_time
        (physics.pacing_of body (snap_angle ops command.yaw))

  -- What the lambda of OnReconciliation changes: the physics World, `replayed` and `rifle`.
  pub record Replayed : Type 0 where
    pub world : physics.World
    pub body : BodyState
    pub rifle : Weapon.State

  unfoldable pub replay_step : Rifle → ℕ → Replayed → Command → Replayed × Predicted
  unfolding move
  replay_step rules delta_time r command =
      let moved = move r.world r.body command delta_time in
      let rifle = (Weapon.step ops rules r.rifle command delta_time).state in
      (
        record { world = moved.0; body = moved.1; rifle = rifle },
        record { body = moved.1; fall = physics.fall moved.0; rifle = rifle },
      )

  -- OnReconciliation from the restore on.
  unfoldable pub correct : Impl → Acknowledgement → Predicted → List Entry → Bool → ℕ → Impl
  unfolding replay replay_step
  correct w ack predicted entries rifle_differs delta_time =
      let restored = physics.restore w.world ack.body predicted.fall in
      let (after, replayed) =
        replay (replay_step w.rifle_rules delta_time)
          (record { world = restored.0; body = restored.1; rifle = ack.rifle }) entries in
      let state = w.tick_state in
      let jump = minus ops after.body.position state.local_body.position in
      record w {
        world = after.world;
        rifle = after.rifle;
        history = replayed;
        tick_state = record state {
          total_correction = plus ops state.total_correction jump;
          local_body = after.body;
          rifle_corrections = (state.rifle_corrections + (if rifle_differs then 1 else 0)) % 2 ^ 32;
        };
      }

  unfoldable pub reconcile_with : Impl → Acknowledgement → Option Predicted → List Entry → ℕ → Impl
  unfolding correct body_needs_correction same_rifle
  reconcile_with w ack none entries delta_time = record w { history = entries }
  reconcile_with w ack (some predicted) entries delta_time =
      let rifle_differs = not (same_rifle ops ack.rifle predicted.rifle) in
      if body_needs_correction ops ack.body predicted.body || rifle_differs
      then correct w ack predicted entries rifle_differs delta_time
      else record w { history = entries }

  unfoldable pub on_reconciliation : Impl → Option Acknowledgement → ℕ → Impl
  unfolding reconcile_with acknowledge
  on_reconciliation w none delta_time = w
  on_reconciliation w (some ack) delta_time =
      let (predicted, entries) = acknowledge ack.sequence w.history in
      reconcile_with w ack predicted entries delta_time

  unfoldable pub on_movement : Impl → Command → ℕ → Impl
  unfolding move
  on_movement w command delta_time =
      let moved = move w.world w.tick_state.local_body command delta_time in
      record w { world = moved.0; tick_state = record w.tick_state { local_body = moved.1 } }

  unfoldable pub on_weapon_handling : Impl → Command → ℕ → Impl
  on_weapon_handling w command delta_time =
      let result = Weapon.step ops w.rifle_rules w.rifle command delta_time in
      let fired = if result.fired then 1 else 0 in
      record w {
        rifle = result.state;
        tick_state = record w.tick_state {
          rifle = result.state;
          rounds_fired = fired;
          total_rounds_fired = (w.tick_state.total_rounds_fired + fired) % 2 ^ 32;
        };
      }

  unfoldable pub on_commit : Impl → Command → ℕ → Impl
  unfolding record_entry
  on_commit w command sequence =
      let predicted : Predicted = record {
        body = w.tick_state.local_body;
        fall = physics.fall w.world;
        rifle = w.rifle;
      } in
      if sequence == 0 then w else record w {
        history =
            record_entry w.history
              (record { sequence = sequence; command = command; predicted = predicted });
      }

  -- World::Tick, its result the tick_state of what comes back. OnCommandIngestion changes nothing.
  unfoldable pub tick : Impl → Command → ℕ → Option Acknowledgement → ℕ → Impl
  unfolding on_reconciliation on_movement on_weapon_handling on_commit
  tick w command sequence ack delta_time =
      let reconciled = on_reconciliation w ack delta_time in
      let moved = on_movement reconciled command delta_time in
      on_commit (on_weapon_handling moved command delta_time) command sequence

  -- World::Start with the Parameters' stamina and rifle.
  unfoldable pub start : Impl → Vec3 → physics.StaminaConfig → Rifle → Impl
  unfolding body_at
  start w spawn stamina rules =
      let body = body_at spawn in
      let rifle = Weapon.loaded rules in
      record {
        world = physics.set_state (physics.set_stamina_config w.world stamina) body;
        rifle_rules = rules;
        rifle = rifle;
        history = [];
        tick_state = record w.tick_state { local_body = body; rifle = rifle; rounds_fired = 0 };
      }
