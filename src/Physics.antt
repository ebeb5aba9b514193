-- ===== src/Physics.antt =====
-- src/modules/physics/include/augusta/physics.h: a body's state, and World as the interface that the
-- prediction steps a body through. What World does is PhysX's, so it is a record of operations, with
-- what physics.h documents of them as its laws. A float is its bit pattern.
use augusta.Common.{ℕ, ◌≡◌, Bool, Vec3}
use augusta.Command.{Stance, MovementInput}

pub record BodyState : Type 0 where
  pub position : Vec3
  pub velocity : Vec3
  pub stance : Stance
  pub stamina : ℕ
  pub exhausted : Bool
  pub stride : ℕ
  pub previous_stance : Stance
  pub stance_progress : ℕ
  pub grounded : Bool

pub record FallState : Type 0 where
  pub vertical_speed : ℕ

-- World, for the one body that a client predicts, with what the Clips pace it by (PacingOf, of a
-- body and a yaw).
pub record Physics : Type 1 where
  pub World : Type 0
  pub StaminaConfig : Type 0
  pub Pacing : Type 0
  pub pacing_of : BodyState → ℕ → Pacing
  pub set_stamina_config : World → StaminaConfig → World
  pub set_state : World → BodyState → World
  pub step : World → MovementInput → ℕ → Pacing → World × BodyState
  pub fall : World → FallState
  pub restore : World → BodyState → FallState → World × BodyState

-- What physics.h says of them. Rules are what a step follows besides the body: the collision meshes
-- and the stamina's values.
pub record Laws (physics : Physics) : Type 1 where
  pub Rules : Type 0
  pub rules : physics.World → Rules
  -- The state internally held.
  pub held : physics.World → BodyState
  -- A body on the grids of the Networking Protocol.
  pub snap : BodyState → BodyState
  -- A step, as a function of what is held and of its arguments.
  pub advance :
      Rules → BodyState → FallState → MovementInput → ℕ → physics.Pacing → BodyState × FallState
  pub advance_snapped :
      (r : Rules) (b : BodyState) (f : FallState) (i : MovementInput) (t : ℕ) (p : physics.Pacing)
      → snap (advance r b f i t p).0 ≡ (advance r b f i t p).0
  pub step_body :
      (w : physics.World) (i : MovementInput) (t : ℕ) (p : physics.Pacing)
      → (physics.step w i t p).1 ≡ (advance (rules w) (held w) (physics.fall w) i t p).0
  pub step_fall :
      (w : physics.World) (i : MovementInput) (t : ℕ) (p : physics.Pacing)
      → physics.fall (physics.step w i t p).0
        ≡ (advance (rules w) (held w) (physics.fall w) i t p).1
  pub step_held :
      (w : physics.World) (i : MovementInput) (t : ℕ) (p : physics.Pacing)
      → held (physics.step w i t p).0 ≡ (physics.step w i t p).1
  pub step_rules :
      (w : physics.World) (i : MovementInput) (t : ℕ) (p : physics.Pacing)
      → rules (physics.step w i t p).0 ≡ rules w
  pub restore_body :
      (w : physics.World) (b : BodyState) (f : FallState) → (physics.restore w b f).1 ≡ snap b
  pub restore_held :
      (w : physics.World) (b : BodyState) (f : FallState) → held (physics.restore w b f).0 ≡ snap b
  pub restore_fall :
      (w : physics.World) (b : BodyState) (f : FallState)
      → physics.fall (physics.restore w b f).0 ≡ f
  pub restore_rules :
      (w : physics.World) (b : BodyState) (f : FallState)
      → rules (physics.restore w b f).0 ≡ rules w
  pub set_state_held : (w : physics.World) (b : BodyState) → held (physics.set_state w b) ≡ snap b
