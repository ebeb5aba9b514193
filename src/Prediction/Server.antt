-- ===== src/Prediction/Server.antt =====
-- The player as a simulation steps it, and the client's World against it: a reconciliation, and a
-- tick, each as steps of the simulation.
use augusta.Common.{ℕ, ◌≡◌, refl, ◌∙◌, Bool, List, [], ◌∷◌, FloatOps}
use augusta.Command.{Command}
use augusta.Grid.{snap_angle}
use augusta.Physics.{Physics, Laws}
use augusta.Weapon
use augusta.Weapon.{Rifle}
use augusta.Prediction.{
  Predicted, Entry, Acknowledgement, Impl, Replayed, replay, replay_step, move, correct,
  on_movement, on_weapon_handling,
}

-- What the server told of a player, with the fall that the client predicted.
abbrev pub told : Acknowledgement → Predicted → Predicted
told ack p = record { body = ack.body; fall = p.fall; rifle = ack.rifle }

module _ (ops : FloatOps) (physics : Physics) (laws : Laws physics) (rules : laws.Rules)
    (rifle_rules : Rifle) (dt : ℕ) where
  -- A tick of a player on a command.
  unfoldable pub serve : Predicted → Command → Predicted
  serve s c =
      let moved =
        laws.advance rules s.body s.fall c.movement dt
          (physics.pacing_of s.body (snap_angle ops c.yaw)) in
      record {
        body = moved.0;
        fall = moved.1;
        rifle = (Weapon.step ops rifle_rules s.rifle c dt).state;
      }

  -- A player after the commands held, in their order.
  unfoldable pub carry : Predicted → List Entry → Predicted
  carry s [] = s
  carry s (e ∷ es) = carry (serve s e.command) es

  -- The commands held, each with the player after it.
  unfoldable pub mark : Predicted → List Entry → List Entry
  mark s [] = []
  mark s (e ∷ es) = let next = serve s e.command in record e { predicted = next } ∷ mark next es

  pub record Stands (world : physics.World) (s : Predicted) : Type 0 where
    pub held : laws.held world ≡ s.body
    pub fall : physics.fall world ≡ s.fall
    pub ruled : laws.rules world ≡ rules

  -- The client's World is where the player is.
  pub record At (w : Impl ops physics) (s : Predicted) : Type 0 where
    pub stands : Stands w.world s
    pub body : w.tick_state.local_body ≡ s.body
    pub rifle : w.rifle ≡ s.rifle
    pub rifle_ruled : w.rifle_rules ≡ rifle_rules

  move-Stands :
      (world : physics.World) (s : Predicted) (c : Command)
      → Stands world s
      → let moved = move ops physics world s.body c dt in
        Stands moved.0 (serve s c) × (moved.1 ≡ (serve s c).body)
  unfolding move serve
  move-Stands world s c st =
      let p = physics.pacing_of s.body (snap_angle ops c.yaw) in
      let body = laws.step_body world c.movement dt p in
      let fall = laws.step_fall world c.movement dt p in
      let held = laws.step_held world c.movement dt p in
      let ruled = laws.step_rules world c.movement dt p in
      let at_s = rw (st.held, st.fall, st.ruled) at body in
      (
        record {
          held = held ∙ at_s;
          fall = rw (st.held, st.fall, st.ruled) at fall;
          ruled = ruled ∙ st.ruled;
        },
        at_s,
      )

  replay_step-serve :
      (r : Replayed ops physics) (s : Predicted) (c : Command)
      → Stands r.world s
      → r.body ≡ s.body
      → r.rifle ≡ s.rifle
      → let (r', p) = replay_step ops physics rifle_rules dt r c in
        Stands r'.world (serve s c)
        × (r'.body ≡ (serve s c).body)
        × (r'.rifle ≡ (serve s c).rifle)
        × (p ≡ serve s c)
  unfolding replay_step serve
  replay_step-serve r s c st b g =
      let m = move-Stands r.world s c st in rw (b, g) (m.0, m.1, refl, rw (m.1, m.0.fall) refl)

  replay-carry :
      (r : Replayed ops physics) (s : Predicted) (es : List Entry)
      → Stands r.world s
      → r.body ≡ s.body
      → r.rifle ≡ s.rifle
      → let (r', replayed) = replay (replay_step ops physics rifle_rules dt) r es in
        Stands r'.world (carry s es)
        × (r'.body ≡ (carry s es).body)
        × (r'.rifle ≡ (carry s es).rifle)
        × (replayed ≡ mark s es)
  unfolding replay carry mark
  replay-carry r s [] st b g = (st, b, g, refl)
  replay-carry r s (e ∷ es) st b g =
      let one = replay_step-serve r s e.command st b g in
      let next = (replay_step ops physics rifle_rules dt r e.command).0 in
      let rest = replay-carry next (serve s e.command) es one.0 one.1 one.2 in
      (rest.0, rest.1, rest.2, rw (one.3, rest.3) refl)

  -- A correction puts the World where the player the server told of is after the commands held, and
  -- what is held of them is what that player was after each.
  pub correct-carry :
      (w : Impl ops physics) (ack : Acknowledgement) (p : Predicted) (es : List Entry)
      (differs : Bool)
      → laws.rules w.world ≡ rules
      → w.rifle_rules ≡ rifle_rules
      → laws.snap ack.body ≡ ack.body
      → let corrected = correct ops physics w ack p es differs dt in
        At corrected (carry (told ack p) es) × (corrected.history ≡ mark (told ack p) es)
  unfolding correct
  correct-carry w ack p es differs ruled rifled snapped =
      let restored = physics.restore w.world ack.body p.fall in
      let stands : Stands restored.0 (told ack p) = record {
        held = laws.restore_held w.world ack.body p.fall ∙ snapped;
        fall = laws.restore_fall w.world ack.body p.fall;
        ruled = laws.restore_rules w.world ack.body p.fall ∙ ruled;
      } in
      let from : Replayed ops physics = record {
        world = restored.0;
        body = restored.1;
        rifle = ack.rifle;
      } in
      let body = laws.restore_body w.world ack.body p.fall ∙ snapped in
      let all = replay-carry from (told ack p) es stands body refl in
      rw rifled (record { stands = all.0; body = all.1; rifle = all.2; rifle_ruled = refl }, all.3)

  -- Movement and WeaponHandling move the World as the simulation moves the player.
  pub play-At :
      (w : Impl ops physics) (s : Predicted) (c : Command)
      → At w s
      → At (on_weapon_handling ops physics (on_movement ops physics w c dt) c dt) (serve s c)
  unfolding on_movement on_weapon_handling move serve
  play-At w s c a =
      let moved = move-Stands w.world s c a.stands in
      record {
        stands = rw a.body moved.0;
        body = rw a.body moved.1;
        rifle = rw (a.rifle, a.rifle_ruled) refl;
        rifle_ruled = a.rifle_ruled;
      }
