-- ===== src/Prediction/Reconciled.antt =====
-- What a reconciliation and a tick do to the World and its history, whatever the server tells.
use augusta.Common.{
  ℕ, suc, ◌+◌, ◌≤◌, ◌≡◌, ◌⊎◌, refl, ◌∙◌, ap, true, not, ◌||◌, Option, none, some, List, [], ◌∷◌,
  length, ◌==◌, if◌then◌else◌, arith, inl, inr, Bool-cases, FloatOps,
}
use augusta.Command.{Command}
use augusta.Physics.{Physics, Laws}
use augusta.Prediction.{
  Predicted, Entry, Acknowledgement, Impl, Replayed, acknowledge, replay, replay_step,
  body_needs_correction, same_rifle, correct, reconcile_with, on_reconciliation, on_movement,
  on_weapon_handling, on_commit, tick,
}
use augusta.Prediction.History.{
  Between, Inv, predicted_at, newer_than, newer_than-above, acknowledge-above, acknowledge_lem,
  acknowledge-Inv, record_entry-Inv,
}
use augusta.Prediction.Server.{carry, mark, At, told, correct-carry}

replay-Between {ℓ} :
    {S : Type ℓ} (step : S → Command → S × Predicted) (s : S) (low next : ℕ) (es : List Entry)
    → Between low next es
    → Between low next (replay step s es).1 × (length (replay step s es).1 ≡ length es)
unfolding replay
replay-Between step s low next [] b = (b, refl)
replay-Between step s low next (e ∷ es) b =
    let rest = replay-Between step (step s e.command).0 (suc e.sequence) next es b.1 in
    ((b.0, rest.0), ap suc rest.1)

pub record Ticked : Type 0 where
  pub command : Command
  pub sequence : ℕ
  pub ack : Option Acknowledgement

-- The sequences other than 0 rise strictly, the first at least `next`.
abbrev pub Numbered : ℕ → List Ticked → Type 0
Numbered next [] = Unit
Numbered next (t ∷ ts) =
    ((t.sequence ≡ 0) ⊎ (next ≤ t.sequence))
    × Numbered (if t.sequence == 0 then next else suc t.sequence) ts

-- The next sequence after the ticks.
abbrev pub next_after : ℕ → List Ticked → ℕ
next_after next [] = next
next_after next (t ∷ ts) = next_after (if t.sequence == 0 then next else suc t.sequence) ts

module _ (ops : FloatOps) (physics : Physics) (dt : ℕ) where
  reconcile_with-Between :
      (w : Impl ops physics) (ack : Acknowledgement) (found : Option Predicted) (es : List Entry)
      (low next : ℕ)
      → Between low next es
      → let after = reconcile_with ops physics w ack found es dt in
        Between low next after.history × (length after.history ≡ length es)
  unfolding reconcile_with correct
  reconcile_with-Between w ack none es low next b = (b, refl)
  reconcile_with-Between w ack (some p) es low next b =
      let differs = not (same_rifle ops ack.rifle p.rifle) in
      let restored = physics.restore w.world ack.body p.fall in
      let from : Replayed ops physics = record {
        world = restored.0;
        body = restored.1;
        rifle = ack.rifle;
      } in
      elim (Bool-cases (body_needs_correction ops ack.body p.body || differs)) [
        | inl wrong ↦
            rw wrong (replay-Between (replay_step ops physics w.rifle_rules dt) from low next es b)
        | inr right ↦ rw right (b, refl)
      ]

  pub on_reconciliation-Inv :
      (w : Impl ops physics) (ack : Option Acknowledgement) (next : ℕ)
      → Inv next w.history
      → Inv next (on_reconciliation ops physics w ack dt).history
  unfolding on_reconciliation
  on_reconciliation-Inv w none next v = v
  on_reconciliation-Inv w (some ack) next v =
      let (found, es) = acknowledge ack.sequence w.history in
      let kept = acknowledge-Inv ack.sequence next w.history v in
      let after = reconcile_with-Between w ack found es 1 next kept.between in
      record { between = after.0; bounded = omega (arith, after.1, kept.bounded) }

  on_commit-Inv :
      (w : Impl ops physics) (c : Command) (sequence next : ℕ)
      → Inv next w.history
      → (sequence ≡ 0) ⊎ (next ≤ sequence)
      → Inv
          (if sequence == 0 then next else suc sequence)
          (on_commit ops physics w c sequence).history
  unfolding on_commit
  on_commit-Inv w c sequence next v h =
      let newest : Entry = record {
        sequence = sequence;
        command = c;
        predicted = record {
          body = w.tick_state.local_body;
          fall = physics.fall w.world;
          rifle = w.rifle;
        };
      } in
      elim (Bool-cases (sequence == 0)) [
        | inl unsent ↦ rw unsent v
        | inr sent ↦ rw sent (record_entry-Inv next w.history newest v (ground arith))
      ]

  pub run : Impl ops physics → List Ticked → Impl ops physics
  run w [] = w
  run w (t ∷ ts) = run (tick ops physics w t.command t.sequence t.ack dt) ts

  -- Over any history of ticks whose sequences, those of 0 aside, rise, whatever is acknowledged,
  -- the sequences held rise strictly, are below the next one, and are at most 128.
  pub run_history-Inv :
      (w : Impl ops physics) (ts : List Ticked) (next : ℕ)
      → Inv next w.history
      → Numbered next ts
      → Inv (next_after next ts) (run w ts).history
  unfolding run tick on_movement on_weapon_handling
  run_history-Inv w [] next v n = v
  run_history-Inv w (t ∷ ts) next v n =
      let reconciled = on_reconciliation ops physics w t.ack dt in
      let played =
        on_weapon_handling ops physics (on_movement ops physics reconciled t.command dt) t.command
          dt in
      let kept = on_reconciliation-Inv w t.ack next v in
      run_history-Inv (tick ops physics w t.command t.sequence t.ack dt) ts
        (if t.sequence == 0 then next else suc t.sequence)
        (on_commit-Inv played t.command t.sequence next kept n.0) n.1

  -- Where the sequences held rise, the same acknowledgement again changes nothing, corrected or not
  -- the first time.
  pub reconciliation_repeat :
      (w : Impl ops physics) (ack : Acknowledgement) (low next : ℕ)
      → Between low next w.history
      → let once = on_reconciliation ops physics w (some ack) dt in
        on_reconciliation ops physics once (some ack) dt ≡ once
  unfolding on_reconciliation reconcile_with
  reconciliation_repeat w ack low next b =
      let j = ack.sequence in
      let once = on_reconciliation ops physics w (some ack) dt in
      let found = acknowledge_lem j low next w.history b in
      let above : Between (suc j) (next + suc j) (acknowledge j w.history).1 =
        rw found (newer_than-above j low next w.history b) in
      let after =
        reconcile_with-Between w ack (acknowledge j w.history).0 (acknowledge j w.history).1 (suc j)
          (next + suc j) above in
      let again : acknowledge j once.history ≡ (none, once.history) =
        acknowledge-above j (next + suc j) once.history after.0 in
      ap (λ r. reconcile_with ops physics once ack r.0 r.1 dt) again

  -- Where the sequences that the history holds rise, it holds a prediction for the acknowledged one
  -- that differs by more than the tolerances, and the body told of is on the grids, a
  -- reconciliation puts the World where the player that the server told of, with the fall predicted
  -- then, is after the newer commands held, and each of these is held with that player after it.
  pub reconciliation_carries :
      (laws : Laws physics) (w : Impl ops physics) (ack : Acknowledgement) (p : Predicted)
      (low next : ℕ)
      → Between low next w.history
      → predicted_at ack.sequence w.history ≡ some p
      → (body_needs_correction ops ack.body p.body || not (same_rifle ops ack.rifle p.rifle)) ≡ true
      → laws.snap ack.body ≡ ack.body
      → let after = on_reconciliation ops physics w (some ack) dt in
        let held = newer_than ack.sequence w.history in
        let rules = laws.rules w.world in
        At ops physics laws rules w.rifle_rules dt after
          (carry ops physics laws rules w.rifle_rules dt (told ack p) held)
        × (after.history ≡ mark ops physics laws rules w.rifle_rules dt (told ack p) held)
  unfolding on_reconciliation reconcile_with
  reconciliation_carries laws w ack p low next b found wrong snapped =
      let held = newer_than ack.sequence w.history in
      let goes : acknowledge ack.sequence w.history ≡ (some p, held) =
        acknowledge_lem ack.sequence low next w.history b ∙ ap (λ r. (r, held)) found in
      rw (goes, wrong)
        (correct-carry ops physics laws (laws.rules w.world) w.rifle_rules dt w ack p held
          (not (same_rifle ops ack.rifle p.rifle)) refl refl snapped)
