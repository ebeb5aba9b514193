-- ===== src/Prediction/Following.antt =====
-- Any history of ticks from Start, against a server that steps the same commands.
use mathlib.Core.Path.{subst}
use augusta.Common.{
  ℕ, suc, ◌+◌, ◌≡◌, refl, ◌∙◌, Option, none, some, List, [], ◌∷◌, ◌++◌, length, ltb, inl, inr,
  Bool-cases, arith, Vec3, FloatOps, All, ==-suc_zero,
}
use augusta.Command.{Command}
use augusta.Physics.{Physics, Laws}
use augusta.Weapon.{Rifle}
use augusta.Prediction.{
  Predicted, Entry, Acknowledgement, Impl, acknowledge, record_entry, pop_front, max_history,
  on_reconciliation, on_movement, on_weapon_handling, on_commit, tick, start, body_at,
}
use augusta.Prediction.Server.{At, Stands, play-At}
use augusta.Prediction.Agreement.{
  server, Held, Agrees, Honest, acknowledge-Found, reconcile_with-Agrees,
}

module _ (ops : FloatOps) (physics : Physics) (laws : Laws physics) (rules : laws.Rules)
    (rifle_rules : Rifle) (dt : ℕ) (spawned : Predicted) (commands : ℕ → Command) where
  -- Each acknowledgement that a tick takes in is honest.
  abbrev pub Told : Option Acknowledgement → Type 0
  Told none = Unit
  Told (some ack) = Honest ops physics laws rules rifle_rules dt spawned commands ack

  on_reconciliation-Agrees :
      (n : ℕ) (w : Impl ops physics) (ack : Option Acknowledgement)
      → laws.snap spawned.body ≡ spawned.body
      → Told ack
      → Agrees ops physics laws rules rifle_rules dt spawned commands n w
      → Agrees ops physics laws rules rifle_rules dt spawned commands n
          (on_reconciliation ops physics w ack dt)
  unfolding on_reconciliation
  on_reconciliation-Agrees n w none start told a = a
  on_reconciliation-Agrees n w (some ack) start told a =
      let (found, entries) = acknowledge ack.sequence w.history in
      reconcile_with-Agrees ops physics laws rules rifle_rules dt spawned commands n w ack found
        entries start a.now told
        (acknowledge-Found ops physics laws rules rifle_rules dt spawned commands ack.sequence
          a.oldest n w.history a.held)

  abbrev Holds : ℕ → ℕ → List Entry → Type 0
  Holds = Held ops physics laws rules rifle_rules dt spawned commands

  Held-append :
      (k n : ℕ) (es : List Entry) (e : Entry)
      → Holds k n es
      → e.sequence ≡ suc n
      → e.command ≡ commands (suc n)
      → e.predicted ≡ server ops physics laws rules rifle_rules dt spawned commands (suc n)
      → Holds k (suc n) (es ++ e ∷ [])
  Held-append k n [] e h s c p = rw h (s, c, p, refl)
  Held-append k n (d ∷ es) e h s c p = (h.0, h.1, h.2, Held-append (suc k) n es e h.3 s c p)

  pop_front-Held :
      (k n : ℕ) (es : List Entry) → Holds k n es → (oldest : ℕ) × Holds oldest n (pop_front es)
  pop_front-Held k n [] h = (k, h)
  pop_front-Held k n (e ∷ es) h = (suc k, h.3)

  record_entry-Held :
      (k n : ℕ) (es : List Entry) (e : Entry)
      → Holds k n (es ++ e ∷ [])
      → (oldest : ℕ) × Holds oldest n (record_entry es e)
  unfolding record_entry
  record_entry-Held k n es e h = elim (Bool-cases (ltb max_history (length (es ++ e ∷ [])))) [
    | inl full ↦ rw (full, record_entry) (pop_front-Held k n (es ++ e ∷ []) h)
    | inr room ↦ rw (room, record_entry) (k, h)
  ]

  abbrev AgreesAt : ℕ → Impl ops physics → Type 0
  AgreesAt = Agrees ops physics laws rules rifle_rules dt spawned commands

  on_commit-Agrees :
      (n : ℕ) (w : Impl ops physics) (oldest : ℕ)
      → At ops physics laws rules rifle_rules dt w
          (server ops physics laws rules rifle_rules dt spawned commands (suc n))
      → Holds oldest n w.history
      → AgreesAt (suc n) (on_commit ops physics w (commands (suc n)) (suc n))
  unfolding on_commit
  on_commit-Agrees n w oldest a held =
      let predicted : Predicted = record {
        body = w.tick_state.local_body;
        fall = physics.fall w.world;
        rifle = w.rifle;
      } in
      let there : predicted
          ≡ server ops physics laws rules rifle_rules dt spawned commands (suc n) =
        rw (a.body, a.stands.fall, a.rifle) refl in
      let newest : Entry = record {
        sequence = suc n;
        command = commands (suc n);
        predicted = predicted;
      } in
      let kept =
        record_entry-Held oldest (suc n) w.history newest
          (Held-append oldest n w.history newest held refl refl there) in
      rw (==-suc_zero n) (record {
        now = record {
          stands = a.stands;
          body = a.body;
          rifle = a.rifle;
          rifle_ruled = a.rifle_ruled;
        };
        oldest = kept.0;
        held = kept.1;
      })

  -- A tick on the next command, with whatever the server tells of a tick.
  tick-Agrees :
      (n : ℕ) (w : Impl ops physics) (ack : Option Acknowledgement)
      → laws.snap spawned.body ≡ spawned.body
      → Told ack
      → AgreesAt n w
      → AgreesAt (suc n) (tick ops physics w (commands (suc n)) (suc n) ack dt)
  unfolding tick server
  tick-Agrees n w ack start told a =
      let reconciled = on_reconciliation-Agrees n w ack start told a in
      let played =
        play-At ops physics laws rules rifle_rules dt (on_reconciliation ops physics w ack dt)
          (server ops physics laws rules rifle_rules dt spawned commands n) (commands (suc n))
          reconciled.now in
      on_commit-Agrees n
        (on_weapon_handling ops physics
          (on_movement ops physics (on_reconciliation ops physics w ack dt) (commands (suc n)) dt)
          (commands (suc n)) dt)
        reconciled.oldest played reconciled.held

  -- Ticks numbered after `n`, each with what the server told by then.
  pub run : ℕ → Impl ops physics → List (Option Acknowledgement) → Impl ops physics
  run n w [] = w
  run n w (ack ∷ acks) = run (suc n) (tick ops physics w (commands (suc n)) (suc n) ack dt) acks

  run-Agrees :
      (n : ℕ) (w : Impl ops physics) (acks : List (Option Acknowledgement))
      → laws.snap spawned.body ≡ spawned.body
      → All Told acks
      → AgreesAt n w
      → AgreesAt (n + length acks) (run n w acks)
  unfolding run
  run-Agrees n w [] start told a =
      let same : n ≡ n + 0 = omega arith in subst (λ i. AgreesAt i w) same a
  run-Agrees n w (ack ∷ acks) start told a =
      let next = tick-Agrees n w ack start told.0 a in
      let rest =
        run-Agrees (suc n) (tick ops physics w (commands (suc n)) (suc n) ack dt) acks start told.1
          next in
      let same : suc n + length acks ≡ n + suc (length acks) = omega arith in
      subst
        (λ i. AgreesAt i (run (suc n) (tick ops physics w (commands (suc n)) (suc n) ack dt) acks))
        same rest

  pub run_agrees :
      (w : Impl ops physics) (acks : List (Option Acknowledgement))
      → laws.snap spawned.body ≡ spawned.body
      → All Told acks
      → AgreesAt 0 w
      → AgreesAt (length acks) (run 0 w acks)
  run_agrees w acks start told a =
      let same : 0 + length acks ≡ length acks = omega arith in
      subst (λ i. AgreesAt i (run 0 w acks)) same (run-Agrees 0 w acks start told a)

module _ (ops : FloatOps) (physics : Physics) (laws : Laws physics) (dt : ℕ)
    (commands : ℕ → Command) where
  -- The player that a World starts with.
  abbrev pub spawned_of : Impl ops physics → Predicted
  spawned_of w = record {
    body = w.tick_state.local_body;
    fall = physics.fall w.world;
    rifle = w.rifle;
  }

  -- The server's player from there on.
  abbrev pub server_of : Impl ops physics → ℕ → Predicted
  server_of w =
      server ops physics laws (laws.rules w.world) w.rifle_rules dt (spawned_of w) commands

  abbrev pub ToldOf : Impl ops physics → Option Acknowledgement → Type 0
  ToldOf w = Told ops physics laws (laws.rules w.world) w.rifle_rules dt (spawned_of w) commands

  abbrev pub run_of : Impl ops physics → List (Option Acknowledgement) → Impl ops physics
  run_of w = run ops physics laws (laws.rules w.world) w.rifle_rules dt (spawned_of w) commands 0 w

  start-Agrees :
      (w : Impl ops physics) (spawn : Vec3) (stamina : physics.StaminaConfig) (rifle : Rifle)
      → laws.snap (body_at spawn) ≡ body_at spawn
      → let started = start ops physics w spawn stamina rifle in
        Agrees ops physics laws
          (laws.rules started.world)
          started.rifle_rules
          dt
          (spawned_of started)
          commands
          0
          started
  unfolding start server
  start-Agrees w spawn stamina rifle snapped =
      let fresh = physics.set_stamina_config w.world stamina in
      let stands : Stands ops physics laws
          (laws.rules (start ops physics w spawn stamina rifle).world) rifle dt
          (start ops physics w spawn stamina rifle).world
          (spawned_of (start ops physics w spawn stamina rifle)) =
        record {
          held = laws.set_state_held fresh (body_at spawn) ∙ snapped;
          fall = refl;
          ruled = refl;
        } in
      record {
        now = record { stands = stands; body = refl; rifle = refl; rifle_ruled = refl };
        oldest = 0;
        held = refl;
      }

  -- From Start at a spawn that is on the grids, over any history of ticks on commands numbered from
  -- 1, where each acknowledgement tells the body and the rifle that a server which steps the same
  -- commands had after the one with its number, the client's body and rifle are that server's after
  -- the newest command.
  pub client_follows_server :
      (w : Impl ops physics) (spawn : Vec3) (stamina : physics.StaminaConfig) (rifle : Rifle)
      (acks : List (Option Acknowledgement))
      → laws.snap (body_at spawn) ≡ body_at spawn
      → All (ToldOf (start ops physics w spawn stamina rifle)) acks
      → let started = start ops physics w spawn stamina rifle in
        let after = run_of started acks in
        let there = server_of started (length acks) in
        (after.tick_state.local_body ≡ there.body) × (after.rifle ≡ there.rifle)
  unfolding start
  client_follows_server w spawn stamina rifle acks snapped told =
      let started = start ops physics w spawn stamina rifle in
      let agrees =
        run_agrees ops physics laws (laws.rules started.world) started.rifle_rules dt
          (spawned_of started) commands started acks snapped told
          (start-Agrees w spawn stamina rifle snapped) in
      (agrees.now.body, agrees.now.rifle)
