-- ===== src/Prediction/Agreement.antt =====
-- The client against a server that steps the same commands.
use augusta.Common.{
  ℕ, zero, suc, ◌≡◌, refl, sym, ap, ◌∙◌, not, ◌||◌, Option, none, some, List, [], ◌∷◌, ltb, ◌==◌,
  arith, inl, inr, Bool-cases, FloatOps,
}
use mathlib.Core.Path.{subst}
use augusta.Command.{Command}
use augusta.Grid.{snap_angle}
use augusta.Physics.{Physics, Laws}
use augusta.Weapon.{Rifle}
use augusta.Prediction.{
  Predicted, Entry, Acknowledgement, Impl, acknowledge, discard_older, reconcile_with, correct,
  body_needs_correction, same_rifle,
}
use augusta.Prediction.Server.{serve, carry, mark, At, told, correct-carry}

module _ (ops : FloatOps) (physics : Physics) (laws : Laws physics) (rules : laws.Rules)
    (rifle_rules : Rifle) (dt : ℕ) (spawned : Predicted) (commands : ℕ → Command) where
  -- The player on the server, after each of the commands numbered from 1.
  unfoldable pub server : ℕ → Predicted
  unfolding serve
  server zero = spawned
  server (suc k) = serve ops physics laws rules rifle_rules dt (server k) (commands (suc k))

  -- What is held is a run of the commands up to the newest, each with the player after it.
  abbrev pub Held : ℕ → ℕ → List Entry → Type 0
  Held k n [] = k ≡ n
  Held k n (e ∷ es) =
      (e.sequence ≡ suc k)
      × (e.command ≡ commands (suc k))
      × (e.predicted ≡ server (suc k))
      × Held (suc k) n es

  pub record Agrees (n : ℕ) (w : Impl ops physics) : Type 0 where
    pub now : At ops physics laws rules rifle_rules dt w (server n)
    pub oldest : ℕ
    pub held : Held oldest n w.history

  -- The server tells of the player after a command as it was.
  abbrev pub Honest : Acknowledgement → Type 0
  Honest ack = (ack.body ≡ (server ack.sequence).body) × (ack.rifle ≡ (server ack.sequence).rifle)

  -- Nothing, or the prediction of the sequence with what is newer.
  abbrev pub Found : ℕ → ℕ → Option Predicted × List Entry → Type 0
  Found j n (none, es) = (k : ℕ) × Held k n es
  Found j n (some p, es) = (p ≡ server j) × Held j n es

  pub acknowledge-Found : (j k n : ℕ) (es : List Entry) → Held k n es → Found j n (acknowledge j es)
  unfolding acknowledge discard_older
  acknowledge-Found j k n [] h = (k, h)
  acknowledge-Found j k n (e ∷ es) h = elim (Bool-cases (ltb e.sequence j)) [
    | inl older ↦ rw (older, acknowledge, discard_older) (acknowledge-Found j (suc k) n es h.3)
    | inr kept ↦ elim (Bool-cases (e.sequence == j)) [
      | inl hit ↦
          rw (kept, hit, acknowledge, discard_older)
            (let same : suc k ≡ j = ground arith in
              (h.2 ∙ ap server same, subst (λ i. Held i n es) same h.3))
      | inr miss ↦ rw (kept, miss, acknowledge, discard_older) (k, h)
    ]
  ]

  carry-Held :
      (k n : ℕ) (es : List Entry)
      → Held k n es
      → (carry ops physics laws rules rifle_rules dt (server k) es ≡ server n)
        × (mark ops physics laws rules rifle_rules dt (server k) es ≡ es)
  unfolding carry mark server
  carry-Held k n [] h = (ap server h, refl)
  carry-Held k n (e ∷ es) h =
      let next = serve ops physics laws rules rifle_rules dt (server k) in
      let rest = carry-Held (suc k) n es h.3 in
      let marked = mark ops physics laws rules rifle_rules dt in
      (
        ap (λ c. carry ops physics laws rules rifle_rules dt (next c) es) h.1 ∙ rest.0,
        ap (λ p. record e { predicted = p } ∷ marked (next e.command) es) (ap next h.1 ∙ sym h.2)
            ∙ ap (λ c. e ∷ marked (next c) es) h.1
            ∙ ap (◌∷◌ e) rest.1,
      )

  -- What the server tells of is on the grids, if what it spawned is.
  server-snapped :
      laws.snap spawned.body ≡ spawned.body → (k : ℕ) → laws.snap (server k).body ≡ (server k).body
  unfolding server serve
  server-snapped start zero = start
  server-snapped start (suc k) =
      let s = server k in
      let c = commands (suc k) in
      laws.advance_snapped rules s.body s.fall c.movement dt
        (physics.pacing_of s.body (snap_angle ops c.yaw))

  told-server :
      (ack : Acknowledgement) (p : Predicted)
      → Honest ack
      → p ≡ server ack.sequence
      → told ack p ≡ server ack.sequence
  told-server ack p honest e = rw (honest.0, honest.1, e) refl

  pub reconcile_with-Agrees :
      (n : ℕ) (w : Impl ops physics) (ack : Acknowledgement) (found : Option Predicted)
      (entries : List Entry)
      → laws.snap spawned.body ≡ spawned.body
      → At ops physics laws rules rifle_rules dt w (server n)
      → Honest ack
      → Found ack.sequence n (found, entries)
      → Agrees n (reconcile_with ops physics w ack found entries dt)
  unfolding reconcile_with
  reconcile_with-Agrees n w ack none entries start a honest f = record {
    now = record { stands = a.stands; body = a.body; rifle = a.rifle; rifle_ruled = a.rifle_ruled };
    oldest = f.0;
    held = f.1;
  }
  reconcile_with-Agrees n w ack (some p) entries start a honest f =
      let differs = not (same_rifle ops ack.rifle p.rifle) in
      elim (Bool-cases (body_needs_correction ops ack.body p.body || differs)) [
        | inl wrong ↦
            let there = told-server ack p honest f.0 in
            let ahead = carry-Held ack.sequence n entries f.1 in
            let snapped =
              ap laws.snap honest.0 ∙ server-snapped start ack.sequence ∙ sym honest.0 in
            let c =
              correct-carry ops physics laws rules rifle_rules dt w ack p entries differs
                a.stands.ruled a.rifle_ruled snapped in
            let carried = carry ops physics laws rules rifle_rules dt in
            let marked = mark ops physics laws rules rifle_rules dt in
            let corrected = correct ops physics w ack p entries differs dt in
            let now : At ops physics laws rules rifle_rules dt corrected (server n) =
              subst (At ops physics laws rules rifle_rules dt corrected)
                (ap (λ s. carried s entries) there ∙ ahead.0) c.0 in
            let held : Held ack.sequence n corrected.history =
              subst (Held ack.sequence n) (sym (c.1 ∙ ap (λ s. marked s entries) there ∙ ahead.1))
                f.1 in
            rw wrong (record { now = now; oldest = ack.sequence; held = held })
        | inr right ↦
            let now : At ops physics laws rules rifle_rules dt (record w { history = entries })
                (server n) =
              record {
                stands = a.stands;
                body = a.body;
                rifle = a.rifle;
                rifle_ruled = a.rifle_ruled;
              } in
            rw right (record { now = now; oldest = ack.sequence; held = f.1 })
      ]
