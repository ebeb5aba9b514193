-- ===== src/Host/Match/Entities.antt =====
-- Entity IDs over any history of a Match.
use augusta.Common.{
  ℕ, suc, ◌+◌, ◌*◌, ◌%◌, ◌<◌, ◌≡◌, ◌≢◌, refl, ap, ◌∙◌, Rising-mono, true, false, none, some, List,
  [], ◌∷◌, ◌++◌, length, arith, Rising, inl, inr, Bool-cases,
}
use augusta.Host.Match.{
  Match, MatchStart, MatchPlayer, Member, u32_mod, join, leave, ready, tick, try_start, may_start,
  end_match, members_by_session, start_players, after_players,
}
use augusta.Host.Match.Starting.{length-members_by_session, may_start_iff, start_players-Rising}
use augusta.Host.Match.History.{Call, joins, tries_start, step, started}

-- The players of every Match started, in order.
abbrev pub players_of : List MatchStart → List MatchPlayer
players_of [] = []
players_of (s ∷ ss) = s.players ++ players_of ss

start_players-append-Rising :
    (n : ℕ) (es : List Member) (rest : List MatchPlayer)
    → n + length es < u32_mod
    → Rising (λ p. p.entity) (n + length es) rest
    → Rising (λ p. p.entity) n (start_players n es ++ rest)
unfolding start_players
start_players-append-Rising n [] rest h r =
    Rising-mono (λ (p : MatchPlayer). p.entity) rest (omega arith) r
start_players-append-Rising n (e ∷ es) rest h r =
    let next : (n + 1) % u32_mod ≡ suc n = omega arith in
    let shift : n + suc (length es) ≡ suc n + length es = omega arith in
    rw next (omega arith, start_players-append-Rising (suc n) es rest (omega arith) (rw shift at r))

module _ (ids : ℕ → ℕ) where
  step-entity :
      (m : Match) (c : Call)
      → c ≢ tries_start
      → ((step ids m c).next_entity ≡ m.next_entity)
        × ((step ids m c).player_count ≡ m.player_count)
  unfolding step join leave ready tick end_match
  step-entity m tries_start h = absurd (h refl)
  step-entity m (joins peer r) h = ground arith
  step-entity m c h = ground arith

  not_started : (m : Match) → may_start m ≡ false → try_start ids m ≡ (m, none)
  unfolding try_start
  not_started m h = rw h

  starts_now :
      (m : Match)
      → may_start m ≡ true
      → ((try_start ids m).1
          ≡ some (record {
            players = start_players m.next_entity (members_by_session m);
            match_id = ids m.ids_taken;
          }))
        × ((try_start ids m).0.next_entity ≡ after_players m.next_entity (members_by_session m))
        × ((try_start ids m).0.player_count ≡ m.player_count)
  unfolding try_start
  starts_now m h = rw h (refl, refl, refl)

  started_some :
      (m : Match) (cs : List Call) {s : MatchStart}
      → (try_start ids m).1 ≡ some s
      → started ids m (tries_start ∷ cs) ≡ s ∷ started ids (step ids m tries_start) cs
  unfolding started
  started_some m cs h = rw (h, started)

  started_none :
      (m : Match) (cs : List Call)
      → try_start ids m ≡ (m, none)
      → started ids m (tries_start ∷ cs) ≡ started ids m cs
  unfolding started step
  started_none m cs h =
      let quiet : (try_start ids m).1 ≡ none = rw h in
      let same : (try_start ids m).0 ≡ m = rw h in
      rw (quiet, started) (ap (λ k. started ids k cs) same)

  entities-Rising :
      (b : ℕ) (m : Match) (cs : List Call)
      → m.next_entity ≡ b
      → b + length cs * m.player_count < u32_mod
      → Rising (λ p. p.entity) b (players_of (started ids m cs))
  unfolding started step
  entities-Rising b m [] e h = tt
  entities-Rising b m (tries_start ∷ cs) e h = elim (Bool-cases (may_start m)) [
    | inl ok ↦
        let full : length (members_by_session m) ≡ m.player_count =
          length-members_by_session m ∙ ((may_start_iff m).0 ok).1 in
        let now = starts_now m ok in
        let counted = start_players-Rising m.next_entity (members_by_session m) (omega arith) in
        rw (started_some m cs now.0) (
          Rising-mono (λ (p : MatchPlayer). p.entity) _ (omega arith)
            (start_players-append-Rising m.next_entity (members_by_session m) _ (omega arith) (
              entities-Rising (m.next_entity + length (members_by_session m))
                (step ids m tries_start) cs (now.1 ∙ counted.1) (rw now.2 (omega arith)))))
    | inr not_yet ↦
        rw (started_none m cs (not_started m not_yet)) (entities-Rising b m cs e (omega arith))
  ]
  entities-Rising b m (c ∷ cs) e h =
      let s = step-entity m c (λ q. cc) in
      entities-Rising b (step ids m c) cs (s.0 ∙ e) (rw s.1 (omega arith))

  -- The players of all the Matches that a history starts have strictly rising entity IDs from
  -- next_entity on, across Matches too, while the IDs it could use fit 32 bits.
  pub started_entities-Rising :
      (m : Match) (cs : List Call)
      → m.next_entity + length cs * m.player_count < u32_mod
      → Rising (λ p. p.entity) m.next_entity (players_of (started ids m cs))
  started_entities-Rising m cs h = entities-Rising m.next_entity m cs refl h
