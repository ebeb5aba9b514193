-- ===== src/Host/Match/History.antt =====
-- What holds of a Match after any sequence of calls.
use augusta.Common.{ℕ, suc, ◌+◌, ◌≤◌, ◌<◌, ◌≡◌, Option, none, some, List, [], ◌∷◌, length, arith}
use augusta.Host.Match.{
  Match, MatchConfig, MatchStart, JoinRequest, u32_mod, make_match, join, leave, ready, tick,
  try_start, end_match,
}
use augusta.Host.Match.Sessions.{
  Inv, make_match-Inv, join-Inv, leave-Inv, ready-Inv, tick-Inv, end_match-Inv, try_start-Inv,
}

pub data Call : Type 0 where
  joins : ℕ → JoinRequest → Call
  leaves : ℕ → Call
  readies : ℕ → ℕ → Call
  ticks : Call
  tries_start : Call
  ends : Option ℕ → Call

module _ (ids : ℕ → ℕ) where
  unfoldable pub step : Match → Call → Match
  step m (joins peer r) = (join ids m peer r).0
  step m (leaves peer) = (leave m peer).0
  step m (readies peer version) = (ready m peer version).0
  step m ticks = tick m
  step m tries_start = (try_start ids m).0
  step m (ends winner) = (end_match m winner).0

  unfoldable pub run : Match → List Call → Match
  run m [] = m
  run m (c ∷ cs) = run (step m c) cs

  -- The Match starts that a sequence of calls makes.
  unfoldable pub started : Match → List Call → List MatchStart
  started m [] = []
  started m (tries_start ∷ cs) = elim (try_start ids m).1 [
    | none ↦ started (step m tries_start) cs
    | some s ↦ s ∷ started (step m tries_start) cs
  ]
  started m (c ∷ cs) = started (step m c) cs

  -- What a call keeps of the settings, and how far it moves the version.
  record Kept (m k : Match) : Type 0 where
    version : k.roster_version ≤ m.roster_version + 1
    count : k.player_count ≡ m.player_count
    pause : k.pause_ticks ≡ m.pause_ticks

  step-Kept : (m : Match) (c : Call) → m.roster_version + 1 < u32_mod → Kept m (step m c)
  unfolding step join leave ready tick try_start end_match
  step-Kept m (joins peer r) h = ground arith
  step-Kept m c h = ground arith

module _ (ids : ℕ → ℕ) (later : (n : ℕ) → ids n < ids (suc n)) where
  step-Inv :
      (m : Match) (c : Call)
      → m.roster_version + 1 < u32_mod
      → 0 < m.player_count
      → m.pause_ticks < u32_mod
      → Inv ids m
      → Inv ids (step ids m c)
  unfolding step
  step-Inv m (joins peer r) h p q v = join-Inv ids later m peer r h v
  step-Inv m (leaves peer) h p q v = leave-Inv ids later m peer h v
  step-Inv m (readies peer version) h p q v = ready-Inv ids later m peer version v
  step-Inv m ticks h p q v = tick-Inv ids later m q v
  step-Inv m tries_start h p q v = try_start-Inv ids later m p v
  step-Inv m (ends winner) h p q v = end_match-Inv ids later m winner h v

  run_from-Inv :
      (m : Match) (cs : List Call)
      → m.roster_version + length cs < u32_mod
      → 0 < m.player_count
      → m.pause_ticks < u32_mod
      → Inv ids m
      → Inv ids (run ids m cs)
  unfolding run
  run_from-Inv m [] h p q v = v
  run_from-Inv m (c ∷ cs) h p q v =
      let k = step-Kept ids m c (omega arith) in
      run_from-Inv (step ids m c) cs (omega arith) (omega arith) (omega arith)
        (step-Inv m c (omega arith) p q v)

  -- After any history of fewer than 2^32 calls of join, leave, ready, tick, try_start and end_match
  -- from a fresh Match, where Session IDs rise, at least one player is asked for and the pause fits
  -- 32 bits: each peer has one entry, sessions fall along the members, no ready_version is ahead of
  -- the Roster's, the members fit the player count, the ticks counted fit the pause, and a Match in
  -- progress has a member.
  pub run-make_match-Inv :
      (c : MatchConfig) (cs : List Call)
      → length cs < u32_mod
      → 0 < c.player_count
      → c.pause_ticks < u32_mod
      → Inv ids (run ids (make_match c) cs)
  unfolding make_match
  run-make_match-Inv c cs h p q =
      run_from-Inv (make_match c) cs (omega arith) p q (make_match-Inv ids c)
