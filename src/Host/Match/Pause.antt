-- ===== src/Host/Match/Pause.antt =====
-- The pause between two Matches, over any sequence of calls, and how a full, Ready Lobby starts.
use augusta.Common.{
  ℕ, zero, suc, ◌+◌, ◌≤◌, ◌<◌, ◌≡◌, refl, true, false, Option, none, List, [], ◌∷◌, length, arith,
  inl, inr, not, ◌&&◌, ltb, Bool-cases,
}
use augusta.Host.Match.{Match, u32_mod, join, leave, ready, tick, try_start, may_start, end_match}
use augusta.Host.Match.Starting.{AllReady, may_start_iff}
use augusta.Host.Match.History.{Call, ticks, tries_start, step, started}

abbrev pub tick_count : List Call → ℕ
tick_count [] = 0
tick_count (ticks ∷ cs) = suc (tick_count cs)
tick_count (c ∷ cs) = tick_count cs

module _ (ids : ℕ → ℕ) where
  abbrev tick_cost : Call → ℕ
  tick_cost ticks = 1
  tick_cost c = 0

  -- Between Matches a call that is no start brings the next one nearer by a tick at most.
  step-resting :
      (m : Match) (c : Call)
      → m.in_match ≡ false
      → m.ticks_since_end + tick_cost c < m.pause_ticks
      → m.pause_ticks < u32_mod
      → ((step ids m c).in_match ≡ false)
        × ((step ids m c).ticks_since_end ≤ m.ticks_since_end + tick_cost c)
        × ((step ids m c).pause_ticks ≡ m.pause_ticks)
  unfolding step join leave ready tick try_start may_start end_match
  step-resting m ticks lobby h p = ground arith
  step-resting m c lobby h p = ground arith

  may_not_start : (m : Match) → m.ticks_since_end < m.pause_ticks → (try_start ids m).1 ≡ none
  unfolding try_start may_start
  may_not_start m h = ground arith

  no_start_resting :
      (m : Match) (cs : List Call)
      → m.in_match ≡ false
      → m.ticks_since_end + tick_count cs < m.pause_ticks
      → m.pause_ticks < u32_mod
      → started ids m cs ≡ []
  unfolding started
  no_start_resting m [] lobby h p = refl
  no_start_resting m (tries_start ∷ cs) lobby h p =
      let s = step-resting m tries_start lobby (omega arith) p in
      rw (may_not_start m (omega arith), started)
        (no_start_resting (step ids m tries_start) cs s.0 (omega (arith, s.1, s.2))
          (omega (arith, s.2)))
  no_start_resting m (ticks ∷ cs) lobby h p =
      let s = step-resting m ticks lobby (omega arith) p in
      no_start_resting (step ids m ticks) cs s.0 (omega (arith, s.1, s.2)) (omega (arith, s.2))
  no_start_resting m (c ∷ cs) lobby h p =
      let s = step-resting m c lobby (omega arith) p in
      no_start_resting (step ids m c) cs s.0 (omega (arith, s.1, s.2)) (omega (arith, s.2))

  -- After a Match in progress ends, no history with fewer ticks than the pause starts another,
  -- whatever else is called, where the pause fits 32 bits.
  pub no_start_in_pause :
      (m : Match) (winner : Option ℕ) (cs : List Call)
      → m.in_match ≡ true
      → tick_count cs < m.pause_ticks
      → m.pause_ticks < u32_mod
      → started ids (end_match m winner).0 cs ≡ []
  unfolding end_match
  no_start_in_pause m winner cs playing h p =
      no_start_resting (end_match m winner).0 cs (ground arith) (ground arith) (ground arith)

unfoldable pub ticked : ℕ → Match → Match
ticked zero m = m
ticked (suc n) m = ticked n (tick m)

module _ (m : Match) (lobby : m.in_match ≡ false) (p : m.pause_ticks < u32_mod) where
  tick-AllReady : AllReady m → AllReady (tick m)
  unfolding tick
  tick-AllReady all = elim (Bool-cases (not m.in_match && ltb m.ticks_since_end m.pause_ticks)) [
    | inl counts ↦ rw counts all
    | inr over ↦ rw over all
  ]

  tick-lobby :
      (n : ℕ)
      → m.pause_ticks ≤ m.ticks_since_end + suc n
      → ((tick m).in_match ≡ false)
        × ((tick m).members ≡ m.members)
        × ((tick m).player_count ≡ m.player_count)
        × ((tick m).pause_ticks ≡ m.pause_ticks)
        × ((tick m).pause_ticks ≤ (tick m).ticks_since_end + n)
  unfolding tick
  tick-lobby n h = ground arith

-- With no Match in progress, a Lobby with as many members as the player count, all of them Ready,
-- may start once it is ticked through the rest of the pause, which fits 32 bits.
pub ready_lobby_starts :
    (n : ℕ) (m : Match)
    → m.in_match ≡ false
    → length m.members ≡ m.player_count
    → AllReady m
    → m.pause_ticks < u32_mod
    → m.pause_ticks ≤ m.ticks_since_end + n
    → may_start (ticked n m) ≡ true
unfolding ticked
ready_lobby_starts zero m lobby full all p h = (may_start_iff m).1 (lobby, full, omega arith, all)
ready_lobby_starts (suc n) m lobby full all p h =
    let t = tick-lobby m lobby p n h in
    ready_lobby_starts n (tick m) t.0 (rw (t.1, t.2) full) (tick-AllReady m lobby p all)
      (omega (arith, t.3)) t.4
