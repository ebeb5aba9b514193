-- ===== src/Host/Match/Starting.antt =====
-- When a Match starts, and who is in it: TryStart against the Roster, the entity IDs and End.
use mathlib.Core.List.{Mem, mem-cons, mem-cons_of_mem}
use mathlib.Core.List.Perm
use mathlib.Core.Logic.Or
use augusta.Common.{
  ℕ, zero, suc, ◌+◌, ◌%◌, ◌≤◌, ◌<◌, ◌≡◌, refl, ap, ◌∙◌, ◌↔◌, true, false, Option, none, some, List,
  [], ◌∷◌, map, length, All, all_of, any_of, arith, ◌==◌, Bool-cases, inl, inr, Rising,
  DistinctKeys, Unused, sort_by-Rising, sort_by-perm, length-sort_by, length-map,
}
use augusta.Host.Match.{
  Match, Member, MatchStart, MatchEnd, RosterEntry, u32_mod, try_start, may_start, end_match,
  playing, is_playing, winner_playing, members_by_session, start_players, after_players, get_roster,
}
use augusta.Host.Match.Sessions.{Inv, Older}

-- Everyone in the Lobby has loaded the current Roster.
abbrev pub AllReady : Match → Type 0
AllReady m = All (λ e. e.1.ready_version ≡ m.roster_version) m.members

all_of-AllReady :
    (v : ℕ) (es : List (ℕ × Member))
    → (all_of (λ e. e.1.ready_version == v) es ≡ true) ↔ All (λ e. e.1.ready_version ≡ v) es
all_of-AllReady v [] = (λ _. tt, λ _. refl)
all_of-AllReady v ((p, e) ∷ es) =
    (λ h. ground (arith, (all_of-AllReady v es).0), λ h. ground (arith, (all_of-AllReady v es).1))

start_players-session :
    (n : ℕ) (es : List Member) → map (λ p. p.session) (start_players n es) ≡ map (λ e. e.session) es
unfolding start_players
start_players-session n [] = refl
start_players-session n (e ∷ es) = ap (◌∷◌ e.session) (start_players-session ((n + 1) % u32_mod) es)

pub start_players-Rising :
    (n : ℕ) (es : List Member)
    → n + length es < u32_mod
    → Rising (λ p. p.entity) n (start_players n es) × (after_players n es ≡ n + length es)
unfolding start_players
start_players-Rising n [] h = (tt, omega arith)
start_players-Rising n (e ∷ es) h =
    let next : (n + 1) % u32_mod ≡ suc n = omega arith in
    let rest = start_players-Rising (suc n) es (omega arith) in
    rw next ((omega arith, rest.0), omega (arith, rest.1))

-- The numbers from `n` on, as many as `k`.
abbrev pub consecutive : ℕ → ℕ → List ℕ
consecutive n zero = []
consecutive n (suc k) = n ∷ consecutive (suc n) k

start_players-consecutive :
    (n : ℕ) (es : List Member)
    → n + length es < u32_mod
    → map (λ p. p.entity) (start_players n es) ≡ consecutive n (length es)
unfolding start_players
start_players-consecutive n [] h = refl
start_players-consecutive n (e ∷ es) h =
    let next : (n + 1) % u32_mod ≡ suc n = omega arith in
    rw next (ap (◌∷◌ n) (start_players-consecutive (suc n) es (omega arith)))

-- A Match may start exactly when none is in progress, there are as many members as the player
-- count, the pause is over and every member has loaded the current Roster.
pub may_start_iff :
    (m : Match)
    → (may_start m ≡ true) ↔ (
        (m.in_match ≡ false)
        × (length m.members ≡ m.player_count)
        × (m.pause_ticks ≤ m.ticks_since_end)
        × AllReady m)
unfolding may_start
may_start_iff m = (
  λ h. ground (arith, (all_of-AllReady m.roster_version m.members).0),
  λ h. ground (arith, (all_of-AllReady m.roster_version m.members).1),
)

Older-Unused :
    {n k : ℕ} (es : List (ℕ × Member))
    → n ≤ k
    → Older n es
    → Unused (λ (e : Member). e.session) k (map (λ e. e.1) es)
Older-Unused [] h o = tt
Older-Unused ((p, e) ∷ es) h o = ((λ q. absurd (omega arith)), Older-Unused es (omega arith) o.1)

Older-DistinctKeys :
    (n : ℕ) (es : List (ℕ × Member))
    → Older n es
    → DistinctKeys (λ (e : Member). e.session) (map (λ e. e.1) es)
Older-DistinctKeys n [] o = tt
Older-DistinctKeys n ((p, e) ∷ es) o =
    (Older-Unused es (omega arith) o.1, Older-DistinctKeys e.session es o.1)

-- The members come out in strictly rising order of their sessions.
pub members_by_session-Rising :
    (ids : ℕ → ℕ) (m : Match)
    → Inv ids m
    → Rising (λ (e : Member). e.session) 0 (members_by_session m)
unfolding members_by_session
members_by_session-Rising ids m v =
    sort_by-Rising (λ (e : Member). e.session) _ (Older-DistinctKeys _ m.members v.older)

Rising-entries :
    (n : ℕ) (es : List Member)
    → Rising (λ (e : Member). e.session) n es
    → Rising
        (λ (r : RosterEntry). r.session)
        n
        (map (λ e. record { session = e.session; character = e.character }) es)
Rising-entries n [] r = tt
Rising-entries n (e ∷ es) r = (r.0, Rising-entries (suc e.session) es r.1)

pub length-members_by_session : (m : Match) → length (members_by_session m) ≡ length m.members
unfolding members_by_session
length-members_by_session m =
    length-sort_by (λ (e : Member). e.session) (map (λ e. e.1) m.members)
    ∙ length-map (λ e. e.1) m.members

-- Under the invariant and with no Match in progress, the Roster lists as many players as there are
-- members, by strictly rising session, under the current version.
pub get_roster_lem :
    (ids : ℕ → ℕ) (m : Match)
    → Inv ids m
    → m.in_match ≡ false
    → Rising (λ (r : RosterEntry). r.session) 0 (get_roster m).players
      × (length (get_roster m).players ≡ length m.members)
      × ((get_roster m).version ≡ m.roster_version)
unfolding get_roster members_by_session
get_roster_lem ids m v lobby = rw lobby (
  Rising-entries 0 (members_by_session m) (members_by_session-Rising ids m v),
  length-map _ (members_by_session m) ∙ length-members_by_session m,
  refl,
)

length-start_players : (n : ℕ) (es : List Member) → length (start_players n es) ≡ length es
unfolding start_players
length-start_players n [] = refl
length-start_players n (e ∷ es) = ap suc (length-start_players ((n + 1) % u32_mod) es)

started_members :
    (ids : ℕ → ℕ) (m : Match) → members_by_session (try_start ids m).0 ≡ members_by_session m
unfolding members_by_session try_start
started_members ids m = ground arith

-- A Match that may start, under the invariant and while its entity IDs fit 32 bits, does start: its
-- players are the members in session order, as many as the player count, under consecutive entity
-- IDs from the next one on, and the one after theirs is the next.
pub try_start_lem :
    (ids : ℕ → ℕ) (m : Match)
    → Inv ids m
    → may_start m ≡ true
    → m.next_entity + m.player_count < u32_mod
    → (s : MatchStart) × ((try_start ids m).1 ≡ some s)
      × (map (λ p. p.session) s.players ≡ playing (try_start ids m).0)
      × (map (λ p. p.entity) s.players ≡ consecutive m.next_entity m.player_count)
      × ((try_start ids m).0.next_entity ≡ m.next_entity + length s.players)
      × (length s.players ≡ m.player_count)
unfolding try_start playing
try_start_lem ids m v ok wide =
    let full : length m.members ≡ m.player_count = ((may_start_iff m).0 ok).1 in
    let count = length-members_by_session m in
    let made = start_players-Rising m.next_entity (members_by_session m) (omega arith) in
    let sessions = start_players-session m.next_entity (members_by_session m) in
    let same : members_by_session (try_start ids m).0 ≡ members_by_session m =
      started_members ids m in
    rw (same, ok)
      (
        record {
          players = start_players m.next_entity (members_by_session m);
          match_id = ids m.ids_taken;
        },
        refl,
        sessions,
        start_players-consecutive m.next_entity (members_by_session m) (omega arith)
            ∙ ap (consecutive m.next_entity) (count ∙ full),
        omega (arith, made.1, length-start_players m.next_entity (members_by_session m)),
        omega (arith, length-start_players m.next_entity (members_by_session m)),
      )

any_of-session :
    (w : ℕ) (es : List (ℕ × Member))
    → any_of (λ e. e.1.session == w) es ≡ true
    → Mem w (map (λ e. e.session) (map (λ e. e.1) es))
any_of-session w [] h = cc
any_of-session w ((p, e) ∷ es) h = elim (Bool-cases (e.session == w)) [
  | inl hit ↦ let same : w ≡ e.session = ground arith in mem-cons.1 (Or.inl same)
  | inr miss ↦ mem-cons_of_mem e.session (any_of-session w es (rw miss at h))
]

Mem-playing : (m : Match) (w : ℕ) → is_playing m w ≡ true → m.in_match ≡ true → Mem w (playing m)
unfolding is_playing playing members_by_session
Mem-playing m w h p = rw p (
    (Perm.mem_iff (
        Perm.map (λ (e : Member). e.session)
          (Perm.symm (sort_by-perm (λ (e : Member). e.session) (map (λ e. e.1) m.members))))).0
      (any_of-session w m.members (ground arith)))

winner_playing-some :
    (m : Match) (given : Option ℕ) (w : ℕ)
    → winner_playing m given ≡ some w
    → (given ≡ some w) × (is_playing m w ≡ true)
unfolding winner_playing
winner_playing-some m none w h = cc
winner_playing-some m (some g) w h = ground arith

-- A Match end that names a winner names the one it was given, and that one is among the players it
-- lists.
pub end_match-winner :
    (m : Match) (given : Option ℕ) (e : MatchEnd) (w : ℕ)
    → (end_match m given).1 ≡ some e
    → e.winner ≡ some w
    → (given ≡ some w) × Mem w e.players
unfolding end_match
end_match-winner m given e w ended won =
    let named : winner_playing m given ≡ some w = ground arith in
    let facts = winner_playing-some m given w named in
    let same : e.players ≡ playing m = ground arith in
    (facts.0, rw same (Mem-playing m w facts.1 (ground arith)))
