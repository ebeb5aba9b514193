-- ===== src/Host/Match/Members.antt =====
-- What holds of every member, in the lists that the Match gives of them.
use augusta.Common.{
  ℕ, suc, ◌+◌, ◌%◌, ◌≡◌, refl, ap, true, false, inl, inr, ◌⊎◌, Option, none, some, List, [], ◌∷◌,
  map, String, All, All-map, All-of_map, All-from_map, any_of, Rising, DistinctKeys, sort_by-Rising,
  All-sort_by, All-sort_by_back, Bool-cases, arith, ◌==◌, ==_refl,
}
use augusta.Host.Match.{
  Match, Member, MatchStart, MatchEnd, RosterEntry, u32_mod, members_by_session, playing,
  is_playing, end_match, winner_playing, get_roster, start_players, after_players, may_start,
  try_start, tick,
}

pub members_by_session-All {κ} :
    (P : Member → Type κ) (m : Match) → All (λ e. P e.1) m.members → All P (members_by_session m)
unfolding members_by_session
members_by_session-All P m h =
    All-sort_by (λ e. e.session) P (map (λ e. e.1) m.members) (All-of_map P (λ e. e.1) m.members h)

-- Of a Match in progress; of a Lobby there is none.
pub playing-All {κ} :
    (P : ℕ → Type κ) (m : Match)
    → (m.in_match ≡ true → All (λ e. P e.1.session) m.members)
    → All P (playing m)
unfolding playing members_by_session
playing-All P m h = elim (Bool-cases m.in_match) [
  | inr lobby ↦ rw (lobby, playing) tt
  | inl on ↦
      rw (on, playing)
        (All-of_map P (λ e. e.session) (members_by_session m)
          (members_by_session-All (λ e. P e.session) m (h on)))
]

-- The sessions that play rise, if no two members have one.
pub playing-Rising :
    (m : Match)
    → DistinctKeys (λ (e : Member). e.session) (map (λ e. e.1) m.members)
    → (es : List Member) × Rising (λ (e : Member). e.session) 0 es
      × (playing m ≡ map (λ e. e.session) es)
unfolding playing members_by_session
playing-Rising m d = elim (Bool-cases m.in_match) [
  | inr lobby ↦ ([], tt, rw (lobby, playing) refl)
  | inl on ↦ (
    members_by_session m,
    sort_by-Rising (λ (e : Member). e.session) (map (λ e. e.1) m.members) d,
    rw (on, playing) refl,
  )
]

pub roster-All {κ} :
    (P : ℕ → Type κ) (m : Match)
    → All (λ e. P e.1.session) m.members
    → All P (map (λ e. e.session) (get_roster m).players)
unfolding get_roster members_by_session
roster-All P m h = elim (Bool-cases m.in_match) [
  | inl on ↦ rw (on, get_roster) tt
  | inr lobby ↦
      let entry : Member → RosterEntry =
        λ e. record { session = e.session; character = e.character } in
      rw (lobby, get_roster)
        (All-of_map P (λ e. e.session) (map entry (members_by_session m))
          (All-of_map (λ e. P e.session) entry (members_by_session m)
            (members_by_session-All (λ e. P e.session) m h)))
]

any_of_mono :
    (session : ℕ) (x : ℕ × Member) (es : List (ℕ × Member))
    → any_of (λ e. e.1.session == session) es ≡ true
    → any_of (λ e. e.1.session == session) (x ∷ es) ≡ true
any_of_mono session x es h = ground arith

any_of_self :
    (es : List (ℕ × Member)) → All (λ x. any_of (λ e. e.1.session == x.1.session) es ≡ true) es
any_of_self [] = tt
any_of_self (x ∷ es) = (
  ground (arith, ==_refl x.1.session),
  All-map (λ y. any_of (λ e. e.1.session == y.1.session) es ≡ true) es
      (λ y h. any_of_mono y.1.session x es h) (any_of_self es),
)

-- Every member of a Match in progress plays.
pub is_playing-All :
    (m : Match) → m.in_match ≡ true → All (λ e. is_playing m e.1.session ≡ true) m.members
unfolding is_playing
is_playing-All m on =
    All-map (λ y. any_of (λ e. e.1.session == y.1.session) m.members ≡ true) m.members
      (λ y h. ground (arith, on, h)) (any_of_self m.members)

start_players-All {κ} :
    (Q : String → ℕ → Type κ) (entity : ℕ) (es : List Member)
    → All (λ e. Q e.character e.session) es
    → All (λ p. Q p.character p.session) (start_players entity es)
unfolding start_players
start_players-All Q entity [] h = tt
start_players-All Q entity (e ∷ es) h = (h.0, start_players-All Q ((entity + 1) % u32_mod) es h.1)

start_players-sessions :
    (entity : ℕ) (es : List Member)
    → map (λ p. p.session) (start_players entity es) ≡ map (λ e. e.session) es
unfolding start_players
start_players-sessions entity [] = refl
start_players-sessions entity (e ∷ es) =
    ap (◌∷◌ e.session) (start_players-sessions ((entity + 1) % u32_mod) es)

may_start-lobby : (m : Match) → may_start m ≡ true → m.in_match ≡ false
unfolding may_start
may_start-lobby m h = ground arith

-- What a start does besides the players it names, all of them members.
pub record Started {κ} (Q : String → ℕ → Type κ) (m after : Match) (start : MatchStart)
    : Type κ where
  pub was_lobby : m.in_match ≡ false
  pub in_match : after.in_match ≡ true
  pub members : after.members ≡ m.members
  pub characters : after.characters ≡ m.characters
  pub ids : suc m.ids_taken ≡ after.ids_taken
  pub players : All (λ p. Q p.character p.session) start.players
  pub sessions : map (λ p. p.session) start.players ≡ playing after

pub try_start-cases {κ} :
    (ids : ℕ → ℕ) (Q : String → ℕ → Type κ) (m : Match)
    → All (λ e. Q e.1.character e.1.session) m.members
    → (try_start ids m ≡ (m, none))
      ⊎ ((after : Match) × (start : MatchStart) × (try_start ids m ≡ (after, some start))
          × Started Q m after start)
unfolding try_start playing members_by_session
try_start-cases ids Q m h = elim (Bool-cases (may_start m)) [
  | inr waits ↦ inl (ground arith)
  | inl may ↦
      let after : Match = record m {
        in_match = true;
        ids_taken = m.ids_taken + 1;
        next_entity = after_players m.next_entity (members_by_session m);
      } in
      let start : MatchStart = record {
        players = start_players m.next_entity (members_by_session m);
        match_id = ids m.ids_taken;
      } in
      inr (
        after,
        start,
        ground arith,
        record {
          was_lobby = may_start-lobby m may;
          in_match = refl;
          members = refl;
          characters = refl;
          ids = omega arith;
          players =
              start_players-All Q m.next_entity (members_by_session m)
                (members_by_session-All (λ e. Q e.character e.session) m h);
          sessions = start_players-sessions m.next_entity (members_by_session m);
        },
      )
]

-- What End changes of what the ticks rely on, and whom it names.
pub end_match-cases :
    (m : Match) (winner : Option ℕ)
    → (end_match m winner ≡ (m, none))
      ⊎ ((after : Match) × (ended : MatchEnd) × (end_match m winner ≡ (after, some ended))
          × (after.members ≡ m.members)
          × (after.ids_taken ≡ m.ids_taken)
          × (ended.players ≡ playing m))
unfolding end_match
end_match-cases m winner = elim (Bool-cases m.in_match) [
  | inr lobby ↦ inl (ground arith)
  | inl on ↦
      let after : Match = record m {
        in_match = false;
        roster_version = (m.roster_version + 1) % u32_mod;
        ticks_since_end = 0;
      } in
      inr (
        after,
        record { players = playing m; winner = winner_playing m winner },
        ground arith,
        refl,
        refl,
        refl,
      )
]

-- The Match's own tick changes none of what the server's ticks rely on.
pub tick-same :
    (m : Match)
    → ((tick m).members ≡ m.members)
      × ((tick m).in_match ≡ m.in_match)
      × ((tick m).characters ≡ m.characters)
      × ((tick m).ids_taken ≡ m.ids_taken)
unfolding tick
tick-same m = ground arith

-- And of the sessions that play, of every member of the Match in progress.
pub playing-All_back {κ} :
    (P : ℕ → Type κ) (m : Match)
    → m.in_match ≡ true
    → All P (playing m)
    → All (λ e. P e.1.session) m.members
unfolding playing members_by_session
playing-All_back P m on h =
    All-from_map (λ e. P e.session) (λ e. e.1) m.members
      (All-sort_by_back (λ e. e.session) (λ e. P e.session) (map (λ e. e.1) m.members)
        (All-from_map P (λ e. e.session) (members_by_session m) (rw (on, playing) at h)))
