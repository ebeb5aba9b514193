-- ===== src/Host/Match.antt =====
-- src/modules/host/match.cpp and its header: the Lobby, the Roster and the Match, and who may join.
-- A method that changes the object returns the new object. A Session ID is the number that its 16
-- bytes spell; `ids n` is the n-th ID that boost's UUIDv7 generator hands out, a parameter, since
-- that generator is boost's. A PackHash is the number that its bytes spell, and a Vec3 holds the bit
-- patterns of its floats, which this code copies and never computes with.
pub mod Entries
pub mod Sessions
pub mod Queries
pub mod Readiness
pub mod Joining
pub mod Starting
pub mod History
pub mod Pause
pub mod Entities
pub mod Rooms
pub mod Members
mod Examples
use text.Mathlib.Text.{◌==◌ as str_eq}
use augusta.Common.{
  ℕ, suc, ◌+◌, ◌%◌, ◌≡◌, Bool, true, false, not, ◌&&◌, ◌||◌, Option, none, some, List, [], ◌∷◌, map,
  String, leb, ltb, ◌==◌, if◌then◌else◌, is_some, is_empty, length, all_of, any_of, lookup, erase,
  modify, sort_by, Vec3, Expected, value, unexpected,
}

abbrev pub u32_mod : ℕ
u32_mod = 4294967296

pub data JoinRefusal : Type 0 where
  version_mismatch lobby_full unknown_character match_in_progress pack_mismatch : JoinRefusal
  replay_server unknown_capture not_a_replay_server reenactments_not_accepted : JoinRefusal

pub record ClientTerms : Type 0 where
  pub engine_version : String
  pub client_pack : ℕ

pub record JoinRequest : Type 0 where
  pub engine_version : String
  pub client_pack : ℕ
  pub character : String
  pub spawn : Option Vec3

pub record Admission : Type 0 where
  pub session : ℕ
  pub character : String

-- `not_joined` is kNone.
pub data Departure : Type 0 where
  not_joined from_lobby from_match ended_match : Departure

pub record Member : Type 0 where
  pub session : ℕ
  pub character : String
  pub spawn : Option Vec3
  pub ready_version : ℕ

pub record MatchPlayer : Type 0 where
  pub session : ℕ
  pub entity : ℕ
  pub character : String
  pub spawn : Option Vec3

pub record MatchStart : Type 0 where
  pub players : List MatchPlayer
  pub match_id : ℕ

pub record MatchEnd : Type 0 where
  pub players : List ℕ
  pub winner : Option ℕ

pub record RosterEntry : Type 0 where
  pub session : ℕ
  pub character : String

pub record Roster : Type 0 where
  pub version : ℕ
  pub players : List RosterEntry

-- `reenactments` is always false in a Shipping build, which has no such setting.
pub record MatchConfig : Type 0 where
  pub engine_version : String
  pub client_pack : ℕ
  pub characters : List String
  pub player_count : ℕ
  pub pause_ticks : ℕ
  pub reenactments : Bool

-- `ids_taken` counts the IDs drawn from the generator so far.
pub record Match : Type 0 where
  pub terms : ClientTerms
  pub characters : List String
  pub player_count : ℕ
  pub pause_ticks : ℕ
  pub reenactments : Bool
  pub in_match : Bool
  pub roster_version : ℕ
  pub ticks_since_end : ℕ
  pub next_entity : ℕ
  pub members : List (ℕ × Member)
  pub ids_taken : ℕ

pub make_match : MatchConfig → Match
make_match c = record {
  terms = record { engine_version = c.engine_version; client_pack = c.client_pack };
  characters = c.characters;
  player_count = c.player_count;
  pause_ticks = c.pause_ticks;
  reenactments = c.reenactments;
  in_match = false;
  roster_version = 0;
  ticks_since_end = c.pause_ticks;
  next_entity = 1;
  members = [];
  ids_taken = 0;
}

pub refusal_of_client : String → ℕ → ClientTerms → Option JoinRefusal
refusal_of_client version pack terms =
    if not (str_eq version terms.engine_version)
    then some version_mismatch
    else if not (pack == terms.client_pack)
    then some pack_mismatch
    else none

-- std::ranges::find among the scenario's characters.
unfoldable pub find_character : String → List String → Option String
find_character name [] = none
find_character name (c ∷ cs) = if str_eq c name then some c else find_character name cs

abbrev pub admission_of : Member → Admission
admission_of e = record { session = e.session; character = e.character }

module _ (ids : ℕ → ℕ) where
  -- The end of Join: `members_.emplace` under the next Session ID.
  pub admit : Match → ℕ → JoinRequest → String → Match × Expected Admission JoinRefusal
  admit m peer request found =
      let newcomer : Member = record {
        session = ids m.ids_taken;
        character = found;
        spawn = request.spawn;
        ready_version = 0;
      } in
      (
        record m {
          members = (peer, newcomer) ∷ m.members;
          roster_version = (m.roster_version + 1) % u32_mod;
          ids_taken = m.ids_taken + 1;
        },
        value (admission_of newcomer),
      )

  -- Join for a peer that has not joined: its checks, in their order.
  pub join_new : Match → ℕ → JoinRequest → Match × Expected Admission JoinRefusal
  unfolding admit refusal_of_client
  join_new m peer request =
      if is_some request.spawn && not m.reenactments
      then (m, unexpected reenactments_not_accepted)
      else elim (refusal_of_client request.engine_version request.client_pack m.terms) [
        | some refusal ↦ (m, unexpected refusal)
        | none ↦ elim (find_character request.character m.characters) [
          | none ↦ (m, unexpected unknown_character)
          | some found ↦
              if m.in_match
              then (m, unexpected match_in_progress)
              else if leb m.player_count (length m.members)
              then (m, unexpected lobby_full)
              else admit m peer request found
        ]
      ]

  pub join : Match → ℕ → JoinRequest → Match × Expected Admission JoinRefusal
  unfolding join_new
  join m peer request = elim (lookup peer m.members) [
    | some existing ↦ (m, value (admission_of existing))
    | none ↦ join_new m peer request
  ]

-- MembersBySession.
pub members_by_session : Match → List Member
members_by_session m = sort_by (λ e. e.session) (map (λ e. e.1) m.members)

pub is_playing : Match → ℕ → Bool
is_playing m session = m.in_match && any_of (λ e. e.1.session == session) m.members

pub playing : Match → List ℕ
playing m = if m.in_match then map (λ e. e.session) (members_by_session m) else []

-- IsPlaying of the winner given, if any.
winner_playing : Match → Option ℕ → Option ℕ
winner_playing m none = none
winner_playing m (some w) = if is_playing m w then some w else none

-- End: the new state if a match is in progress.
pub end_match : Match → Option ℕ → Match × Option MatchEnd
unfolding winner_playing
end_match m winner = if not m.in_match then (m, none) else (
  record m {
    in_match = false;
    roster_version = (m.roster_version + 1) % u32_mod;
    ticks_since_end = 0;
  },
  some (record { players = playing m; winner = winner_playing m winner }),
)

-- Leave's loop: whoever had loaded the version before keeps being Ready under the next.
abbrev pub carry_ready : ℕ → ℕ → List (ℕ × Member) → List (ℕ × Member)
carry_ready previous version [] = []
carry_ready previous version ((peer, e) ∷ es) =
    (peer, if e.ready_version == previous then record e { ready_version = version } else e)
    ∷ carry_ready previous version es

-- Leave once the peer is erased.
left : Match → Match × Departure
unfolding end_match
left m =
    if m.in_match
    then if is_empty m.members then ((end_match m none).0, ended_match) else (m, from_match)
    else let version = (m.roster_version + 1) % u32_mod in
      (
        record m {
          roster_version = version;
          members = carry_ready m.roster_version version m.members;
        },
        from_lobby,
      )

pub leave : Match → ℕ → Match × Departure
unfolding left erase
leave m peer = elim (lookup peer m.members) [
  | none ↦ (m, not_joined)
  | some e ↦ left (record m { members = erase peer m.members })
]

pub ready : Match → ℕ → ℕ → Match × Bool
ready m peer version =
    if m.in_match || not (is_some (lookup peer m.members)) || not (version == m.roster_version)
    then (m, false)
    else (
      record m { members = modify peer (λ e. record e { ready_version = version }) m.members },
      true,
    )

pub is_ready : Match → ℕ → Bool
is_ready m peer =
    not m.in_match
    && elim (lookup peer m.members) [ none ↦ false | some e ↦ e.ready_version == m.roster_version ]

pub tick : Match → Match
tick m =
    if not m.in_match && ltb m.ticks_since_end m.pause_ticks
    then record m { ticks_since_end = (m.ticks_since_end + 1) % u32_mod }
    else m

-- TryStart's loop: a player for each member, under consecutive entity IDs.
pub start_players : ℕ → List Member → List MatchPlayer
start_players entity [] = []
start_players entity (e ∷ es) =
    record { session = e.session; entity = entity; character = e.character; spawn = e.spawn }
    ∷ start_players ((entity + 1) % u32_mod) es

abbrev pub after_players : ℕ → List Member → ℕ
after_players entity [] = entity
after_players entity (e ∷ es) = after_players ((entity + 1) % u32_mod) es

-- TryStart's conditions, both of its early returns.
pub may_start : Match → Bool
may_start m =
    not (
      m.in_match || not (length m.members == m.player_count) || ltb m.ticks_since_end m.pause_ticks)
    && all_of (λ e. e.1.ready_version == m.roster_version) m.members

pub try_start : (ℕ → ℕ) → Match → Match × Option MatchStart
try_start ids m =
    if may_start m
    then (
      record m {
        in_match = true;
        ids_taken = m.ids_taken + 1;
        next_entity = after_players m.next_entity (members_by_session m);
      },
      some (record {
        players = start_players m.next_entity (members_by_session m);
        match_id = ids m.ids_taken;
      }),
    )
    else (m, none)

pub get_roster : Match → Roster
get_roster m = record {
  version = m.roster_version;
  players =
      if not m.in_match
      then map (λ e. record { session = e.session; character = e.character }) (members_by_session m)
      else [];
}

abbrev entry_session : Option Member → Option ℕ
entry_session none = none
entry_session (some e) = some e.session

unfoldable pub session_of : Match → ℕ → Option ℕ
session_of m peer = entry_session (lookup peer m.members)

abbrev pub members_count : Match → ℕ
members_count m = length m.members
