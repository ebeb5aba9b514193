-- ===== src/Host/Match/Examples.antt =====
-- A Lobby of two, and each theorem about a Match at it.
use mathlib.Core.List.{Mem}
use augusta.Common.{
  ℕ, suc, ◌+◌, ◌<◌, ◌≡◌, refl, Bool, true, false, none, some, List, [], ◌∷◌, map, length, arith,
  Rising, lookup, value, unexpected,
}
use augusta.Host.Match.{
  Match, MatchConfig, MatchStart, Member, Admission, JoinRequest, version_mismatch, make_match,
  join, leave, end_match, try_start, may_start, playing, is_ready, find_character, session_of,
}
use augusta.Host.Match.Sessions.{Inv}
use augusta.Host.Match.Readiness.{join-is_ready, leave-is_ready}
use augusta.Host.Match.Joining.{join_refused, join_admitted}
use augusta.Host.Match.Starting.{try_start_lem}
use augusta.Host.Match.History.{
  Call, joins, leaves, readies, ticks, tries_start, ends, run, started, run-make_match-Inv,
}
use augusta.Host.Match.Pause.{ticked, no_start_in_pause, ready_lobby_starts}
use augusta.Host.Match.Entities.{players_of, started_entities-Rising}

abbrev same_id : ℕ → ℕ
same_id n = n

rising_ids : (n : ℕ) → same_id n < same_id (suc n)
rising_ids n = omega arith

abbrev config : MatchConfig
config = record {
  engine_version = "1.0";
  client_pack = 7;
  characters = "Medic" ∷ "Scout" ∷ [];
  player_count = 2;
  pause_ticks = 3;
  reenactments = false;
}

abbrev request : JoinRequest
request = record { engine_version = "1.0"; client_pack = 7; character = "Scout"; spawn = none }

abbrev old_request : JoinRequest
old_request = record { engine_version = "0.9"; client_pack = 8; character = "Scout"; spawn = none }

-- A lobby of the member that joined first, and of both.
abbrev lobby_with : List (ℕ × Member) → ℕ → Bool → Match
lobby_with members version in_match = record {
  terms = record { engine_version = "1.0"; client_pack = 7 };
  characters = "Medic" ∷ "Scout" ∷ [];
  player_count = 2;
  pause_ticks = 3;
  reenactments = false;
  in_match = in_match;
  roster_version = version;
  ticks_since_end = 3;
  next_entity = 1;
  members = members;
  ids_taken = version;
}

abbrev member : ℕ → ℕ → Member
member session version = record {
  session = session;
  character = "Scout";
  spawn = none;
  ready_version = version;
}

abbrev lobby_of_one : Match
lobby_of_one = lobby_with ((10, member 0 1) ∷ []) 1 false

abbrev lobby_of_two : Match
lobby_of_two = lobby_with ((20, member 1 2) ∷ (10, member 0 2) ∷ []) 2 false

abbrev match_of_two : Match
match_of_two = lobby_with ((20, member 1 2) ∷ (10, member 0 2) ∷ []) 2 true

lobby_of_one-Inv : Inv same_id lobby_of_one
unfolding lookup
lobby_of_one-Inv = ground arith

lobby_of_two-Inv : Inv same_id lobby_of_two
unfolding lookup
lobby_of_two-Inv = ground arith

match_of_two-Inv : Inv same_id match_of_two
unfolding lookup
match_of_two-Inv = ground arith

abbrev history : List Call
history =
    joins 10 request
    ∷ joins 20 request
    ∷ readies 10 2
    ∷ readies 20 2
    ∷ tries_start
    ∷ leaves 10
    ∷ ends none
    ∷ ticks
    ∷ []

run-make_match-Inv_example : Inv same_id (run same_id (make_match config) history)
run-make_match-Inv_example =
    run-make_match-Inv same_id rising_ids config history (omega arith) (omega arith) (omega arith)

join_refused_example :
    join same_id lobby_of_one 20 old_request ≡ (lobby_of_one, unexpected version_mismatch)
join_refused_example =
    join_refused same_id lobby_of_one 20 old_request version_mismatch (unfold lookup in refl) refl

join_admitted_example :
    (a : Admission) × ((join same_id lobby_of_one 20 request).1 ≡ value a)
    × (a.session ≡ 1)
    × (a.character ≡ "Scout")
    × Mem a.character ("Medic" ∷ "Scout" ∷ [])
    × (session_of (join same_id lobby_of_one 20 request).0 20 ≡ some a.session)
join_admitted_example =
    join_admitted same_id lobby_of_one 20 request (unfold lookup in refl)
      (unfold find_character in refl)

try_start_lem_example :
    (s : MatchStart) × ((try_start same_id lobby_of_two).1 ≡ some s)
    × (map (λ p. p.session) s.players ≡ playing (try_start same_id lobby_of_two).0)
    × (map (λ p. p.entity) s.players ≡ 1 ∷ 2 ∷ [])
    × ((try_start same_id lobby_of_two).0.next_entity ≡ 1 + length s.players)
    × (length s.players ≡ 2)
try_start_lem_example =
    try_start_lem same_id lobby_of_two lobby_of_two-Inv (unfold may_start in refl) (omega arith)

join-is_ready_example : is_ready (join same_id lobby_of_one 20 request).0 10 ≡ false
unfolding lookup find_character
join-is_ready_example =
    join-is_ready same_id lobby_of_one lobby_of_one-Inv (omega arith) 20 10 request
      (record { session = 1; character = "Scout" }) (unfold lookup in refl) (unfold join in refl)

leave-is_ready_example : is_ready (leave lobby_of_two 10).0 20 ≡ is_ready lobby_of_two 20
leave-is_ready_example =
    leave-is_ready same_id lobby_of_two lobby_of_two-Inv (omega arith) 10 20 refl

no_start_in_pause_example :
    started same_id
      (end_match match_of_two none).0
      (readies 10 3 ∷ readies 20 3 ∷ ticks ∷ tries_start ∷ ticks ∷ tries_start ∷ [])
    ≡ []
no_start_in_pause_example =
    no_start_in_pause same_id match_of_two none
      (readies 10 3 ∷ readies 20 3 ∷ ticks ∷ tries_start ∷ ticks ∷ tries_start ∷ []) refl
      (omega arith) (omega arith)

abbrev resting : Match
resting = record lobby_of_two { ticks_since_end = 1 }

ready_lobby_starts_example : may_start (ticked 2 resting) ≡ true
ready_lobby_starts_example =
    ready_lobby_starts 2 resting refl refl (refl, (refl, tt)) (omega arith) (omega arith)

started_entities-Rising_example :
    Rising
      (λ p. p.entity)
      1
      (players_of (started same_id lobby_of_two (tries_start ∷ ends none ∷ tries_start ∷ [])))
started_entities-Rising_example =
    started_entities-Rising same_id lobby_of_two (tries_start ∷ ends none ∷ tries_start ∷ [])
      (omega arith)
