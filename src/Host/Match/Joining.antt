-- ===== src/Host/Match/Joining.antt =====
-- What Join answers: the order of its refusals, and what an admission is.
use mathlib.Core.List.{Mem, mem-cons, mem-cons_of_mem}
use mathlib.Core.Logic.Or
use text.Mathlib.Text.{◌==◌ as str_eq}
use text.Mathlib.TextEquality.{eq_iff}
use augusta.Common.{
  ℕ, ◌≡◌, refl, ◌∙◌, Bool, Bool-cases, String, Option, none, some, List, [], ◌∷◌, length, lookup,
  Option-cases, arith, ◌==◌, if◌then◌else◌, leb, not, ◌&&◌, inl, inr, value, unexpected, is_some,
}
use augusta.Host.Match.{
  Match, Admission, JoinRequest, JoinRefusal, reenactments_not_accepted, version_mismatch,
  pack_mismatch, unknown_character, match_in_progress, lobby_full, join, find_character, session_of,
}

-- The first refusal whose condition holds.
abbrev pub first_refusal : List (Bool × JoinRefusal) → Option JoinRefusal
first_refusal [] = none
first_refusal ((fails, why) ∷ rest) = if fails then some why else first_refusal rest

-- Join's documented order: a Reenact request to a match that takes none, the version, the pack, the
-- character, whether a match is in progress, whether the Lobby is full.
abbrev pub join_checks : Match → JoinRequest → List (Bool × JoinRefusal)
join_checks m r =
    (is_some r.spawn && not m.reenactments, reenactments_not_accepted)
    ∷ (not (str_eq r.engine_version m.terms.engine_version), version_mismatch)
    ∷ (not (r.client_pack == m.terms.client_pack), pack_mismatch)
    ∷ (not (is_some (find_character r.character m.characters)), unknown_character)
    ∷ (m.in_match, match_in_progress)
    ∷ (leb m.player_count (length m.members), lobby_full)
    ∷ []

-- A peer that has not joined and fails one of Join's checks is refused by the first it fails, in
-- the order reenactment, version, pack, character, match in progress, lobby full, and the Match
-- does not change.
pub join_refused :
    (ids : ℕ → ℕ) (m : Match) (peer : ℕ) (r : JoinRequest) (why : JoinRefusal)
    → lookup peer m.members ≡ none
    → first_refusal (join_checks m r) ≡ some why
    → join ids m peer r ≡ (m, unexpected why)
unfolding join
join_refused ids m peer r why new h = ground arith

find_character-found :
    (name found : String) (names : List String)
    → find_character name names ≡ some found
    → (found ≡ name) × Mem found names
unfolding find_character
find_character-found name found [] e = cc
find_character-found name found (c ∷ cs) e = elim (Bool-cases (str_eq c name)) [
  | inl hit ↦
      let same : found ≡ c = ground arith in
      (same ∙ (eq_iff c name).0 hit, mem-cons.1 (Or.inl same))
  | inr miss ↦
      let (same, there) = find_character-found name found cs (ground arith) in
      (same, mem-cons_of_mem c there)
]

-- A peer that has not joined and passes all of Join's checks is admitted under the next Session ID
-- as the character it asked for, one of the Match's, and that session is then its own.
pub join_admitted :
    (ids : ℕ → ℕ) (m : Match) (peer : ℕ) (r : JoinRequest)
    → lookup peer m.members ≡ none
    → first_refusal (join_checks m r) ≡ none
    → (a : Admission) × ((join ids m peer r).1 ≡ value a)
      × (a.session ≡ ids m.ids_taken)
      × (a.character ≡ r.character)
      × Mem a.character m.characters
      × (session_of (join ids m peer r).0 peer ≡ some a.session)
unfolding join session_of lookup
join_admitted ids m peer r new h = elim (Option-cases (find_character r.character m.characters)) [
  | inl e ↦ absurd (ground arith)
  | inr (c, e) ↦
      let (same, there) = find_character-found r.character c m.characters e in
      (
        record { session = ids m.ids_taken; character = c },
        ground arith,
        refl,
        same,
        there,
        ground arith,
      )
]
