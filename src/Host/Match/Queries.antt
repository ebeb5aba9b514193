-- ===== src/Host/Match/Queries.antt =====
-- Which session a peer has after each call, and what Join's answer says of it.
use augusta.Common.{
  ℕ, suc, ◌+◌, ◌%◌, ◌≡◌, refl, ◌∙◌, ◌&&◌, leb, length, ◌⊎◌, inl, inr, not, none, some, ◌==◌,
  if◌then◌else◌, is_some, lookup, erase, lookup-erase, lookup-modify, Option-cases, Bool-cases,
  false, Expected, value, unexpected, String, arith,
}
use augusta.Host.Match.{
  Match, Admission, JoinRequest, JoinRefusal, u32_mod, join, join_new, admit, leave, ready,
  session_of, end_match, find_character, refusal_of_client, admission_of, reenactments_not_accepted,
  unknown_character, match_in_progress, lobby_full,
}
use augusta.Host.Match.Sessions.{lookup-carry_ready}

-- The session of a peer, read off its entry.
pub session_of-leave :
    (m : Match) (p q : ℕ) → session_of (leave m p).0 q ≡ (if p == q then none else session_of m q)
unfolding session_of leave end_match
session_of-leave m p q = ground (
  arith,
  lookup-erase p q m.members,
  lookup-carry_ready m.roster_version ((m.roster_version + 1) % u32_mod) q (erase p m.members),
)

pub ids_taken-leave : (m : Match) (p : ℕ) → (leave m p).0.ids_taken ≡ m.ids_taken
unfolding leave end_match
ids_taken-leave m p = ground arith

pub session_of-ready :
    (m : Match) (p q version : ℕ) → session_of (ready m p version).0 q ≡ session_of m q
unfolding session_of ready
session_of-ready m p q version =
    ground (arith, lookup-modify p q (λ e. record e { ready_version = version }) m.members)

pub ids_taken-ready : (m : Match) (p version : ℕ) → (ready m p version).0.ids_taken ≡ m.ids_taken
unfolding ready
ids_taken-ready m p version = ground arith

-- What an admission of a newcomer does.
pub record NewMember (ids : ℕ → ℕ) (m after : Match) (peer session : ℕ) : Type 0 where
  pub absent : session_of m peer ≡ none
  pub next_id : session ≡ ids m.ids_taken
  pub taken : after.ids_taken ≡ suc m.ids_taken
  pub sessions : (q : ℕ) → session_of after q ≡ (if peer == q then some session else session_of m q)

-- The answers of a Join.
abbrev Joined : (ℕ → ℕ) → Match → ℕ → Match × Expected Admission JoinRefusal → Type 0
Joined ids m peer (after, answer) =
    ((why : JoinRefusal) × (answer ≡ unexpected why) × (after ≡ m))
    ⊎ ((a : Admission) × (answer ≡ value a)
        × (((after ≡ m) × (session_of m peer ≡ some a.session))
            ⊎ NewMember ids m after peer a.session))

admit-Joined :
    (ids : ℕ → ℕ) (m : Match) (peer : ℕ) (r : JoinRequest) (found : String)
    → lookup peer m.members ≡ none
    → Joined ids m peer (admit ids m peer r found)
unfolding admit session_of lookup
admit-Joined ids m peer r found new = inr (
  record { session = ids m.ids_taken; character = found },
  refl,
  inr (record {
    absent = rw new;
    next_id = refl;
    taken = omega arith;
    sessions = λ q. ground arith;
  }),
)

pub join_new-cases :
    (ids : ℕ → ℕ) (m : Match) (peer : ℕ) (r : JoinRequest)
    → ((why : JoinRefusal) × (join_new ids m peer r ≡ (m, unexpected why)))
      ⊎ ((found : String) × (join_new ids m peer r ≡ admit ids m peer r found)
          × (m.in_match ≡ false)
          × (find_character r.character m.characters ≡ some found))
unfolding join_new
join_new-cases ids m peer r = elim (Bool-cases (is_some r.spawn && not m.reenactments)) [
  | inl refused ↦ inl (reenactments_not_accepted, ground arith)
  | inr fine ↦ elim (Option-cases (refusal_of_client r.engine_version r.client_pack m.terms)) [
    | inr (why, e) ↦ inl (why, ground arith)
    | inl suits ↦ elim (Option-cases (find_character r.character m.characters)) [
      | inl missing ↦ inl (unknown_character, ground arith)
      | inr (found, e) ↦ elim (Bool-cases m.in_match) [
        | inl playing ↦ inl (match_in_progress, ground arith)
        | inr lobby ↦ elim (Bool-cases (leb m.player_count (length m.members))) [
          | inl full ↦ inl (lobby_full, ground arith)
          | inr room ↦ inr (found, ground arith, lobby, e)
        ]
      ]
    ]
  ]
]

pub join-cases :
    (ids : ℕ → ℕ) (m : Match) (peer : ℕ) (r : JoinRequest) → Joined ids m peer (join ids m peer r)
unfolding join session_of
join-cases ids m peer r = elim (Option-cases (lookup peer m.members)) [
  | inr (e, here) ↦
      let again : join ids m peer r ≡ (m, value (admission_of e)) = ground arith in
      let same : session_of m peer ≡ some e.session = ground arith in
      rw again (inr (admission_of e, refl, inl (refl, same)))
  | inl new ↦
      let fresh : join ids m peer r ≡ join_new ids m peer r = ground arith in
      elim (join_new-cases ids m peer r) [
        | inl (why, e) ↦ rw (fresh ∙ e) (inl (why, refl, refl))
        | inr (found, e, lobby, known) ↦ rw (fresh ∙ e) (admit-Joined ids m peer r found new)
      ]
]
