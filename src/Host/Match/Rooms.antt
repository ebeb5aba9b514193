-- ===== src/Host/Match/Rooms.antt =====
-- What the server's ticks rely on of the Lobby, across Join, Leave and Ready: each peer's one entry, of a
-- character that the server has, and in a Match a body for each.
use text.Mathlib.TextPositions.{eq_refl}
use mathlib.Core.Path.{subst}
use mathlib.Core.Bool.{false≢true}
use augusta.Host.Match.Queries.{join_new-cases}
use augusta.Common.{
  ℕ, ◌+◌, ◌%◌, ◌≡◌, sym, ap, ◌∙◌, Bool, true, false, inl, inr, Option, none, some, List, [], ◌∷◌,
  String, All, All-erase, All-modify, IsMap, erase-IsMap, modify-IsMap, lookup, erase, modify,
  is_some, Bool-cases, Option-cases, arith, ◌==◌, is_empty,
}
use augusta.Host.Match.{
  left, join_new, admit, Match, Member, JoinRequest, u32_mod, join, leave, ready, find_character,
  carry_ready, end_match,
}
use augusta.Host.Match.Sessions.{carry_ready-IsMap}

-- Whether a list has a body for a session, or a character for a name.
abbrev pub HasBody : List (ℕ × ℕ) → Member → Type 0
HasBody bodies e = is_some (lookup e.session bodies) ≡ true

abbrev pub HasCharacter : List String → Member → Type 0
HasCharacter names e = is_some (find_character e.character names) ≡ true

pub record Roomed (names : List String) (simulating : Bool) (bodies : List (ℕ × ℕ)) (m : Match)
    : Type 0 where
  pub one_entry : IsMap m.members
  pub same_names : m.characters ≡ names
  pub known : All (λ e. HasCharacter names e.1) m.members
  pub simulated : m.in_match ≡ true → simulating ≡ true
  pub bodied : m.in_match ≡ true → All (λ e. HasBody bodies e.1) m.members

pub find_character_self :
    (name found : String) (names : List String)
    → find_character name names ≡ some found
    → is_some (find_character found names) ≡ true
unfolding find_character
find_character_self name found [] e = cc
find_character_self name found (c ∷ cs) e =
    ground (arith, find_character_self name found cs, eq_refl c)

All-carry_ready {κ} :
    (P : ℕ × Member → Type κ) (u v : ℕ) (es : List (ℕ × Member))
    → ((x : ℕ × Member) → P x → P (x.0, record x.1 { ready_version = v }))
    → All P es
    → All P (carry_ready u v es)
All-carry_ready P u v [] f h = tt
All-carry_ready P u v ((p, e) ∷ es) f h = elim (Bool-cases (e.ready_version == u)) [
  | inl hit ↦ rw (hit, carry_ready) (f (p, e) h.0, All-carry_ready P u v es f h.1)
  | inr miss ↦ rw (miss, carry_ready) (h.0, All-carry_ready P u v es f h.1)
]

module _ (names : List String) (simulating : Bool) (bodies : List (ℕ × ℕ)) where
  pub end_match-Roomed :
      (m : Match) (winner : Option ℕ)
      → Roomed names simulating bodies m
      → Roomed names simulating bodies (end_match m winner).0
  unfolding end_match
  end_match-Roomed m winner r = elim (Bool-cases m.in_match) [
    | inr lobby ↦
        let goes : (end_match m winner).0 ≡ m = ground arith in
        subst (Roomed names simulating bodies) (sym goes) r
    | inl playing ↦
        let after : Match = record m {
          in_match = false;
          roster_version = (m.roster_version + 1) % u32_mod;
          ticks_since_end = 0;
        } in
        let goes : (end_match m winner).0 ≡ after = ground arith in
        let kept : Roomed names simulating bodies after = record {
          one_entry = r.one_entry;
          same_names = r.same_names;
          known = r.known;
          simulated = λ e. absurd (false≢true e);
          bodied = λ e. absurd (false≢true e);
        } in
        subst (Roomed names simulating bodies) (sym goes) kept
  ]

  pub ready-Roomed :
      (m : Match) (p v : ℕ)
      → Roomed names simulating bodies m
      → Roomed names simulating bodies (ready m p v).0
  unfolding ready
  ready-Roomed m p v r =
      let f = λ (e : Member). record e { ready_version = v } in
      elim (Bool-cases (ready m p v).1) [
        | inr refused ↦
            let goes : (ready m p v).0 ≡ m = ground arith in
            subst (Roomed names simulating bodies) (sym goes) r
        | inl taken ↦
            let lobby : m.in_match ≡ false = ground arith in
            let after : Match = record m { members = modify p f m.members } in
            let goes : (ready m p v).0 ≡ after = ground arith in
            let kept : Roomed names simulating bodies after = record {
              one_entry = modify-IsMap p f m.members r.one_entry;
              same_names = r.same_names;
              known = All-modify (HasCharacter names) p f m.members (λ e h. h) r.known;
              simulated = r.simulated;
              bodied = λ playing. absurd (false≢true (sym lobby ∙ playing));
            } in
            subst (Roomed names simulating bodies) (sym goes) kept
      ]

  left-Roomed :
      (m : Match) → Roomed names simulating bodies m → Roomed names simulating bodies (left m).0
  unfolding left end_match
  left-Roomed m r = elim (Bool-cases m.in_match) [
    | inl playing ↦ elim (Bool-cases (is_empty m.members)) [
      | inl last ↦
          let goes : (left m).0 ≡ (end_match m none).0 = ground arith in
          subst (Roomed names simulating bodies) (sym goes) (end_match-Roomed m none r)
      | inr others ↦
          let goes : (left m).0 ≡ m = ground arith in
          subst (Roomed names simulating bodies) (sym goes) r
    ]
    | inr lobby ↦
        let version = (m.roster_version + 1) % u32_mod in
        let after : Match = record m {
          roster_version = version;
          members = carry_ready m.roster_version version m.members;
        } in
        let goes : (left m).0 ≡ after = ground arith in
        let kept : Roomed names simulating bodies after = record {
          one_entry = carry_ready-IsMap m.roster_version version m.members r.one_entry;
          same_names = r.same_names;
          known =
              All-carry_ready (λ e. HasCharacter names e.1) m.roster_version version m.members
                (λ x h. h) r.known;
          simulated = r.simulated;
          bodied = λ playing. absurd (false≢true (sym lobby ∙ playing));
        } in
        subst (Roomed names simulating bodies) (sym goes) kept
  ]

  pub leave-Roomed :
      (m : Match) (p : ℕ)
      → Roomed names simulating bodies m
      → Roomed names simulating bodies (leave m p).0
  unfolding leave
  leave-Roomed m p r = elim (Option-cases (lookup p m.members)) [
    | inl absent ↦
        let goes : (leave m p).0 ≡ m = ground arith in
        subst (Roomed names simulating bodies) (sym goes) r
    | inr (e, found) ↦
        let gone : Match = record m { members = erase p m.members } in
        let goes : (leave m p).0 ≡ (left gone).0 = ground arith in
        let kept : Roomed names simulating bodies gone = record {
          one_entry = erase-IsMap p m.members r.one_entry;
          same_names = r.same_names;
          known = All-erase (λ e. HasCharacter names e.1) p m.members r.known;
          simulated = r.simulated;
          bodied = λ playing. All-erase (λ e. HasBody bodies e.1) p m.members (r.bodied playing);
        } in
        subst (Roomed names simulating bodies) (sym goes) (left-Roomed gone kept)
  ]

  pub join-Roomed :
      (ids : ℕ → ℕ) (m : Match) (p : ℕ) (q : JoinRequest)
      → Roomed names simulating bodies m
      → Roomed names simulating bodies (join ids m p q).0
  unfolding join admit
  join-Roomed ids m p q r = elim (Option-cases (lookup p m.members)) [
    | inr (e, found) ↦
        let goes : (join ids m p q).0 ≡ m = ground arith in
        subst (Roomed names simulating bodies) (sym goes) r
    | inl new ↦
        let goes : join ids m p q ≡ join_new ids m p q = ground arith in
        elim (join_new-cases ids m p q) [
          | inl (why, e) ↦
              let same : (join ids m p q).0 ≡ m = ap (λ x. x.0) (goes ∙ e) in
              subst (Roomed names simulating bodies) (sym same) r
          | inr (found, e, lobby, named) ↦
              let same : (join ids m p q).0 ≡ (admit ids m p q found).0 =
                ap (λ x. x.0) (goes ∙ e) in
              let has : is_some (find_character found names) ≡ true =
                subst (λ cs. is_some (find_character found cs) ≡ true) r.same_names
                  (find_character_self q.character found m.characters named) in
              let kept : Roomed names simulating bodies (admit ids m p q found).0 = record {
                one_entry = (new, r.one_entry);
                same_names = r.same_names;
                known = (has, r.known);
                simulated = r.simulated;
                bodied = λ playing. absurd (false≢true (sym lobby ∙ playing));
              } in
              subst (Roomed names simulating bodies) (sym same) kept
        ]
  ]

-- With other bodies, those of a Match in progress among them.
pub Roomed-bodies :
    (names : List String) (old simulating : Bool) (bodies others : List (ℕ × ℕ)) (m : Match)
    → Roomed names old bodies m
    → (m.in_match ≡ true → simulating ≡ true)
    → (m.in_match ≡ true → All (λ e. HasBody others e.1) m.members)
    → Roomed names simulating others m
Roomed-bodies names old simulating bodies others m r on has = record {
  one_entry = r.one_entry;
  same_names = r.same_names;
  known = r.known;
  simulated = on;
  bodied = has;
}
