-- ===== src/Host/Match/Sessions.antt =====
-- The invariant of a Match: one entry for each peer, Session IDs newest first, no version ahead of
-- the Roster's.
use augusta.Common.{
  ℕ, suc, ◌+◌, ◌≤◌, ◌<◌, ◌≡◌, refl, ◌≢◌, true, Option, none, some, List, [], ◌∷◌, length, All,
  lookup, erase, modify, IsMap, arith, ◌==◌, if◌then◌else◌, length-erase-le, length-modify,
  erase-IsMap, modify-IsMap, All-erase,
}
use augusta.Host.Match.{
  Match, Member, JoinRequest, MatchConfig, u32_mod, make_match, join, leave, ready, tick, try_start,
  may_start, end_match, carry_ready,
}

-- Session IDs fall along the list of members, and stay below the bound.
abbrev pub Older : ℕ → List (ℕ × Member) → Type 0
Older n [] = Unit {0}
Older n ((peer, e) ∷ es) = (e.session < n) × Older e.session es

abbrev pub Versions : ℕ → List (ℕ × Member) → Type 0
Versions v = All (λ e. e.1.ready_version ≤ v)

module _ (ids : ℕ → ℕ) where
  pub record Inv (m : Match) : Type 0 where
    pub one_entry : IsMap m.members
    pub older : Older (ids m.ids_taken) m.members
    pub versions : Versions m.roster_version m.members
    pub room : length m.members ≤ m.player_count
    pub rested : m.ticks_since_end ≤ m.pause_ticks
    pub peopled : m.in_match ≡ true → m.members ≢ []

  pub make_match-Inv : (c : MatchConfig) → Inv (make_match c)
  unfolding make_match
  make_match-Inv c = ground arith

Older-mono : {n k : ℕ} (es : List (ℕ × Member)) → n ≤ k → Older n es → Older k es
Older-mono [] h o = tt
Older-mono ((peer, e) ∷ es) h o = (omega arith, o.1)

Older-erase : (n peer : ℕ) (es : List (ℕ × Member)) → Older n es → Older n (erase peer es)
unfolding erase
Older-erase n peer [] o = tt
Older-erase n peer ((p, e) ∷ es) o =
    ground
      (arith, Older-erase e.session peer es o.1, Older-mono {n = e.session} {k = n} (erase peer es))

Older-modify :
    (n peer v : ℕ) (es : List (ℕ × Member))
    → Older n es
    → Older n (modify peer (λ e. record e { ready_version = v }) es)
unfolding modify
Older-modify n peer v [] o = tt
Older-modify n peer v ((p, e) ∷ es) o = ground (arith, Older-modify e.session peer v es o.1)

Older-carry_ready : (n u v : ℕ) (es : List (ℕ × Member)) → Older n es → Older n (carry_ready u v es)
Older-carry_ready n u v [] o = tt
Older-carry_ready n u v ((p, e) ∷ es) o = ground (arith, Older-carry_ready e.session u v es o.1)

Versions-mono : {u v : ℕ} (es : List (ℕ × Member)) → u ≤ v → Versions u es → Versions v es
Versions-mono [] h w = tt
Versions-mono (e ∷ es) h w = (omega arith, Versions-mono es h w.1)

Versions-carry_ready :
    (u v : ℕ) (es : List (ℕ × Member)) → u ≤ v → Versions u es → Versions v (carry_ready u v es)
Versions-carry_ready u v [] h w = tt
Versions-carry_ready u v ((p, e) ∷ es) h w = ground (arith, Versions-carry_ready u v es h w.1)

pub lookup-carry_ready :
    (u v peer : ℕ) (es : List (ℕ × Member))
    → lookup peer (carry_ready u v es) ≡ elim (lookup peer es) [
      | none ↦ none
      | some e ↦ some (if e.ready_version == u then record e { ready_version = v } else e)
    ]
unfolding lookup
lookup-carry_ready u v peer [] = refl
lookup-carry_ready u v peer ((p, e) ∷ es) = ground (arith, lookup-carry_ready u v peer es)

pub carry_ready-IsMap : (u v : ℕ) (es : List (ℕ × Member)) → IsMap es → IsMap (carry_ready u v es)
carry_ready-IsMap u v [] k = tt
carry_ready-IsMap u v ((p, e) ∷ es) k =
    ground (arith, carry_ready-IsMap u v es k.1, lookup-carry_ready u v p es)

length-carry_ready : (u v : ℕ) (es : List (ℕ × Member)) → length (carry_ready u v es) ≡ length es
length-carry_ready u v [] = refl
length-carry_ready u v ((p, e) ∷ es) = ground (arith, length-carry_ready u v es)

Versions-modify :
    (v peer version : ℕ) (es : List (ℕ × Member))
    → version ≤ v
    → Versions v es
    → Versions v (modify peer (λ e. record e { ready_version = version }) es)
unfolding modify
Versions-modify v peer version [] h w = tt
Versions-modify v peer version ((p, e) ∷ es) h w =
    ground (arith, Versions-modify v peer version es h w.1)

modify-ne-nil :
    (peer : ℕ) (f : Member → Member) (es : List (ℕ × Member)) → es ≢ [] → modify peer f es ≢ []
unfolding modify
modify-ne-nil peer f [] h = λ e. h refl
modify-ne-nil peer f ((p, e) ∷ es) h = λ q. cc

module _ (ids : ℕ → ℕ) (later : (n : ℕ) → ids n < ids (suc n)) where
  pub join-Inv :
      (m : Match) (peer : ℕ) (r : JoinRequest)
      → m.roster_version + 1 < u32_mod
      → Inv ids m
      → Inv ids (join ids m peer r).0
  unfolding join
  join-Inv m peer r h v = ground (
    arith,
    later m.ids_taken,
    Versions-mono {u = m.roster_version} {v = m.roster_version + 1} m.members,
  )

  pub leave-Inv :
      (m : Match) (peer : ℕ) → m.roster_version + 1 < u32_mod → Inv ids m → Inv ids (leave m peer).0
  unfolding leave end_match
  leave-Inv m peer h v = ground (
    arith,
    erase-IsMap peer m.members,
    Older-erase (ids m.ids_taken) peer m.members,
    All-erase (λ e. e.1.ready_version ≤ m.roster_version) peer m.members,
    length-erase-le peer m.members,
    carry_ready-IsMap m.roster_version (m.roster_version + 1) (erase peer m.members),
    Older-carry_ready (ids m.ids_taken) m.roster_version (m.roster_version + 1)
        (erase peer m.members),
    Versions-carry_ready m.roster_version (m.roster_version + 1) (erase peer m.members),
    Versions-mono {u = m.roster_version} {v = m.roster_version + 1} (erase peer m.members),
    length-carry_ready m.roster_version (m.roster_version + 1) (erase peer m.members),
  )

  pub ready-Inv : (m : Match) (peer version : ℕ) → Inv ids m → Inv ids (ready m peer version).0
  unfolding ready
  ready-Inv m peer version v = ground (
    arith,
    modify-IsMap peer (λ e. record e { ready_version = version }) m.members,
    Older-modify (ids m.ids_taken) peer version m.members,
    Versions-modify m.roster_version peer version m.members,
    length-modify peer (λ e. record e { ready_version = version }) m.members,
    modify-ne-nil peer (λ e. record e { ready_version = version }) m.members,
  )

  pub tick-Inv : (m : Match) → m.pause_ticks < u32_mod → Inv ids m → Inv ids (tick m)
  unfolding tick
  tick-Inv m p v = ground arith

  pub end_match-Inv :
      (m : Match) (winner : Option ℕ)
      → m.roster_version + 1 < u32_mod
      → Inv ids m
      → Inv ids (end_match m winner).0
  unfolding end_match
  end_match-Inv m winner h v =
      ground (arith, Versions-mono {u = m.roster_version} {v = m.roster_version + 1} m.members)

  pub try_start-Inv : (m : Match) → 0 < m.player_count → Inv ids m → Inv ids (try_start ids m).0
  unfolding try_start may_start
  try_start-Inv m p v = ground (
    arith,
    later m.ids_taken,
    Older-mono {n = ids m.ids_taken} {k = ids (m.ids_taken + 1)} m.members,
  )
