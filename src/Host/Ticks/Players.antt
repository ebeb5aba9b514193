-- ===== src/Host/Ticks/Players.antt =====
-- The sessions that play, and whose they are.
use augusta.Common.{
  ℕ, suc, ◌<◌, ◌≡◌, refl, false, none, some, List, [], ◌∷◌, map, lookup, IsMap, Rising,
  DistinctKeys, Unused, arith, ==_refl,
}
use augusta.Host.Match.{Match, Member, playing, session_of}
use augusta.Host.Match.Members.{playing-Rising}
use augusta.Host.Network.{Player}
use augusta.Host.Network.Seats.{peer_of, Seated}
use augusta.Host.Ticks.Taking.{among, Distinct}

-- Every entry's session has its own peer's player.
abbrev Seats : List (ℕ × Player) → List (ℕ × Member) → Type 0
Seats players es =
    (p : ℕ) (e : Member) → lookup p es ≡ some e → peer_of (lookup e.session players) ≡ some p

Seats-rest :
    (players : List (ℕ × Player)) (p : ℕ) (e : Member) (es : List (ℕ × Member))
    → lookup p es ≡ none
    → Seats players ((p, e) ∷ es)
    → Seats players es
unfolding lookup
Seats-rest players p e es new f q x found = f q x (ground (arith, new, found))

other_peers-Unused :
    (players : List (ℕ × Player)) (s p : ℕ) (es : List (ℕ × Member))
    → peer_of (lookup s players) ≡ some p
    → lookup p es ≡ none
    → IsMap es
    → Seats players es
    → Unused (λ (e : Member). e.session) s (map (λ e. e.1) es)
unfolding lookup
other_peers-Unused players s p [] own new one f = tt
other_peers-Unused players s p ((q, e) ∷ es) own new one f =
    let theirs : peer_of (lookup e.session players) ≡ some q = f q e (ground (arith, ==_refl q)) in
    (
      λ same. absurd (ground (arith, own, new, theirs, same, ==_refl p)),
      other_peers-Unused players s p es own (ground (arith, new)) one.1
          (Seats-rest players q e es one.0 f),
    )

members-DistinctKeys :
    (players : List (ℕ × Player)) (es : List (ℕ × Member))
    → IsMap es
    → Seats players es
    → DistinctKeys (λ (e : Member). e.session) (map (λ e. e.1) es)
unfolding lookup
members-DistinctKeys players [] one f = tt
members-DistinctKeys players ((p, e) ∷ es) one f =
    let rest = Seats-rest players p e es one.0 f in
    (
      other_peers-Unused players e.session p es (f p e (ground (arith, ==_refl p))) one.0 one.1
          rest,
      members-DistinctKeys players es one.1 rest,
    )

Rising-apart :
    (t n : ℕ) (es : List Member)
    → t < n
    → Rising (λ (e : Member). e.session) n es
    → among t (map (λ e. e.session) es) ≡ false
Rising-apart t n [] h r = refl
Rising-apart t n (e ∷ es) h r =
    ground (arith, r.0, Rising-apart t (suc e.session) es (omega (arith, h, r.0)) r.1)

Rising-Distinct :
    (n : ℕ) (es : List Member)
    → Rising (λ (e : Member). e.session) n es
    → Distinct (map (λ e. e.session) es)
Rising-Distinct n [] r = tt
Rising-Distinct n (e ∷ es) r = (
  Rising-apart e.session (suc e.session) es (omega arith) r.1,
  Rising-Distinct (suc e.session) es r.1,
)

pub playing-Distinct :
    (next : ℕ) (m : Match) (players : List (ℕ × Player))
    → Seated next m players
    → IsMap m.members
    → Distinct (playing m)
unfolding session_of
playing-Distinct next m players v one =
    let seats : Seats players m.members =
      λ p e found. v.seat p e.session (rw (found, session_of) refl) in
    let (es, rising, same) = playing-Rising m (members-DistinctKeys players m.members one seats) in
    rw same (Rising-Distinct 0 es rising)
