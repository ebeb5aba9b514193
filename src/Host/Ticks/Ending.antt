-- ===== src/Host/Ticks/Ending.antt =====
-- What the server's ticks rely on of its players, bodies and Lobby, and ending a Match.
use mathlib.Core.Path.{subst}
use augusta.Common.{
  ℕ, ◌≤◌, ◌≡◌, refl, sym, ap, ◌∙◌, inl, inr, false, Option, some, List, [], ◌∷◌, ◌++◌, map, All,
  arith,
}
use augusta.Host.Match.{Match, MatchEnd, session_of, get_roster}
use augusta.Host.Match.Rooms.{Roomed, end_match-Roomed}
use augusta.Host.Match.Members.{playing-All, roster-All, end_match-cases}
use augusta.Host.Network.{Player, peers_at}
use augusta.Host.Network.Seats.{Seated, Seated-All, HasPlayer, peers_at-total}
use augusta.Host.Ticks.{
  Server, match_ended, roster, sends, send_to, send_roster_to, ended_as, end_match_in,
}
use augusta.Host.Ticks.Lookups.{SamePeers}

pub record Inv (ids : ℕ → ℕ) (s : Server) : Type 0 where
  pub seats : Seated (ids s.host.lobby.ids_taken) s.host.lobby s.host.players
  pub calm : s.host.thrown ≡ false
  pub rooms : Roomed s.characters s.simulating_match s.bodies s.host.lobby

session_of-same :
    (m after : Match) (p : ℕ) → after.members ≡ m.members → session_of after p ≡ session_of m p
unfolding session_of
session_of-same m after p same = rw (same, session_of) refl

pub Seated-same :
    (n k : ℕ) (m after : Match) (xs ys : List (ℕ × Player))
    → after.members ≡ m.members
    → n ≤ k
    → SamePeers xs ys
    → Seated n m xs
    → Seated k after ys
Seated-same n k m after xs ys same le peers v = record {
  seat = λ p s e. peers s ∙ v.seat p s (sym (session_of-same m after p same) ∙ e);
  earlier = λ p s e.
      let before = v.earlier p s (sym (session_of-same m after p same) ∙ e) in
      omega (arith, before, le);
  unseated = λ s h. ground (arith, peers s, v.unseated s (omega (arith, le, h)));
}

-- What a Match's end leaves.
abbrev pub told_end : Server → Match → MatchEnd → List ℕ → List ℕ → Server
told_end s lobby ended peers more = record s {
  host = record s.host { lobby = lobby; match_winner = ended.winner };
  calls =
      s.calls
      ++ sends peers (match_ended ended) ∷ []
      ++ sends more (roster (get_roster lobby)) ∷ [];
}

ended_as-told :
    (s : Server) (lobby : Match) (ended : MatchEnd) (peers more : List ℕ)
    → peers_at s.host.players ended.players ≡ some peers
    → peers_at s.host.players (map (λ x. x.session) (get_roster lobby).players) ≡ some more
    → ended_as s lobby (some ended) ≡ some (told_end s lobby ended peers more)
unfolding send_roster_to send_to
ended_as-told s lobby ended peers more sent sent_more = ground (arith, sent, sent_more)

module _ (ids : ℕ → ℕ) where
  pub seated-All :
      (s : Server)
      → Inv ids s
      → All (λ e. HasPlayer s.host.players e.1.session) s.host.lobby.members
  seated-All s v =
      Seated-All (ids s.host.lobby.ids_taken) s.host.lobby s.host.players v.seats v.rooms.one_entry

  -- EndMatch throws nothing.
  pub end_match_in-total :
      (s : Server) (winner : Option ℕ)
      → Inv ids s
      → (after : Server) × (end_match_in s winner ≡ some after) × Inv ids after
  unfolding end_match_in send_roster_to send_to
  end_match_in-total s winner v = elim (end_match-cases s.host.lobby winner) [
    | inl e ↦ (s, ap (λ r. ended_as s r.0 r.1) e, v)
    | inr (lobby, ended, e, same, taken, players) ↦
        let members : All (λ m. HasPlayer s.host.players m.1.session) lobby.members =
          rw same (seated-All s v) in
        let told : All (HasPlayer s.host.players) ended.players =
          rw players (playing-All (HasPlayer s.host.players) s.host.lobby (λ on. seated-All s v)) in
        let (peers, sent) = peers_at-total s.host.players ended.players told in
        let (more, sent_more) =
          peers_at-total s.host.players (map (λ x. x.session) (get_roster lobby).players)
            (roster-All (HasPlayer s.host.players) lobby members) in
        let after : Server = told_end s lobby ended peers more in
        let goes : end_match_in s winner ≡ some after =
          ap (λ r. ended_as s r.0 r.1) e ∙ ended_as-told s lobby ended peers more sent sent_more in
        let rooms : Roomed s.characters s.simulating_match s.bodies lobby =
          subst (λ r. Roomed s.characters s.simulating_match s.bodies r.0) e
            (end_match-Roomed s.characters s.simulating_match s.bodies s.host.lobby winner
              v.rooms) in
        (
          after,
          goes,
          record {
            seats =
                Seated-same (ids s.host.lobby.ids_taken) (ids lobby.ids_taken) s.host.lobby lobby
                  s.host.players s.host.players same (rw taken (omega arith)) (λ t. refl) v.seats;
            calm = v.calm;
            rooms = rooms;
          },
        )
  ]
