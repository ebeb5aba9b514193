-- ===== src/Host/Ticks/Starting.antt =====
-- Starting a Match: what it looks up and what it leaves.
use mathlib.Core.Path.{subst}
use augusta.Common.{
  ℕ, suc, ◌+◌, ◌%◌, ◌^◌, ◌≤◌, ◌<◌, ◌≡◌, refl, sym, ap, ◌∙◌, true, inl, inr, some, List, [], ◌∷◌,
  ◌++◌, map, String, All, All-map, All-both, All-of_map, is_some, arith, Vec3,
}
use augusta.Host.Match.{Match, MatchStart, playing, find_character}
use augusta.Host.Match.Rooms.{HasBody, HasCharacter}
use augusta.Host.Match.Members.{Started, try_start-cases, playing-All_back}
use augusta.Host.Ticks.{
  Server, Entrant, match_started, sends, starts_match, captures_start, if_captured, send_to,
  enter_players, started_with, starts, start_match_if_ready, entrant_of,
}
use augusta.Host.Ticks.Lookups.{HasEntity, HasPlayer-same, Entered, enter_players-total}
use augusta.Host.Network.{peers_at}
use augusta.Host.Network.Seats.{HasPlayer, peers_at-total}
use augusta.Host.Ticks.Ending.{Inv, Seated-same, seated-All}

module _ (spawns_of : List Entrant → List Vec3) where
  -- What the start of a Match leaves, once its players are in.
  abbrev pub started_server : Server → MatchStart → List ℕ → Server
  started_server s start peers =
      let entrants = map entrant_of start.players in
      let spawns = spawns_of entrants in
      let first = (s.tick + 1) % 2 ^ 64 in
      let captured = if_captured s (captures_start start.match_id entrants spawns first ∷ []) in
      record s {
        simulating_match = true;
        match_start_tick = first;
        match_id = start.match_id;
        calls =
            s.calls
            ++ starts_match entrants ∷ captured
            ++ sends peers (match_started start spawns first) ∷ [];
      }

  started_with-told :
      (s : Server) (start : MatchStart) (peers : List ℕ)
      → peers_at s.host.players (map (λ p. p.session) start.players) ≡ some peers
      → started_with spawns_of s start ≡ some (started_server s start peers)
  unfolding started_with send_to
  started_with-told s start peers sent = ground (arith, sent)

  starts-told :
      (s entered : Server) (lobby : Match) (start : MatchStart) (peers : List ℕ)
      → enter_players (record s { host = record s.host { lobby = lobby } }) start.players
        ≡ some entered
      → peers_at entered.host.players (map (λ p. p.session) start.players) ≡ some peers
      → starts spawns_of s lobby (some start) ≡ some (started_server entered start peers)
  starts-told s entered lobby start peers goes sent =
      ground (arith, goes, started_with-told entered start peers sent)

  module _ (ids : ℕ → ℕ) (later : (n : ℕ) → ids n < ids (suc n)) where
    started_server-Inv {κ} :
        {can : String → ℕ → Type κ} (s entered : Server) (lobby : Match) (start : MatchStart)
        (peers : List ℕ)
        → Inv ids s
        → Started can s.host.lobby lobby start
        → Entered (record s { host = record s.host { lobby = lobby } }) entered start.players
        → Inv ids (started_server entered start peers)
    started_server-Inv s entered lobby start peers v st en =
        let older : ids s.host.lobby.ids_taken ≤ ids entered.host.lobby.ids_taken =
          rw (en.lobby, sym st.ids) (omega (arith, later s.host.lobby.ids_taken)) in
        let same : entered.host.lobby.members ≡ s.host.lobby.members =
          ap (λ m. m.members) en.lobby ∙ st.members in
        let names : entered.host.lobby.characters ≡ entered.characters =
          ap (λ m. m.characters) en.lobby
          ∙ st.characters
          ∙ v.rooms.same_names
          ∙ sym en.characters in
        let playing_bodies : All (HasEntity entered.bodies) (playing lobby) =
          subst (All (HasEntity entered.bodies)) st.sessions
            (All-of_map (HasEntity entered.bodies) (λ p. p.session) start.players en.bodied) in
        let bodies : All (λ e. HasBody entered.bodies e.1) entered.host.lobby.members =
          rw en.lobby
            (playing-All_back (HasEntity entered.bodies) lobby st.in_match playing_bodies) in
        record {
          seats =
              Seated-same (ids s.host.lobby.ids_taken) (ids entered.host.lobby.ids_taken)
                s.host.lobby entered.host.lobby s.host.players entered.host.players same older
                en.peers v.seats;
          calm = en.calm ∙ v.calm;
          rooms = record {
            one_entry = rw same v.rooms.one_entry;
            same_names = names;
            known = rw (same, en.characters) v.rooms.known;
            simulated = λ on. refl;
            bodied = λ on. bodies;
          };
        }

    pub start_match_if_ready-total :
        (s : Server)
        → Inv ids s
        → (after : Server) × (start_match_if_ready spawns_of ids s ≡ some after) × Inv ids after
    unfolding start_match_if_ready
    start_match_if_ready-total s v =
        let can : String → ℕ → Type 0 =
          λ c t. (is_some (find_character c s.characters) ≡ true) × HasPlayer s.host.players t in
        let members : All (λ e. can e.1.character e.1.session) s.host.lobby.members =
          All-both (λ e. HasCharacter s.characters e.1) (λ e. HasPlayer s.host.players e.1.session)
            s.host.lobby.members v.rooms.known (seated-All ids s v) in
        elim (try_start-cases ids can s.host.lobby members) [
          | inl e ↦ (s, ap (λ r. starts spawns_of s r.0 r.1) e, v)
          | inr (lobby, start, e, st) ↦
              let entering : Server = record s { host = record s.host { lobby = lobby } } in
              let (entered, goes, en) = enter_players-total entering start.players st.players in
              let there : All (λ p. HasPlayer entered.host.players p.session) start.players =
                All-map (λ p. can p.character p.session) start.players
                  (λ p c. HasPlayer-same s.host.players entered.host.players p.session en.peers c.1)
                  st.players in
              let (peers, sent) =
                peers_at-total entered.host.players (map (λ p. p.session) start.players) (
                  All-of_map (HasPlayer entered.host.players) (λ p. p.session) start.players
                    there) in
              (
                started_server entered start peers,
                ap (λ r. starts spawns_of s r.0 r.1) e
                    ∙ starts-told s entered lobby start peers goes sent,
                started_server-Inv s entered lobby start peers v st en,
              )
        ]
