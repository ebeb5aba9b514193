-- ===== src/Host/Ticks/Lookups.antt =====
-- What the server's ticks look up of players and bodies.
use mathlib.Core.Bool.{false≢true}
use augusta.Common.{
  ℕ, ◌≡◌, refl, sym, ap, ◌∙◌, Bool, true, false, inl, inr, some, List, [], ◌∷◌, String, All,
  All-map, is_some, lookup, modify, lookup-modify, keep_if, Bool-cases, Option-cases, arith, ◌==◌,
  ==_iff, ==_refl,
}
use augusta.Host.Match.{MatchPlayer, find_character}
use augusta.Host.Commands.{make_queue}
use augusta.Host.Network.{Player}
use augusta.Host.Network.Seats.{peer_of, HasPlayer}
use augusta.Host.Ticks.{Server, emplace, enter_players}

abbrev pub HasEntity : List (ℕ × ℕ) → ℕ → Type 0
HasEntity bodies s = is_some (lookup s bodies) ≡ true

-- The players are the same, with the same peers.
abbrev pub SamePeers : List (ℕ × Player) → List (ℕ × Player) → Type 0
SamePeers xs ys = (t : ℕ) → peer_of (lookup t ys) ≡ peer_of (lookup t xs)

pub HasPlayer-same :
    (xs ys : List (ℕ × Player)) (s : ℕ) → SamePeers xs ys → HasPlayer xs s → HasPlayer ys s
HasPlayer-same xs ys s same h = ground (arith, same s)

pub modify-SamePeers :
    (s : ℕ) (f : Player → Player) (xs : List (ℕ × Player))
    → ((p : Player) → (f p).peer ≡ p.peer)
    → SamePeers xs (modify s f xs)
modify-SamePeers s f xs keeps t = elim (Option-cases (lookup t xs)) [
  | inl absent ↦ ground (arith, lookup-modify s t f xs)
  | inr (p, found) ↦ ground (arith, lookup-modify s t f xs, keeps p)
]

lookup-keep_if :
    (p : ℕ → Bool) (t : ℕ) (bodies : List (ℕ × ℕ))
    → p t ≡ true
    → lookup t (keep_if (λ b. p b.0) bodies) ≡ lookup t bodies
unfolding lookup
lookup-keep_if p t [] h = refl
lookup-keep_if p t ((s, e) ∷ bodies) h =
    let rest = lookup-keep_if p t bodies h in
    elim (Bool-cases (p s)) [
      | inl stays ↦ rw (stays, keep_if, lookup) (ground (arith, rest))
      | inr goes ↦
          let apart : (s == t) ≡ false = elim (Bool-cases (s == t)) [
            | inl same ↦ absurd (false≢true (sym goes ∙ ap p ((==_iff s t).0 same) ∙ h))
            | inr other ↦ other
          ] in
          rw (goes, apart, keep_if, lookup) rest
    ]

pub keep_if-HasEntity :
    (p : ℕ → Bool) (t : ℕ) (bodies : List (ℕ × ℕ))
    → p t ≡ true
    → HasEntity bodies t
    → HasEntity (keep_if (λ b. p b.0) bodies) t
keep_if-HasEntity p t bodies h has = rw (lookup-keep_if p t bodies h) has

-- A body more keeps the bodies that there are.
pub emplace-HasEntity :
    (s e t : ℕ) (bodies : List (ℕ × ℕ)) → HasEntity bodies t → HasEntity (emplace s e bodies) t
unfolding lookup
emplace-HasEntity s e t bodies h = ground arith

pub emplace-own : (s e : ℕ) (bodies : List (ℕ × ℕ)) → HasEntity (emplace s e bodies) s
unfolding lookup
emplace-own s e bodies = ground (arith, ==_refl s)

-- What entering the players of a Match leaves.
pub record Entered (before after : Server) (ps : List MatchPlayer) : Type 0 where
  pub lobby : after.host.lobby ≡ before.host.lobby
  pub calm : after.host.thrown ≡ before.host.thrown
  pub characters : after.characters ≡ before.characters
  pub peers : SamePeers before.host.players after.host.players
  pub still : (t : ℕ) → HasEntity before.bodies t → HasEntity after.bodies t
  pub bodied : All (λ p. HasEntity after.bodies p.session) ps

-- A player of a character that the server has, whose session has a player.
abbrev pub CanEnter : List String → List (ℕ × Player) → MatchPlayer → Type 0
CanEnter names players p =
    (is_some (find_character p.character names) ≡ true) × HasPlayer players p.session

pub enter_players-total :
    (s : Server) (ps : List MatchPlayer)
    → All (CanEnter s.characters s.host.players) ps
    → (after : Server) × (enter_players s ps ≡ some after) × Entered s after ps
unfolding enter_players
enter_players-total s [] h = (
  s,
  refl,
  record {
    lobby = refl;
    calm = refl;
    characters = refl;
    peers = λ t. refl;
    still = λ t e. e;
    bodied = tt;
  },
)
enter_players-total s (p ∷ ps) h =
    let fresh : Player → Player = λ q. record q { commands = make_queue s.host.tick_rate_hz } in
    let entered : Server = record s {
      bodies = emplace p.session p.entity s.bodies;
      host = record s.host { players = modify p.session fresh s.host.players };
    } in
    let same : SamePeers s.host.players entered.host.players =
      modify-SamePeers p.session fresh s.host.players (λ q. refl) in
    let can : All (CanEnter s.characters entered.host.players) ps =
      All-map (CanEnter s.characters s.host.players) ps
        (λ q c. (c.0, HasPlayer-same s.host.players entered.host.players q.session same c.1)) h.1 in
    let (after, done, e) = enter_players-total entered ps can in
    (
      after,
      ground (arith, h.0.0, h.0.1, done),
      record {
        lobby = e.lobby;
        calm = e.calm;
        characters = e.characters;
        peers = λ t. e.peers t ∙ same t;
        still = λ t has. e.still t (emplace-HasEntity p.session p.entity t s.bodies has);
        bodied = (e.still p.session (emplace-own p.session p.entity s.bodies), e.bodied);
      },
    )
