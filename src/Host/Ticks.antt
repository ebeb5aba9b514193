-- ===== src/Host/Ticks.antt =====
-- src/modules/host/host_match.cpp, a Shipping build's, with host.cpp's SendTo and SendRoster: what the
-- server does on a tick and as a Match starts and ends, over the state that Host.Network models.
-- What the simulation and the capturer are asked, and what is sent, is kept as calls; metrics and
-- log lines are left out. `none` is the exception that an `at` throws for a key that is not there.
-- What the simulation answers, the spawns it gives and what a tick results in, is given.
pub mod Lookups
pub mod Ending
pub mod Starting
pub mod Taking
pub mod Players
pub mod Preparing
pub mod Serving
mod Examples
use augusta.Common.{
  ℕ, ◌+◌, ◌%◌, ◌^◌, Bool, true, false, not, ◌&&◌, Option, none, some, List, [], ◌∷◌, ◌++◌, map,
  String, if◌then◌else◌, is_some, lookup, modify, length, keep_if, Vec3,
}
use augusta.Command.{Command}
use augusta.Host.Match.{
  Match, MatchPlayer, MatchStart, MatchEnd, Roster, RosterEntry, is_playing, playing, end_match,
  try_start, get_roster, find_character,
}
use augusta.Host.Match
use augusta.Host.Commands.{CommandQueue, TickCommand, make_queue, next}
use augusta.Host.Network.{Impl, Player, peers_at}

-- simulation::MatchPlayer, its identity's character beside the simulation's own for it.
pub record Entrant : Type 0 where
  pub entity : ℕ
  pub session : ℕ
  pub character : String
  pub spawn : Option Vec3

pub record PlayerCommand : Type 0 where
  pub entity : ℕ
  pub command : Command

-- replication::Recipient, with the peer that it is sent to.
pub record Recipient : Type 0 where
  pub entity : ℕ
  pub acknowledged_sequence : ℕ
  pub queued_commands : ℕ
  pub peer : ℕ

pub record TickInput : Type 0 where
  pub commands : List PlayerCommand
  pub recipients : List Recipient

pub data Message : Type 0 where
  match_ended : MatchEnd → Message
  match_started : MatchStart → List Vec3 → ℕ → Message
  roster : Roster → Message

pub data Call : Type 0 where
  starts_match : List Entrant → Call
  removes_player : ℕ → Call
  ends_match : Call
  captures_start : ℕ → List Entrant → List Vec3 → ℕ → Call
  captures_leave : ℕ → ℕ → Call
  captures_command : ℕ → ℕ → Command → Call
  captures_end : ℕ → Option ℕ → Call
  sends : List ℕ → Message → Call

pub record Server : Type 0 where
  pub host : Impl
  pub characters : List String
  pub capturing : Bool
  pub bodies : List (ℕ × ℕ)
  pub simulating_match : Bool
  pub tick : ℕ
  pub match_start_tick : ℕ
  pub match_id : ℕ
  pub calls : List Call

abbrev pub calls_out : Server → List Call → Server
calls_out s calls = record s { calls = s.calls ++ calls }

-- A call of the capturer, if Matches are captured.
abbrev pub if_captured : Server → List Call → List Call
if_captured s calls = if s.capturing then calls else []

-- SendTo, of a message that encodes.
unfoldable pub send_to : Server → List ℕ → Message → Option Server
unfolding peers_at
send_to s sessions message = elim (peers_at s.host.players sessions) [
  | none ↦ none
  | some peers ↦ some (calls_out s (sends peers message ∷ []))
]

unfoldable pub send_roster_to : Server → Option Server
unfolding send_to
send_roster_to s =
    let told = get_roster s.host.lobby in
    send_to s (map (λ e. e.session) told.players) (roster told)

-- EndMatch, given what the Match's End left and returned.
abbrev ended_as : Server → Match → Option MatchEnd → Option Server
ended_as s lobby none = some s
ended_as s lobby (some ended) =
    elim (send_to (record s { host = record s.host { lobby = lobby } }) ended.players
      (match_ended ended)) [
        | none ↦ none
        | some told ↦
            send_roster_to (record told { host = record told.host { match_winner = ended.winner } })
      ]

-- Host::Impl::EndMatch.
unfoldable pub end_match_in : Server → Option ℕ → Option Server
unfolding send_roster_to
end_match_in s winner = let (lobby, ended) = end_match s.host.lobby winner in ended_as s lobby ended

abbrev pub entrant_of : MatchPlayer → Entrant
entrant_of p = record {
  entity = p.entity;
  session = p.session;
  character = p.character;
  spawn = p.spawn;
}

-- `bodies.emplace`: nothing where the session has a body.
abbrev pub emplace : ℕ → ℕ → List (ℕ × ℕ) → List (ℕ × ℕ)
emplace session entity bodies =
    if is_some (lookup session bodies) then bodies else (session, entity) ∷ bodies

-- The loop of StartMatchIfReady over the players.
unfoldable pub enter_players : Server → List MatchPlayer → Option Server
enter_players s [] = some s
enter_players s (p ∷ ps) =
    let fresh = λ (q : Player). record q { commands = make_queue s.host.tick_rate_hz } in
    let entered = record s {
      bodies = emplace p.session p.entity s.bodies;
      host = record s.host { players = modify p.session fresh s.host.players };
    } in
    let rest = enter_players entered ps in
    if is_some (find_character p.character s.characters)
      && is_some (lookup p.session s.host.players)
    then rest
    else none

module _ (spawns_of : List Entrant → List Vec3) where
  -- StartMatchIfReady past its players: the simulation starts the Match, and it is told.
  unfoldable pub started_with : Server → MatchStart → Option Server
  unfolding send_to
  started_with s start =
      let entrants = map entrant_of start.players in
      let spawns = spawns_of entrants in
      let first = (s.tick + 1) % 2 ^ 64 in
      let captured = if_captured s (captures_start start.match_id entrants spawns first ∷ []) in
      send_to
        (calls_out
          (record s {
            simulating_match = true;
            match_start_tick = first;
            match_id = start.match_id;
          })
          (starts_match entrants ∷ captured))
        (map (λ p. p.session) start.players) (match_started start spawns first)

  abbrev starts : Server → Match → Option MatchStart → Option Server
  starts s lobby none = some (record s { host = record s.host { lobby = lobby } })
  starts s lobby (some start) =
      elim (enter_players (record s { host = record s.host { lobby = lobby } }) start.players) [
        | none ↦ none
        | some entered ↦ started_with entered start
      ]

  unfoldable pub start_match_if_ready : (ℕ → ℕ) → Server → Option Server
  unfolding enter_players started_with
  start_match_if_ready ids s =
      let (lobby, start) = try_start ids s.host.lobby in starts s lobby start

-- The Leave of each body whose player has left.
abbrev pub left_calls : Server → List (ℕ × ℕ) → List Call
left_calls s [] = []
left_calls s ((session, entity) ∷ bodies) =
    let rest = left_calls s bodies in
    if is_some (lookup session s.host.players) then rest else captures_leave s.tick entity ∷ rest

unfoldable pub take_out_ended_match : Server → Server
take_out_ended_match s =
    let captured =
      if_captured s (left_calls s s.bodies ++ captures_end s.tick s.host.match_winner ∷ []) in
    calls_out (record s { bodies = []; simulating_match = false }) (ends_match ∷ captured)

-- What std::erase_if does of the bodies that no longer play.
abbrev pub removal_calls : Server → ℕ → List (ℕ × ℕ) → List Call
removal_calls s next_tick [] = []
removal_calls s next_tick ((session, entity) ∷ bodies) =
    let rest = removal_calls s next_tick bodies in
    if is_playing s.host.lobby session
    then rest
    else (removes_player entity ∷ if_captured s (captures_leave next_tick entity ∷ [])) ++ rest

unfoldable pub remove_left : Server → Server
remove_left s =
    let next_tick = (s.tick + 1) % 2 ^ 64 in
    calls_out (record s { bodies = keep_if (λ b. is_playing s.host.lobby b.0) s.bodies })
      (removal_calls s next_tick s.bodies)

-- The body of PrepareTick's loop: what it leaves of the server, and adds to the tick's input.
unfoldable pub command_taken : Server → ℕ → ℕ → Player → Server
command_taken s session entity player =
    let (queue, taken) = next player.commands in
    let called =
      if taken.sent
      then if_captured s (captures_command ((s.tick + 1) % 2 ^ 64) entity taken.command ∷ [])
      else [] in
    calls_out
      (record s {
        host = record s.host {
          players = modify session (λ q. record q { commands = queue }) s.host.players;
        };
      })
      called

unfoldable pub input_with : ℕ → Player → TickInput → TickInput
input_with entity player input =
    let (queue, taken) = next player.commands in
    record {
      commands = record { entity = entity; command = taken.command } ∷ input.commands;
      recipients =
          record {
            entity = entity;
            acknowledged_sequence = taken.acknowledged_sequence;
            queued_commands = length queue.queue % 256;
            peer = player.peer;
          }
          ∷ input.recipients;
    }

-- The loop of PrepareTick over the sessions that play.
unfoldable pub take_commands_of : Server → List ℕ → Option (Server × TickInput)
unfolding command_taken input_with
take_commands_of s [] = some (s, record { commands = []; recipients = [] })
take_commands_of s (session ∷ sessions) = elim (lookup session s.host.players) [
  | none ↦ none
  | some player ↦ elim (lookup session s.bodies) [
    | none ↦ none
    | some entity ↦ elim (take_commands_of (command_taken s session entity player) sessions) [
      | none ↦ none
      | some (last, input) ↦ some (last, input_with entity player input)
    ]
  ]
]

-- PrepareTick before the Match's tick.
unfoldable pub settle_bodies : Server → Server
unfolding take_out_ended_match remove_left
settle_bodies s =
    remove_left
      (if s.simulating_match && not s.host.lobby.in_match then take_out_ended_match s else s)

abbrev pub tick_lobby : Server → Server
tick_lobby s = record s { host = record s.host { lobby = Match.tick s.host.lobby } }

unfoldable pub prepare_tick :
    (List Entrant → List Vec3) → (ℕ → ℕ) → Server → Option (Server × TickInput)
unfolding settle_bodies start_match_if_ready take_commands_of
prepare_tick spawns_of ids s =
    elim (start_match_if_ready spawns_of ids (tick_lobby (settle_bodies s))) [
      | none ↦ none
      | some started ↦ take_commands_of started (playing started.host.lobby)
    ]
