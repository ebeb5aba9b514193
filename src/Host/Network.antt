-- ===== src/Host/Network.antt =====
-- src/modules/host/host_network.cpp, a Shipping build's: what the server does with a peer's message
-- and with a departure. What it sends is kept as effects; metrics and log lines are left out.
-- players.at throws for a session that has no player. In SendRoster that is noted in `thrown`, and in
-- HandleCommands it is `none`; handle_message is `none` for either, and so is a round of network
-- work, so that nothing is ever seen of what follows a throw.
pub mod Seats
pub mod Messages
pub mod Expelled
pub mod Lobby
use augusta.Common.{
  ℕ, ◌≡◌, Bool, true, false, not, Option, none, some, List, [], ◌∷◌, ◌++◌, map, if◌then◌else◌,
  is_some, lookup, erase, modify, Vec3, Expected, value, unexpected,
}
use augusta.Host.Match.{
  Match, Roster, Departure, not_joined, from_lobby, from_match, ended_match, Admission, JoinRequest,
  JoinRefusal, not_a_replay_server, join, leave, ready, session_of, is_playing, get_roster,
}
use augusta.Host.Commands.{
  CommandQueue, SequencedCommand, Rejection, stale, non_finite, out_of_range, make_queue,
  try_enqueue,
}
use augusta.Host.Misbehaviour.{
  PeerRejection, undecodable, not_a_client_message, non_finite_command, out_of_range_command,
  commands_before_joining, stale_command, commands_outside_match, stale_ready, join_refused,
  Verdict, keep, disconnect,
}
use augusta.Host.PeerGate.{PeerGate, admitted, left, judge as gate_judge, expel as gate_expel}

pub record Player : Type 0 where
  pub peer : ℕ
  pub commands : CommandQueue

pub data Effect : Type 0 where
  replied_admission : ℕ → Admission → Effect
  replied_refusal : ℕ → JoinRefusal → Effect
  sent_roster : List ℕ → Roster → Effect
  accepted disconnected : ℕ → Effect

pub record Impl : Type 0 where
  pub lobby : Match
  pub players : List (ℕ × Player)
  pub gate : PeerGate
  pub tick_rate_hz : ℕ
  pub match_winner : Option ℕ
  pub effects : List Effect
  pub thrown : Bool

abbrev pub does : Impl → Effect → Impl
does h e = record h { effects = h.effects ++ e ∷ [] }

-- The peers of sessions, each by players.at.
unfoldable pub peers_at : List (ℕ × Player) → List ℕ → Option (List ℕ)
peers_at players [] = some []
peers_at players (session ∷ sessions) =
    let rest = peers_at players sessions in
    elim (lookup session players) [
      | none ↦ none
      | some p ↦ elim rest [ none ↦ none | some peers ↦ some (p.peer ∷ peers) ]
    ]

-- SendRoster, of a Roster that encodes.
unfoldable pub send_roster : Impl → Impl
unfolding peers_at
send_roster h =
    let told = get_roster h.lobby in
    elim (peers_at h.players (map (λ e. e.session) told.players)) [
      | none ↦ record h { thrown = true }
      | some peers ↦ does h (sent_roster peers told)
    ]

abbrev pub to_peer_rejection : Rejection → PeerRejection
to_peer_rejection stale = stale_command
to_peer_rejection non_finite = non_finite_command
to_peer_rejection out_of_range = out_of_range_command

-- What a departure does besides.
unfoldable pub departed : Impl → Departure → Impl
unfolding send_roster
departed h not_joined = h
departed h from_lobby = send_roster h
departed h from_match = h
departed h ended_match = record h { match_winner = none }

-- HandleDisconnect, past the gate's Left.
unfoldable pub leaves : Impl → ℕ → Option ℕ → Impl
unfolding departed
leaves h peer none = h
leaves h peer (some session) =
    let (lobby, departure) = leave h.lobby peer in
    departed (record h { lobby = lobby; players = erase session h.players }) departure

pub handle_disconnect : Impl → ℕ → Impl
unfolding leaves
handle_disconnect h peer =
    leaves (record h { gate = left h.gate peer }) peer (session_of h.lobby peer)

pub expel : Impl → ℕ → Impl
unfolding handle_disconnect
expel h peer =
    handle_disconnect (does (record h { gate = gate_expel h.gate peer }) (disconnected peer)) peer

abbrev pub judged : Impl → ℕ → Verdict → Impl × Verdict
judged h peer keep = (h, keep)
judged h peer disconnect = (expel h peer, disconnect)

pub judge : Impl → ℕ → PeerRejection → ℕ → Impl × Verdict
unfolding expel
judge h peer rejection now =
    let (gate, verdict) = gate_judge h.gate peer rejection now in
    judged (record h { gate = gate }) peer verdict

-- `players.try_emplace`, and what follows if the session is new.
unfoldable pub seated : Impl → ℕ → Admission → Impl
unfolding send_roster
seated h peer a =
    if is_some (lookup a.session h.players)
    then h
    else send_roster (record h {
      players =
          (a.session, record { peer = peer; commands = make_queue h.tick_rate_hz }) ∷ h.players;
    })

-- HandleJoinRequest, given the Match's answer.
unfoldable pub joins : Impl → ℕ → ℕ → Expected Admission JoinRefusal → Impl
unfolding seated judge
joins h peer now (unexpected refusal) =
    (judge (does h (replied_refusal peer refusal)) peer join_refused now).0
joins h peer now (value a) =
    seated (does (record h { gate = admitted h.gate peer }) (replied_admission peer a)) peer a

module _ (ids : ℕ → ℕ) (vec_length : Vec3 → ℕ) where
  pub handle_join_request : Impl → ℕ → JoinRequest → ℕ → Impl
  unfolding joins
  handle_join_request h peer request now =
      let (lobby, admission) = join ids h.lobby peer request in
      joins (record h { lobby = lobby }) peer now admission

  -- The loop of HandleCommands on the queue of a session.
  pub take_commands : Impl → ℕ → ℕ → List SequencedCommand → ℕ → Option Impl
  take_commands h peer session [] now = some h
  take_commands h peer session (c ∷ cs) now = elim (lookup session h.players) [
    | none ↦ none
    | some p ↦
        let (queue, enqueued) = try_enqueue vec_length p.commands c in
        let taken : Impl = record h {
          players = modify session (λ q. record q { commands = queue }) h.players;
        } in
        elim enqueued [
          | value how ↦ take_commands taken peer session cs now
          | unexpected why ↦
              let (after, verdict) = judge taken peer (to_peer_rejection why) now in
              elim verdict [
                | disconnect ↦ some after
                | keep ↦ take_commands after peer session cs now
              ]
        ]
  ]

  abbrev pub plays : Impl → ℕ → ℕ → List SequencedCommand → ℕ → Option Impl
  plays h peer session commands now =
      if not (is_playing h.lobby session)
      then some (judge h peer commands_outside_match now).0
      else elim (lookup session h.players) [
        | none ↦ none
        | some p ↦ take_commands h peer session commands now
      ]

  pub handle_commands : Impl → ℕ → List SequencedCommand → ℕ → Option Impl
  unfolding take_commands
  handle_commands h peer commands now = elim (session_of h.lobby peer) [
    | none ↦ some (judge h peer commands_before_joining now).0
    | some session ↦ plays h peer session commands now
  ]

pub handle_ready : Impl → ℕ → ℕ → ℕ → Impl
unfolding judge
handle_ready h peer version now =
    let (lobby, taken) = ready h.lobby peer version in
    if taken
    then record h { lobby = lobby }
    else (judge (record h { lobby = lobby }) peer stale_ready now).0

pub refuse_as_no_replay_server : Impl → ℕ → ℕ → Impl
unfolding judge
refuse_as_no_replay_server h peer now =
    (judge (does h (replied_refusal peer not_a_replay_server)) peer join_refused now).0

-- link::ClientMessage; the last is a Replay list request or a Replay request.
pub data ClientMessage : Type 0 where
  join_request : JoinRequest → ClientMessage
  sequenced_commands : List SequencedCommand → ClientMessage
  ready_for : ℕ → ClientMessage
  replay_request : ClientMessage

-- link::PeerMessage: whether it is a message at all, and what it says if a client sends such.
pub record PeerMessage : Type 0 where
  pub from : ℕ
  pub decodes : Bool
  pub message : Option ClientMessage

-- Nothing, where the handling threw.
abbrev pub caught : Impl → Option Impl
caught h = if h.thrown then none else some h

abbrev pub settled : Option Impl → Option Impl
settled none = none
settled (some h) = caught h

module _ (ids : ℕ → ℕ) (vec_length : Vec3 → ℕ) where
  abbrev pub handle_said : Impl → ℕ → ℕ → ClientMessage → Option Impl
  handle_said h peer now (join_request r) = some (handle_join_request ids vec_length h peer r now)
  handle_said h peer now (sequenced_commands cs) = handle_commands ids vec_length h peer cs now
  handle_said h peer now (ready_for version) = some (handle_ready h peer version now)
  handle_said h peer now replay_request = some (refuse_as_no_replay_server h peer now)

  -- HandleMessage, with what it throws in SendRoster noted.
  pub take_message : Impl → PeerMessage → ℕ → Option Impl
  unfolding handle_join_request handle_commands handle_ready refuse_as_no_replay_server
  take_message h m now =
      if not m.decodes then some (judge h m.from undecodable now).0 else elim m.message [
        | none ↦ some (judge h m.from not_a_client_message now).0
        | some said ↦ handle_said h m.from now said
      ]

  pub handle_message : Impl → PeerMessage → ℕ → Option Impl
  unfolding take_message
  handle_message h m now = settled (take_message h m now)
