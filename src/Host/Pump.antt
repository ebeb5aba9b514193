-- ===== src/Host/Pump.antt =====
-- PumpPeers (src/modules/host/peer_gate.cpp) with the Host's handlers (Host::PumpNetwork in
-- host_network.cpp): one round of network work. What the network gives is an argument. A throw is
-- noted by the handlers, and makes the round's outcome `none`.
pub mod Rounds
pub mod Ignored
pub mod Lobby
pub mod Examples
use augusta.Common.{
  ℕ, Bool, true, false, Option, none, some, List, [], ◌∷◌, if◌then◌else◌, Vec3, Expected, value,
  unexpected,
}
use augusta.Failure.{Failure}
use augusta.Failure.Latch.{FailureLatch, record_failure}
use augusta.Host.PeerGate.{connected as gate_connected, was_expelled, take_overdue, end_round}
use augusta.Host.Network.{
  Impl, does, accepted, PeerMessage, handle_disconnect, expel, handle_message, caught,
}

-- link::PeerEvent; why a connection ended decides only what is counted and logged.
pub data PeerEvent : Type 0 where
  connect_requested connected disconnected : ℕ → PeerEvent

abbrev pub handle_event : Impl → ℕ → PeerEvent → Impl
handle_event h now (connect_requested peer) =
    let heard : Impl = does h (accepted peer) in
    record heard { gate = gate_connected heard.gate peer now }
handle_event h now (connected peer) = h
handle_event h now (disconnected peer) = handle_disconnect h peer

abbrev pub handle_events : Impl → ℕ → List PeerEvent → Impl
handle_events h now [] = h
handle_events h now (e ∷ es) = handle_events (handle_event h now e) now es

abbrev pub expel_all : Impl → List ℕ → Impl
expel_all h [] = h
expel_all h (peer ∷ peers) = expel_all (expel h peer) peers

-- The end of a round: each peer past its deadline, then EndRound.
pub finish_round : Impl → ℕ → Impl
finish_round h now =
    let (gate, due) = take_overdue h.gate now in
    let after = expel_all (record h { gate = gate }) due in
    record after { gate = end_round after.gate }

module _ (ids : ℕ → ℕ) (vec_length : Vec3 → ℕ) where
  pub handle_messages : Impl → ℕ → List PeerMessage → Option Impl
  handle_messages h now [] = some h
  handle_messages h now (m ∷ ms) = elim (was_expelled h.gate m.from) [
    | true ↦ handle_messages h now ms
    | false ↦ elim (handle_message ids vec_length h m now) [
      | none ↦ none
      | some after ↦ handle_messages after now ms
    ]
  ]

  -- A round's outcome, unless it threw.
  abbrev pub with_latch : FailureLatch → Option Impl → Option (Impl × FailureLatch)
  with_latch latch none = none
  with_latch latch (some h) = some (h, latch)

  abbrev pub finished : ℕ → FailureLatch → Option Impl → Option (Impl × FailureLatch)
  finished now latch none = none
  finished now latch (some h) = with_latch latch (caught (finish_round h now))

  -- The messages of a round whose events did not throw.
  abbrev pub heard :
      ℕ → FailureLatch → List PeerMessage → Option Impl → Option (Impl × FailureLatch)
  heard now latch messages none = none
  heard now latch messages (some h) = finished now latch (handle_messages h now messages)

  pub pump_network :
      Impl
      → FailureLatch
      → ℕ
      → List PeerEvent
      → Expected (List PeerMessage) Failure
      → Option (Impl × FailureLatch)
  unfolding finish_round handle_messages
  pump_network h latch now events received = elim received [
    | unexpected failure ↦
        with_latch (record_failure latch failure) (caught (handle_events h now events))
    | value messages ↦ heard now latch messages (caught (handle_events h now events))
  ]
