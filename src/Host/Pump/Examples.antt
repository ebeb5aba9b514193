-- ===== src/Host/Pump/Examples.antt =====
-- A round in which a peer connects, joins and sends a command too soon.
use augusta.Common.{refl, ℕ, suc, ◌<◌, ◌≡◌, none, some, List, [], ◌∷◌, Vec3, true, false, arith}
use augusta.Failure.Latch.{FailureLatch}
use augusta.Command.{idle_command}
use augusta.Host.Match.{Match}
use augusta.Host.PeerGate.{fresh_gate}
use augusta.Host.Network.{Impl, PeerMessage, join_request, sequenced_commands}
use augusta.Host.Pump.{PeerEvent, connect_requested, disconnected, handle_messages}
use augusta.Host.Pump.Ignored.{handle_messages-without_peer}

abbrev pub same_id : ℕ → ℕ
same_id n = n

pub rising_ids : (n : ℕ) → same_id n < same_id (suc n)
rising_ids n = omega arith

abbrev pub x_length : Vec3 → ℕ
x_length v = v.x

abbrev pub lobby : Match
lobby = record {
  terms = record { engine_version = "1.0"; client_pack = 7 };
  characters = "Scout" ∷ [];
  player_count = 2;
  pause_ticks = 3;
  reenactments = false;
  in_match = false;
  roster_version = 1;
  ticks_since_end = 3;
  next_entity = 1;
  members = (5, record { session = 0; character = "Scout"; spawn = none; ready_version = 1 }) ∷ [];
  ids_taken = 1;
}

abbrev pub server : Impl
server = record {
  lobby = lobby;
  players =
      (
        0,
        record {
          peer = 5;
          commands = record {
            queue = [];
            last = none;
            max_held_ticks = 6;
            held_ticks = 0;
            last_offered = 0;
            acknowledged = 0;
          };
        },
      )
      ∷ [];
  gate = fresh_gate;
  tick_rate_hz = 60;
  match_winner = none;
  effects = [];
  thrown = false;
}

abbrev pub calm : FailureLatch
calm = record { recorded = false; failure = none }

abbrev pub events : List PeerEvent
events = connect_requested 8 ∷ disconnected 5 ∷ []

abbrev pub said : List PeerMessage
said =
    record {
      from = 8;
      decodes = true;
      message = some (
          join_request (record {
            engine_version = "1.0";
            client_pack = 7;
            character = "Scout";
            spawn = none;
          }));
    }
    ∷ record {
      from = 8;
      decodes = true;
      message = some (sequenced_commands (record { sequence = 1; command = idle_command } ∷ []));
    }
    ∷ record { from = 9; decodes = false; message = none }
    ∷ []

abbrev server_expelled : Impl
server_expelled = record server { gate = record fresh_gate { expelled = 8 ∷ [] } }

handle_messages-without_peer_example :
    handle_messages same_id x_length server_expelled 7 said
    ≡ handle_messages same_id x_length server_expelled 7
        (record { from = 9; decodes = false; message = none } ∷ [])
handle_messages-without_peer_example =
    handle_messages-without_peer same_id x_length server_expelled 7 8 said refl
