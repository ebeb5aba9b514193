-- ===== src/Link/Examples.antt =====
-- A message of three commands and a short capture under a toy protocol, and each theorem about the
-- Link's mappings at them.
use augusta.Common.{
  ℕ, ◌≡◌, refl, sym, ap, ◌∙◌, Option, none, some, List, [], ◌∷◌, ◌++◌, ◌==◌, if◌then◌else◌, map,
  zero_vec, false, true, Expected, value, unexpected, arith,
}
use augusta.Command.{Command, idle_command}
use augusta.Host.Commands.{SequencedCommand}
use augusta.Capture.{Header, Join, EventAt, command, match_end}
use augusta.Capture.Reading.{Capture, capture_magic, read_capture}
use augusta.Capture.Writing.{write_capture}
use augusta.Capture.Cutting.{stream_of}
use augusta.Link.{commands_to_wire, commands_from_wire}
use augusta.Link.CaptureRecords.{
  CaptureRecordWire, header_wire, join_wire, command_wire, leave_wire, death_wire, match_end_wire,
  EncodeError, Protocol, header_to_wire, join_to_wire, event_to_wire, decode_record, link_codec,
}
use augusta.Link.Commands.{commands_from_wire-commands_to_wire}
use augusta.Link.CaptureRecords.RoundTrip.{Kept, kept, read_capture-link_codec}

abbrev seen_at : ℕ → Command
seen_at n = record idle_command { fire = true; seen_tick = n }

abbrev a_header : Header
a_header = record {
  match_id = 7;
  engine_version = "1.0";
  server_pack = 1;
  client_pack = 2;
  tick_rate_hz = 60;
  started = 1000;
}

abbrev joined : Join
joined = record { session = 4; character = "Scout"; spawn = zero_vec }

abbrev shooting : EventAt
shooting = record {
  offset = 8;
  event = command (record { player = 1; seen_offset = 5; command = seen_at 105 });
}

abbrev won : EventAt
won = record { offset = 9; event = match_end (some 1) }

abbrev a_capture : Capture
a_capture = record {
  header = a_header;
  joins = joined ∷ joined ∷ [];
  events = shooting ∷ won ∷ [];
  torn = false;
}

-- Records of the capture above that differ in their kind and their player alone.
abbrev toy_encode : CaptureRecordWire → Expected (List ℕ) EncodeError
toy_encode (header_wire h) = value (1 ∷ 0 ∷ [])
toy_encode (join_wire j) = value (2 ∷ j.player ∷ [])
toy_encode (command_wire c) = value (3 ∷ 0 ∷ [])
toy_encode (leave_wire l) = value (4 ∷ 0 ∷ [])
toy_encode (death_wire d) = value (5 ∷ 0 ∷ [])
toy_encode (match_end_wire e) = value (6 ∷ 0 ∷ [])

toy_decode : List ℕ → Option CaptureRecordWire
unfolding header_to_wire join_to_wire event_to_wire
toy_decode (kind ∷ n ∷ []) =
    if kind == 1
    then some (header_wire (header_to_wire a_header))
    else if kind == 2
    then some (join_wire (join_to_wire n joined))
    else if kind == 3
    then some (event_to_wire shooting)
    else some (event_to_wire won)
toy_decode _ = none

abbrev toy_protocol : Protocol
toy_protocol = record {
  encode_capture_record = toy_encode;
  decode_capture_record = toy_decode;
  describe_encode_error = λ e. [];
}

payload_of : Expected (List ℕ) EncodeError → List ℕ
payload_of (value bytes) = bytes
payload_of (unexpected e) = []

decodes_back :
    (w : CaptureRecordWire) (bytes : List ℕ)
    → toy_encode w ≡ value bytes
    → toy_decode bytes ≡ some w
    → Kept toy_protocol w
unfolding payload_of
decodes_back w bytes e d p h = ap toy_decode (ap payload_of (sym h ∙ e)) ∙ d

joined-Kept : (n : ℕ) → Kept toy_protocol (join_wire (join_to_wire n joined))
unfolding toy_decode
joined-Kept n =
    decodes_back (join_wire (join_to_wire n joined)) (2 ∷ n ∷ []) (unfold join_to_wire in refl) refl

header-Kept : Kept toy_protocol (header_wire (header_to_wire a_header))
unfolding toy_decode
header-Kept = decodes_back (header_wire (header_to_wire a_header)) (1 ∷ 0 ∷ []) refl refl

shooting-Kept : Kept toy_protocol (event_to_wire shooting)
unfolding toy_decode event_to_wire
shooting-Kept = decodes_back (event_to_wire shooting) (3 ∷ 0 ∷ []) refl refl

won-Kept : Kept toy_protocol (event_to_wire won)
unfolding toy_decode event_to_wire
won-Kept = decodes_back (event_to_wire won) (6 ∷ 0 ∷ []) refl refl

abbrev a_file : List ℕ
a_file = capture_magic ++ 4 ∷ 2 ∷ 1 ∷ 0 ∷ 2 ∷ 2 ∷ 1 ∷ 2 ∷ 2 ∷ 2 ∷ 2 ∷ 3 ∷ 0 ∷ 2 ∷ 6 ∷ 0 ∷ []

a_file-written : write_capture (link_codec toy_protocol) a_capture ≡ value a_file
unfolding write_capture link_codec event_to_wire join_to_wire
a_file-written = refl

read_capture-link_codec_example :
    read_capture (decode_record toy_protocol) (stream_of a_file)
    ≡ some (value (record a_capture { torn = false; events = map kept (shooting ∷ won ∷ []) }))
read_capture-link_codec_example =
    read_capture-link_codec toy_protocol a_capture a_file header-Kept
      (joined-Kept, (joined-Kept, tt)) (shooting-Kept, (won-Kept, tt)) (omega arith) (ground arith)
      a_file-written

abbrev three : List SequencedCommand
three =
    record { sequence = 1; command = seen_at 100 }
    ∷ record { sequence = 2; command = seen_at 300 }
    ∷ record { sequence = 3; command = seen_at 400 }
    ∷ []

commands_from_wire-commands_to_wire_example :
    commands_from_wire (commands_to_wire three)
    ≡ record { sequence = 1; command = seen_at 145 }
      ∷ record { sequence = 2; command = seen_at 300 }
      ∷ record { sequence = 3; command = seen_at 400 }
      ∷ []
commands_from_wire-commands_to_wire_example = commands_from_wire-commands_to_wire three
