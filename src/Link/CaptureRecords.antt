-- ===== src/Link/CaptureRecords.antt =====
-- src/modules/link/capture_records.cpp: a capture's records, to and from the protocol's types. The
-- protocol's encoding of those to bytes is the interface Protocol. A pack's hash, copied byte by
-- byte, is one number; so are an ID and a time in milliseconds.
pub mod RoundTrip
use augusta.Common.{
  ℕ, ◌+◌, Option, none, some, List, [], ◌∷◌, String, ◌==◌, if◌then◌else◌, option_or, Vec3, Expected,
  value, unexpected,
}
use augusta.Failure.{Failure, invariant_violated}
use augusta.Capture.{
  Header, Join, Command as CapturedCommand, Event, EventAt, CaptureRecord, command, leave, death,
  match_end, header, join, event,
}
use augusta.Capture.Writing.{Codec}
use augusta.Link.{CommandWire, command_to_wire, command_from_wire}

pub record CaptureHeaderWire : Type 0 where
  pub server_pack : ℕ
  pub client_pack : ℕ
  pub engine_version : String
  pub started_unix_ms : ℕ
  pub match_id : ℕ
  pub tick_rate_hz : ℕ

pub record CapturedJoinWire : Type 0 where
  pub spawn : Vec3
  pub offset : ℕ
  pub session : ℕ
  pub character : String
  pub player : ℕ

pub record CapturedCommandWire : Type 0 where
  pub command : CommandWire
  pub offset : ℕ
  pub seen_offset : ℕ
  pub player : ℕ

pub record CapturedLeaveWire : Type 0 where
  pub offset : ℕ
  pub player : ℕ

pub record CapturedDeathWire : Type 0 where
  pub offset : ℕ
  pub victim : ℕ
  pub killer : ℕ

pub record CapturedMatchEndWire : Type 0 where
  pub offset : ℕ
  pub winner : ℕ

pub data CaptureRecordWire : Type 0 where
  header_wire : CaptureHeaderWire → CaptureRecordWire
  join_wire : CapturedJoinWire → CaptureRecordWire
  command_wire : CapturedCommandWire → CaptureRecordWire
  leave_wire : CapturedLeaveWire → CaptureRecordWire
  death_wire : CapturedDeathWire → CaptureRecordWire
  match_end_wire : CapturedMatchEndWire → CaptureRecordWire

pub data EncodeError : Type 0 where
  field_too_long reserved_bits invalid_enum not_authoritative_state not_utf8 : EncodeError

-- EncodeCaptureRecord, DecodeCaptureRecord and DescribeEncodeError of the protocol.
pub record Protocol : Type 0 where
  pub encode_capture_record : CaptureRecordWire → Expected (List ℕ) EncodeError
  pub decode_capture_record : List ℕ → Option CaptureRecordWire
  pub describe_encode_error : EncodeError → List ℕ

unfoldable pub event_to_wire : EventAt → CaptureRecordWire
event_to_wire e = elim e.event [
  | command c ↦ command_wire (record {
    command = command_to_wire c.command c.command.seen_tick;
    offset = e.offset;
    seen_offset = c.seen_offset;
    player = c.player;
  })
  | leave player ↦ leave_wire (record { offset = e.offset; player = player })
  | death victim killer ↦
      death_wire (record { offset = e.offset; victim = victim; killer = killer })
  | match_end winner ↦ match_end_wire (record { offset = e.offset; winner = option_or winner 0 })
]

unfoldable pub header_to_wire : Header → CaptureHeaderWire
header_to_wire h = record {
  server_pack = h.server_pack;
  client_pack = h.client_pack;
  engine_version = h.engine_version;
  started_unix_ms = h.started;
  match_id = h.match_id;
  tick_rate_hz = h.tick_rate_hz;
}

unfoldable pub header_from_wire : CaptureHeaderWire → Header
header_from_wire h = record {
  match_id = h.match_id;
  engine_version = h.engine_version;
  server_pack = h.server_pack;
  client_pack = h.client_pack;
  tick_rate_hz = h.tick_rate_hz;
  started = h.started_unix_ms;
}

unfoldable pub join_to_wire : ℕ → Join → CapturedJoinWire
join_to_wire player j = record {
  spawn = j.spawn;
  offset = 0;
  session = j.session;
  character = j.character;
  player = player;
}

-- RecordFromWire, with EventFromRecord's clauses for the events.
unfoldable pub record_from_wire : CaptureRecordWire → CaptureRecord
unfolding header_from_wire
record_from_wire (header_wire h) = header (header_from_wire h)
record_from_wire (join_wire j) =
    join j.offset j.player
      (record { session = j.session; character = j.character; spawn = j.spawn })
record_from_wire (command_wire c) = event (record {
  offset = c.offset;
  event = command (record {
    player = c.player;
    seen_offset = c.seen_offset;
    command = command_from_wire c.command 0;
  });
})
record_from_wire (leave_wire l) = event (record { offset = l.offset; event = leave l.player })
record_from_wire (death_wire d) =
    event (record { offset = d.offset; event = death d.victim d.killer })
record_from_wire (match_end_wire e) = event (record {
  offset = e.offset;
  event = match_end (if e.winner == 0 then none else some e.winner);
})

unfoldable pub type_of : CaptureRecordWire → ℕ
type_of (header_wire h) = 1
type_of (join_wire j) = 2
type_of (command_wire c) = 3
type_of (leave_wire l) = 4
type_of (death_wire d) = 5
type_of (match_end_wire e) = 6

-- The bytes of "capture_record_type".
abbrev record_type_key : List ℕ
record_type_key =
    99 ∷ 97 ∷ 112 ∷ 116 ∷ 117 ∷ 114 ∷ 101 ∷ 95 ∷ 114 ∷ 101 ∷ 99 ∷ 111 ∷ 114 ∷ 100 ∷ 95 ∷ 116 ∷ 121
    ∷ 112 ∷ 101 ∷ []

-- The writer's broken invariant, naming the record's type, one digit.
unfoldable pub unencodable : List ℕ → CaptureRecordWire → Failure
unfolding type_of
unencodable description w = record {
  code = invariant_violated;
  context = record { key = record_type_key; value = (48 + type_of w) ∷ [] } ∷ [];
  detail = description;
}

-- What a payload that may have been decoded is in the engine's types.
unfoldable pub decoded : Option CaptureRecordWire → Option CaptureRecord
unfolding record_from_wire
decoded none = none
decoded (some w) = some (record_from_wire w)

module _ (protocol : Protocol) where
  unfoldable pub encode_record : CaptureRecordWire → Expected (List ℕ) Failure
  unfolding unencodable
  encode_record w = elim (protocol.encode_capture_record w) [
    | value payload ↦ value payload
    | unexpected error ↦ unexpected (unencodable (protocol.describe_encode_error error) w)
  ]

  unfoldable pub decode_record : List ℕ → Option CaptureRecord
  unfolding decoded
  decode_record payload = decoded (protocol.decode_capture_record payload)

  -- EncodeCaptureHeader, EncodeCaptureJoin, EncodeCaptureEvent and DecodeCaptureRecord.
  unfoldable pub link_codec : Codec
  unfolding encode_record decode_record header_to_wire join_to_wire event_to_wire
  link_codec = record {
    encode_header = λ h. encode_record (header_wire (header_to_wire h));
    encode_join = λ player j. encode_record (join_wire (join_to_wire player j));
    encode_event = λ e. encode_record (event_to_wire e);
    decode = decode_record;
  }
