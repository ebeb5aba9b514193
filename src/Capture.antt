-- ===== src/Capture.antt =====
-- src/modules/capture: the records of a Match capture, its file's frames, the order that reading
-- holds its records to, and reading and writing a whole capture. A byte is a number below 256.
-- The Link's encoding of a record's payload is the interface Codec; an int32_t is its bit pattern.
pub mod Order
pub mod Streams
pub mod Reading
pub mod Writing
pub mod Streaming
pub mod Totality
pub mod Failing
pub mod Cutting
pub mod Written
pub mod RoundTrip
mod Examples
use augusta.Common.{
  ℕ, zero, suc, ◌+◌, ◌%◌, ◌≡◌, Bool, true, false, not, ◌&&◌, ◌||◌, Option, none, some, List, [],
  ◌∷◌, ◌++◌, String, leb, ltb, ◌==◌, if◌then◌else◌, length, take, drop, all_of, Vec3, Expected,
  value, unexpected, ◌>>=◌,
}
use augusta.Command.{Command as PlayerIntent}

pub record Header : Type 0 where
  pub match_id : ℕ
  pub engine_version : String
  pub server_pack : ℕ
  pub client_pack : ℕ
  pub tick_rate_hz : ℕ
  pub started : ℕ

pub record Join : Type 0 where
  pub session : ℕ
  pub character : String
  pub spawn : Vec3

pub record Command : Type 0 where
  pub player : ℕ
  pub seen_offset : ℕ
  pub command : PlayerIntent

-- The variant of Command, Leave, Death and MatchEnd.
pub data Event : Type 0 where
  command : Command → Event
  leave : ℕ → Event
  death : ℕ → ℕ → Event
  match_end : Option ℕ → Event

pub record EventAt : Type 0 where
  pub offset : ℕ
  pub event : Event

-- link::CaptureRecord: the header, a Join with its offset and player, or an event.
pub data CaptureRecord : Type 0 where
  header : Header → CaptureRecord
  join : ℕ → ℕ → Join → CaptureRecord
  event : EventAt → CaptureRecord

-- RecordOrder's state.
pub record RecordOrder : Type 0 where
  pub joins : ℕ
  pub events : Bool
  pub last_offset : ℕ
  pub ended : Bool

abbrev pub fresh_order : RecordOrder
fresh_order = record { joins = 0; events = false; last_offset = 0; ended = false }

abbrev pub known : RecordOrder → ℕ → Bool
known o player = leb 1 player && leb player o.joins

pub follows : RecordOrder → ℕ → List ℕ → RecordOrder × Bool
follows o offset players =
    if o.ended || ltb offset o.last_offset || not (all_of (known o) players)
    then (o, false)
    else (record o { events = true; last_offset = offset }, true)

abbrev winner_known : RecordOrder → Option ℕ → Bool
winner_known o none = true
winner_known o (some w) = known o w

abbrev ending : RecordOrder × Bool → RecordOrder × Bool
ending (o, follows) = (record o { ended = true }, follows)

pub admits_event : RecordOrder → ℕ → Event → RecordOrder × Bool
unfolding follows
admits_event o offset (command c) = follows o offset (c.player ∷ [])
admits_event o offset (leave player) = follows o offset (player ∷ [])
admits_event o offset (death victim killer) = follows o offset (victim ∷ killer ∷ [])
admits_event o offset (match_end winner) =
    if not (winner_known o winner) then (o, false) else ending (follows o offset [])

pub admits : RecordOrder → CaptureRecord → RecordOrder × Bool
unfolding admits_event
admits o (header h) = (o, false)
admits o (join offset player j) =
    if o.events || not (offset == 0) || not (player == o.joins + 1)
    then (o, false)
    else (record o { joins = o.joins + 1 }, true)
admits o (event e) = admits_event o e.offset e.event
