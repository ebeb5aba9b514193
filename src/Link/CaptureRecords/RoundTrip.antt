-- ===== src/Link/CaptureRecords/RoundTrip.antt =====
-- A capture written with the Link's encoding, read back.
use augusta.Common.{
  ℕ, ◌+◌, ◌<◌, ◌≤◌, ◌≡◌, refl, sym, ap, ◌∙◌, false, none, some, List, [], ◌∷◌, map, length, All,
  ◌==◌, if◌then◌else◌, arith, value,
}
use augusta.Command.{Command as PlayerIntent}
use augusta.Capture.{
  Join, Event, EventAt, CaptureRecord, command, leave, death, match_end, header, join, event,
}
use augusta.Capture.Order.{Names, EventsInOrder, is_end}
use augusta.Capture.Reading.{Capture, read_capture}
use augusta.Capture.Writing.{write_capture, write_joins, write_events, encode_event, then_pieces}
use augusta.Capture.Cutting.{stream_of}
use augusta.Capture.Written.{Carried}
use augusta.Capture.RoundTrip.{read_capture-write_capture}
use augusta.Link.{command_to_wire, command_from_wire}
use augusta.Link.Commands.{command_from_wire-command_to_wire}
use augusta.Link.CaptureRecords.{
  CaptureRecordWire, header_wire, join_wire, Protocol, event_to_wire, header_to_wire,
  header_from_wire, join_to_wire, record_from_wire, encode_record, decode_record, decoded,
  link_codec,
}

-- An event as its record keeps it: a command's Seen tick is its seen_offset's to say.
abbrev pub kept_event : Event → Event
kept_event (command c) = command (record c { command = record c.command { seen_tick = 0 } })
kept_event (leave player) = leave player
kept_event (death victim killer) = death victim killer
kept_event (match_end winner) = match_end winner

abbrev pub kept : EventAt → EventAt
kept e = record e { event = kept_event e.event }

abbrev at_offset : ℕ → Event → EventAt
at_offset n x = record { offset = n; event = x }

seen_with_itself :
    (c : PlayerIntent)
    → command_to_wire (record c { seen_tick = 0 }) 0 ≡ command_to_wire c c.seen_tick
unfolding command_to_wire
seen_with_itself c = ground arith

command-kept :
    (c : PlayerIntent)
    → command_from_wire (command_to_wire c c.seen_tick) 0 ≡ record c { seen_tick = 0 }
command-kept c =
    ap (λ w. command_from_wire w 0) (sym (seen_with_itself c))
    ∙ command_from_wire-command_to_wire (record c { seen_tick = 0 }) 0
    ∙ ap (λ n. record c { seen_tick = n }) (omega arith)

to_wire-kept :
    (n : ℕ) (x : Event) → event_to_wire (at_offset n (kept_event x)) ≡ event_to_wire (at_offset n x)
unfolding event_to_wire
to_wire-kept n (command c) = rw (seen_with_itself c.command) refl
to_wire-kept n (leave p) = refl
to_wire-kept n (death v k) = refl
to_wire-kept n (match_end w) = refl

event_to_wire-kept : (e : EventAt) → event_to_wire (kept e) ≡ event_to_wire e
event_to_wire-kept e = to_wire-kept e.offset e.event

winner-kept : (w : ℕ) → 1 ≤ w → (if w == 0 then none else some w) ≡ some w
winner-kept w h = ground arith

from_wire-to_wire :
    (joins n : ℕ) (x : Event)
    → Names joins x
    → record_from_wire (event_to_wire (at_offset n x)) ≡ event (at_offset n (kept_event x))
unfolding record_from_wire event_to_wire
from_wire-to_wire joins n (command c) named = rw (command-kept c.command) refl
from_wire-to_wire joins n (leave p) named = refl
from_wire-to_wire joins n (death v k) named = refl
from_wire-to_wire joins n (match_end none) named = refl
from_wire-to_wire joins n (match_end (some w)) named = rw (winner-kept w named.0) refl

record_from_wire-event_to_wire :
    (joins : ℕ) (e : EventAt)
    → Names joins e.event
    → record_from_wire (event_to_wire e) ≡ event (kept e)
record_from_wire-event_to_wire joins e named = from_wire-to_wire joins e.offset e.event named

Names-kept : (joins : ℕ) (e : Event) → Names joins e → Names joins (kept_event e)
Names-kept joins (command c) h = h
Names-kept joins (leave p) h = h
Names-kept joins (death v k) h = h
Names-kept joins (match_end w) h = h

is_end-kept : (e : Event) → is_end (kept_event e) ≡ is_end e
is_end-kept (command c) = refl
is_end-kept (leave p) = refl
is_end-kept (death v k) = refl
is_end-kept (match_end w) = refl

EventsInOrder-kept :
    (joins n : ℕ) (es : List EventAt)
    → EventsInOrder joins n es
    → EventsInOrder joins n (map kept es)
EventsInOrder-kept joins n [] h = tt
EventsInOrder-kept joins n (e ∷ es) (later, named, last, more) = (
  later,
  Names-kept joins e.event named,
  λ ended. ap (map kept) (last (sym (is_end-kept e.event) ∙ ended)),
  EventsInOrder-kept joins e.offset es more,
)

module _ (protocol : Protocol) where
  -- What the protocol encodes of a record, it decodes to the same.
  abbrev pub Kept : CaptureRecordWire → Type 0
  Kept w =
      (p : List ℕ)
      → protocol.encode_capture_record w ≡ value p
      → protocol.decode_capture_record p ≡ some w

  encode_record-value :
      (w : CaptureRecordWire) (p : List ℕ)
      → encode_record protocol w ≡ value p
      → protocol.encode_capture_record w ≡ value p
  unfolding encode_record
  encode_record-value w p h = ground arith

  decode_record-encode_record :
      (w : CaptureRecordWire) (r : CaptureRecord) (p : List ℕ)
      → Kept w
      → record_from_wire w ≡ r
      → encode_record protocol w ≡ value p
      → decode_record protocol p ≡ some r
  unfolding decode_record decoded
  decode_record-encode_record w r p k same h =
      ap decoded (k p (encode_record-value w p h)) ∙ ap some same

  events-Carried :
      (joins n : ℕ) (es : List EventAt)
      → All (λ e. Kept (event_to_wire e)) es
      → EventsInOrder joins n es
      → All
          (λ e.
            (p : List ℕ)
            → encode_record protocol (event_to_wire e) ≡ value p
            → decode_record protocol p ≡ some (event e))
          (map kept es)
  events-Carried joins n [] k h = tt
  events-Carried joins n (e ∷ es) (k, ks) (later, named, last, more) = (
    λ p encoded.
        decode_record-encode_record (event_to_wire e) (event (kept e)) p k
          (record_from_wire-event_to_wire joins e named)
          (ap (encode_record protocol) (sym (event_to_wire-kept e)) ∙ encoded),
    events-Carried joins e.offset es ks more,
  )

  joins-Carried :
      (js : List Join)
      → All (λ j. (n : ℕ) → Kept (join_wire (join_to_wire n j))) js
      → All
          (λ j.
            (n : ℕ) (p : List ℕ)
            → encode_record protocol (join_wire (join_to_wire n j)) ≡ value p
            → decode_record protocol p ≡ some (join 0 n j))
          js
  unfolding record_from_wire join_to_wire
  joins-Carried [] k = tt
  joins-Carried (j ∷ js) (k, ks) = (
    λ n p encoded.
        decode_record-encode_record (join_wire (join_to_wire n j)) (join 0 n j) p (k n) refl
          encoded,
    joins-Carried js ks,
  )

  write_events-kept :
      (es : List EventAt)
      → write_events (link_codec protocol) (map kept es) ≡ write_events (link_codec protocol) es
  unfolding write_events encode_event link_codec
  write_events-kept [] = refl
  write_events-kept (e ∷ es) = rw (event_to_wire-kept e, write_events-kept es) refl

  write_joins-kept :
      (i : ℕ) (js : List Join) (es : List EventAt)
      → write_joins (link_codec protocol) i js (map kept es)
        ≡ write_joins (link_codec protocol) i js es
  unfolding write_joins
  write_joins-kept i [] es = write_events-kept es
  write_joins-kept i (j ∷ js) es = ap (then_pieces _) (write_joins-kept (i + 1) js es)

  abbrev pub kept_capture : Capture → Capture
  kept_capture c = record c { events = map kept c.events }

  kept_capture-Carried :
      (c : Capture)
      → Kept (header_wire (header_to_wire c.header))
      → All (λ j. (n : ℕ) → Kept (join_wire (join_to_wire n j))) c.joins
      → All (λ e. Kept (event_to_wire e)) c.events
      → EventsInOrder (length c.joins) 0 c.events
      → Carried (link_codec protocol) (kept_capture c)
  unfolding link_codec record_from_wire header_to_wire header_from_wire
  kept_capture-Carried c kh kj ke ordered = record {
    header_carried = λ p encoded.
        decode_record-encode_record (header_wire (header_to_wire c.header)) (header c.header) p kh
          refl encoded;
    joins_carried = joins-Carried c.joins kj;
    events_carried = events-Carried (length c.joins) 0 c.events ke ordered;
  }

  -- A capture of fewer than 256 players whose events are in the format's order, each of whose
  -- records the protocol decodes as it encoded it, comes back from the bytes that write_capture
  -- writes of it with the Link's encoding: whole, not torn, and as it was but for the Seen ticks of
  -- its commands, which are 0.
  pub read_capture-link_codec :
      (c : Capture) (bytes : List ℕ)
      → Kept (header_wire (header_to_wire c.header))
      → All (λ j. (n : ℕ) → Kept (join_wire (join_to_wire n j))) c.joins
      → All (λ e. Kept (event_to_wire e)) c.events
      → length c.joins < 256
      → EventsInOrder (length c.joins) 0 c.events
      → write_capture (link_codec protocol) c ≡ value bytes
      → read_capture (decode_record protocol) (stream_of bytes)
        ≡ some (value (record c { torn = false; events = map kept c.events }))
  unfolding write_capture link_codec
  read_capture-link_codec c bytes kh kj ke few ordered h =
      read_capture-write_capture (link_codec protocol) (kept_capture c) bytes
        (kept_capture-Carried c kh kj ke ordered) few
        (EventsInOrder-kept (length c.joins) 0 c.events ordered)
        (ap (then_pieces _) (write_joins-kept 0 c.joins c.events) ∙ h)
