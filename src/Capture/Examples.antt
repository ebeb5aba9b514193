-- ===== src/Capture/Examples.antt =====
-- The records of a short capture, and the theorem about their order at them.
use augusta.Common.{
  ℕ, ◌≡◌, ◌↔◌, refl, sym, ap, ◌∙◌, Expected, unexpected, true, false, Option, none, some, List, [],
  ◌∷◌, ◌++◌, ◌+◌, ◌==◌, if◌then◌else◌, is_some, length, take, zero_vec, value, arith,
}
use augusta.Failure.{Failure}
use augusta.Capture.{
  Header, CaptureRecord, Join, EventAt, leave, death, match_end, header, join, event, fresh_order,
}
use augusta.Capture.Order.{admits_all, records_of, EventsInOrder, admits_all_iff}
use augusta.Capture.Streams.{Stream}
use augusta.Capture.Reading.{Capture, capture_magic, read_capture}
use augusta.Capture.Writing.{Codec, write_capture}
use augusta.Capture.Totality.{read_capture-total}
use augusta.Capture.Failing.{gives, read_capture-breaking}
use augusta.Capture.Cutting.{stream_of, bytes_of, whole}
use augusta.Capture.Written.{Carried, start}
use augusta.Capture.RoundTrip.{cut_capture, read_capture-cut, read_capture-write_capture}

abbrev joined : Join
joined = record { session = 4; character = "Scout"; spawn = zero_vec }

abbrev records : List CaptureRecord
records =
    join 0 1 joined
    ∷ join 0 2 joined
    ∷ event (record { offset = 8; event = death 2 1 })
    ∷ event (record { offset = 9; event = match_end (some 1) })
    ∷ []

admits_all_iff_example : (admits_all fresh_order records ≡ true) ↔ (
    (js : List Join) × (es : List EventAt) × (records ≡ records_of js es)
    × EventsInOrder (length js) 0 es)
admits_all_iff_example = admits_all_iff records

abbrev a_header : Header
a_header = record {
  match_id = 7;
  engine_version = "1.0";
  server_pack = 1;
  client_pack = 2;
  tick_rate_hz = 60;
  started = 1000;
}

abbrev a_capture : Capture
a_capture = record {
  header = a_header;
  joins = joined ∷ joined ∷ [];
  events = record { offset = 5; event = leave 1 } ∷ record { offset = 9; event = leave 1 } ∷ [];
  torn = false;
}

-- A codec of records that differ in their number or their offset alone.
abbrev decode_bytes : List ℕ → Option CaptureRecord
decode_bytes (kind ∷ n ∷ []) =
    if kind == 1
    then some (header a_header)
    else if kind == 2
    then some (join 0 n joined)
    else some (event (record { offset = n; event = leave 1 }))
decode_bytes _ = none

abbrev small_codec : Codec
small_codec = record {
  encode_header = λ h. value (1 ∷ 0 ∷ []);
  encode_join = λ n j. value (2 ∷ n ∷ []);
  encode_event = λ e. value (3 ∷ e.offset ∷ []);
  decode = decode_bytes;
}

abbrev a_file : List ℕ
a_file = capture_magic ++ 4 ∷ 2 ∷ 1 ∷ 0 ∷ 2 ∷ 2 ∷ 1 ∷ 2 ∷ 2 ∷ 2 ∷ 2 ∷ 3 ∷ 5 ∷ 2 ∷ 3 ∷ 9 ∷ []

a_file-written : write_capture small_codec a_capture ≡ value a_file
a_file-written = unfold write_capture in refl

payload_of : Expected (List ℕ) Failure → List ℕ
payload_of (value bytes) = bytes
payload_of (unexpected f) = []

decodes_back :
    (bytes p : List ℕ) {encoded : Expected (List ℕ) Failure} {r : CaptureRecord}
    → encoded ≡ value bytes
    → decode_bytes bytes ≡ some r
    → encoded ≡ value p
    → decode_bytes p ≡ some r
unfolding payload_of
decodes_back bytes p e d h = ap decode_bytes (ap payload_of (sym h ∙ e)) ∙ d

a_capture-Carried : Carried small_codec a_capture
a_capture-Carried = record {
  header_carried = λ p h. decodes_back (1 ∷ 0 ∷ []) p refl refl h;
  joins_carried = (
    λ n p h. decodes_back (2 ∷ n ∷ []) p refl refl h,
    (λ n p h. decodes_back (2 ∷ n ∷ []) p refl refl h, tt),
  );
  events_carried = (
    λ p h. decodes_back (3 ∷ 5 ∷ []) p refl refl h,
    (λ p h. decodes_back (3 ∷ 9 ∷ []) p refl refl h, tt),
  );
}

read_capture-total_example : is_some (read_capture decode_bytes (stream_of (take 12 a_file))) ≡ true
read_capture-total_example = read_capture-total decode_bytes (stream_of (take 12 a_file))

abbrev broken_disk : Stream
broken_disk = record { rest = take 15 a_file; breaks = true; failed = false; bad = false }

read_capture-breaking_example : gives (read_capture decode_bytes broken_disk) ≡ false
read_capture-breaking_example = read_capture-breaking decode_bytes broken_disk refl

read_capture-cut_example :
    (p : List ℕ) × (ps : List (List ℕ)) × (a_file ≡ start p ++ bytes_of ps)
    × (length ps ≡ 4)
    × (read_capture decode_bytes (stream_of (take (length (start p) + 4) a_file))
        ≡ some (value (cut_capture a_capture (whole 4 ps))))
read_capture-cut_example =
    read_capture-cut small_codec a_capture a_file 4 a_capture-Carried (omega arith) (ground arith)
      a_file-written

read_capture-write_capture_example :
    read_capture decode_bytes (stream_of a_file) ≡ some (value a_capture)
read_capture-write_capture_example =
    read_capture-write_capture small_codec a_capture a_file a_capture-Carried (omega arith)
      (ground arith) a_file-written
