-- ===== src/Capture/Writing.antt =====
-- WriteCapture and what it calls. What is written to the stream is the value that comes back; an
-- error is what stopped it before anything was written. The Link's encoding is the record Codec.
use augusta.Common.{
  ℕ, ◌+◌, ◌%◌, List, [], ◌∷◌, ◌++◌, ltb, if◌then◌else◌, length, Option, Expected, value, unexpected,
}
use augusta.Failure.{Failure}
use augusta.Capture.{Header, Join, EventAt, CaptureRecord}
use augusta.Capture.Reading.{Capture, capture_magic, capture_format_version}

-- EncodeCaptureHeader, EncodeCaptureJoin, EncodeCaptureEvent and DecodeCaptureRecord of the Link.
pub record Codec : Type 0 where
  pub encode_header : Header → Expected (List ℕ) Failure
  pub encode_join : ℕ → Join → Expected (List ℕ) Failure
  pub encode_event : EventAt → Expected (List ℕ) Failure
  pub decode : List ℕ → Option CaptureRecord

pub data EncodeError : Type 0 where
  failure : Failure → EncodeError
  record_too_long : EncodeError

abbrev pub max_frame_payload : ℕ
max_frame_payload = 255

unfoldable pub framed : Expected (List ℕ) Failure → Expected (List ℕ) EncodeError
framed (unexpected f) = unexpected (failure f)
framed (value payload) =
    if ltb max_frame_payload (length payload)
    then unexpected record_too_long
    else value (length payload ∷ payload)

-- Bytes in front of those that came out, if any did.
abbrev pub after_bytes : List ℕ → Expected (List ℕ) EncodeError → Expected (List ℕ) EncodeError
after_bytes bytes (unexpected e) = unexpected e
after_bytes bytes (value more) = value (bytes ++ more)

-- The pieces that one encoding and then the others make.
abbrev pub then_pieces :
    Expected (List ℕ) EncodeError → Expected (List ℕ) EncodeError → Expected (List ℕ) EncodeError
then_pieces (unexpected e) rest = unexpected e
then_pieces (value bytes) rest = after_bytes bytes rest

module _ (codec : Codec) where
  unfoldable pub encode_header : Header → Expected (List ℕ) EncodeError
  unfolding framed
  encode_header h =
      after_bytes (capture_magic ++ capture_format_version ∷ []) (framed (codec.encode_header h))

  unfoldable pub encode_join : ℕ → Join → Expected (List ℕ) EncodeError
  unfolding framed
  encode_join player j = framed (codec.encode_join player j)

  unfoldable pub encode_event : EventAt → Expected (List ℕ) EncodeError
  unfolding framed
  encode_event e = framed (codec.encode_event e)

  unfoldable pub write_events : List EventAt → Expected (List ℕ) EncodeError
  unfolding encode_event
  write_events [] = value []
  write_events (e ∷ es) = then_pieces (encode_event e) (write_events es)

  -- The loop over the Joins, from index `i` on: a Player is a std::uint8_t.
  unfoldable pub write_joins : ℕ → List Join → List EventAt → Expected (List ℕ) EncodeError
  unfolding encode_join write_events
  write_joins i [] es = write_events es
  write_joins i (j ∷ js) es =
      then_pieces (encode_join ((i + 1) % 256) j) (write_joins (i + 1) js es)

  unfoldable pub write_capture : Capture → Expected (List ℕ) EncodeError
  unfolding encode_header write_joins
  write_capture c = then_pieces (encode_header c.header) (write_joins 0 c.joins c.events)
