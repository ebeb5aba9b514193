-- ===== src/Capture/Streams.antt =====
-- The std::istream that a capture is read from, and ReadFrame.
use augusta.Common.{
  ℕ, Bool, true, ◌||◌, List, [], ◌∷◌, leb, ◌==◌, if◌then◌else◌, length, take, drop,
}

-- The bytes still to come; past them the stream ends, or its device `breaks`. `failed` is failbit,
-- which a read past the end sets with eofbit, and `bad` is badbit. A stream that was handed over with
-- eofbit alone is not among these.
pub record Stream : Type 0 where
  pub rest : List ℕ
  pub breaks : Bool
  pub failed : Bool
  pub bad : Bool

-- in.read of that many bytes; gcount is the length of what comes.
unfoldable pub read_bytes : ℕ → Stream → Stream × List ℕ
read_bytes n s =
    if s.failed || s.bad
    then (record s { failed = true }, [])
    else if leb n (length s.rest)
    then (record s { rest = drop n s.rest }, take n s.rest)
    else if s.breaks
    then (record s { rest = []; bad = true }, s.rest)
    else (record s { rest = []; failed = true }, s.rest)

-- The constructor `frame` is kRead, with the payload read.
pub data Frame : Type 0 where
  frame : List ℕ → Frame
  at_end torn unreadable : Frame

unfoldable pub read_payload : ℕ → Stream → Stream × Frame
unfolding read_bytes
read_payload n s =
    let (after, payload) = read_bytes n s in
    if after.bad
    then (after, unreadable)
    else if length payload == n
    then (after, frame payload)
    else (after, torn)

abbrev pub payload_after : Stream → List ℕ → Stream × Frame
payload_after s [] = (s, at_end)
payload_after s (n ∷ _) = read_payload n s

unfoldable pub read_frame : Stream → Stream × Frame
unfolding read_payload
read_frame s =
    let (after, length_byte) = read_bytes 1 s in
    if after.bad then (after, unreadable) else payload_after after length_byte
