-- ===== src/Capture/Streaming.antt =====
-- What reading bytes and frames off any stream leaves of it, and a round of the loop over records.
use augusta.Common.{
  ℕ, suc, ◌+◌, ◌≤◌, ◌<◌, ◌≡◌, refl, ◌⊎◌, Bool, true, false, Option, some, List, [], ◌∷◌, length,
  length-drop, length-take, arith, inl, inr, Expected, unexpected, Bool-cases, Option-cases,
}
use augusta.Capture.{CaptureRecord, RecordOrder, admits}
use augusta.Capture.Streams.{
  Stream, read_bytes, Frame, frame, at_end, torn, unreadable as unreadable_frame, read_frame,
  read_payload, payload_after,
}
use augusta.Capture.Reading.{ReadError, error_of, malformed, read_records, push_front}

-- A stream that is good so far and whose device breaks past its bytes.
pub record Breaking (s : Stream) : Type 0 where
  pub breaks : s.breaks ≡ true
  pub unfailed : s.failed ≡ false
  pub unbroken : s.bad ≡ false

-- What a read leaves, and what it gives on a breaking stream unless that breaks.
pub record BytesRead (n : ℕ) (s : Stream) (r : Stream × List ℕ) : Type 0 where
  pub sizes : length r.0.rest + length r.1 ≤ length s.rest
  pub whole : Breaking s → r.0.bad ≡ false → (length r.1 ≡ n) × Breaking r.0

pub read_bytes-BytesRead : (n : ℕ) (s : Stream) → BytesRead n s (read_bytes n s)
unfolding read_bytes
read_bytes-BytesRead n s = ground (arith, length-drop n s.rest, length-take n s.rest)

-- Whether a frame is one that the loop of ReadCaptureFile stops well at.
abbrev pub stops : Frame → Bool
stops at_end = true
stops torn = true
stops _ = false

-- What a frame's read leaves of fewer than `size` bytes, and how a stream that is `alive` goes on.
pub record FrameRead (size : ℕ) (alive : Type 0) (r : Stream × Frame) : Type 0 where
  pub shrinks : (p : List ℕ) → r.1 ≡ frame p → length r.0.rest < size
  pub goes_on : alive → stops r.1 ≡ false
  pub breaking : (p : List ℕ) → alive → r.1 ≡ frame p → Breaking r.0

module _ (size : ℕ) (alive : Type 0) (s : Stream) (live : alive → Breaking s) where
  read_payload-FrameRead : (n : ℕ) → length s.rest < size → FrameRead size alive (read_payload n s)
  unfolding read_payload
  read_payload-FrameRead n h =
      let read = read_bytes-BytesRead n s in
      elim (Bool-cases (read_bytes n s).0.bad) [
        | inl broken ↦ rw broken (ground arith)
        | inr fine ↦ rw fine (ground (arith, read.sizes, λ (a : alive). read.whole (live a) fine))
      ]

  payload_after-FrameRead :
      (got : List ℕ)
      → length s.rest + length got ≤ size
      → (alive → length got ≡ 1)
      → FrameRead size alive (payload_after s got)
  payload_after-FrameRead [] h one = ground (arith, one)
  payload_after-FrameRead (n ∷ ns) h one = read_payload-FrameRead n (omega arith)

pub read_frame-FrameRead : (s : Stream) → FrameRead (length s.rest) (Breaking s) (read_frame s)
unfolding read_frame
read_frame-FrameRead s =
    let read = read_bytes-BytesRead 1 s in
    elim (Bool-cases (read_bytes 1 s).0.bad) [
      | inl broken ↦ rw broken (ground arith)
      | inr fine ↦ rw fine (
          payload_after-FrameRead (length s.rest) (Breaking s) (read_bytes 1 s).0
            (λ b. (read.whole b fine).1) (read_bytes 1 s).1 read.sizes (λ b. (read.whole b fine).0))
    ]

pub Frame-cases :
    (f : Frame) → ((p : List ℕ) × (f ≡ frame p)) ⊎ ((f ≡ unreadable_frame) ⊎ (stops f ≡ true))
Frame-cases (frame p) = inl (p, refl)
Frame-cases unreadable_frame = inr (inl refl)
Frame-cases at_end = inr (inr refl)
Frame-cases torn = inr (inr refl)

abbrev pub Outcome : Type 0
Outcome = Option (Expected (List CaptureRecord × Bool) ReadError)

module _ (decode : List ℕ → Option CaptureRecord) where
  -- One round of the loop where a frame was read.
  pub framed_round :
      (fuel : ℕ) (s : Stream) (o : RecordOrder) (p : List ℕ)
      → (read_frame s).1 ≡ frame p
      → (read_records decode (suc fuel) s o ≡ some (unexpected (error_of malformed)))
        ⊎ ((r : CaptureRecord) × (decode p ≡ some r)
            × ((admits o r).1 ≡ true)
            × (read_records decode (suc fuel) s o
                ≡ push_front decode r (read_records decode fuel (read_frame s).0 (admits o r).0)))
  unfolding read_records
  framed_round fuel s o p e = elim (Option-cases (decode p)) [
    | inl undecoded ↦ inl (ground arith)
    | inr (r, decoded) ↦ elim (Bool-cases (admits o r).1) [
      | inl ok ↦ inr (r, decoded, ok, ground arith)
      | inr out ↦ inl (ground arith)
    ]
  ]
