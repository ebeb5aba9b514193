-- ===== src/Capture/Totality.antt =====
-- The fuel of the loop over a capture's records: each round takes a frame off the stream.
use augusta.Common.{
  ℕ, zero, suc, ◌<◌, ◌≡◌, refl, ap, ◌∙◌, true, Option, none, some, List, length, arith, inl, inr,
  Expected, value, unexpected, is_some,
}
use augusta.Capture.{Header, CaptureRecord, RecordOrder, admits, fresh_order}
use augusta.Capture.Streams.{Stream, read_frame}
use augusta.Capture.Reading.{
  ReadError, CaptureFile, read_magic, read_format_version, read_header, read_records, file_of,
  read_after_header, read_after_version, read_after_magic, capture_read, read_capture_file,
  read_capture, push_front,
}
use augusta.Capture.Streaming.{read_frame-FrameRead, Frame-cases, Outcome, framed_round}

module _ (decode : List ℕ → Option CaptureRecord) where
  push_front-is_some :
      (r : CaptureRecord) (x : Outcome) → is_some (push_front decode r x) ≡ is_some x
  push_front-is_some r none = refl
  push_front-is_some r (some (unexpected e)) = refl
  push_front-is_some r (some (value v)) = refl

  read_records-total :
      (fuel : ℕ) (s : Stream) (o : RecordOrder)
      → length s.rest < fuel
      → is_some (read_records decode fuel s o) ≡ true
  unfolding read_records
  read_records-total zero s o h = absurd (omega arith)
  read_records-total (suc fuel) s o h =
      let read = read_frame-FrameRead s in
      elim (Frame-cases (read_frame s).1) [
        | inl (p, e) ↦ elim (framed_round decode fuel s o p e) [
          | inl bad ↦ ap is_some bad
          | inr (r, decoded, ok, round) ↦
              ap is_some round
              ∙ push_front-is_some r (read_records decode fuel (read_frame s).0 (admits o r).0)
              ∙ read_records-total fuel (read_frame s).0 (admits o r).0
                  (omega (arith, read.shrinks p e))
        ]
        | inr (inl e) ↦ ground arith
        | inr (inr e) ↦ ground arith
      ]

  file_of-is_some :
      (h : Header) (x : Outcome) → is_some x ≡ true → is_some (file_of decode h x) ≡ true
  file_of-is_some h none e = e
  file_of-is_some h (some (unexpected w)) e = refl
  file_of-is_some h (some (value v)) e = refl

  read_after_header-total :
      (r : Stream × Expected Header ReadError) → is_some (read_after_header decode r) ≡ true
  read_after_header-total (s, unexpected e) = refl
  read_after_header-total (s, value h) =
      file_of-is_some h _ (read_records-total (suc (length s.rest)) s fresh_order (omega arith))

  read_after_version-total :
      (r : Stream × Option ReadError) → is_some (read_after_version decode r) ≡ true
  read_after_version-total (s, some e) = refl
  read_after_version-total (s, none) = read_after_header-total (read_header decode s)

  read_after_magic-total :
      (r : Stream × Option ReadError) → is_some (read_after_magic decode r) ≡ true
  read_after_magic-total (s, some e) = refl
  read_after_magic-total (s, none) = read_after_version-total (read_format_version s)

  capture_read-is_some :
      (x : Option (Expected CaptureFile ReadError)) → is_some (capture_read x) ≡ is_some x
  capture_read-is_some none = refl
  capture_read-is_some (some (unexpected e)) = refl
  capture_read-is_some (some (value f)) = refl

  -- Reading ends on any stream with any decoder: the loop over records never runs out of the fuel
  -- of one round for each byte left and one more.
  pub read_capture-total : (s : Stream) → is_some (read_capture decode s) ≡ true
  unfolding read_capture read_capture_file
  read_capture-total s =
      capture_read-is_some (read_capture_file decode s)
      ∙ ground (arith, read_after_magic-total (read_magic s))
