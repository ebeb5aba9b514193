-- ===== src/Capture/Failing.antt =====
-- Reading a stream whose device breaks past its bytes.
use augusta.Common.{
  ℕ, zero, suc, ◌≡◌, refl, sym, ap, ◌||◌, ◌∙◌, Bool, true, false, Option, none, some, List, length,
  arith, inl, inr, Expected, value, unexpected, Bool-cases,
}
use mathlib.Core.Bool.{false≢true}
use augusta.Capture.{Header, CaptureRecord, RecordOrder, admits, fresh_order}
use augusta.Capture.Streams.{
  Stream, read_bytes, Frame, frame, at_end, torn, unreadable as unreadable_frame, read_frame,
}
use augusta.Capture.Reading.{
  ReadError, CaptureFile, read_magic, read_format_version, read_header, read_records, file_of,
  header_of, header_in, version_error, magic_error, read_after_header, read_after_version,
  read_after_magic, capture_read, read_capture_file, read_capture, push_front,
}
use augusta.Capture.Streaming.{
  Breaking, read_bytes-BytesRead, stops, read_frame-FrameRead, Frame-cases, Outcome, framed_round,
}

-- Whether reading gave what it reads rather than an error.
abbrev pub gives {ℓ κ} : {A : Type ℓ} {E : Type κ} → Option (Expected A E) → Bool
gives (some (value a)) = true
gives _ = false

module _ (decode : List ℕ → Option CaptureRecord) where
  push_front-gives : (r : CaptureRecord) (x : Outcome) → gives (push_front decode r x) ≡ gives x
  push_front-gives r none = refl
  push_front-gives r (some (unexpected e)) = refl
  push_front-gives r (some (value v)) = refl

  read_records-breaking :
      (fuel : ℕ) (s : Stream) (o : RecordOrder)
      → Breaking s
      → gives (read_records decode fuel s o) ≡ false
  unfolding read_records
  read_records-breaking zero s o b = refl
  read_records-breaking (suc fuel) s o b =
      let read = read_frame-FrameRead s in
      elim (Frame-cases (read_frame s).1) [
        | inl (p, e) ↦ elim (framed_round decode fuel s o p e) [
          | inl bad ↦ ap gives bad
          | inr (r, decoded, ok, round) ↦
              ap gives round
              ∙ push_front-gives r (read_records decode fuel (read_frame s).0 (admits o r).0)
              ∙ read_records-breaking fuel (read_frame s).0 (admits o r).0 (read.breaking p b e)
        ]
        | inr (inl e) ↦ ground arith
        | inr (inr e) ↦ absurd (false≢true (sym (read.goes_on b) ∙ e))
      ]

  file_of-gives : (h : Header) (x : Outcome) → gives (file_of decode h x) ≡ gives x
  file_of-gives h none = refl
  file_of-gives h (some (unexpected w)) = refl
  file_of-gives h (some (value v)) = refl

  after_header-breaking :
      (s : Stream) (h : Expected Header ReadError)
      → Breaking s
      → gives (read_after_header decode (s, h)) ≡ false
  after_header-breaking s (unexpected e) b = refl
  after_header-breaking s (value h) b =
      file_of-gives h _ ∙ read_records-breaking (suc (length s.rest)) s fresh_order b

  header_in-breaking :
      (s : Stream) (f : Frame)
      → stops f ≡ false
      → ((p : List ℕ) → f ≡ frame p → Breaking s)
      → gives (read_after_header decode (s, header_in decode f)) ≡ false
  header_in-breaking s (frame p) g b =
      after_header-breaking s (header_of decode (decode p)) (b p refl)
  header_in-breaking s unreadable_frame g b = refl
  header_in-breaking s at_end g b = refl
  header_in-breaking s torn g b = refl

  read_header-breaking :
      (s : Stream) → Breaking s → gives (read_after_header decode (read_header decode s)) ≡ false
  unfolding read_header
  read_header-breaking s b =
      let read = read_frame-FrameRead s in
      header_in-breaking (read_frame s).0 (read_frame s).1 (read.goes_on b)
        (λ p e. read.breaking p b e)

  after_version-breaking :
      (s : Stream) (e : Option ReadError)
      → (e ≡ none → Breaking s)
      → gives (read_after_version decode (s, e)) ≡ false
  after_version-breaking s (some e) b = refl
  after_version-breaking s none b = read_header-breaking s (b refl)

  read_version-breaking :
      (s : Stream) → Breaking s → gives (read_after_version decode (read_format_version s)) ≡ false
  unfolding read_format_version
  read_version-breaking s b =
      let read = read_bytes-BytesRead 1 s in
      elim (Bool-cases (read_bytes 1 s).0.bad) [
        | inl broken ↦ rw broken refl
        | inr fine ↦ rw fine (
            after_version-breaking (read_bytes 1 s).0 (version_error (read_bytes 1 s).1)
              (λ e. (read.whole b fine).1))
      ]

  after_magic-breaking :
      (s : Stream) (e : Option ReadError)
      → (e ≡ none → Breaking s)
      → gives (read_after_magic decode (s, e)) ≡ false
  after_magic-breaking s (some e) b = refl
  after_magic-breaking s none b = read_version-breaking s (b refl)

  read_magic-breaking :
      (s : Stream) → Breaking s → gives (read_after_magic decode (read_magic s)) ≡ false
  unfolding read_magic
  read_magic-breaking s b =
      let read = read_bytes-BytesRead 8 s in
      elim (Bool-cases (read_bytes 8 s).0.bad) [
        | inl broken ↦ rw broken refl
        | inr fine ↦ rw fine (
            after_magic-breaking (read_bytes 8 s).0 (magic_error (read_bytes 8 s).1)
              (λ e. (read.whole b fine).1))
      ]

  capture_read-gives :
      (x : Option (Expected CaptureFile ReadError)) → gives (capture_read x) ≡ gives x
  capture_read-gives none = refl
  capture_read-gives (some (unexpected e)) = refl
  capture_read-gives (some (value f)) = refl

  -- A stream whose device breaks anywhere past its bytes is never read as a capture, whole or torn,
  -- whatever its bytes and the decoder.
  pub read_capture-breaking : (s : Stream) → s.breaks ≡ true → gives (read_capture decode s) ≡ false
  unfolding read_capture read_capture_file
  read_capture-breaking s b =
      capture_read-gives (read_capture_file decode s) ∙ elim (Bool-cases (s.failed || s.bad)) [
        | inl closed ↦ rw closed refl
        | inr good ↦ ground (
          arith,
          read_magic-breaking s
              (record { breaks = b; unfailed = ground arith; unbroken = ground arith }),
        )
      ]
