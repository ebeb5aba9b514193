-- ===== src/Capture/Reading.antt =====
-- ReadCapture and what it calls. What is left of the stream once a capture is read is not kept: no
-- caller reads on.
use augusta.Common.{
  ℕ, zero, suc, Bool, true, false, not, ◌&&◌, ◌||◌, is_some, Option, none, some, List, [], ◌∷◌,
  ◌==◌, if◌then◌else◌, length, Expected, value, unexpected,
}
use augusta.Capture.{
  Header, Join, EventAt, CaptureRecord, header, join, event, RecordOrder, fresh_order, admits,
}
use augusta.Capture.Streams.{
  Stream, read_bytes, Frame, frame, at_end, torn as torn_frame, unreadable as unreadable_frame,
  read_frame,
}

pub data ReadErrorCode : Type 0 where
  unreadable not_a_capture unsupported malformed : ReadErrorCode

pub record ReadError : Type 0 where
  pub code : ReadErrorCode
  pub format_version : Option ℕ

pub record Capture : Type 0 where
  pub header : Header
  pub joins : List Join
  pub events : List EventAt
  pub torn : Bool

pub record CaptureFile : Type 0 where
  pub header : Header
  pub records : List CaptureRecord
  pub torn : Bool

-- ReadError with no format version.
abbrev pub error_of : ReadErrorCode → ReadError
error_of code = record { code = code; format_version = none }

-- link::kCaptureMagic: "AUGCAP\r\n".
abbrev pub capture_magic : List ℕ
capture_magic = 65 ∷ 85 ∷ 71 ∷ 67 ∷ 65 ∷ 80 ∷ 13 ∷ 10 ∷ []

abbrev pub capture_format_version : ℕ
capture_format_version = 4

-- std::ranges::equal of two byte sequences.
abbrev pub same_bytes : List ℕ → List ℕ → Bool
same_bytes [] [] = true
same_bytes [] (y ∷ ys) = false
same_bytes (x ∷ xs) [] = false
same_bytes (x ∷ xs) (y ∷ ys) = x == y && same_bytes xs ys

abbrev pub magic_error : List ℕ → Option ReadError
magic_error magic =
    if not (length magic == length capture_magic) || not (same_bytes magic capture_magic)
    then some (error_of not_a_capture)
    else none

unfoldable pub read_magic : Stream → Stream × Option ReadError
unfolding read_bytes
read_magic s =
    let (after, magic) = read_bytes (length capture_magic) s in
    if after.bad then (after, some (error_of unreadable)) else (after, magic_error magic)

abbrev pub version_error : List ℕ → Option ReadError
version_error [] = some (error_of unsupported)
version_error (version ∷ _) =
    if version == capture_format_version
    then none
    else some (record { code = unsupported; format_version = some version })

unfoldable pub read_format_version : Stream → Stream × Option ReadError
unfolding read_bytes
read_format_version s =
    let (after, version) = read_bytes 1 s in
    if after.bad then (after, some (error_of unreadable)) else (after, version_error version)

unfoldable pub starts_with_magic : Stream → Bool
unfolding read_magic
starts_with_magic s = not (is_some (read_magic s).1)

-- link::DecodeCaptureRecord.
module _ (decode : List ℕ → Option CaptureRecord) where
  abbrev pub header_of : Option CaptureRecord → Expected Header ReadError
  header_of (some (header h)) = value h
  header_of _ = unexpected (error_of unsupported)

  abbrev pub header_in : Frame → Expected Header ReadError
  header_in (frame payload) = header_of (decode payload)
  header_in unreadable_frame = unexpected (error_of unreadable)
  header_in _ = unexpected (error_of unsupported)

  unfoldable pub read_header : Stream → Stream × Expected Header ReadError
  unfolding read_frame
  read_header s = let (after, f) = read_frame s in (after, header_in f)

  -- A decoded record before those read after it.
  abbrev pub push_front :
      CaptureRecord
      → Option (Expected (List CaptureRecord × Bool) ReadError)
      → Option (Expected (List CaptureRecord × Bool) ReadError)
  push_front r none = none
  push_front r (some (unexpected e)) = some (unexpected e)
  push_front r (some (value (rs, torn))) = some (value (r ∷ rs, torn))

  -- The loop of ReadCaptureFile, on fuel: the records, and whether the last one was cut short.
  unfoldable pub read_records :
      ℕ → Stream → RecordOrder → Option (Expected (List CaptureRecord × Bool) ReadError)
  read_records zero s o = none
  read_records (suc fuel) s o = elim (read_frame s).1 [
    | at_end ↦ some (value ([], false))
    | unreadable_frame ↦ some (unexpected (error_of unreadable))
    | torn_frame ↦ some (value ([], true))
    | frame payload ↦ elim (decode payload) [
      | none ↦ some (unexpected (error_of malformed))
      | some r ↦ elim (admits o r).1 [
        | false ↦ some (unexpected (error_of malformed))
        | true ↦ push_front r (read_records fuel (read_frame s).0 (admits o r).0)
      ]
    ]
  ]

  abbrev pub file_of :
      Header
      → Option (Expected (List CaptureRecord × Bool) ReadError)
      → Option (Expected CaptureFile ReadError)
  file_of h none = none
  file_of h (some (unexpected e)) = some (unexpected e)
  file_of h (some (value (rs, torn))) =
      some (value (record { header = h; records = rs; torn = torn }))

  abbrev pub read_after_header :
      Stream × Expected Header ReadError → Option (Expected CaptureFile ReadError)
  read_after_header (s, unexpected e) = some (unexpected e)
  read_after_header (s, value h) = file_of h (read_records (suc (length s.rest)) s fresh_order)

  abbrev pub read_after_version :
      Stream × Option ReadError → Option (Expected CaptureFile ReadError)
  read_after_version (s, some e) = some (unexpected e)
  read_after_version (s, none) = read_after_header (read_header s)

  abbrev pub read_after_magic : Stream × Option ReadError → Option (Expected CaptureFile ReadError)
  read_after_magic (s, some e) = some (unexpected e)
  read_after_magic (s, none) = read_after_version (read_format_version s)

  unfoldable pub read_capture_file : Stream → Option (Expected CaptureFile ReadError)
  unfolding read_magic read_format_version read_header read_records
  read_capture_file s =
      if s.failed || s.bad
      then some (unexpected (error_of unreadable))
      else read_after_magic (read_magic s)

-- The loop of ReadCapture over the file's records.
abbrev pub joins_in : List CaptureRecord → List Join
joins_in [] = []
joins_in (join offset player j ∷ rs) = j ∷ joins_in rs
joins_in (r ∷ rs) = joins_in rs

abbrev pub events_in : List CaptureRecord → List EventAt
events_in [] = []
events_in (event e ∷ rs) = e ∷ events_in rs
events_in (r ∷ rs) = events_in rs

abbrev pub capture_of : CaptureFile → Capture
capture_of f = record {
  header = f.header;
  joins = joins_in f.records;
  events = events_in f.records;
  torn = f.torn;
}

abbrev pub capture_read :
    Option (Expected CaptureFile ReadError) → Option (Expected Capture ReadError)
capture_read none = none
capture_read (some (unexpected e)) = some (unexpected e)
capture_read (some (value f)) = some (value (capture_of f))

unfoldable pub read_capture :
    (List ℕ → Option CaptureRecord) → Stream → Option (Expected Capture ReadError)
read_capture decode s = capture_read (read_capture_file decode s)
