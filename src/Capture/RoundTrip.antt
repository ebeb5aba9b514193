-- ===== src/Capture/RoundTrip.antt =====
-- WriteCapture and then ReadCapture, on the whole file and on one cut short.
use native.Mathlib.Nat.{zero-add}
use mathlib.Core.Path.{ap₂}
use augusta.Common.{
  ℕ, zero, suc, ◌+◌, ◌-◌, ◌≤◌, ◌<◌, ◌≡◌, refl, sym, ap, ◌∙◌, Bool, true, false, Option, none, some,
  List, [], ◌∷◌, ◌++◌, map, length, take, take-append_length, drop-append_length, ==_refl,
  length-append, arith, value,
}
use augusta.Capture.{Header, Join, EventAt, CaptureRecord, header, event, fresh_order}
use augusta.Capture.Order.{admits_all, join_records, records_of, EventsInOrder, admits_all_iff}
use augusta.Capture.Reading.{
  Capture, capture_magic, capture_format_version, read_capture, read_capture_file, read_records,
  joins_in, events_in, read_magic, read_format_version, read_header, file_of, read_after_magic,
  read_after_version, read_after_header, capture_of, capture_read,
}
use augusta.Capture.Writing.{Codec, write_capture}
use augusta.Capture.Streams.{read_bytes, read_frame, read_payload, frame}
use augusta.Capture.Cutting.{stream_of, bytes_of, whole, Decoded, read_records-cut}
use augusta.Capture.Written.{Carried, start, write_capture-frames}

read_magic-start :
    (rest : List ℕ) → read_magic (stream_of (capture_magic ++ rest)) ≡ (stream_of rest, none)
unfolding read_magic read_bytes
read_magic-start rest = ground arith

read_format_version-start :
    (rest : List ℕ)
    → read_format_version (stream_of (capture_format_version ∷ rest)) ≡ (stream_of rest, none)
unfolding read_format_version read_bytes
read_format_version-start rest = ground arith

take-length_append :
    (xs : List ℕ) (k : ℕ) (ys : List ℕ) → take (length xs + k) (xs ++ ys) ≡ xs ++ take k ys
take-length_append [] k ys = rw zero-add refl
take-length_append (x ∷ xs) k ys =
    let step : suc (length xs) + k ≡ suc (length xs + k) = omega arith in
    rw step (ap (◌∷◌ x) (take-length_append xs k ys))

payload-first :
    (p r : List ℕ) → read_payload (length p) (stream_of (p ++ r)) ≡ (stream_of r, frame p)
unfolding read_payload read_bytes
payload-first p r =
    ground
      (arith, length-append p r, take-append_length p r, drop-append_length p r, ==_refl (length p))

frame-first :
    (p r : List ℕ)
    → read_frame (stream_of (length p ∷ p ++ r)) ≡ read_payload (length p) (stream_of (p ++ r))
unfolding read_frame read_bytes
frame-first p r = ground arith

module _ (decode : List ℕ → Option CaptureRecord) where
  read_header-start :
      (p r : List ℕ) (h : Header)
      → decode p ≡ some (header h)
      → read_header decode (stream_of (length p ∷ p ++ r)) ≡ (stream_of r, value h)
  unfolding read_header
  read_header-start p r h d = rw (frame-first p r ∙ payload-first p r, d) refl

  read_capture_file-start :
      (p r : List ℕ) (h : Header)
      → decode p ≡ some (header h)
      → read_capture_file decode (stream_of (start p ++ r))
        ≡ file_of decode h (read_records decode (suc (length r)) (stream_of r) fresh_order)
  unfolding read_capture_file
  read_capture_file-start p r h d =
      ap (read_after_magic decode) (read_magic-start (capture_format_version ∷ length p ∷ p ++ r))
      ∙ ap (read_after_version decode) (read_format_version-start (length p ∷ p ++ r))
      ∙ ap (read_after_header decode) (read_header-start p r h d)

joins_in-events : (es : List EventAt) → joins_in (map event es) ≡ []
joins_in-events [] = refl
joins_in-events (e ∷ es) = joins_in-events es

events_in-events : (es : List EventAt) → events_in (map event es) ≡ es
events_in-events [] = refl
events_in-events (e ∷ es) = ap (◌∷◌ e) (events_in-events es)

joins_in-records :
    (n : ℕ) (js : List Join) (es : List EventAt) → joins_in (join_records n js ++ map event es) ≡ js
joins_in-records n [] es = joins_in-events es
joins_in-records n (j ∷ js) es = ap (◌∷◌ j) (joins_in-records (n + 1) js es)

events_in-records :
    (n : ℕ) (js : List Join) (es : List EventAt)
    → events_in (join_records n js ++ map event es) ≡ es
events_in-records n [] es = events_in-events es
events_in-records n (j ∷ js) es = events_in-records (n + 1) js es

take-all : {A : Type 0} (xs : List A) (n : ℕ) → length xs ≤ n → take n xs ≡ xs
take-all [] zero h = refl
take-all [] (suc n) h = refl
take-all (x ∷ xs) zero h = absurd (omega arith)
take-all (x ∷ xs) (suc n) h = ap (◌∷◌ x) (take-all xs n (omega arith))

whole-all :
    (ps : List (List ℕ)) (k : ℕ) → length (bytes_of ps) ≤ k → whole k ps ≡ (length ps, false)
whole-all [] k h = refl
whole-all (p ∷ ps) zero h = absurd (omega arith)
whole-all (p ∷ ps) (suc k) h =
    ground (arith, length-append p (bytes_of ps), whole-all ps (k - length p))

Decoded-length :
    (decode : List ℕ → Option CaptureRecord) (ps : List (List ℕ)) (rs : List CaptureRecord)
    → Decoded decode ps rs
    → length rs ≡ length ps
Decoded-length decode [] [] d = refl
Decoded-length decode [] (r ∷ rs) d = elim d [ ]
Decoded-length decode (p ∷ ps) [] d = elim d [ ]
Decoded-length decode (p ∷ ps) (r ∷ rs) d = ap suc (Decoded-length decode ps rs d.1)

-- The capture of a header and the records whole before a cut.
abbrev pub cut_capture : Capture → ℕ × Bool → Capture
cut_capture c (n, torn) =
    capture_of
      (record { header = c.header; records = take n (records_of c.joins c.events); torn = torn })

read_capture-start :
    (codec : Codec) (c : Capture) (p : List ℕ) (ps : List (List ℕ)) (k : ℕ)
    → codec.decode p ≡ some (header c.header)
    → Decoded codec.decode ps (records_of c.joins c.events)
    → EventsInOrder (length c.joins) 0 c.events
    → read_capture codec.decode (stream_of (start p ++ take k (bytes_of ps)))
      ≡ some (value (cut_capture c (whole k ps)))
unfolding read_capture
read_capture-start codec c p ps k d decoded ordered =
    let rs = records_of c.joins c.events in
    let admitted : admits_all fresh_order rs ≡ true =
      (admits_all_iff rs).1 (c.joins, c.events, refl, ordered) in
    ap capture_read (
      read_capture_file-start codec.decode p (take k (bytes_of ps)) c.header d
      ∙ ap (file_of codec.decode c.header)
          (read_records-cut codec.decode ps rs k _ fresh_order decoded admitted (omega arith)))

-- The same capture's file, cut short anywhere after its header, reads as the capture of the records
-- whose frames are whole before the cut, torn exactly when the cut is within a frame.
pub read_capture-cut :
    (codec : Codec) (c : Capture) (bytes : List ℕ) (k : ℕ)
    → Carried codec c
    → length c.joins < 256
    → EventsInOrder (length c.joins) 0 c.events
    → write_capture codec c ≡ value bytes
    → (p : List ℕ) × (ps : List (List ℕ)) × (bytes ≡ start p ++ bytes_of ps)
      × (length ps ≡ length (records_of c.joins c.events))
      × (read_capture codec.decode (stream_of (take (length (start p) + k) bytes))
          ≡ some (value (cut_capture c (whole k ps))))
read_capture-cut codec c bytes k carried few ordered h =
    let (p, ps, d, decoded, same) = write_capture-frames codec c bytes carried few h in
    (
      p,
      ps,
      same,
      sym (Decoded-length codec.decode ps _ decoded),
      ap (λ b. read_capture codec.decode (stream_of b))
            (ap (take (length (start p) + k)) same ∙ take-length_append (start p) k (bytes_of ps))
          ∙ read_capture-start codec c p ps k d decoded ordered,
    )

-- A capture of fewer than 256 players whose events are in the format's order, each of whose records
-- the codec decodes to itself, comes back whole and not torn from the bytes that write_capture
-- writes of it.
pub read_capture-write_capture :
    (codec : Codec) (c : Capture) (bytes : List ℕ)
    → Carried codec c
    → length c.joins < 256
    → EventsInOrder (length c.joins) 0 c.events
    → write_capture codec c ≡ value bytes
    → read_capture codec.decode (stream_of bytes) ≡ some (value (record c { torn = false }))
read_capture-write_capture codec c bytes carried few ordered h =
    let (p, ps, d, decoded, same) = write_capture-frames codec c bytes carried few h in
    let all = take-all (bytes_of ps) (length (bytes_of ps)) (omega arith) in
    let records =
      take-all (records_of c.joins c.events) (length ps)
        (omega (arith, Decoded-length codec.decode ps _ decoded)) in
    ap (λ b. read_capture codec.decode (stream_of b)) (same ∙ ap (λ b. start p ++ b) (sym all))
    ∙ read_capture-start codec c p ps (length (bytes_of ps)) d decoded ordered
    ∙ ap (λ w. some (value (cut_capture c w))) (whole-all ps (length (bytes_of ps)) (omega arith))
    ∙ ap
        (λ rs. some (value (capture_of (record { header = c.header; records = rs; torn = false }))))
        records
    ∙ ap₂
        (λ js es.
          some (value (record { header = c.header; joins = js; events = es; torn = false })))
        (joins_in-records 0 c.joins c.events) (events_in-records 0 c.joins c.events)
