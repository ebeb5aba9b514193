-- ===== src/Capture/Written.antt =====
-- The bytes that WriteCapture writes, as the magic, the format version and frames.
use mathlib.Core.Path.{ap₂}
use augusta.Common.{
  ℕ, ◌+◌, ◌%◌, ◌<◌, ◌≡◌, refl, ap, ◌∙◌, ◌⊎◌, some, List, [], ◌∷◌, ◌++◌, map, length, All, arith,
  inl, inr, Expected, value, unexpected,
}
use augusta.Failure.{Failure}
use augusta.Capture.{Header, Join, EventAt, CaptureRecord, header, join, event}
use augusta.Capture.Order.{join_records, records_of}
use augusta.Capture.Reading.{Capture, capture_magic, capture_format_version}
use augusta.Capture.Writing.{
  Codec, EncodeError, framed, then_pieces, encode_header, encode_join, encode_event, write_events,
  write_joins, write_capture,
}
use augusta.Capture.Cutting.{bytes_of, Decoded}

-- What the Link encodes of a capture, it decodes to the same.
pub record Carried (codec : Codec) (c : Capture) : Type 0 where
  pub header_carried :
      (p : List ℕ)
      → codec.encode_header c.header ≡ value p
      → codec.decode p ≡ some (header c.header)
  pub joins_carried :
      All
        (λ j.
          (n : ℕ) (p : List ℕ)
          → codec.encode_join n j ≡ value p
          → codec.decode p ≡ some (join 0 n j))
        c.joins
  pub events_carried :
      All
        (λ e. (p : List ℕ) → codec.encode_event e ≡ value p → codec.decode p ≡ some (event e))
        c.events

framed-value :
    (encoded : Expected (List ℕ) Failure) (bytes : List ℕ)
    → framed encoded ≡ value bytes
    → (p : List ℕ) × (encoded ≡ value p) × (bytes ≡ length p ∷ p)
unfolding framed
framed-value (unexpected f) bytes h = cc
framed-value (value p) bytes h = (p, refl, ground arith)

then_pieces-value :
    (first rest : Expected (List ℕ) EncodeError) (bytes : List ℕ)
    → then_pieces first rest ≡ value bytes
    → (a : List ℕ) × (b : List ℕ) × (first ≡ value a) × (rest ≡ value b) × (bytes ≡ a ++ b)
then_pieces-value (unexpected e) rest bytes h = cc
then_pieces-value (value a) (unexpected e) bytes h = cc
then_pieces-value (value a) (value b) bytes h = (a, b, refl, refl, ground arith)

Expected-cases :
    {A E : Type 0} (x : Expected A E) → ((a : A) × (x ≡ value a)) ⊎ ((e : E) × (x ≡ unexpected e))
Expected-cases (value a) = inl (a, refl)
Expected-cases (unexpected e) = inr (e, refl)

module _ (codec : Codec) where
  abbrev Framing : List ℕ → List CaptureRecord → Type 0
  Framing bytes rs = (ps : List (List ℕ)) × (bytes ≡ bytes_of ps) × Decoded codec.decode ps rs

  Framing-frame :
      (p bytes rest : List ℕ) (r : CaptureRecord) (rs : List CaptureRecord)
      → codec.decode p ≡ some r
      → bytes ≡ (length p ∷ p) ++ rest
      → Framing rest rs
      → Framing bytes (r ∷ rs)
  Framing-frame p bytes rest r rs d e (ps, same, more) =
      (p ∷ ps, e ∙ ap (λ b. length p ∷ p ++ b) same, (d, more))

  write_events-Framing :
      (es : List EventAt) (bytes : List ℕ)
      → All
          (λ e. (p : List ℕ) → codec.encode_event e ≡ value p → codec.decode p ≡ some (event e))
          es
      → write_events codec es ≡ value bytes
      → Framing bytes (map event es)
  unfolding write_events encode_event
  write_events-Framing [] bytes c h = ([], ground arith, tt)
  write_events-Framing (e ∷ es) bytes c h =
      let (a, b, first, rest, same) = then_pieces-value _ _ bytes h in
      let (p, encoded, framing) = framed-value _ a first in
      Framing-frame p bytes b (event e) (map event es) (c.0 p encoded)
        (same ∙ ap (λ x. x ++ b) framing) (write_events-Framing es b c.1 rest)

  write_joins-Framing :
      (i : ℕ) (js : List Join) (es : List EventAt) (bytes : List ℕ)
      → i + length js < 256
      → All
          (λ j.
            (n : ℕ) (p : List ℕ)
            → codec.encode_join n j ≡ value p
            → codec.decode p ≡ some (join 0 n j))
          js
      → All
          (λ e. (p : List ℕ) → codec.encode_event e ≡ value p → codec.decode p ≡ some (event e))
          es
      → write_joins codec i js es ≡ value bytes
      → Framing bytes (join_records i js ++ map event es)
  unfolding write_joins encode_join
  write_joins-Framing i [] es bytes few cj ce h = write_events-Framing es bytes ce h
  write_joins-Framing i (j ∷ js) es bytes few cj ce h =
      let (a, b, first, rest, same) = then_pieces-value _ _ bytes h in
      let (p, encoded, framing) = framed-value (codec.encode_join ((i + 1) % 256) j) a first in
      let number : (i + 1) % 256 ≡ i + 1 = omega arith in
      Framing-frame p bytes b (join 0 (i + 1) j) (join_records (i + 1) js ++ map event es)
        (cj.0 (i + 1) p (rw number at encoded)) (same ∙ ap (λ x. x ++ b) framing)
        (write_joins-Framing (i + 1) js es b (omega arith) cj.1 ce rest)

-- What a file holds before the frames of its records.
abbrev pub start : List ℕ → List ℕ
start payload = capture_magic ++ capture_format_version ∷ length payload ∷ payload

encode_header-start :
    (codec : Codec) (h : Header) (bytes : List ℕ)
    → encode_header codec h ≡ value bytes
    → (p : List ℕ) × (codec.encode_header h ≡ value p) × (bytes ≡ start p)
unfolding encode_header framed
encode_header-start codec h bytes e = elim (Expected-cases (codec.encode_header h)) [
  | inl (p, encoded) ↦ (p, encoded, ground arith)
  | inr (f, failed) ↦ absurd (ground arith)
]

-- What is written of a capture: its header's frame, then the frames of its records.
pub write_capture-frames :
    (codec : Codec) (c : Capture) (bytes : List ℕ)
    → Carried codec c
    → length c.joins < 256
    → write_capture codec c ≡ value bytes
    → (p : List ℕ) × (ps : List (List ℕ)) × (codec.decode p ≡ some (header c.header))
      × Decoded codec.decode ps (records_of c.joins c.events)
      × (bytes ≡ start p ++ bytes_of ps)
unfolding write_capture
write_capture-frames codec c bytes carried few h =
    let (a, b, first, rest, same) = then_pieces-value (encode_header codec c.header) _ bytes h in
    let (p, encoded, begun) = encode_header-start codec c.header a first in
    let (ps, framed, decoded) =
      write_joins-Framing codec 0 c.joins c.events b (omega arith) carried.joins_carried
        carried.events_carried rest in
    (p, ps, carried.header_carried p encoded, decoded, same ∙ ap₂ (λ x y. x ++ y) begun framed)
