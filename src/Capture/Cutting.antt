-- ===== src/Capture/Cutting.antt =====
-- Reading a file of frames cut short anywhere: the frames whole before the cut, and whether the cut
-- tears one.
use augusta.Common.{
  ℕ, zero, suc, ◌-◌, ◌≤◌, ◌<◌, ◌≡◌, refl, ap, ◌∙◌, Bool, true, false, ◌&&◌, Option, some, List, [],
  ◌∷◌, ◌++◌, ltb, ==_refl, if◌then◌else◌, length, take, drop, length-take, length-append, arith,
  inl, inr, value, Bool-cases,
}
use augusta.Capture.{CaptureRecord, RecordOrder, admits}
use augusta.Capture.Order.{admits_all}
use augusta.Capture.Streams.{Stream, read_bytes, frame, at_end, torn, read_frame, read_payload}
use augusta.Capture.Reading.{read_records, push_front}

and_true : (a b : Bool) → (a && b) ≡ true → (a ≡ true) × (b ≡ true)
and_true a b h = ground arith

-- A stream that gives those bytes and then ends.
abbrev pub stream_of : List ℕ → Stream
stream_of bytes = record { rest = bytes; breaks = false; failed = false; bad = false }

-- The frames of some payloads, one after another.
abbrev pub bytes_of : List (List ℕ) → List ℕ
bytes_of [] = []
bytes_of (p ∷ ps) = length p ∷ p ++ bytes_of ps

-- How many frames are whole in the first bytes of a file, and whether the next is torn.
abbrev pub whole : ℕ → List (List ℕ) → ℕ × Bool
whole k [] = (0, false)
whole zero (p ∷ ps) = (0, false)
whole (suc k) (p ∷ ps) =
    let (n, cut) = whole (k - length p) ps in if ltb k (length p) then (0, true) else (suc n, cut)

take-take_append : (p r : List ℕ) (k : ℕ) → length p ≤ k → take (length p) (take k (p ++ r)) ≡ p
take-take_append [] r k h = refl
take-take_append (x ∷ p) r zero h = absurd (omega arith)
take-take_append (x ∷ p) r (suc k) h = ap (◌∷◌ x) (take-take_append p r k (omega arith))

drop-take_append :
    (p r : List ℕ) (k : ℕ)
    → length p ≤ k
    → drop (length p) (take k (p ++ r)) ≡ take (k - length p) r
drop-take_append [] r k h = ap (λ n. take n r) (omega arith)
drop-take_append (x ∷ p) r zero h = absurd (omega arith)
drop-take_append (x ∷ p) r (suc k) h =
    drop-take_append p r k (omega arith) ∙ ap (λ n. take n r) (omega arith)

payload-cut :
    (p r : List ℕ) (k : ℕ)
    → k < length p
    → (read_payload (length p) (stream_of (take k (p ++ r)))).1 ≡ torn
unfolding read_payload read_bytes
payload-cut p r k h = ground (arith, length-take k (p ++ r), length-append p r)

payload-whole :
    (p r : List ℕ) (k : ℕ)
    → length p ≤ k
    → read_payload (length p) (stream_of (take k (p ++ r)))
      ≡ (stream_of (take (k - length p) r), frame p)
unfolding read_payload read_bytes
payload-whole p r k h = ground (
  arith,
  length-take k (p ++ r),
  length-append p r,
  take-take_append p r k h,
  drop-take_append p r k h,
  ==_refl (length p),
)

frame-payload :
    (p r : List ℕ) (k : ℕ)
    → read_frame (stream_of (take (suc k) (length p ∷ p ++ r)))
      ≡ read_payload (length p) (stream_of (take k (p ++ r)))
unfolding read_frame read_bytes
frame-payload p r k = ground arith

read_frame-at_end : (read_frame (stream_of [])).1 ≡ at_end
unfolding read_frame read_bytes
read_frame-at_end = refl

module _ (decode : List ℕ → Option CaptureRecord) where
  -- Each payload decodes to the record at its place.
  abbrev pub Decoded : List (List ℕ) → List CaptureRecord → Type 0
  Decoded [] [] = Unit {0}
  Decoded [] (r ∷ rs) = ⊥
  Decoded (p ∷ ps) [] = ⊥
  Decoded (p ∷ ps) (r ∷ rs) = (decode p ≡ some r) × Decoded ps rs

  round-at_end :
      (fuel : ℕ) (s : Stream) (o : RecordOrder)
      → (read_frame s).1 ≡ at_end
      → read_records decode (suc fuel) s o ≡ some (value ([], false))
  unfolding read_records
  round-at_end fuel s o e = ground arith

  round-torn :
      (fuel : ℕ) (s : Stream) (o : RecordOrder)
      → (read_frame s).1 ≡ torn
      → read_records decode (suc fuel) s o ≡ some (value ([], true))
  unfolding read_records
  round-torn fuel s o e = ground arith

  round-whole :
      (fuel : ℕ) (s t : Stream) (o : RecordOrder) (p : List ℕ) (r : CaptureRecord)
      → read_frame s ≡ (t, frame p)
      → decode p ≡ some r
      → (admits o r).1 ≡ true
      → read_records decode (suc fuel) s o
        ≡ push_front decode r (read_records decode fuel t (admits o r).0)
  unfolding read_records
  round-whole fuel s t o p r e d ok = ground arith

  -- A file of frames cut short anywhere reads as the records whole before the cut.
  pub read_records-cut :
      (ps : List (List ℕ)) (rs : List CaptureRecord) (k fuel : ℕ) (o : RecordOrder)
      → Decoded ps rs
      → admits_all o rs ≡ true
      → length (take k (bytes_of ps)) < fuel
      → read_records decode fuel (stream_of (take k (bytes_of ps))) o
        ≡ some (value (take (whole k ps).0 rs, (whole k ps).1))
  unfolding admits_all
  read_records-cut ps rs k zero o d a h = absurd (omega arith)
  read_records-cut [] [] zero (suc fuel) o d a h =
      round-at_end fuel (stream_of []) o read_frame-at_end
  read_records-cut [] [] (suc k) (suc fuel) o d a h =
      round-at_end fuel (stream_of []) o read_frame-at_end
  read_records-cut [] (r ∷ rs) k (suc fuel) o d a h = elim d [ ]
  read_records-cut (p ∷ ps) [] k (suc fuel) o d a h = elim d [ ]
  read_records-cut (p ∷ ps) (r ∷ rs) zero (suc fuel) o d a h =
      round-at_end fuel (stream_of []) o read_frame-at_end
  read_records-cut (p ∷ ps) (r ∷ rs) (suc k) (suc fuel) o d a h =
      elim (Bool-cases (ltb k (length p))) [
        | inl cut ↦ rw cut (
            round-torn fuel _ o (
              ap (λ x. x.1) (frame-payload p (bytes_of ps) k)
              ∙ payload-cut p (bytes_of ps) k (ground arith)))
        | inr fits ↦
            let (ok, more) = and_true (admits o r).1 _ a in
            let rest = read_records-cut ps rs (k - length p) fuel (admits o r).0 d.1 more (
              omega (
                arith,
                h,
                length-take k (p ++ bytes_of ps),
                length-append p (bytes_of ps),
                length-take (k - length p) (bytes_of ps),
              )) in
            rw fits (
              round-whole fuel _ _ o p r
                (frame-payload p (bytes_of ps) k ∙ payload-whole p (bytes_of ps) k (ground arith))
                d.0 ok
              ∙ ap (push_front decode r) rest)
      ]
