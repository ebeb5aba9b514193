-- ===== src/Host/Retention/Plan.antt =====
-- PlanRetention against the least number of deletions that makes room.
use native.Mathlib.Nat.{zero-add}
use augusta.Common.{
  ℕ, zero, suc, ◌+◌, ◌-◌, ◌≤◌, ◌<◌, ◌≡◌, refl, ◌∙◌, Bool, true, false, ◌&&◌, Option, none, some,
  List, [], ◌∷◌, leb, ltb, if◌then◌else◌, length, arith, inl, inr, Bool-cases,
}
use augusta.Host.Retention.{
  CompletedCapture, CaptureRetention, RetentionPlan, u64_mod, plan_files, plan_bytes, plan_opening,
  plan_room, plan_retention,
}

-- What is left of the total once the first `n` captures are deleted.
abbrev pub left_after : ℕ → List CompletedCapture → ℕ → ℕ
left_after zero cs total = total
left_after (suc n) [] total = total
left_after (suc n) (c ∷ cs) total = left_after n cs (total - c.size)

-- Whether the limits hold with the first `n` captures deleted: fewer than `max_files` left when a
-- capture is opening, and room for the bytes.
abbrev pub files_ok : Bool → Option ℕ → ℕ → Bool
files_ok true (some max_files) left = ltb left max_files
files_ok opening max_files left = true

abbrev pub bytes_ok : Option ℕ → ℕ → ℕ → Bool
bytes_ok none bytes left = true
bytes_ok (some max_bytes) bytes left = leb (left + bytes) max_bytes

abbrev pub enough : Bool → CaptureRetention → ℕ → List CompletedCapture → ℕ → ℕ → Bool
enough opening retention bytes completed total n =
    files_ok opening retention.max_files (length completed - n)
    && bytes_ok retention.max_bytes bytes (left_after n completed total)

-- The least `n` for which the limits hold, or all of the captures.
unfoldable pub fewest : Bool → CaptureRetention → ℕ → List CompletedCapture → ℕ → ℕ
fewest opening retention bytes [] total = 0
fewest opening retention bytes (c ∷ cs) total =
    let rest = fewest opening retention bytes cs (total - c.size) in
    if enough opening retention bytes (c ∷ cs) total 0 then 0 else suc rest

-- The second loop deletes as few as bring the bytes within the limit.
plan_bytes_lem :
    (max bytes : ℕ) (mf : Option ℕ) (cs : List CompletedCapture) (total d : ℕ)
    → total + bytes < u64_mod
    → let p = plan_bytes max bytes cs total d in
      let n = fewest false (record { max_files = mf; max_bytes = some max }) bytes cs total in
      (p.deletions ≡ d + n) × (p.remaining ≡ left_after n cs total)
unfolding plan_bytes fewest
plan_bytes_lem max bytes mf [] total d h = ground arith
plan_bytes_lem max bytes mf (c ∷ cs) total d h =
    ground (arith, plan_bytes_lem max bytes mf cs (total - c.size) (d + 1))

pub left_after-le : (n : ℕ) (cs : List CompletedCapture) (total : ℕ) → left_after n cs total ≤ total
left_after-le zero cs total = omega arith
left_after-le (suc n) [] total = omega arith
left_after-le (suc n) (c ∷ cs) total = omega (arith, left_after-le n cs (total - c.size))

abbrev planned_room : Bool → CaptureRetention → ℕ → List CompletedCapture → ℕ → ℕ → RetentionPlan
planned_room opening r bytes cs total d =
    let n = fewest opening r bytes cs total in
    record { deletions = d + n; fits = bytes_ok r.max_bytes bytes (left_after n cs total) }

fewest-none :
    (mf : Option ℕ) (bytes : ℕ) (cs : List CompletedCapture) (total : ℕ)
    → fewest false (record { max_files = mf; max_bytes = none }) bytes cs total ≡ 0
unfolding fewest
fewest-none mf bytes [] total = refl
fewest-none mf bytes (c ∷ cs) total = refl

plan_room-closed :
    (mf mb : Option ℕ) (bytes : ℕ) (cs : List CompletedCapture) (total d : ℕ)
    → total + bytes < u64_mod
    → plan_room mb bytes (record { captures = cs; remaining = total; deletions = d })
      ≡ planned_room false (record { max_files = mf; max_bytes = mb }) bytes cs total d
unfolding plan_room
plan_room-closed mf none bytes cs total d h = ground (arith, fewest-none mf bytes cs total)
plan_room-closed mf (some max) bytes cs total d h =
    let n = fewest false (record { max_files = mf; max_bytes = some max }) bytes cs total in
    ground (arith, plan_bytes_lem max bytes mf cs total d h, left_after-le n cs total)

-- Where the files are few enough at once, opening a capture asks for no more than writing to one.
fewest-few_files :
    (max : ℕ) (mb : Option ℕ) (bytes : ℕ) (cs : List CompletedCapture) (total : ℕ)
    → length cs < max
    → fewest true (record { max_files = some max; max_bytes = mb }) bytes cs total
      ≡ fewest false (record { max_files = some max; max_bytes = mb }) bytes cs total
unfolding fewest
fewest-few_files max mb bytes [] total h = refl
fewest-few_files max mb bytes (c ∷ cs) total h =
    ground (arith, fewest-few_files max mb bytes cs (total - c.size))

fewest-no_limit :
    (mb : Option ℕ) (bytes : ℕ) (cs : List CompletedCapture) (total : ℕ)
    → fewest true (record { max_files = none; max_bytes = mb }) bytes cs total
      ≡ fewest false (record { max_files = none; max_bytes = mb }) bytes cs total
unfolding fewest
fewest-no_limit mb bytes [] total = refl
fewest-no_limit mb bytes (c ∷ cs) total =
    ground (arith, fewest-no_limit mb bytes cs (total - c.size))

planned_room-over :
    (max : ℕ) (mb : Option ℕ) (bytes : ℕ) (c : CompletedCapture) (cs : List CompletedCapture)
    (total d : ℕ)
    → leb max (length (c ∷ cs)) ≡ true
    → planned_room true
        (record { max_files = some max; max_bytes = mb })
        bytes
        cs
        (total - c.size)
        (d + 1)
      ≡ planned_room true (record { max_files = some max; max_bytes = mb }) bytes (c ∷ cs) total d
unfolding fewest
planned_room-over max mb bytes c cs total d over = ground arith

plan_files_lem :
    (max : ℕ) (mb : Option ℕ) (bytes : ℕ) (cs : List CompletedCapture) (total d : ℕ)
    → total + bytes < u64_mod
    → plan_room mb bytes (plan_files max cs total d)
      ≡ planned_room true (record { max_files = some max; max_bytes = mb }) bytes cs total d
unfolding plan_files
plan_files_lem max mb bytes [] total d h =
    plan_room-closed (some max) mb bytes [] total d h ∙ unfold fewest in refl
plan_files_lem max mb bytes (c ∷ cs) total d h = elim (Bool-cases (leb max (length (c ∷ cs)))) [
  | inl over ↦ rw over (
      plan_files_lem max mb bytes cs (total - c.size) (d + 1) (omega arith)
      ∙ planned_room-over max mb bytes c cs total d over)
  | inr fits ↦ rw fits (
      plan_room-closed (some max) mb bytes (c ∷ cs) total d h
      ∙ rw (fewest-few_files max mb bytes (c ∷ cs) total (ground arith)) refl)
]

plan_opening_lem :
    (opening : Bool) (mf mb : Option ℕ) (completed : List CompletedCapture) (total bytes : ℕ)
    → total + bytes < u64_mod
    → plan_room mb bytes (plan_opening opening mf completed total)
      ≡ planned_room opening (record { max_files = mf; max_bytes = mb }) bytes completed total 0
unfolding plan_opening
plan_opening_lem true (some max) mb completed total bytes h =
    plan_files_lem max mb bytes completed total 0 h
plan_opening_lem true none mb completed total bytes h =
    plan_room-closed none mb bytes completed total 0 h
    ∙ rw (fewest-no_limit mb bytes completed total) refl
plan_opening_lem false mf mb completed total bytes h =
    plan_room-closed mf mb bytes completed total 0 h

-- Where the total with the bytes to come fits 64 bits, plan_retention deletes the fewest of the
-- oldest captures after which both limits hold, or all of them, and says whether the bytes then
-- fit.
pub plan_retention_lem :
    (completed : List CompletedCapture) (total : ℕ) (opening : Bool) (bytes : ℕ)
    (retention : CaptureRetention)
    → total + bytes < u64_mod
    → let n = fewest opening retention bytes completed total in
      plan_retention completed total opening bytes retention ≡ record {
        deletions = n;
        fits = bytes_ok retention.max_bytes bytes (left_after n completed total);
      }
unfolding plan_retention
plan_retention_lem completed total opening bytes retention h =
    plan_opening_lem opening retention.max_files retention.max_bytes completed total bytes h
    ∙ rw zero-add refl
