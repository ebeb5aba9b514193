-- ===== src/Host/Retention.antt =====
-- src/modules/host/capture_retention.cpp and its header: which completed captures a server deletes
-- before it writes more. Sizes and totals are std::uintmax_t, 64 bits here. The file system is a
-- parameter: what a scan finds, oldest first, and whether a file is removed. `max_files` is at least
-- 1 in the source, and a 0 there indexes past the last capture; the model stops at the last one.
pub mod Plan
pub mod Room
mod Examples
use augusta.Common.{
  ℕ, zero, suc, ◌+◌, ◌-◌, ◌%◌, ◌≡◌, Bool, true, false, not, ◌&&◌, Option, none, some, List, [], ◌∷◌,
  ◌++◌, String, leb, ltb, ◌==◌, if◌then◌else◌, length, drop, is_empty,
}

abbrev pub u64_mod : ℕ
u64_mod = 18446744073709551616

pub record CaptureRetention : Type 0 where
  pub max_files : Option ℕ
  pub max_bytes : Option ℕ

pub record CompletedCapture : Type 0 where
  pub path : String
  pub size : ℕ

pub record RetentionPlan : Type 0 where
  pub deletions : ℕ
  pub fits : Bool

-- What the loops of PlanRetention work on: the captures not yet to be deleted, and the counts.
pub record Planned : Type 0 where
  pub captures : List CompletedCapture
  pub remaining : ℕ
  pub deletions : ℕ

-- `while (completed.size() - deletions >= *max_files) delete_oldest()`.
pub plan_files : ℕ → List CompletedCapture → ℕ → ℕ → Planned
plan_files max_files [] remaining deletions = record {
  captures = [];
  remaining = remaining;
  deletions = deletions;
}
plan_files max_files (c ∷ cs) remaining deletions =
    let rest = plan_files max_files cs (remaining - c.size) (deletions + 1) in
    if leb max_files (length (c ∷ cs))
    then rest
    else record { captures = c ∷ cs; remaining = remaining; deletions = deletions }

-- `while (remaining + bytes > *max_bytes && deletions < completed.size()) delete_oldest()`.
pub plan_bytes : ℕ → ℕ → List CompletedCapture → ℕ → ℕ → Planned
plan_bytes max_bytes bytes [] remaining deletions = record {
  captures = [];
  remaining = remaining;
  deletions = deletions;
}
plan_bytes max_bytes bytes (c ∷ cs) remaining deletions =
    let rest = plan_bytes max_bytes bytes cs (remaining - c.size) (deletions + 1) in
    if ltb max_bytes ((remaining + bytes) % u64_mod)
    then rest
    else record { captures = c ∷ cs; remaining = remaining; deletions = deletions }

-- The first loop, where there is one.
pub plan_opening : Bool → Option ℕ → List CompletedCapture → ℕ → Planned
unfolding plan_files
plan_opening true (some max_files) completed total = plan_files max_files completed total 0
plan_opening opening max_files completed total = record {
  captures = completed;
  remaining = total;
  deletions = 0;
}

-- The second loop, where there is one, and the answer.
pub plan_room : Option ℕ → ℕ → Planned → RetentionPlan
unfolding plan_bytes
plan_room none bytes p = record { deletions = p.deletions; fits = true }
plan_room (some max_bytes) bytes p =
    let planned = plan_bytes max_bytes bytes p.captures p.remaining p.deletions in
    record {
      deletions = planned.deletions;
      fits = leb ((planned.remaining + bytes) % u64_mod) max_bytes;
    }

pub plan_retention : List CompletedCapture → ℕ → Bool → ℕ → CaptureRetention → RetentionPlan
plan_retention completed total opening bytes retention =
    plan_room retention.max_bytes bytes (plan_opening opening retention.max_files completed total)

-- `deleted_log` keeps each deletion tried and whether the file went: what the observer is told.
pub record CaptureDirectory : Type 0 where
  pub retention : CaptureRetention
  pub completed : List CompletedCapture
  pub deleted : ℕ
  pub total : ℕ
  pub capture_open : Bool
  pub match_id : ℕ
  pub failure_logged : Bool
  pub deleted_log : List (CompletedCapture × Bool)

-- Remaining.
abbrev pub remaining : CaptureDirectory → List CompletedCapture
remaining d = drop d.deleted d.completed

abbrev pub total_size : List CompletedCapture → ℕ
total_size [] = 0
total_size (c ∷ cs) = (c.size + total_size cs) % u64_mod

pub plan_of : CaptureDirectory → Bool → ℕ → RetentionPlan
plan_of d opening bytes = plan_retention (remaining d) d.total opening bytes d.retention

module _ (removes : CompletedCapture → Bool) where
  delete_of : CaptureDirectory → List CompletedCapture → CaptureDirectory
  delete_of d [] = d
  delete_of d (oldest ∷ rest) = record d {
    deleted = d.deleted + 1;
    total = d.total - oldest.size;
    failure_logged = if removes oldest then d.failure_logged else true;
    deleted_log = d.deleted_log ++ (oldest, removes oldest) ∷ [];
  }

  -- DeleteOldest: whether or not the file goes, it is no longer one of those that remain.
  pub delete_oldest : CaptureDirectory → CaptureDirectory
  unfolding delete_of
  delete_oldest d = delete_of d (remaining d)

  -- MakeRoom's loop, on fuel.
  pub make_room_fuel : ℕ → CaptureDirectory → Bool → ℕ → Option (CaptureDirectory × Bool)
  make_room_fuel zero d opening bytes = none
  make_room_fuel (suc fuel) d opening bytes =
      let again = make_room_fuel fuel (delete_oldest d) opening bytes in
      let plan = plan_of d opening bytes in
      if plan.deletions == 0 then some (d, plan.fits) else again

  abbrev pub room_fuel : CaptureDirectory → ℕ
  room_fuel d = suc (length (remaining d))

  -- What MakeRoom leaves; `none` would mean that the fuel ran out.
  pub make_room : CaptureDirectory → Bool → ℕ → Option (CaptureDirectory × Bool)
  unfolding make_room_fuel
  make_room d opening bytes = make_room_fuel (room_fuel d) d opening bytes

  abbrev opened : ℕ → CaptureDirectory × Bool → CaptureDirectory × Bool
  opened bytes (d, true) =
      (record d { capture_open = true; total = (d.total + bytes) % u64_mod }, true)
  opened bytes (d, false) = (d, false)

  abbrev reserved : ℕ → CaptureDirectory × Bool → CaptureDirectory × Bool
  reserved bytes (d, true) = (record d { total = (d.total + bytes) % u64_mod }, true)
  reserved bytes (d, false) = (d, false)

  abbrev map_room :
      (CaptureDirectory × Bool → CaptureDirectory × Bool)
      → Option (CaptureDirectory × Bool)
      → Option (CaptureDirectory × Bool)
  map_room f none = none
  map_room f (some r) = some (f r)

  -- Open, given what the scan of the directory found.
  pub open_capture :
      CaptureDirectory → ℕ → List CompletedCapture → ℕ → Option (CaptureDirectory × Bool)
  unfolding make_room
  open_capture d match_id found bytes = map_room (opened bytes) (
      make_room
        (record d {
          match_id = match_id;
          failure_logged = false;
          capture_open = false;
          completed = found;
          deleted = 0;
          total = total_size found;
        })
        true bytes)

  pub reserve : CaptureDirectory → ℕ → Option (CaptureDirectory × Bool)
  unfolding make_room
  reserve d bytes = map_room (reserved bytes) (make_room d false bytes)
