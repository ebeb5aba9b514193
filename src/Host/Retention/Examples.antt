-- ===== src/Host/Retention/Examples.antt =====
-- A capture directory of three captures, one of which cannot be deleted, and each theorem at it.
use augusta.Common.{
  ℕ, ◌≤◌, ◌≡◌, refl, Bool, true, false, some, String, List, [], ◌∷◌, ◌==◌, arith, not,
}
use augusta.Host.Retention.{
  CaptureRetention, CompletedCapture, CaptureDirectory, plan_retention, make_room, reserve, plan_of,
  plan_room, plan_opening, delete_oldest,
}
use augusta.Host.Retention.Plan.{left_after, bytes_ok, fewest, plan_retention_lem}
use augusta.Host.Retention.Room.{delete_many, make_room-total, reserve-total}

abbrev limits : CaptureRetention
limits = record { max_files = some 3; max_bytes = some 100 }

abbrev capture : String → ℕ → CompletedCapture
capture path size = record { path = path; size = size }

abbrev three : List CompletedCapture
three = capture "a" 30 ∷ capture "b" 30 ∷ capture "c" 30 ∷ []

abbrev not_the_first : CompletedCapture → Bool
not_the_first c = not (c.size == 30)

abbrev directory : CaptureDirectory
directory = record {
  retention = limits;
  completed = three;
  deleted = 0;
  total = 90;
  capture_open = true;
  match_id = 5;
  failure_logged = false;
  deleted_log = [];
}

plan_retention_lem_example : plan_retention three 90 true 50 limits ≡ record {
  deletions = fewest true limits 50 three 90;
  fits = bytes_ok (some 100) 50 (left_after (fewest true limits 50 three 90) three 90);
}
plan_retention_lem_example = plan_retention_lem three 90 true 50 limits (omega arith)

make_room-total_example :
    let plan = plan_retention three 90 false 50 limits in
    make_room not_the_first directory false 50
    ≡ some (delete_many not_the_first plan.deletions directory, plan.fits)
make_room-total_example = make_room-total not_the_first directory false 50 (omega arith)

abbrev directory_after : CaptureDirectory
directory_after = record directory {
  deleted = 2;
  total = 80;
  failure_logged = true;
  deleted_log = (capture "a" 30, false) ∷ (capture "b" 30, false) ∷ [];
}

reserve-total_example : directory_after.total ≤ 100
unfolding plan_of plan_retention plan_room plan_opening delete_oldest
reserve-total_example =
    reserve-total not_the_first directory 50 100 directory_after (omega arith) refl
      (unfold reserve in refl)
