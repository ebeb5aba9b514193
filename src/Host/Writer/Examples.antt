-- ===== src/Host/Writer/Examples.antt =====
-- A writer of one Match's capture, and each theorem about the writer at it.
use augusta.Common.{ℕ, ◌≤◌, ◌≡◌, ◌≢◌, refl, true, none, some, List, [], ◌∷◌, arith}
use augusta.Failure.{Failure}
use augusta.Host.Losses.{
  optional, enabled, degraded, lost_capture, queue_full, optional_loss_code, capture_step_name,
}
use augusta.Host.Retention.{CaptureDirectory}
use augusta.Host.Writer.{
  Writer, Disk, Step, begins, opens, closes, pushes, takes, carries, settles, make_writer, run,
  enter,
}
use augusta.Host.Writer.Losing.{Counted, Sound, rank, run-make_writer, loss_kept}

abbrev id_bytes : ℕ → List ℕ
id_bytes id = id ∷ []

abbrev empty_directory : CaptureDirectory
empty_directory = record {
  retention = record { max_files = none; max_bytes = none };
  completed = [];
  deleted = 0;
  total = 0;
  capture_open = true;
  match_id = 7;
  failure_logged = true;
  deleted_log = [];
}

abbrev good_disk : Disk
good_disk = record {
  found = [];
  removes = λ c. true;
  created = true;
  write_fault = none;
  wrote = true;
  flush_fault = none;
  flushed = true;
  thrown = none;
}

-- A second record finds the one before it unwritten in a queue of one.
abbrev too_fast : List Step
too_fast =
    begins 7
    ∷ opens 7 [] (1 ∷ [])
    ∷ takes
    ∷ carries good_disk
    ∷ pushes 7 (2 ∷ [])
    ∷ pushes 7 (3 ∷ [])
    ∷ settles
    ∷ takes
    ∷ closes 7
    ∷ []

run-make_writer_example :
    let w = run id_bytes (make_writer optional 1 empty_directory) too_fast in Counted w × Sound w
run-make_writer_example = run-make_writer id_bytes optional 1 empty_directory too_fast (omega arith)

abbrev overflowed : Failure
unfolding lost_capture optional_loss_code capture_step_name
overflowed = lost_capture id_bytes optional 7 queue_full []

abbrev lossy : Writer
unfolding make_writer enter
lossy = record (make_writer optional 1 empty_directory) {
  health = degraded;
  loss = some overflowed;
}

lossy-Sound : Sound lossy
unfolding lossy
lossy-Sound = record { unlost = λ e. ground arith }

loss_kept_example :
    let after = run id_bytes lossy too_fast in
    (after.loss ≡ some overflowed)
    × (rank lossy.health ≤ rank after.health)
    × (after.health ≢ enabled)
unfolding lossy
loss_kept_example = loss_kept id_bytes lossy too_fast overflowed lossy-Sound refl
