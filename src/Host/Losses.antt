-- ===== src/Host/Losses.antt =====
-- What src/modules/host/include/augusta/capturer.h names of a capture's life, and capturer.cpp's
-- failure of a lost one. boost's to_string of a Match ID is the parameter `id_text`.
use augusta.Common.{ℕ, List, [], ◌∷◌}
use augusta.Failure.{
  Failure, Code, capture_write_failed, capture_flush_failed, capture_queue_full,
  capture_record_too_long, capture_retention_budget, strict_capture_failed,
}
use augusta.Failure.Log.{ascii}

pub data CaptureStop : Type 0 where
  stop_record_too_long stop_queue_full stop_write_failed stop_retention_budget : CaptureStop

pub data CaptureMode : Type 0 where
  optional strict : CaptureMode

pub data CaptureHealth : Type 0 where
  enabled degraded stopped : CaptureHealth

pub data CaptureStep : Type 0 where
  create write flush queue_full record_too_long retention_budget : CaptureStep

pub data CaptureState : Type 0 where
  off idle capturing capture_stopped : CaptureState

unfoldable pub stop_at : CaptureStep → CaptureStop
stop_at queue_full = stop_queue_full
stop_at record_too_long = stop_record_too_long
stop_at retention_budget = stop_retention_budget
stop_at create = stop_write_failed
stop_at write = stop_write_failed
stop_at flush = stop_write_failed

unfoldable pub optional_loss_code : CaptureStep → Code
optional_loss_code flush = capture_flush_failed
optional_loss_code queue_full = capture_queue_full
optional_loss_code record_too_long = capture_record_too_long
optional_loss_code retention_budget = capture_retention_budget
optional_loss_code create = capture_write_failed
optional_loss_code write = capture_write_failed

unfoldable pub capture_step_name : CaptureStep → List ℕ
capture_step_name create = ascii "create"
capture_step_name write = ascii "write"
capture_step_name flush = ascii "flush"
capture_step_name queue_full = ascii "queue_full"
capture_step_name record_too_long = ascii "record_too_long"
capture_step_name retention_budget = ascii "retention_budget"

abbrev loss_code : CaptureMode → CaptureStep → Code
loss_code strict step = strict_capture_failed
loss_code optional step = optional_loss_code step

unfoldable pub lost_capture : (ℕ → List ℕ) → CaptureMode → ℕ → CaptureStep → List ℕ → Failure
unfolding optional_loss_code capture_step_name
lost_capture id_text mode match_id step detail = record {
  code = loss_code mode step;
  context =
      record { key = ascii "match"; value = id_text match_id }
      ∷ record { key = ascii "step"; value = capture_step_name step }
      ∷ [];
  detail = detail;
}
