-- ===== src/Failure/Latch.antt =====
-- src/modules/failure/include/augusta/failure_latch.h: the first failure recorded, until taken. Each
-- method runs under the latch's own lock, so any use of it is a sequence of these calls.
use augusta.Common.{Bool, true, Option, none, some, if◌then◌else◌}
use augusta.Failure.{Failure}

pub record FailureLatch : Type 0 where
  pub recorded : Bool
  pub failure : Option Failure

abbrev pub record_failure : FailureLatch → Failure → FailureLatch
record_failure l f = if l.recorded then l else record { recorded = true; failure = some f }

abbrev pub take_failure : FailureLatch → FailureLatch × Option Failure
take_failure l = (record l { failure = none }, l.failure)
