-- ===== src/Host/Misbehaviour/Examples.antt =====
-- A peer that sends sixteen malformed messages within the window, and the theorem at it.
use augusta.Common.{ℕ, suc, ◌≡◌, ◌&&◌, List, [], ◌∷◌, leb, if◌then◌else◌, arith}
use augusta.Host.Misbehaviour.{
  PeerRejection, undecodable, stale_command, is_misbehaviour, misbehaviour_threshold, keep,
  disconnect, fresh_tracker, record_rejection,
}
use augusta.Host.Misbehaviour.Window.{track, counting, misbehaved, record_rejection-verdict}

abbrev history : List (PeerRejection × ℕ)
history =
    (undecodable, 1)
    ∷ (undecodable, 1_000_000_000)
    ∷ (stale_command, 2_000_000_000)
    ∷ (undecodable, 5_000_000_001)
    ∷ []

record_rejection-verdict_example :
    (record_rejection (track fresh_tracker history) undecodable 5_000_000_002).1 ≡ (
      if is_misbehaviour undecodable
        && leb misbehaviour_threshold (suc (counting 5_000_000_002 (misbehaved history)))
      then disconnect
      else keep)
record_rejection-verdict_example =
    record_rejection-verdict history undecodable 5_000_000_002 (ground arith)
