-- ===== src/Host/Misbehaviour.antt =====
-- src/modules/host/misbehaviour.cpp and its header: which rejections count, and when a peer that
-- keeps sending what no honest client sends is disconnected. A time is a count of nanoseconds of the
-- steady clock; `now - t` stops at 0 here, which decides `>= window` as the signed difference does.
pub mod Window
mod Examples
use augusta.Common.{
  ℕ, suc, ◌-◌, ◌≡◌, Bool, true, false, not, List, [], ◌∷◌, ◌++◌, leb, if◌then◌else◌, length,
}

pub data PeerRejection : Type 0 where
  undecodable not_a_client_message non_finite_command out_of_range_command : PeerRejection
  commands_before_joining stale_command commands_outside_match stale_ready : PeerRejection
  join_refused : PeerRejection

abbrev pub is_misbehaviour : PeerRejection → Bool
is_misbehaviour undecodable = true
is_misbehaviour not_a_client_message = true
is_misbehaviour non_finite_command = true
is_misbehaviour out_of_range_command = true
is_misbehaviour commands_before_joining = true
is_misbehaviour stale_command = false
is_misbehaviour commands_outside_match = false
is_misbehaviour stale_ready = false
is_misbehaviour join_refused = false

-- kMisbehaviourWindow, 5 seconds.
abbrev pub misbehaviour_window : ℕ
misbehaviour_window = 5_000_000_000

abbrev pub misbehaviour_threshold : ℕ
misbehaviour_threshold = 16

pub data Verdict : Type 0 where
  keep disconnect : Verdict

pub record MisbehaviourTracker : Type 0 where
  pub recent : List ℕ

abbrev pub fresh_tracker : MisbehaviourTracker
fresh_tracker = record { recent = [] }

-- The loop that pops the front while it is out of the window.
unfoldable pub pop_expired : ℕ → List ℕ → List ℕ
pop_expired now [] = []
pop_expired now (t ∷ ts) =
    let rest = pop_expired now ts in if leb misbehaviour_window (now - t) then rest else t ∷ ts

unfoldable pub record_rejection :
    MisbehaviourTracker → PeerRejection → ℕ → MisbehaviourTracker × Verdict
unfolding pop_expired
record_rejection tracker rejection now =
    if not (is_misbehaviour rejection)
    then (tracker, keep)
    else let recent = pop_expired now tracker.recent ++ now ∷ [] in
      (
        record { recent = recent },
        if leb misbehaviour_threshold (length recent) then disconnect else keep,
      )
