-- ===== src/Host/PeerGate.antt =====
-- src/modules/host/peer_gate.cpp: each connected peer's misbehaviour and admission deadline, and the
-- peers expelled in the round under way. The metrics that Judge counts are left out.
use augusta.Common.{ℕ, Bool, Option, none, some, List, [], ◌∷◌, ◌==◌, any_of, lookup, erase, assign}
use augusta.Host.Misbehaviour.{
  PeerRejection, Verdict, MisbehaviourTracker, fresh_tracker, record_rejection,
}
use augusta.Host.Admission.{AdmissionDeadlines, no_deadlines}
use augusta.Host.Admission as Deadlines

pub record PeerGate : Type 0 where
  pub misbehaviour : List (ℕ × MisbehaviourTracker)
  pub expelled : List ℕ
  pub admission_deadlines : AdmissionDeadlines

abbrev pub fresh_gate : PeerGate
fresh_gate = record { misbehaviour = []; expelled = []; admission_deadlines = no_deadlines }

unfoldable pub connected : PeerGate → ℕ → ℕ → PeerGate
connected g peer now = record g {
  admission_deadlines = Deadlines.connected g.admission_deadlines peer now;
}

unfoldable pub admitted : PeerGate → ℕ → PeerGate
admitted g peer = record g { admission_deadlines = Deadlines.admitted g.admission_deadlines peer }

unfoldable pub left : PeerGate → ℕ → PeerGate
left g peer = record g {
  misbehaviour = erase peer g.misbehaviour;
  admission_deadlines = Deadlines.left g.admission_deadlines peer;
}

-- `misbehaviour_[peer]`: a fresh tracker where there is none.
abbrev pub tracker_of : Option MisbehaviourTracker → MisbehaviourTracker
tracker_of none = fresh_tracker
tracker_of (some t) = t

unfoldable pub judge : PeerGate → ℕ → PeerRejection → ℕ → PeerGate × Verdict
judge g peer rejection now =
    let (tracker, verdict) =
      record_rejection (tracker_of (lookup peer g.misbehaviour)) rejection now in
    (record g { misbehaviour = assign peer tracker g.misbehaviour }, verdict)

unfoldable pub expel : PeerGate → ℕ → PeerGate
expel g peer = record g { expelled = peer ∷ g.expelled }

abbrev pub was_expelled : PeerGate → ℕ → Bool
was_expelled g peer = any_of (λ p. p == peer) g.expelled

unfoldable pub take_overdue : PeerGate → ℕ → PeerGate × List ℕ
take_overdue g now =
    let (deadlines, due) = Deadlines.take_overdue g.admission_deadlines now in
    (record g { admission_deadlines = deadlines }, due)

unfoldable pub end_round : PeerGate → PeerGate
end_round g = record g { expelled = [] }
