-- ===== src/Host/Admission/Deadlines.antt =====
-- TakeOverdue and Admitted, against the deadlines of the peers that wait.
use augusta.Common.{
  ℕ, ◌-◌, ◌≡◌, refl, Bool, true, false, Option, none, some, List, [], ◌∷◌, ◌++◌, leb, if◌then◌else◌,
  arith, lookup, assign, lookup-assign, lookup-erase, erase-IsMap, IsMap, ◌==◌,
}
use augusta.Host.Admission.{
  AdmissionDeadlines, admission_deadline, connected, admitted, left, waiting, overdue, take_overdue,
}

-- Whether a deadline that started then has passed.
abbrev pub is_due : ℕ → Option ℕ → Bool
is_due now none = false
is_due now (some at) = leb admission_deadline (now - at)

-- Whether a peer is in a list of peers.
abbrev pub among : ℕ → List ℕ → Bool
among p [] = false
among p (q ∷ qs) = if q == p then true else among p qs

-- A peer twice in a list.
abbrev pub OnceEach : List ℕ → Type 0
OnceEach [] = Unit {0}
OnceEach (p ∷ ps) = (among p ps ≡ false) × OnceEach ps

lookup-waiting :
    (now p : ℕ) (es : List (ℕ × ℕ))
    → IsMap es
    → lookup p (waiting now es) ≡ (if is_due now (lookup p es) then none else lookup p es)
unfolding waiting lookup
lookup-waiting now p [] u = refl
lookup-waiting now p ((q, at) ∷ es) u = ground (arith, lookup-waiting now p es u.1)

among-overdue :
    (now p : ℕ) (es : List (ℕ × ℕ)) → IsMap es → among p (overdue now es) ≡ is_due now (lookup p es)
unfolding overdue lookup
among-overdue now p [] u = refl
among-overdue now p ((q, at) ∷ es) u = ground (arith, among-overdue now p es u.1)

overdue-OnceEach : (now : ℕ) (es : List (ℕ × ℕ)) → IsMap es → OnceEach (overdue now es)
unfolding overdue
overdue-OnceEach now [] u = tt
overdue-OnceEach now ((q, at) ∷ es) u =
    ground (arith, overdue-OnceEach now es u.1, among-overdue now q es u.1)

-- Where each peer has one deadline, take_overdue returns exactly the peers whose thirty seconds
-- have passed, each once, and ends their deadlines and no other.
pub take_overdue_lem :
    (d : AdmissionDeadlines) (now : ℕ)
    → IsMap d.connected_at
    → let (after, due) = take_overdue d now in
      ((p : ℕ) → among p due ≡ is_due now (lookup p d.connected_at))
      × OnceEach due
      × ((p : ℕ)
          → lookup p after.connected_at ≡ (if among p due then none else lookup p d.connected_at))
unfolding take_overdue
take_overdue_lem d now u = (
  λ p. among-overdue now p d.connected_at u,
  overdue-OnceEach now d.connected_at u,
  λ p. rw (among-overdue now p d.connected_at u) (lookup-waiting now p d.connected_at u),
)

pub data Call : Type 0 where
  connects admits leaves : ℕ → Call
  takes : Call

pub step : AdmissionDeadlines → ℕ × Call → AdmissionDeadlines
step d (now, connects peer) = connected d peer now
step d (now, admits peer) = admitted d peer
step d (now, leaves peer) = left d peer
step d (now, takes) = (take_overdue d now).0

pub run : AdmissionDeadlines → List (ℕ × Call) → AdmissionDeadlines
run d [] = d
run d (c ∷ cs) = run (step d c) cs

-- The peers that a sequence of calls reports overdue, in order.
pub reported : AdmissionDeadlines → List (ℕ × Call) → List ℕ
reported d [] = []
reported d ((now, takes) ∷ cs) = (take_overdue d now).1 ++ reported (step d (now, takes)) cs
reported d (c ∷ cs) = reported (step d c) cs

-- Whether a sequence of calls connects the peer.
abbrev pub connects_peer : ℕ → List (ℕ × Call) → Bool
connects_peer p [] = false
connects_peer p ((now, connects q) ∷ cs) = if q == p then true else connects_peer p cs
connects_peer p (c ∷ cs) = connects_peer p cs

among-append :
    (p : ℕ) (xs ys : List ℕ) → among p xs ≡ false → among p ys ≡ false → among p (xs ++ ys) ≡ false
among-append p [] ys h k = k
among-append p (x ∷ xs) ys h k = ground (arith, among-append p xs ys)

waiting-IsMap : (now : ℕ) (es : List (ℕ × ℕ)) → IsMap es → IsMap (waiting now es)
unfolding waiting
waiting-IsMap now [] u = tt
waiting-IsMap now ((q, at) ∷ es) u =
    ground (arith, waiting-IsMap now es u.1, lookup-waiting now q es u.1)

step-IsMap :
    (d : AdmissionDeadlines) (c : ℕ × Call) → IsMap d.connected_at → IsMap (step d c).connected_at
unfolding step connected admitted left take_overdue assign
step-IsMap d (now, connects p) u =
    ground (arith, lookup-erase p p d.connected_at, erase-IsMap p d.connected_at u)
step-IsMap d (now, admits p) u = erase-IsMap p d.connected_at u
step-IsMap d (now, leaves p) u = erase-IsMap p d.connected_at u
step-IsMap d (now, takes) u = waiting-IsMap now d.connected_at u

-- A peer without a deadline gets none unless it connects.
step-absent :
    (d : AdmissionDeadlines) (c : ℕ × Call) (cs : List (ℕ × Call)) (p : ℕ)
    → IsMap d.connected_at
    → connects_peer p (c ∷ cs) ≡ false
    → lookup p d.connected_at ≡ none
    → (lookup p (step d c).connected_at ≡ none) × (connects_peer p cs ≡ false)
unfolding step connected admitted left take_overdue
step-absent d (now, connects q) cs p u n h = ground (arith, lookup-assign q p now d.connected_at)
step-absent d (now, admits q) cs p u n h = ground (arith, lookup-erase q p d.connected_at)
step-absent d (now, leaves q) cs p u n h = ground (arith, lookup-erase q p d.connected_at)
step-absent d (now, takes) cs p u n h = ground (arith, lookup-waiting now p d.connected_at u)

reported-absent :
    (d : AdmissionDeadlines) (cs : List (ℕ × Call)) (p : ℕ)
    → IsMap d.connected_at
    → connects_peer p cs ≡ false
    → lookup p d.connected_at ≡ none
    → among p (reported d cs) ≡ false
unfolding reported
reported-absent d [] p u n h = refl
reported-absent d ((now, takes) ∷ cs) p u n h =
    let s = step-absent d (now, takes) cs p u n h in
    among-append p (take_overdue d now).1 (reported (step d (now, takes)) cs)
      (rw h at ((take_overdue_lem d now u).0 p))
      (reported-absent (step d (now, takes)) cs p (step-IsMap d (now, takes) u) s.1 s.0)
reported-absent d (c ∷ cs) p u n h =
    let s = step-absent d c cs p u n h in reported-absent (step d c) cs p (step-IsMap d c u) s.1 s.0

-- Where each peer has one deadline, a peer that was admitted is never reported overdue by any later
-- history of calls in which it does not connect again.
pub admitted_never_reported :
    (d : AdmissionDeadlines) (cs : List (ℕ × Call)) (p : ℕ)
    → IsMap d.connected_at
    → connects_peer p cs ≡ false
    → among p (reported (admitted d p) cs) ≡ false
unfolding admitted
admitted_never_reported d cs p u n =
    reported-absent (admitted d p) cs p (erase-IsMap p d.connected_at u) n
      (ground (arith, lookup-erase p p d.connected_at))
