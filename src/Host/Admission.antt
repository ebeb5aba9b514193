-- ===== src/Host/Admission.antt =====
-- src/modules/host/admission.cpp and its header: when each peer not yet admitted to the Lobby is due.
-- Times are nanoseconds of the steady clock. The order in which an unordered_map is walked is
-- unspecified; here it is the list's.
pub mod Deadlines
mod Examples
use augusta.Common.{ℕ, ◌-◌, ◌≡◌, List, [], ◌∷◌, ltb, if◌then◌else◌, erase, assign}

-- kAdmissionDeadline, 30 seconds.
abbrev pub admission_deadline : ℕ
admission_deadline = 30_000_000_000

pub record AdmissionDeadlines : Type 0 where
  pub connected_at : List (ℕ × ℕ)

abbrev pub no_deadlines : AdmissionDeadlines
no_deadlines = record { connected_at = [] }

unfoldable pub connected : AdmissionDeadlines → ℕ → ℕ → AdmissionDeadlines
connected d peer now = record { connected_at = assign peer now d.connected_at }

unfoldable pub admitted : AdmissionDeadlines → ℕ → AdmissionDeadlines
admitted d peer = record { connected_at = erase peer d.connected_at }

unfoldable pub left : AdmissionDeadlines → ℕ → AdmissionDeadlines
left d peer = record { connected_at = erase peer d.connected_at }

-- What std::erase_if keeps, and what its predicate pushes into `overdue`.
pub waiting : ℕ → List (ℕ × ℕ) → List (ℕ × ℕ)
waiting now [] = []
waiting now ((peer, at) ∷ es) =
    let rest = waiting now es in
    if ltb (now - at) admission_deadline then (peer, at) ∷ rest else rest

pub overdue : ℕ → List (ℕ × ℕ) → List ℕ
overdue now [] = []
overdue now ((peer, at) ∷ es) =
    let rest = overdue now es in if ltb (now - at) admission_deadline then rest else peer ∷ rest

unfoldable pub take_overdue : AdmissionDeadlines → ℕ → AdmissionDeadlines × List ℕ
unfolding waiting overdue
take_overdue d now =
    (record { connected_at = waiting now d.connected_at }, overdue now d.connected_at)
