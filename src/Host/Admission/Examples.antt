-- ===== src/Host/Admission/Examples.antt =====
-- Two peers of which one is due, and each theorem about deadlines at them.
use augusta.Common.{ℕ, ◌≡◌, refl, false, none, List, [], ◌∷◌, if◌then◌else◌, lookup, IsMap}
use augusta.Host.Admission.{AdmissionDeadlines, admitted, take_overdue}
use augusta.Host.Admission.Deadlines.{
  is_due, among, OnceEach, Call, connects, leaves, takes, reported, take_overdue_lem,
  admitted_never_reported,
}

abbrev two_peers : AdmissionDeadlines
two_peers = record { connected_at = (1, 5) ∷ (2, 40_000_000_000) ∷ [] }

two_peers-IsMap : IsMap two_peers.connected_at
unfolding lookup
two_peers-IsMap = (refl, (refl, tt))

take_overdue_lem_example :
    let (after, due) = take_overdue two_peers 50_000_000_000 in
    ((p : ℕ) → among p due ≡ is_due 50_000_000_000 (lookup p two_peers.connected_at))
    × OnceEach due
    × ((p : ℕ)
        → lookup p after.connected_at
          ≡ (if among p due then none else lookup p two_peers.connected_at))
take_overdue_lem_example = take_overdue_lem two_peers 50_000_000_000 two_peers-IsMap

abbrev later_calls : List (ℕ × Call)
later_calls =
    (50_000_000_000, takes)
    ∷ (50_000_000_000, connects 3)
    ∷ (60_000_000_000, leaves 2)
    ∷ (90_000_000_000, takes)
    ∷ []

admitted_never_reported_example : among 1 (reported (admitted two_peers 1) later_calls) ≡ false
admitted_never_reported_example =
    admitted_never_reported two_peers later_calls 1 two_peers-IsMap refl
