-- ===== src/Host/Match/Readiness.antt =====
-- Who is Ready, across Join, Leave and End.
use augusta.Common.{
  ℕ, ◌+◌, ◌≤◌, ◌<◌, ◌≡◌, true, false, Option, none, some, lookup, erase, All-lookup, Option-cases,
  arith, ◌==◌, if◌then◌else◌, lookup-erase, inl, inr, value,
}
use augusta.Host.Match.{
  Match, Member, Admission, JoinRequest, u32_mod, join, leave, end_match, is_ready,
}
use augusta.Host.Match.Sessions.{Inv, lookup-carry_ready}

abbrev pub ready_version_of : Option Member → ℕ
ready_version_of none = 0
ready_version_of (some e) = e.ready_version

lookup_version_le :
    (ids : ℕ → ℕ) (m : Match) (p : ℕ)
    → Inv ids m
    → ready_version_of (lookup p m.members) ≤ m.roster_version
lookup_version_le ids m p v = elim (Option-cases (lookup p m.members)) [
  | inl e ↦ rw e (omega arith)
  | inr (x, e) ↦
      rw e
        (All-lookup (λ (w : Member). w.ready_version ≤ m.roster_version) p m.members v.versions e)
]

module _ (ids : ℕ → ℕ) (m : Match) (v : Inv ids m) (h : m.roster_version + 1 < u32_mod) where
  -- Under the invariant and with the next Roster version below 2^32, after a newcomer is admitted
  -- no peer is Ready, itself included.
  pub join-is_ready :
      (peer p : ℕ) (r : JoinRequest) (a : Admission)
      → lookup peer m.members ≡ none
      → (join ids m peer r).1 ≡ value a
      → is_ready (join ids m peer r).0 p ≡ false
  unfolding join is_ready lookup
  join-is_ready peer p r a new ok = ground (arith, lookup_version_le ids m p v)

  -- Under the invariant and with the next Roster version below 2^32, a departure from the Lobby
  -- changes no other peer's readiness, and the peer that left is not Ready.
  pub leave-is_ready :
      (peer p : ℕ)
      → m.in_match ≡ false
      → is_ready (leave m peer).0 p ≡ (if peer == p then false else is_ready m p)
  unfolding leave is_ready
  leave-is_ready peer p lobby = ground (
    arith,
    lookup_version_le ids m p v,
    lookup-erase peer p m.members,
    lookup-carry_ready m.roster_version (m.roster_version + 1) p (erase peer m.members),
  )

  -- Under the invariant and with the next Roster version below 2^32, after a Match in progress ends
  -- no peer is Ready.
  pub end_match-is_ready :
      (winner : Option ℕ) (p : ℕ) → m.in_match ≡ true → is_ready (end_match m winner).0 p ≡ false
  unfolding end_match is_ready
  end_match-is_ready winner p playing = ground (arith, lookup_version_le ids m p v)
