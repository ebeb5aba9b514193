-- ===== src/Host/Match/Entries.antt =====
-- The entry of each peer, across Join, Leave and Ready.
use augusta.Common.{ℕ, ◌+◌, ◌%◌, erase, erase-IsMap, modify-IsMap, IsMap, arith}
use augusta.Host.Match.{Match, JoinRequest, u32_mod, join, leave, ready}
use augusta.Host.Match.Sessions.{carry_ready-IsMap}

pub leave-IsMap : (m : Match) (p : ℕ) → IsMap m.members → IsMap (leave m p).0.members
unfolding leave
leave-IsMap m p one =
    let rest = erase-IsMap p m.members one in
    ground (
      arith,
      rest,
      carry_ready-IsMap m.roster_version ((m.roster_version + 1) % u32_mod) (erase p m.members)
          rest,
    )

pub ready-IsMap :
    (m : Match) (p version : ℕ) → IsMap m.members → IsMap (ready m p version).0.members
unfolding ready
ready-IsMap m p version one =
    ground (arith, modify-IsMap p (λ e. record e { ready_version = version }) m.members one)

pub join-IsMap :
    (ids : ℕ → ℕ) (m : Match) (p : ℕ) (r : JoinRequest)
    → IsMap m.members
    → IsMap (join ids m p r).0.members
unfolding join
join-IsMap ids m p r one = ground arith
