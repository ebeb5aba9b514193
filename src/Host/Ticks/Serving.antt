-- ===== src/Host/Ticks/Serving.antt =====
-- The Simulation thread's ticks and the Network I/O thread's rounds, each under the server's lock, in
-- whatever order they come.
use augusta.Common.{ℕ, Option, none, some, List, [], ◌∷◌, Vec3, Expected}
use augusta.Failure.{Failure}
use augusta.Failure.Latch.{FailureLatch}
use augusta.Host.Network.{Impl, PeerMessage}
use augusta.Host.Pump.{PeerEvent, pump_network}
use augusta.Host.Ticks.{Server, Entrant, TickInput, prepare_tick, end_match_in}

-- A round of network work; the part of a tick under the lock; the tick that the simulation then ran,
-- as it numbers it; and the end of a Match, by Game policy or by the Host's owner.
pub data Happening : Type 0 where
  rounds : FailureLatch → ℕ → List PeerEvent → Expected (List PeerMessage) Failure → Happening
  prepares : Happening
  ticked : ℕ → Happening
  ends : Option ℕ → Happening

module _ (ids : ℕ → ℕ) (vec_length : Vec3 → ℕ) (spawns_of : List Entrant → List Vec3) where
  abbrev pub with_host : Server → Option (Impl × FailureLatch) → Option Server
  with_host s none = none
  with_host s (some r) = some (record s { host = r.0 })

  abbrev pub prepared : Option (Server × TickInput) → Option Server
  prepared none = none
  prepared (some r) = some r.0

  unfoldable pub happens : Server → Happening → Option Server
  unfolding prepare_tick end_match_in
  happens s (rounds latch now events received) =
      with_host s (pump_network ids vec_length s.host latch now events received)
  happens s prepares = prepared (prepare_tick spawns_of ids s)
  happens s (ticked number) = some (record s { tick = number })
  happens s (ends winner) = end_match_in s winner

  unfoldable pub serve : Server → List Happening → Option Server
  unfolding happens
  serve s [] = some s
  serve s (x ∷ xs) = elim (happens s x) [ none ↦ none | some next ↦ serve next xs ]
