-- ===== src/Host/Ticks/Examples.antt =====
-- A server whose one player is Ready, and the theorem about serving at it.
use augusta.Common.{true, false, some, List, [], ◌∷◌, value, Vec3}
use augusta.Host.Pump.Examples.{server, calm, said}
use augusta.Host.Ticks.{Server, Entrant}
use augusta.Host.Ticks.Serving.{Happening, rounds, prepares, ticked, ends}

-- Every player spawns where it is asked to, which is nowhere.
abbrev nowhere : List Entrant → List Vec3
nowhere entrants = []

abbrev ready_server : Server
ready_server = record {
  host = record server { lobby = record server.lobby { player_count = 1 } };
  characters = "Scout" ∷ [];
  capturing = true;
  bodies = [];
  simulating_match = false;
  tick = 4;
  match_start_tick = 0;
  match_id = 0;
  calls = [];
}

-- A Match starts, ticks, hears of the network, and ends; then the next tick is prepared.
abbrev day : List Happening
day = prepares ∷ ticked 5 ∷ rounds calm 7 [] (value said) ∷ prepares ∷ ends (some 0) ∷ ticked 6 ∷ []
