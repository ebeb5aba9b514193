-- ===== src/Host/Pump/Rounds.antt =====
-- Members, their players and what is thrown, through a round of network work.
use augusta.Failure.{Failure}
