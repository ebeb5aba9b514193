-- ===== src/Lib.antt =====
-- Verification of the core of Augusta, a multiplayer game's engine and its servers: the rules that
-- the server holds its peers to, and the Match capture that it writes and tools read back.
--
-- The Host (src/modules/host) owns a Match, a CommandQueue per player, a PeerGate and, per Match, a
-- capture. A peer's Join goes to the Match, its commands to its queue, every rejection to its
-- MisbehaviourTracker, and each tick takes one command from each queue and tries to start a Match.
-- The capture's writer asks a CaptureDirectory for room before each write.
--
-- - Common: helpers. Booleans on native numbers, lists, maps as association lists, sorting,
--   std::expected and the bit patterns of floats.
-- - Command: command::Command, physics::MovementInput and HeldTicks
--   (src/modules/gameplay/include/augusta/command.h, src/modules/physics/include/augusta/physics.h).
-- - Failure: src/modules/failure. Log is DispositionOf, Quoted, Value and DescribeFailure; Reading
--   reads a log line back, OneLine says that it is one line, Latch is FailureLatch.
-- - Host.Match: src/modules/host/match.cpp. Join, Leave, Ready, Tick, TryStart, End and the queries;
--   Sessions holds the invariant, Entries a part of it, History any sequence of calls, and Joining, Readiness, Starting,
--   Pause and Entities the rest.
-- - Host.Commands: src/modules/host/command_queue.cpp. Validate, TryEnqueue and Next; Order,
--   Handing and Ticks.
-- - Host.Misbehaviour: src/modules/host/misbehaviour.cpp. Record against a count over the history.
-- - Host.Admission: src/modules/host/admission.cpp. Connected, Admitted, Left and TakeOverdue.
-- - Host.Retention: src/modules/host/capture_retention.cpp. PlanRetention, Open, Reserve, MakeRoom.
-- - Host.Ticks: src/modules/host/host_match.cpp, how a Match starts, ends and is prepared to tick;
--   Lookups, Ending, Starting, Taking, Players and Preparing are about each, Serving about ticks and
--   rounds in any order.
-- - Host.Losses, Host.Writer: src/modules/host/capture_writer.cpp, the queue and the thread that write a
--   capture, with the losses of capturer.cpp; Losing is about any interleaving of the two threads.
-- - Host.PeerGate, Host.Network, Host.Pump: src/modules/host/peer_gate.cpp and host_network.cpp, what
--   the Host does with a message, a departure and a round of network work. An exception in SendRoster
--   is noted in the state, and makes the outcome of the message or the round `none`.
-- - Grid: src/modules/math/include/augusta/grid.h, a float on a grid. Weapon: Step of
--   src/modules/gameplay/weapon.cpp; Rounds is about its magazine.
-- - Physics: physics::World as an interface, a record of operations with its documented laws
--   (src/modules/physics/include/augusta/physics.h). Prediction: src/modules/prediction, History and
--   World's Start and Tick; Server and Agreement set it against a server's player, Following is any
--   history of ticks, History and Reconciled what one reconciliation does.
-- - Capture: src/modules/capture/capture.cpp. RecordOrder (Order), ReadFrame (Streams), ReadCapture
--   (Reading, Totality, Failing, Cutting) and WriteCapture (Writing, Written, RoundTrip).
-- - Link: src/modules/link/link_messages.cpp, a player's commands to and from the protocol's types
--   (Commands); Link.CaptureRecords: src/modules/link/capture_records.cpp, a capture's records, with
--   which RoundTrip fills the interface that Capture writes and reads through.
--
-- A method that changes an object is a function to the new object. Numbers are natural numbers; a
-- uint32_t counter that the code lets wrap is reduced modulo 2^32, a std::uintmax_t modulo 2^64, and
-- a theorem that needs no wrap says so. Times are nanoseconds, floats are bit patterns, IDs the
-- numbers that their bytes spell. MakeRoom's fuel is one more than the captures left,
-- enough where the total with the bytes to come fits 64 bits; ReadCaptureFile's is one more than the
-- bytes left, enough for every input.
--
-- Parameters, for code of other libraries: boost's UUIDv7 generator is a function from a count to an
-- ID, which rises; glm's vector length is a function; the machine's arithmetic on floats is the
-- record FloatOps and PhysX, behind physics::World, the record Physics with its Laws; whether the file system removes a file, and
-- what a scan of a directory finds, are arguments. The protocol's encoding of one capture record is the
-- record Protocol, of which a round trip assumes that the records at hand decode to themselves; Capture
-- sees it, with the Link's mappings, as the record Codec.
--
-- Not modelled: a tick's messages, the Capturer's encoding, replay servers, the Link's other
-- messages, the protocol's encoding, assets, scenarios, configuration and the supervisor. Left out: simulation in floating
-- point, rendering, audio, input, windows, logging, crash reports and metrics.
pub mod Capture
pub mod Command
pub mod Common
pub mod Failure
pub mod Grid
pub mod Host
pub mod Link
pub mod Physics
pub mod Prediction
pub mod Weapon
