-- ===== src/Host.antt =====
-- The server runtime, src/modules/host.
pub mod Match
pub mod Commands
pub mod Misbehaviour
pub mod Admission
pub mod Retention
pub mod PeerGate
pub mod Network
pub mod Pump
pub mod Ticks
pub mod Losses
pub mod Writer
