-- ===== src/Failure.antt =====
-- src/modules/failure: what an operational failure is, where it is recovered and how it is logged.
-- A std::string is the list of its bytes.
pub mod Log
pub mod Reading
pub mod OneLine
pub mod Latch
mod Examples
use augusta.Common.{ℕ, List}

pub data Disposition : Type 0 where
  peer session subsystem runtime process : Disposition

pub data Code : Type 0 where
  invalid_peer_input peer_misbehaving peer_connection_lost join_refused server_unreachable : Code
  metrics_endpoint_failed capture_write_failed capture_flush_failed capture_queue_full : Code
  capture_record_too_long capture_retention_budget transport_init_failed : Code
  listener_setup_failed transport_send_failed transport_receive_failed : Code
  worker_creation_failed worker_failed invariant_violated strict_capture_failed : Code
  invalid_configuration invalid_content dependency_init_failed : Code

pub record ContextField : Type 0 where
  pub key : List ℕ
  pub value : List ℕ

pub record Failure : Type 0 where
  pub code : Code
  pub context : List ContextField
  pub detail : List ℕ
