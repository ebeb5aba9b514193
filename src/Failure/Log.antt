-- ===== src/Failure/Log.antt =====
-- DispositionOf and DescribeFailure (failure.cpp): the logfmt line of a failure.
use Prim.Native.Char.{code as code_point}
use augusta.Common.{
  ℕ, Bool, not, ◌&&◌, ◌||◌, List, [], ◌∷◌, ◌++◌, String, ◌==◌, if◌then◌else◌, is_empty, all_of,
}
use augusta.Failure.{
  Disposition, peer, session, subsystem, runtime, process, Code, invalid_peer_input,
  peer_misbehaving, peer_connection_lost, join_refused, server_unreachable, metrics_endpoint_failed,
  capture_write_failed, capture_flush_failed, capture_queue_full, capture_record_too_long,
  capture_retention_budget, transport_init_failed, listener_setup_failed, transport_send_failed,
  transport_receive_failed, worker_creation_failed, worker_failed, invariant_violated,
  strict_capture_failed, invalid_configuration, invalid_content, dependency_init_failed,
  ContextField, Failure,
}

-- The bytes of an ASCII literal.
abbrev pub ascii : String → List ℕ
ascii String.[] = []
ascii (String.◌∷◌ letter letters) = code_point letter ∷ ascii letters

abbrev pub code_name : Code → List ℕ
code_name invalid_peer_input = ascii "invalid_peer_input"
code_name peer_misbehaving = ascii "peer_misbehaving"
code_name peer_connection_lost = ascii "peer_connection_lost"
code_name join_refused = ascii "join_refused"
code_name server_unreachable = ascii "server_unreachable"
code_name metrics_endpoint_failed = ascii "metrics_endpoint_failed"
code_name capture_write_failed = ascii "capture_write_failed"
code_name capture_flush_failed = ascii "capture_flush_failed"
code_name capture_queue_full = ascii "capture_queue_full"
code_name capture_record_too_long = ascii "capture_record_too_long"
code_name capture_retention_budget = ascii "capture_retention_budget"
code_name transport_init_failed = ascii "transport_init_failed"
code_name listener_setup_failed = ascii "listener_setup_failed"
code_name transport_send_failed = ascii "transport_send_failed"
code_name transport_receive_failed = ascii "transport_receive_failed"
code_name worker_creation_failed = ascii "worker_creation_failed"
code_name worker_failed = ascii "worker_failed"
code_name invariant_violated = ascii "invariant_violated"
code_name strict_capture_failed = ascii "strict_capture_failed"
code_name invalid_configuration = ascii "invalid_configuration"
code_name invalid_content = ascii "invalid_content"
code_name dependency_init_failed = ascii "dependency_init_failed"

abbrev pub disposition_name : Disposition → List ℕ
disposition_name peer = ascii "peer"
disposition_name session = ascii "session"
disposition_name subsystem = ascii "subsystem"
disposition_name runtime = ascii "runtime"
disposition_name process = ascii "process"

-- The body of Quoted's loop.
abbrev pub escape : ℕ → List ℕ
escape c =
    if c == 34
    then 92 ∷ 34 ∷ []
    else if c == 92
    then 92 ∷ 92 ∷ []
    else if c == 10
    then 92 ∷ 110 ∷ []
    else if c == 13
    then 92 ∷ 114 ∷ []
    else c ∷ []

abbrev pub escaped : List ℕ → List ℕ
escaped [] = []
escaped (c ∷ cs) = escape c ++ escaped cs

unfoldable pub quoted : List ℕ → List ℕ
quoted text = 34 ∷ escaped text ++ 34 ∷ []

-- Not one of Value's ` "=\`, carriage return and line feed.
abbrev pub is_plain : ℕ → Bool
is_plain c = not (c == 32 || c == 34 || c == 61 || c == 92 || c == 13 || c == 10)

unfoldable pub value_text : List ℕ → List ℕ
unfolding quoted
value_text value = if not (is_empty value) && all_of is_plain value then value else quoted value

unfoldable pub disposition_of : Code → Disposition
disposition_of invalid_peer_input = peer
disposition_of peer_misbehaving = session
disposition_of peer_connection_lost = session
disposition_of join_refused = session
disposition_of server_unreachable = session
disposition_of metrics_endpoint_failed = subsystem
disposition_of capture_write_failed = subsystem
disposition_of capture_flush_failed = subsystem
disposition_of capture_queue_full = subsystem
disposition_of capture_record_too_long = subsystem
disposition_of capture_retention_budget = subsystem
disposition_of invalid_configuration = process
disposition_of invalid_content = process
disposition_of dependency_init_failed = process
disposition_of _ = runtime

-- The loop over the context, and what follows it.
abbrev pub detail_text : List ℕ → List ℕ
detail_text detail = if not (is_empty detail) then ascii " detail=" ++ quoted detail else []

abbrev pub context_text : List ContextField → List ℕ → List ℕ
context_text [] end = end
context_text (f ∷ fs) end = 32 ∷ (f.key ++ 61 ∷ (value_text f.value ++ context_text fs end))

unfoldable pub describe_failure : Failure → List ℕ
unfolding disposition_of value_text
describe_failure f =
    ascii "code="
    ++ (code_name f.code
        ++ (ascii " disposition="
            ++ (disposition_name (disposition_of f.code)
                ++ context_text f.context (detail_text f.detail))))
