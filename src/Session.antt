-- ===== src/Session.antt =====
-- App/src/sgx_teep_session.cpp: `run_teep_session`, the exchange of messages between the TAM and
-- the enclave. A round of the loop has what the TAM and the enclave answer in it.
pub mod Ends
pub mod Install
pub mod Lines
mod Tests
use taws.Base.{
  ℕ, Bool, true, false, not, ◌||◌, Option, none, some, List, [], ◌∷◌, if◌then◌else◌, Bytes,
  is_empty, length,
}
use taws.Agent.{
  EcallResult, ok, response_is_teep_error, fatal, device_activation_flow, query_response_sent,
  success_sent,
}
use taws.HttpClient.{HttpResult, http_ok, curl_failed, bad_status, unexpected_error}

-- `teep_send_log_type_t`
pub data SendLogType : Type 0 where
  log_initial_request log_query_response log_query_response_with_attestation : SendLogType
  log_success log_error : SendLogType

-- `send_log_type_from_ecall_result`
pub send_log_type_from_ecall_result : EcallResult → SendLogType
send_log_type_from_ecall_result response_is_teep_error = log_error
send_log_type_from_ecall_result device_activation_flow = log_query_response_with_attestation
send_log_type_from_ecall_result query_response_sent = log_query_response
send_log_type_from_ecall_result success_sent = log_success
send_log_type_from_ecall_result ok = log_success
send_log_type_from_ecall_result fatal = log_success

-- `teep_session_result_t`
pub data SessionResult : Type 0 where
  session_ok session_ok_device_activated session_teep_error_response : SessionResult
  session_http_error session_fatal : SessionResult

-- The variables of the loop; `log` are the calls of `log_teep_send`, the last one first.
pub record Session : Type 0 where
  pub cose_send_buf : Bytes
  pub has_teep_error_response : Bool
  pub in_device_activation_flow : Bool
  pub send_log_type : SendLogType
  pub log : List (SendLogType × ℕ)

abbrev pub new_session : Session
new_session = record {
  cose_send_buf = [];
  has_teep_error_response = false;
  in_device_activation_flow = false;
  send_log_type = log_initial_request;
  log = [];
}

-- A POST gives a result and what is received; the ecall, `none` where SGX fails, gives its result
-- and what is in the send buffer.
pub record Round : Type 0 where
  pub post : Bytes → HttpResult × Bytes
  pub ecall : Bytes → Option (EcallResult × Bytes)

-- A round returns, leaves the loop, or goes on.
pub data RoundEnd : Type 0 where
  returns : SessionResult → Session → RoundEnd
  breaks : Session → RoundEnd
  next_round : Session → RoundEnd

unfoldable pub is_error : EcallResult → Bool
is_error response_is_teep_error = true
is_error ok = false
is_error fatal = false
is_error device_activation_flow = false
is_error query_response_sent = false
is_error success_sent = false

unfoldable pub is_activation : EcallResult → Bool
is_activation device_activation_flow = true
is_activation ok = false
is_activation fatal = false
is_activation response_is_teep_error = false
is_activation query_response_sent = false
is_activation success_sent = false

-- The two flags, the buffer and the type of the next log line.
abbrev answered : EcallResult → Bytes → Session → Session
answered result sent s = record s {
  cose_send_buf = sent;
  has_teep_error_response = is_error result || s.has_teep_error_response;
  in_device_activation_flow = is_activation result || s.in_device_activation_flow;
  send_log_type = send_log_type_from_ecall_result result;
}

after_ecall : Session → Option (EcallResult × Bytes) → RoundEnd
after_ecall s none = returns session_fatal s
after_ecall s (some (fatal, sent)) = returns session_fatal s
after_ecall s (some (ok, sent)) = next_round (answered ok sent s)
after_ecall s (some (response_is_teep_error, sent)) =
    next_round (answered response_is_teep_error sent s)
after_ecall s (some (device_activation_flow, sent)) =
    next_round (answered device_activation_flow sent s)
after_ecall s (some (query_response_sent, sent)) = next_round (answered query_response_sent sent s)
after_ecall s (some (success_sent, sent)) = next_round (answered success_sent sent s)

after_post : Round → Session → HttpResult × Bytes → RoundEnd
after_post r s (http_ok, received) =
    if is_empty received then breaks s else after_ecall s (r.ecall received)
after_post r s (curl_failed, received) = returns session_http_error s
after_post r s (bad_status, received) = returns session_http_error s
after_post r s (unexpected_error, received) = returns session_http_error s

-- The body of the loop.
unfoldable pub session_round : Round → Session → RoundEnd
unfolding after_post after_ecall
session_round r s =
    let logged = record s { log = (s.send_log_type, length s.cose_send_buf) ∷ s.log } in
    after_post r logged (r.post s.cose_send_buf)

-- The end, once the loop is left.
unfoldable pub session_result : Session → SessionResult
session_result s =
    if s.has_teep_error_response
    then session_teep_error_response
    else if s.in_device_activation_flow
    then session_ok_device_activated
    else session_ok

-- The loop goes on for as long as the TAM does: `none` if it still runs after these rounds.
unfoldable pub after_round :
    (Session → Option SessionResult × Session) → RoundEnd → Option SessionResult × Session
after_round rest (returns result s) = (some result, s)
after_round rest (breaks s) = (some (session_result s), s)
after_round rest (next_round s) = rest s

unfoldable pub run_rounds : List Round → Session → Option SessionResult × Session
run_rounds [] s = (none, s)
run_rounds (r ∷ rounds) s = after_round (run_rounds rounds) (session_round r s)

-- `run_teep_session`
unfoldable pub run_teep_session : List Round → Option SessionResult × Session
run_teep_session rounds = run_rounds rounds new_session
