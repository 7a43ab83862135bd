-- ===== src/Agent.antt =====
-- Enclave/src/Enclave_process_message.cpp: `ecall_process_message` and the state of the TEEP Agent.
pub mod Transitions
pub mod Progress
mod Tests
use taws.Base.{ℕ, Bool, true, false, not, Option, none, some, if◌then◌else◌, length, Bytes, Buf}
use taws.TcManager.{Csuit}
use taws.SuitProcessor.{SuitState}
use taws.Teep.{
  Libteep, QueryRequest, Update, QueryResponse, Message, query_response, success_message,
  error_message, other_message, PayloadFormat,
}
use taws.Cbor.{Qcbor}
use taws.Query.{QueryCalls, process_query_request, free_tc_list_buffers}
use taws.Update.{UpdateCalls, process_update}

-- `teep_agent_status_t`
pub data AgentStatus : Type 0 where
  waiting_query_request waiting_update_or_query_request : AgentStatus

-- The globals: `g_agent_status`, whether `g_key_state` is TEEP_KEY_READY, the table and the report,
-- and the number of live tc-info buffers.
pub record Agent : Type 0 where
  pub status : AgentStatus
  pub key_ready : Bool
  pub suit : SuitState
  pub heap : ℕ

-- `ecall_process_teep_result_t`
pub data EcallResult : Type 0 where
  ok response_is_teep_error fatal device_activation_flow : EcallResult
  query_response_sent success_sent : EcallResult

-- A decoded message, by its type.
pub data RecvMessage : Type 0 where
  received_query_request : QueryRequest → RecvMessage
  received_update : Update → RecvMessage
  received_other : RecvMessage

-- libteep's and t_cose's part of a call. `send_message` is the local variable as it is declared,
-- without a value; `sign` is given the capacity of the caller's buffer.
pub record AgentCalls : Type 0 where
  pub libteep : Libteep
  pub csuit : Csuit
  pub qcbor : Qcbor
  pub query_calls : QueryCalls
  pub update_calls : UpdateCalls
  pub verify_cose_sign1 : Bytes → Option Bytes
  pub verify_cose_sign : Bytes → Option Bytes
  pub set_message_from_bytes : Bytes → Option RecvMessage
  pub send_message : Message
  pub encode_message : Message → Option Bytes
  pub sign_cose_sign1 : Bytes → ℕ → Option Bytes

-- What the ecall returns and writes to `send_buf`, and the state that it leaves.
pub record EcallOutcome : Type 0 where
  pub result : EcallResult
  pub sent : Option Bytes
  pub agent : Agent

abbrev failed : Agent → EcallOutcome
failed a = record { result = fatal; sent = none; agent = a }

-- `teep_verify_cose_sign1`, and then `teep_verify_cose_sign`.
unfoldable pub verified : AgentCalls → Bytes → Option Bytes → Option Bytes
verified e recv (some payload) = some payload
verified e recv none = e.verify_cose_sign recv

unfoldable pub decoded : AgentCalls → Option Bytes → Option RecvMessage
decoded e none = none
decoded e (some payload) = e.set_message_from_bytes payload

-- The message to send, and the state behind the handler.
abbrev pub after_query : Agent → Message × ℕ → Message × Agent
after_query a (msg, heap) = (msg, record a { heap = heap })

abbrev pub after_update : Agent → Message × SuitState → Message × Agent
after_update a (msg, s) = (msg, record a { suit = s })

unfoldable pub update_in : AgentCalls → Update → Agent → AgentStatus → Message × Agent
update_in e up a waiting_query_request = (e.send_message, a)
update_in e up a waiting_update_or_query_request =
    after_update a (process_update e.libteep e.update_calls up a.suit)

-- The switch on the type of the message; `none` is its default.
unfoldable pub handle : AgentCalls → Buf → RecvMessage → Agent → Option (Message × Agent)
unfolding update_in
handle e app_name (received_query_request q) a = some (
    after_query a (
      process_query_request e.libteep e.csuit e.qcbor e.query_calls a.suit.table app_name q a.heap))
handle e app_name (received_update up) a = some (update_in e up a a.status)
handle e app_name received_other a = none

unfoldable pub next_status : AgentStatus → Message → AgentStatus
next_status waiting_query_request (query_response r) = waiting_update_or_query_request
next_status waiting_query_request (success_message m) = waiting_query_request
next_status waiting_query_request (error_message m) = waiting_query_request
next_status waiting_query_request (other_message n) = waiting_query_request
next_status waiting_update_or_query_request (query_response r) = waiting_update_or_query_request
next_status waiting_update_or_query_request (success_message m) = waiting_query_request
next_status waiting_update_or_query_request (error_message m) = waiting_update_or_query_request
next_status waiting_update_or_query_request (other_message n) = waiting_update_or_query_request

-- The release of the message's buffers, which three paths make.
unfoldable pub release : Message → Agent → Agent
unfolding free_tc_list_buffers
release (query_response r) a = record a { heap = (free_tc_list_buffers a.heap r).0 }
release (success_message m) a = a
release (error_message m) a = a
release (other_message n) a = a

unfoldable pub response_result : Option (Bytes × PayloadFormat) → EcallResult
response_result none = query_response_sent
response_result (some p) = device_activation_flow

unfoldable pub result_code : Message → EcallResult
unfolding response_result
result_code (query_response r) = response_result r.attestation_payload
result_code (success_message m) = success_sent
result_code (error_message m) = response_is_teep_error
result_code (other_message n) = ok

unfoldable pub signed : Message → Agent → Option Bytes → EcallOutcome
signed msg a none = failed (release msg a)
signed msg a (some cose) = record {
  result = result_code msg;
  sent = some cose;
  agent = release msg a;
}

unfoldable pub encoded : AgentCalls → ℕ → Message → Agent → Option Bytes → EcallOutcome
encoded e allocated_len msg a none = failed (release msg a)
encoded e allocated_len msg a (some cbor) = signed msg a (e.sign_cose_sign1 cbor allocated_len)

-- From the change of the status on.
unfoldable pub send : AgentCalls → ℕ → Message → Agent → EcallOutcome
send e allocated_len msg a =
    encoded e allocated_len msg (record a { status = next_status a.status msg })
      (e.encode_message msg)

handled : AgentCalls → ℕ → Agent → Option (Message × Agent) → EcallOutcome
handled e allocated_len a none = failed a
handled e allocated_len a (some (msg, a')) = send e allocated_len msg a'

process_decoded : AgentCalls → ℕ → Buf → Agent → Option RecvMessage → EcallOutcome
process_decoded e allocated_len app_name a none = failed a
process_decoded e allocated_len app_name a (some m) =
    handled e allocated_len a (handle e app_name m a)

-- `ecall_process_message`; `*actual_len` is the length of what is sent.
unfoldable pub ecall_process_message : AgentCalls → Bytes → Buf → ℕ → Agent → EcallOutcome
unfolding process_decoded handled
ecall_process_message e recv app_name allocated_len a =
    if not a.key_ready
    then failed a
    else process_decoded e allocated_len app_name a
        (decoded e (verified e recv (e.verify_cose_sign1 recv)))
