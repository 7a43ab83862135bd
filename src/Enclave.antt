-- ===== src/Enclave.antt =====
-- Enclave/src: the globals of the whole enclave, and the ecalls over them. The TEEP Agent, the key
-- and the WebAssembly runtime meet here: the Agent makes evidence with the key that is set, and the
-- runtime takes its modules from the table that the Agent fills.
pub mod Provenance
mod Tests
use taws.Base.{ℕ, Bool, true, false, ◌&&◌, ◌||◌, Option, none, some, Bytes, Buf}
use taws.TcManager.{Csuit, initial_table}
use taws.SuitProcessor.{SuitState}
use taws.Evidence.{TeepKey}
use taws.KeyPair.{
  Pointer, null_pointer, static_array, heap_block, pointed, KeyState, key_uninitialized, key_ready,
  Keys, initial_keys,
}
use taws.KeyPair.History.{KeyCall, run}
use taws.Agent.{
  Agent, AgentStatus, waiting_query_request, waiting_update_or_query_request, AgentCalls,
  RecvMessage, received_query_request, received_update, received_other, EcallOutcome,
  ecall_process_message,
}
use taws.Wasm.{Wamr, initial_wamr, WamrCalls, WasmOutcome, ecall_invoke_wasm}

-- The state of the key is in `keys`; the Agent is told in each call whether it is ready.
pub record Enclave : Type 0 where
  pub agent : Agent
  pub keys : Keys
  pub wamr : Wamr

abbrev pub initial_agent : Agent
initial_agent = record {
  status = waiting_query_request;
  key_ready = false;
  suit = record { table = initial_table; suit_report = none };
  heap = 0;
}

abbrev pub initial_enclave : Enclave
initial_enclave = record { agent = initial_agent; keys = initial_keys; wamr = initial_wamr }

abbrev pub is_ready : KeyState → Bool
is_ready key_uninitialized = false
is_ready key_ready = true

abbrev buffer_at : Pointer → Buf
buffer_at null_pointer = none
buffer_at (static_array b) = some b
buffer_at (heap_block b) = some b

-- `&agent_sign.key`, as the evidence reads it.
abbrev pub teep_key : Keys → TeepKey
teep_key k = record { public_key = buffer_at k.agent.public_key; kid = pointed k.agent.kid }

-- The calls of `ecall_process_message`, in which the key is the one that is set.
abbrev pub with_key : Keys → AgentCalls → AgentCalls
with_key k e = record e { query_calls = record e.query_calls { agent_key = some (teep_key k) } }

-- The ecalls, with the answers of the libraries in them.
pub data Ecall : Type 0 where
  process_message : AgentCalls → Bytes → Buf → ℕ → Ecall
  invoke_wasm : Csuit → WamrCalls → Buf → Buf → Bytes → Bool → ℕ → Bool → Ecall
  key_call : KeyCall → Ecall

abbrev pub agent_of : Enclave → Agent
agent_of en = record en.agent { key_ready = is_ready en.keys.state }

abbrev pub processed : AgentCalls → Bytes → Buf → ℕ → Enclave → EcallOutcome
processed e recv app_name allocated_len en =
    ecall_process_message (with_key en.keys e) recv app_name allocated_len (agent_of en)

abbrev pub invoked : Csuit → WamrCalls → Buf → Buf → Bytes → Bool → ℕ → Bool → Enclave → WasmOutcome
invoked c e wapp_name func_name input output_ptr output_len len_ptr en =
    ecall_invoke_wasm c e en.agent.suit.table wapp_name func_name input output_ptr output_len
      len_ptr en.wamr

unfoldable pub step : Ecall → Enclave → Enclave
step (process_message e recv app_name allocated_len) en = record en {
  agent = (processed e recv app_name allocated_len en).agent;
}
step (invoke_wasm c e wapp_name func_name input output_ptr output_len len_ptr) en = record en {
  wamr = (invoked c e wapp_name func_name input output_ptr output_len len_ptr en).wamr;
}
step (key_call call) en = record en { keys = run call en.keys }

abbrev pub is_update : Option RecvMessage → Bool
is_update none = false
is_update (some (received_query_request q)) = false
is_update (some (received_update up)) = true
is_update (some received_other) = false

abbrev pub expects_update : AgentStatus → Bool
expects_update waiting_query_request = false
expects_update waiting_update_or_query_request = true

-- What one of t_cose's two checks accepts, and what libteep decodes it to.
abbrev pub accepted : Option Bytes → Option Bytes → Option Bytes
accepted (some payload) other_check = some payload
accepted none other_check = other_check

abbrev pub message_in : AgentCalls → Option Bytes → Option RecvMessage
message_in e none = none
message_in e (some payload) = e.set_message_from_bytes payload

abbrev pub authentic : AgentCalls → Bytes → Option RecvMessage
authentic e recv = message_in e (accepted (e.verify_cose_sign1 recv) (e.verify_cose_sign recv))

-- Does an ecall handle an Update: is it one whose signature is verified and which is decoded, with
-- the key ready and a QueryRequest answered before?
abbrev pub handles_update : Ecall → Enclave → Bool
handles_update (process_message e recv app_name allocated_len) en =
    is_ready en.keys.state && (is_update (authentic e recv) && expects_update en.agent.status)
handles_update (invoke_wasm c e wapp_name func_name input output_ptr output_len len_ptr) en = false
handles_update (key_call call) en = false
