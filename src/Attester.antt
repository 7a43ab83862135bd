-- ===== src/Attester.antt =====
-- App/src/attester_api.cpp, and `initialize_enclave` of App/src/sgx_teep_session.cpp: what the host
-- keeps of the enclave. The state counts the enclaves that are alive.
pub mod Lifetime
mod Tests
use taws.Base.{
  ℕ, zero, suc, ◌+◌, ◌-◌, ℤ, Bool, true, false, not, ◌||◌, Option, none, some, List, [], ◌∷◌, ltb,
  ◌==◌, if◌then◌else◌, Bytes, bytes_eq, is_empty, Buf,
}
use taws.Session.{Round, SessionResult, session_fatal, run_teep_session}

-- The globals; the level is the one that a new enclave is given.
pub record Attester : Type 0 where
  pub initialized : Bool
  pub key_ready : Bool
  pub stdio_configured : Bool
  pub pending_log_level : ℤ
  pub live_enclaves : ℕ

-- TAWS_LOG_LEVEL_INFO
abbrev pub log_level_info : ℤ
log_level_info = ℤ.pos 1

abbrev pub initial_attester : Attester
initial_attester = record {
  initialized = false;
  key_ready = false;
  stdio_configured = false;
  pending_log_level = log_level_info;
  live_enclaves = 0;
}

-- SGX's answers: whether an enclave is created and takes a log level, and the result of each ecall,
-- or `none` where SGX fails. The last are the rounds of a session.
pub record SgxCalls : Type 0 where
  pub create_enclave : Bool
  pub set_log_level : Bool
  pub generate_key_pair : Option ℤ
  pub set_key : Option ℤ
  pub invoke_wasm : Option ℤ
  pub rounds : List Round

abbrev minus_one : ℤ
minus_one = ℤ.negsuc 0

-- The end of the key's set-up.
abbrev key_result : Attester → Option ℤ → ℤ × Attester
key_result a none = (minus_one, a)
key_result a (some (ℤ.negsuc n)) = (ℤ.negsuc n, a)
key_result a (some (ℤ.pos zero)) = (ℤ.pos 0, record a { key_ready = true })
key_result a (some (ℤ.pos (suc n))) = (ℤ.pos (suc n), a)

-- `none` and an empty mode mean "yes".
abbrev mode_or_default : Buf → Bytes
mode_or_default none = b'y' ∷ b'e' ∷ b's' ∷ []
mode_or_default (some mode) = if is_empty mode then b'y' ∷ b'e' ∷ b's' ∷ [] else mode

unfoldable pub set_up_key : SgxCalls → Bytes → Attester → ℤ × Attester
set_up_key e mode a =
    if a.key_ready
    then (ℤ.pos 0, a)
    else if bytes_eq mode (b'y' ∷ b'e' ∷ b's' ∷ [])
    then key_result a e.generate_key_pair
    else if bytes_eq mode (b'n' ∷ b'o' ∷ [])
    then key_result a e.set_key
    else (minus_one, a)

-- `sgx_initialized`
unfoldable pub sgx_initialized : SgxCalls → Buf → Attester → ℤ × Attester
sgx_initialized e mode a =
    let a' = record a { stdio_configured = true } in
    if a'.initialized
    then (ℤ.pos 0, a')
    else if not e.create_enclave
    then (minus_one, a')
    else set_up_key e (mode_or_default mode)
        (record a' { initialized = true; live_enclaves = a'.live_enclaves + 1 })

-- `attester_init`
abbrev pub attester_init : SgxCalls → Buf → Attester → ℤ × Attester
attester_init e mode a = sgx_initialized e mode a

abbrev level_valid : ℤ → Bool
level_valid (ℤ.negsuc n) = false
level_valid (ℤ.pos n) = not (ltb 2 n)

-- `attester_set_log_level`
unfoldable pub attester_set_log_level : SgxCalls → ℤ → Attester → ℤ × Attester
attester_set_log_level e level a =
    if not (level_valid level)
    then (minus_one, a)
    else if a.initialized
    then (if e.set_log_level then ℤ.pos 0 else minus_one, record a { pending_log_level = level })
    else (ℤ.pos 0, record a { pending_log_level = level })

-- `tam_url` and `app_name` are `none` where the pointer is NULL.
abbrev is_null : Buf → Bool
is_null none = true
is_null (some b) = false

session_started : SgxCalls → Buf → Buf → ℤ × Attester → Option SessionResult × Attester
session_started e tam_url app_name (ℤ.pos zero, a) =
    if is_null tam_url || is_null app_name
    then (some session_fatal, a)
    else ((run_teep_session e.rounds).0, a)
session_started e tam_url app_name (ℤ.pos (suc n), a) = (some session_fatal, a)
session_started e tam_url app_name (ℤ.negsuc n, a) = (some session_fatal, a)

-- `attester_install`; no result while the session runs.
unfoldable pub attester_install : SgxCalls → Buf → Buf → Attester → Option SessionResult × Attester
unfolding session_started
attester_install e tam_url app_name a =
    session_started e tam_url app_name (sgx_initialized e none a)

abbrev missing : Buf → Bool
missing none = true
missing (some b) = is_empty b

abbrev sgx_result : Option ℤ → ℤ
sgx_result none = minus_one
sgx_result (some r) = r

wasm_invoked : SgxCalls → Buf → Buf → Bool → Bool → ℤ × Attester → ℤ × Attester
wasm_invoked e wapp_name func_name output_ptr len_ptr (ℤ.pos zero, a) =
    if missing wapp_name || missing func_name || not output_ptr || not len_ptr
    then (minus_one, a)
    else (sgx_result e.invoke_wasm, a)
wasm_invoked e wapp_name func_name output_ptr len_ptr (ℤ.pos (suc n), a) = (ℤ.pos (suc n), a)
wasm_invoked e wapp_name func_name output_ptr len_ptr (ℤ.negsuc n, a) = (ℤ.negsuc n, a)

-- `attester_invoke_wasm`
unfoldable pub attester_invoke_wasm : SgxCalls → Buf → Buf → Bool → Bool → Attester → ℤ × Attester
unfolding wasm_invoked
attester_invoke_wasm e wapp_name func_name output_ptr len_ptr a =
    wasm_invoked e wapp_name func_name output_ptr len_ptr (sgx_initialized e none a)

-- `attester_close`
unfoldable pub attester_close : Attester → Attester
attester_close a =
    if a.initialized
    then record a { initialized = false; key_ready = false; live_enclaves = a.live_enclaves - 1 }
    else a
