-- ===== src/Evidence/Dcap.antt =====
-- Enclave/src/Enclave_generate_evidence.cpp: DCAP evidence, and App/src/dcap_quote_ocalls.cpp: the
-- ocalls that it makes. The two blocks of the envelope are freed on each way out of it.
use taws.Base.{
  ℕ, Bool, false, not, ◌||◌, Option, none, some, List, [], ◌∷◌, ◌++◌, ltb, ◌==◌, if◌then◌else◌,
  length, take, replicate, u32, Bytes, Result, ok, err, ◌>>=◌, guard, ok_or,
}
use taws.Cbor.{QcborOp, open_array, close_array, add_bytes}
use taws.Teep.{TeepErr, invalid_value, no_memory, unexpected_error, QueryRequest}
use taws.Evidence.{
  SgxStatus, sgx_success, error_unexpected, error_invalid_parameter, is_success, TeepKey,
  QuotingLibrary, EvidenceCalls, sgx_guard, is_uncompressed_p256_public_key, x_coordinate,
  y_coordinate, get_query_challenge, arguments_valid, Sha384,
}

-- The ocalls: `null` tells that a pointer which takes the result is NULL.
abbrev pub host_result {ℓ} : {A : Type ℓ} → Option A → Result SgxStatus A
host_result none = err error_unexpected
host_result (some a) = ok a

-- `ocall_get_qe_target_info`
unfoldable pub ocall_get_qe_target_info : QuotingLibrary → Bool → Result SgxStatus Bytes
ocall_get_qe_target_info host null =
    if null then err error_invalid_parameter else host_result host.qe_get_target_info

-- `ocall_get_quote_size`
unfoldable pub ocall_get_quote_size : QuotingLibrary → Bool → Result SgxStatus ℕ
ocall_get_quote_size host null =
    if null then err error_invalid_parameter else host_result host.qe_get_quote_size

-- `ocall_get_quote`
unfoldable pub ocall_get_quote : QuotingLibrary → Option Bytes → Bool → ℕ → Result SgxStatus Bytes
ocall_get_quote host none null quote_size = err error_invalid_parameter
ocall_get_quote host (some report) null quote_size =
    if null || (quote_size == 0)
    then err error_invalid_parameter
    else host_result (host.qe_get_quote report quote_size)

-- An ocall as the enclave sees it: the bridge's result, then the ocall's own.
abbrev pub bridged {ℓ} : {A : Type ℓ} → SgxStatus → Result SgxStatus A → Result TeepErr A
bridged status (ok a) = sgx_guard status (ok a)
bridged status (err s) = err unexpected_error

-- `create_raw_dcap_report_data`
unfoldable pub create_raw_dcap_report_data :
    EvidenceCalls → QueryRequest → Option TeepKey → Result TeepErr Bytes
create_raw_dcap_report_data e req key =
    guard (is_uncompressed_p256_public_key e key) invalid_value (
      get_query_challenge req.challenge >>= λ challenge.
      guard e.malloc_raw_report_data no_memory
        (ok (x_coordinate key ++ (y_coordinate key ++ challenge))))

-- A call on the hash's state, which is what was put in; nothing is called after a failure.
abbrev pub next_call : SgxStatus → Bytes → SgxStatus × Bytes → SgxStatus × Bytes
next_call status' hashed' (status, hashed) =
    if is_success status then (status', hashed') else (status, hashed)

unfoldable pub sha384_update : Sha384 → ℕ → Bytes → SgxStatus × Bytes → SgxStatus × Bytes
sha384_update sha i data_ state = next_call (sha.update i) (state.1 ++ data_) state

unfoldable pub sha384_get_hash : Sha384 → SgxStatus × Bytes → SgxStatus × Bytes
sha384_get_hash sha state = next_call sha.get_hash (sha.digest state.1) state

unfoldable pub challenge_update : Sha384 → Bytes → SgxStatus × Bytes → SgxStatus × Bytes
challenge_update sha challenge state =
    if ltb 0 (length challenge)
    then sha384_update sha 2 (take (u32 (length challenge)) challenge) state
    else state

-- The two results are read after the handle is closed. The digest fills 48 of the 64 bytes.
unfoldable pub report_data_of : SgxStatus → SgxStatus × Bytes → Result TeepErr Bytes
report_data_of close_ret (sgx_ret, digest) =
    sgx_guard sgx_ret (sgx_guard close_ret (ok (digest ++ replicate 16 0)))

-- What is hashed: the two coordinates, then the challenge.
unfoldable pub hash_state : EvidenceCalls → Option TeepKey → Bytes → SgxStatus × Bytes
hash_state e key challenge = challenge_update e.sha384 challenge (
    sha384_update e.sha384 1 (y_coordinate key)
      (sha384_update e.sha384 0 (x_coordinate key) (sgx_success, [])))

-- `create_dcap_report_data`
unfoldable pub create_dcap_report_data :
    EvidenceCalls → QueryRequest → Option TeepKey → Result TeepErr Bytes
create_dcap_report_data e req key = guard (is_uncompressed_p256_public_key e key) invalid_value (
    get_query_challenge req.challenge >>= λ challenge.
    sgx_guard e.sha384.init
      (report_data_of e.sha384.close (sha384_get_hash e.sha384 (hash_state e key challenge))))

unfoldable pub reported : SgxStatus × Bytes → Result TeepErr Bytes
reported (sgx_ret, report) = sgx_guard sgx_ret (ok report)

-- `create_evidence_dcap`
unfoldable pub create_evidence_dcap :
    EvidenceCalls → QueryRequest → Option ℕ → Option TeepKey → Result TeepErr Bytes
create_evidence_dcap e req none key = err invalid_value
create_evidence_dcap e req (some capacity) key =
    guard (arguments_valid e key (some capacity)) invalid_value (do
      challenge ← get_query_challenge req.challenge
      qe_target_info ← bridged (e.bridge 0) (ocall_get_qe_target_info e.quoting false)
      report_data ← create_dcap_report_data e req key
      report ← reported (e.create_report qe_target_info report_data)
      size ← bridged (e.bridge 1) (ocall_get_quote_size e.quoting false)
      guard (not ((size == 0) || ltb capacity size)) no_memory
          (bridged (e.bridge 2) (ocall_get_quote e.quoting (some report) false size)))

-- The payload: the quote, and the data that it speaks of.
abbrev pub envelope_calls : Bytes → Bytes → List QcborOp
envelope_calls quote raw = open_array ∷ add_bytes quote ∷ add_bytes raw ∷ close_array ∷ []

-- `create_evidence_dcap_envelope`
unfoldable pub create_evidence_dcap_envelope :
    EvidenceCalls → QueryRequest → Option ℕ → Option TeepKey → Result TeepErr Bytes
create_evidence_dcap_envelope e req none key = err invalid_value
create_evidence_dcap_envelope e req (some capacity) key =
    guard (arguments_valid e key (some capacity)) invalid_value (
      guard e.malloc_quote no_memory (do
        quote ← create_evidence_dcap e req (some capacity) key
        raw_report_data ← create_raw_dcap_report_data e req key
        ok_or (e.qcbor.finish capacity (envelope_calls quote raw_report_data)) unexpected_error))
