-- ===== src/Session/Lines.antt =====
-- App/src/sgx_teep_session.cpp: what is written of a message that is sent, and of an error of SGX.
use Prim.Native.String.{String}
use taws.Base.{ℕ, Option, none, some, List, [], ◌∷◌, ◌++◌, ◌==◌, if◌then◌else◌, Bytes}
use taws.DebugPrint.{codes}
use taws.DebugPrint.Values.{decimal}
use taws.Logger.{level_error, level_info}
use taws.Session.{
  SendLogType, log_initial_request, log_query_response, log_query_response_with_attestation,
  log_success, log_error,
}

-- `log_teep_send`
unfoldable pub log_teep_send : SendLogType → ℕ → Bytes
log_teep_send log_initial_request n = codes "sending TEEP initial request: cose_size=" ++ decimal n
log_teep_send log_query_response n = codes "sending TEEP QueryResponse: cose_size=" ++ decimal n
log_teep_send log_query_response_with_attestation n =
    codes "sending TEEP QueryResponse with evidence: cose_size=" ++ decimal n
log_teep_send log_success n = codes "sending TEEP Success: cose_size=" ++ decimal n
log_teep_send log_error n = codes "sending TEEP Error: cose_size=" ++ decimal n

-- The errors of SGX that have a line, SGX_ERROR_...
pub data SgxError : Type 0 where
  unexpected invalid_parameter out_of_memory enclave_lost invalid_enclave : SgxError
  invalid_enclave_id invalid_signature out_of_epc no_device memory_map_conflict : SgxError
  invalid_metadata device_busy invalid_version invalid_attribute enclave_file_access : SgxError
  ndebug_enclave memory_map_failure : SgxError

-- An error with its message and a suggestion.
pub record SgxErrlist : Type 0 where
  pub err : SgxError
  pub msg : String
  pub sug : Option String

abbrev plain : SgxError → String → SgxErrlist
plain err msg = record { err = err; msg = msg; sug = none }

abbrev pub sgx_errlist : List SgxErrlist
sgx_errlist =
    plain unexpected "Unexpected error occurred."
    ∷ plain invalid_parameter "Invalid parameter."
    ∷ plain out_of_memory "Out of memory."
    ∷ record {
      err = enclave_lost;
      msg = "Power transition occurred.";
      sug = some "Please refer to the sample \"PowerTransition\" for details.";
    }
    ∷ plain invalid_enclave "Invalid enclave image."
    ∷ plain invalid_enclave_id "Invalid enclave identification."
    ∷ plain invalid_signature "Invalid enclave signature."
    ∷ plain out_of_epc "Out of EPC memory."
    ∷ record {
      err = no_device;
      msg = "Invalid SGX device.";
      sug =
          some
            "Please make sure SGX module is enabled in the BIOS, and install SGX driver afterwards.";
    }
    ∷ plain memory_map_conflict "Memory map conflicted."
    ∷ plain invalid_metadata "Invalid enclave metadata."
    ∷ plain device_busy "SGX device was busy."
    ∷ plain invalid_version "Enclave version was invalid."
    ∷ plain invalid_attribute "Enclave was not authorized."
    ∷ plain enclave_file_access "Can't open enclave file."
    ∷ plain ndebug_enclave
        "The enclave is signed as product enclave, and can not be created as debuggable enclave."
    ∷ plain memory_map_failure "Failed to reserve memory for the enclave."
    ∷ []

abbrev suggestion_then : Option String → List (ℕ × String) → List (ℕ × String)
suggestion_then none lines = lines
suggestion_then (some sug) lines = (level_info, sug) ∷ lines

-- The loop over the table, and the line behind it.
abbrev errlist_lines : (SgxError → ℕ) → ℕ → List SgxErrlist → List (ℕ × String)
errlist_lines code ret [] = (level_error, "Unexpected error occurred.") ∷ []
errlist_lines code ret (e ∷ rest) =
    let later = errlist_lines code ret rest in
    if ret == code e.err then suggestion_then e.sug ((level_error, e.msg) ∷ []) else later

-- `print_error_message`: the lines with their levels; `code` are the numbers of SGX.
unfoldable pub print_error_message : (SgxError → ℕ) → ℕ → List (ℕ × String)
print_error_message code ret = errlist_lines code ret sgx_errlist
