-- ===== src/Teep.antt =====
-- Enclave/src/Enclave_process_message.cpp: the TEEP messages as the handlers read and write them,
-- and `create_error`.
pub mod Errors
mod Tests
use taws.Base.{
  ℕ, ℤ, Bool, ◌&&◌, Option, none, some, List, [], ◌∷◌, ltb, leb, if◌then◌else◌, length, Bytes, Buf,
}

-- SUPPORTED_VERSION
abbrev pub supported_version : ℕ
supported_version = 0

-- `teep_mechanism_t`
pub record Mechanism : Type 0 where
  pub cose_tag : ℕ
  pub algorithm_id : ℤ

-- `teep_cipher_suite_t`
pub record CipherSuite : Type 0 where
  pub first : Mechanism
  pub second : Mechanism

pub data ErrCode : Type 0 where
  permanent_error temporary_error unsupported_msg_version : ErrCode
  unsupported_cipher_suites manifest_processing_failed : ErrCode

-- A buffer as libteep leaves it: a length on a NULL pointer, or bytes.
pub data RawBuf : Type 0 where
  null_of : ℕ → RawBuf
  points_to : Bytes → RawBuf

-- `teep_err_t`
pub data TeepErr : Type 0 where
  invalid_value no_memory unexpected_error signing_failed : TeepErr
  other_err : ℕ → TeepErr

-- `teep_query_request_t`. A field behind a `contains` flag that nothing else reads is an option.
pub record QueryRequest : Type 0 where
  pub contains_token : Bool
  pub token : Buf
  pub versions : Option (List ℕ)
  pub contains_cipher_suites : Bool
  pub cipher_suites : List CipherSuite
  pub attestation : Bool
  pub trusted_components : Bool
  pub challenge : Option RawBuf

-- `teep_update_t`; libteep's decoder gives a NULL token no length.
pub record Update : Type 0 where
  pub contains_token : Bool
  pub token : Buf
  pub manifest_list : List Buf

pub data PayloadFormat : Type 0 where
  sgx_quote3_teep_bundle eat_cwt : PayloadFormat

-- `teep_query_response_t`; `tc_list_items` are the items written, `tc_list_len` is `tc_list.len`.
pub record QueryResponse : Type 0 where
  pub token : Option Buf
  pub selected_version : ℕ
  pub attestation_payload : Option (Bytes × PayloadFormat)
  pub requested_tc_list : Option Bytes
  pub contains_tc_list : Bool
  pub tc_list_items : List Bytes
  pub tc_list_len : ℕ

-- `teep_success_t`
pub record Success : Type 0 where
  pub token : Buf
  pub suit_report : Option Bytes

-- `teep_error_t`, each field behind its flag.
pub record Error : Type 0 where
  pub err_code : ErrCode
  pub token : Option Buf
  pub err_msg : Option Buf
  pub suit_report : Option Bytes
  pub versions : Option (List ℕ)
  pub cipher_suites : Option (List CipherSuite)

-- `teep_message_t` by its type; the last stands for every other value of the type field.
pub data Message : Type 0 where
  query_response : QueryResponse → Message
  success_message : Success → Message
  error_message : Error → Message
  other_message : ℕ → Message

-- The constants of libteep and of COSE that the handlers use.
pub record Libteep : Type 0 where
  pub cose_sign1_tag : ℕ  -- CBOR_TAG_COSE_SIGN1
  pub algorithm_esp256 : ℤ  -- T_COSE_ALGORITHM_ESP256
  pub invalid16_tag : ℕ  -- CBOR_TAG_INVALID16
  pub cose_none : ℤ  -- TEEP_COSE_NONE
  pub max_array_length : ℕ  -- TEEP_MAX_ARRAY_LENGTH
  pub cipher_suite_is_same : CipherSuite → CipherSuite → Bool

-- The one entry of `supported_teep_cipher_suites`.
abbrev pub supported_cipher_suite : Libteep → CipherSuite
supported_cipher_suite l = record {
  first = record { cose_tag = l.cose_sign1_tag; algorithm_id = l.algorithm_esp256 };
  second = record { cose_tag = 0; algorithm_id = ℤ.pos 0 };
}

-- `TeepCipherSuiteInvalid`
abbrev pub cipher_suite_invalid : Libteep → CipherSuite
cipher_suite_invalid l = record {
  first = record { cose_tag = l.invalid16_tag; algorithm_id = l.cose_none };
  second = record { cose_tag = l.invalid16_tag; algorithm_id = l.cose_none };
}

-- `token.len` of a buffer.
abbrev pub buf_len : Buf → ℕ
buf_len none = 0
buf_len (some b) = length b

error_token : Buf → Option Buf
error_token none = none
error_token (some b) = if leb 8 (length b) && leb (length b) 64 then some (some b) else none

error_msg : Buf → Option Buf
error_msg msg = if ltb 0 (buf_len msg) then some msg else none

abbrev pub non_empty : Buf → Option Bytes
non_empty none = none
non_empty (some b) = if ltb 0 (length b) then some b else none

error_suit_report : ErrCode → Buf → Option Bytes
error_suit_report manifest_processing_failed report = non_empty report
error_suit_report permanent_error report = none
error_suit_report temporary_error report = none
error_suit_report unsupported_msg_version report = none
error_suit_report unsupported_cipher_suites report = none

error_versions : ErrCode → Option (List ℕ)
error_versions unsupported_msg_version = some (supported_version ∷ [])
error_versions permanent_error = none
error_versions temporary_error = none
error_versions manifest_processing_failed = none
error_versions unsupported_cipher_suites = none

error_cipher_suites : Libteep → ErrCode → Option (List CipherSuite)
error_cipher_suites l unsupported_cipher_suites = some (supported_cipher_suite l ∷ [])
error_cipher_suites l permanent_error = none
error_cipher_suites l temporary_error = none
error_cipher_suites l manifest_processing_failed = none
error_cipher_suites l unsupported_msg_version = none

-- `create_error`
unfoldable pub create_error : Libteep → Buf → ErrCode → Buf → Buf → Error
unfolding error_token error_msg error_suit_report error_versions error_cipher_suites
create_error l token code msg report = record {
  err_code = code;
  token = error_token token;
  err_msg = error_msg msg;
  suit_report = error_suit_report code report;
  versions = error_versions code;
  cipher_suites = error_cipher_suites l code;
}
