-- ===== src/SuitProcessor.antt =====
-- Enclave/src/suit_processor_wrapper.cpp: the callbacks that libcsuit makes while it processes an
-- envelope. They share the record table and the last report.
pub mod Condition
pub mod Processing
pub mod Image
pub mod Report
mod Tests
use taws.Base.{
  ℕ, Bool, true, false, not, ◌&&◌, ◌||◌, Option, none, some, ◌==◌, if◌then◌else◌, length, Bytes,
  bytes_eq, Buf, is_null_or_empty, Status, success, failure,
}
use taws.TcManager
use taws.TcManager.{
  Csuit, ManifestRecord, Table, StoreArgs, StoreOperation, suit_store, other_operation, Mallocs,
  store_record, find_record_by_digest, sha256_digest_length,
}

-- `suit_err_t`, as far as the callbacks return it; libcsuit has more.
pub data SuitErr : Type 0 where
  suit_success err_fatal err_invalid_value err_condition_mismatch : SuitErr
  err_not_implemented err_no_memory : SuitErr
  other_suit_err : ℕ → SuitErr

pub data SuitReportReason : Type 0 where
  component_unsupported condition_failed cbor_parse : SuitReportReason

pub data SuitParameterKey : Type 0 where
  image_size image_digest : SuitParameterKey

-- The written fields of `suit_callback_ret_t`; `none` is what the caller left there.
pub record SuitCallbackRet : Type 0 where
  pub reason : Option SuitReportReason
  pub first_key : Option SuitParameterKey
  pub second_key : Option SuitParameterKey

pub data SuitCondition : Type 0 where
  image_match other_condition : SuitCondition

pub record SuitConditionArgs : Type 0 where
  pub manifest_digest : Buf
  pub condition : SuitCondition
  pub expected_u64 : ℕ
  pub expected_str : Buf

pub data DigestAlgorithm : Type 0 where
  sha256 other_algorithm : DigestAlgorithm

-- `suit_digest_t`
pub record SuitDigest : Type 0 where
  pub algorithm_id : DigestAlgorithm
  pub bytes : Bytes

-- `suit_decode_digest`: its result, and the digest that it fills in.
abbrev pub DecodeDigest : Type 0
DecodeDigest = Buf → SuitErr × SuitDigest

pub record SuitState : Type 0 where
  pub table : Table
  pub suit_report : Buf  -- g_suit_report

store_result : Table × Status → SuitState → SuitErr × SuitState
store_result (t, success) s = (suit_success, record s { table = t })
store_result (t, failure) s = (err_fatal, record s { table = t })

store_forwarded : Csuit → Mallocs → StoreArgs → SuitState → StoreOperation → SuitErr × SuitState
unfolding store_result
store_forwarded c m a s suit_store = store_result (store_record c m (some a) s.table) s
store_forwarded c m a s other_operation = (suit_success, s)

-- `__wrap_suit_store_callback`
unfoldable pub store_callback : Csuit → Mallocs → StoreArgs → SuitState → SuitErr × SuitState
unfolding store_forwarded
store_callback c m a s = store_forwarded c m a s a.operation

-- `__wrap_suit_invoke_callback`
abbrev pub invoke_callback : SuitState → SuitErr × SuitState
invoke_callback s = (suit_success, s)

is_sha256 : DigestAlgorithm → Bool
is_sha256 sha256 = true
is_sha256 other_algorithm = false

-- The end of the image match, once the digest is decoded.
unfoldable pub match_digest :
    ManifestRecord → SuitErr × SuitDigest → SuitCallbackRet → SuitErr × SuitCallbackRet
unfolding is_sha256
match_digest r (suit_success, digest) ret =
    if not (is_sha256 digest.algorithm_id) || not (length digest.bytes == sha256_digest_length)
    then (err_not_implemented, record ret { reason = some component_unsupported })
    else if not (bytes_eq digest.bytes r.wapp_hash)
    then (
      err_condition_mismatch,
      record {
        reason = some condition_failed;
        first_key = some image_size;
        second_key = some image_digest;
      },
    )
    else (suit_success, record ret { first_key = some image_size; second_key = some image_digest })
match_digest r (e, digest) ret = (e, record ret { reason = some cbor_parse })

unfoldable pub wapp_bin_size : Buf → ℕ
wapp_bin_size none = 0
wapp_bin_size (some bin) = length bin

unfoldable pub match_image :
    DecodeDigest → SuitConditionArgs → ManifestRecord → SuitCallbackRet → SuitErr × SuitCallbackRet
match_image decode a r ret =
    let size = wapp_bin_size r.wapp_bin in
    if size == 0
    then (err_condition_mismatch, record ret { reason = some component_unsupported })
    else if not (a.expected_u64 == 0) && not (size == a.expected_u64)
    then (
      err_condition_mismatch,
      record ret { reason = some condition_failed; first_key = some image_size },
    )
    else match_digest r (decode a.expected_str) ret

unfoldable pub check_condition :
    DecodeDigest
    → SuitConditionArgs
    → ManifestRecord
    → SuitCallbackRet
    → SuitCondition
    → SuitErr × SuitCallbackRet
check_condition decode a r ret image_match = match_image decode a r ret
check_condition decode a r ret other_condition = (suit_success, ret)

unfoldable pub condition_found :
    DecodeDigest
    → SuitConditionArgs
    → SuitCallbackRet
    → Option ManifestRecord
    → SuitErr × SuitCallbackRet
condition_found decode a ret none = (err_fatal, record ret { reason = some component_unsupported })
condition_found decode a ret (some r) = check_condition decode a r ret a.condition

abbrev written : SuitErr × SuitCallbackRet → SuitErr × Option SuitCallbackRet
written (e, ret) = (e, some ret)

-- `__wrap_suit_condition_callback`; `none` is a NULL `condition_ret`.
unfoldable pub condition_callback :
    DecodeDigest
    → SuitConditionArgs
    → Option SuitCallbackRet
    → SuitState
    → SuitErr × Option SuitCallbackRet
condition_callback decode a none s = (err_invalid_value, none)
condition_callback decode a (some ret) s =
    written (condition_found decode a ret (find_record_by_digest a.manifest_digest s.table))

-- `__wrap_suit_report_callback`; the Boolean tells whether `malloc` succeeds.
unfoldable pub report_callback : Bool → Buf → SuitState → SuitErr × SuitState
report_callback block report s =
    if not (is_null_or_empty report)
    then (if block
        then (suit_success, record s { suit_report = report })
        else (err_no_memory, record s { suit_report = none }))
    else (suit_success, s)

-- `suit_get_suit_report`
abbrev pub get_suit_report : SuitState → Buf
get_suit_report s = s.suit_report

-- What libcsuit does with an envelope, as far as this code can tell: it makes callbacks, goes on
-- by what each returns, and ends with a result.
pub data Script : Type 0 where
  finished : SuitErr → Script
  calls_store : Mallocs → StoreArgs → (SuitErr → Script) → Script
  calls_invoke : (SuitErr → Script) → Script
  calls_condition :
      SuitConditionArgs
      → Option SuitCallbackRet
      → (SuitErr × Option SuitCallbackRet → Script)
      → Script
  calls_report : Bool → Buf → (SuitErr → Script) → Script

-- `suit_process_envelope`, with the callbacks of this file linked in.
unfoldable pub process_envelope : Csuit → DecodeDigest → Script → SuitState → SuitErr × SuitState
process_envelope c decode (finished e) s = (e, s)
process_envelope c decode (calls_store m a next) s =
    let (e, s') = store_callback c m a s in process_envelope c decode (next e) s'
process_envelope c decode (calls_invoke next) s =
    process_envelope c decode (next (invoke_callback s).0) (invoke_callback s).1
process_envelope c decode (calls_condition a ret next) s =
    process_envelope c decode (next (condition_callback decode a ret s)) s
process_envelope c decode (calls_report block report next) s =
    let (e, s') = report_callback block report s in process_envelope c decode (next e) s'
