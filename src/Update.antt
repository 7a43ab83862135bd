-- ===== src/Update.antt =====
-- Enclave/src/Enclave_process_message.cpp: `process_update`, the loop over the manifests of an
-- Update. What libcsuit answers for each manifest is a parameter; a goto is a value.
pub mod Rounds
pub mod Runs
pub mod Contexts
pub mod Resources
mod Tests
use taws.Base.{
  ℕ, Bool, true, false, not, ◌&&◌, ◌||◌, Option, none, some, List, [], ◌∷◌, ltb, leb, ◌==◌,
  if◌then◌else◌, length, Bytes, Buf, Status, success, failure,
}
use taws.TcManager.{Csuit, check_and_update_record, Table}
use taws.SuitProcessor.{
  SuitErr, suit_success, SuitState, DecodeDigest, Script, process_envelope, get_suit_report,
}
use taws.Teep.{
  Libteep, ErrCode, permanent_error, temporary_error, manifest_processing_failed, Update, Success,
  Message, success_message, error_message, create_error, buf_len, non_empty,
}

-- What the calls in front of the envelope answer, in their order, and the envelope's processing.
pub record ManifestCalls : Type 0 where
  pub calloc_reporting_engine : Bool
  pub calloc_processor_context : Bool
  pub set_sender_key : Bool  -- suit_set_suit_key_from_cose_key
  pub report_init_engine : Bool
  pub report_start_encoding : Bool
  pub processor_init : Option ℕ  -- the length of `envelope_buf`
  pub set_recipient_key : Bool
  pub add_recipient_key : Bool
  pub add_manifest : Bytes → Bool
  pub script : Bytes → Script  -- suit_process_envelope
  pub manifest_digest : Bytes → Buf  -- processor_context->b.manifest_digest

-- The parameters of an Update.
pub record UpdateCalls : Type 0 where
  pub csuit : Csuit
  pub decode_digest : DecodeDigest
  pub work_buf_len : ℕ
  pub manifest_calls : ℕ → ManifestCalls  -- by the index of the manifest

-- How a step ends: `goto error` with a code and the report to enclose, or the next statement.
pub data UpdateStep : Type 0 where
  goto_error : ErrCode → Buf → SuitState → UpdateStep
  goes_on : SuitState → UpdateStep

record_updated : SuitState → Table × Status → UpdateStep
record_updated s (t, success) = goes_on (record s { table = t })
record_updated s (t, failure) = goto_error temporary_error none (record s { table = t })

-- The report of a failure, if the work buffer has room for it.
abbrev copied_report : ℕ → Option Bytes → Buf
copied_report capacity none = none
copied_report capacity (some report) = if leb (length report) capacity then some report else none

unfoldable pub envelope_processed : UpdateCalls → Buf → SuitErr × SuitState → UpdateStep
unfolding record_updated
envelope_processed u digest (suit_success, s) =
    record_updated s (check_and_update_record digest s.table)
envelope_processed u digest (e, s) =
    goto_error manifest_processing_failed
      (copied_report u.work_buf_len (non_empty (get_suit_report s))) s

-- From the copy of the envelope on.
unfoldable pub process_manifest_bytes : UpdateCalls → ManifestCalls → Bytes → SuitState → UpdateStep
process_manifest_bytes u m envelope s =
    if not (m.add_manifest envelope)
    then goto_error permanent_error none s
    else envelope_processed u (m.manifest_digest envelope)
        (process_envelope u.csuit u.decode_digest (m.script envelope) s)

unfoldable pub read_envelope : UpdateCalls → ManifestCalls → Buf → ℕ → SuitState → UpdateStep
read_envelope u m none capacity s = goto_error permanent_error none s
read_envelope u m (some envelope) capacity s =
    if length envelope == 0 || ltb capacity (length envelope)
    then goto_error permanent_error none s
    else process_manifest_bytes u m envelope s

unfoldable pub with_processor :
    UpdateCalls → ManifestCalls → Buf → Option ℕ → SuitState → UpdateStep
with_processor u m manifest none s = goto_error temporary_error none s
with_processor u m manifest (some capacity) s =
    if not m.set_recipient_key
    then goto_error temporary_error none s
    else if not m.add_recipient_key
    then goto_error temporary_error none s
    else read_envelope u m manifest capacity s

-- One round of the loop.
unfoldable pub process_manifest : UpdateCalls → ManifestCalls → Buf → SuitState → UpdateStep
process_manifest u m manifest s =
    if not m.calloc_reporting_engine
    then goto_error temporary_error none s
    else if not m.calloc_processor_context
    then goto_error temporary_error none s
    else if not m.set_sender_key
    then goto_error temporary_error none s
    else if not m.report_init_engine
    then goto_error temporary_error none s
    else if not m.report_start_encoding
    then goto_error temporary_error none s
    else with_processor u m manifest m.processor_init s

unfoldable pub next_manifest : UpdateStep → (SuitState → UpdateStep) → UpdateStep
next_manifest (goto_error code report s) rest = goto_error code report s
next_manifest (goes_on s) rest = rest s

-- The loop, from a manifest on.
unfoldable pub process_manifests : UpdateCalls → ℕ → List Buf → SuitState → UpdateStep
process_manifests u i [] s = goes_on s
process_manifests u i (manifest ∷ manifests) s =
    next_manifest (process_manifest u (u.manifest_calls i) manifest s)
      (process_manifests u (ℕ.suc i) manifests)

-- The token that an Update must have.
unfoldable pub token_accepted : Update → Bool
token_accepted up =
    not (not up.contains_token || ltb (buf_len up.token) 8 || ltb 64 (buf_len up.token))

unfoldable pub update_steps : Libteep → UpdateCalls → Update → SuitState → UpdateStep
update_steps l u up s =
    if not (token_accepted up)
    then goto_error permanent_error none s
    else if ltb (length up.manifest_list) 1 || ltb l.max_array_length (length up.manifest_list)
    then goto_error permanent_error none s
    else process_manifests u 0 up.manifest_list s

pub update_answer : Libteep → Update → UpdateStep → Message × SuitState
update_answer l up (goto_error code report s) =
    (error_message (create_error l up.token code none report), s)
update_answer l up (goes_on s) =
    (success_message (record { token = up.token; suit_report = non_empty (get_suit_report s) }), s)

-- `process_update`. Both of its ends return TEEP_SUCCESS.
unfoldable pub process_update : Libteep → UpdateCalls → Update → SuitState → Message × SuitState
unfolding update_answer
process_update l u up s = update_answer l up (update_steps l u up s)
