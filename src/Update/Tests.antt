-- ===== src/Update/Tests.antt =====
-- Enclave/src/Enclave_process_message.cpp: `process_update` at concrete Updates.
use taws.Base.{◌≡◌, ◌↔◌, refl, none, some, bytes_eq}
use taws.Teep.{Success, success_message, error_message, create_error, permanent_error}
use taws.TcManager.{
  store_record, claim_record, fill_record, find_by_digest, find_index, set_ids_from_component_id,
  check_and_update_record, update_or_discard,
}
use taws.SuitProcessor.{process_envelope, store_callback}
use taws.Update.{
  process_update, update_steps, token_accepted, process_manifests, process_manifest, next_manifest,
  with_processor, read_envelope, process_manifest_bytes, envelope_processed,
}
use taws.Update.Runs.{Admitted, Run, process_update_success, process_update_refused, report_of}
use taws.Update.Resources.{Released, process_update-Released}
use taws.Samples.{libteep, update_calls, update, tokenless, idle, token}

process_update_refused_example :
    process_update libteep update_calls tokenless idle
    ≡ (error_message (create_error libteep (some token) permanent_error none none), idle)
process_update_refused_example =
    process_update_refused libteep update_calls tokenless idle λ a. cc a.contained

abbrev reported : Success
reported = record { token = some token; suit_report = none }

process_update_success_example :
    (process_update libteep update_calls update idle
      ≡ (success_message reported, (process_update libteep update_calls update idle).1))
    ↔ (Admitted libteep update
        × Run update_calls 0 update.manifest_list idle
            (process_update libteep update_calls update idle).1
        × (reported ≡ report_of update (process_update libteep update_calls update idle).1))
process_update_success_example =
    process_update_success libteep update_calls update idle
      (process_update libteep update_calls update idle).1 reported

update_succeeds : (process_update libteep update_calls update idle).0 ≡ success_message reported
unfolding process_update update_steps token_accepted process_manifests process_manifest
    next_manifest with_processor read_envelope process_manifest_bytes envelope_processed
    process_envelope store_callback store_record claim_record fill_record find_by_digest find_index
    set_ids_from_component_id check_and_update_record update_or_discard bytes_eq
update_succeeds = refl

process_update-Released_example : Released libteep update_calls update idle 0 0 0
process_update-Released_example = process_update-Released libteep update_calls update idle 0 0 0
