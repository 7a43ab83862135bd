-- ===== src/Agent/Tests.antt =====
-- Enclave/src/Enclave_process_message.cpp: `ecall_process_message` at concrete messages.
use taws.Base.{◌≡◌, ◌≢◌, refl, sym, ◌∙◌, some, [], ◌∷◌, Buf}
use taws.TcManager.Invariant.{IsTable}
use taws.TcManager.History.{initial_table-IsTable}
use taws.Query.{
  process_query_request, query_steps, version_found, select_cipher_suite, create_evidence,
  evidence_placed, add_components,
}
use taws.Agent.{
  ecall_process_message, verified, decoded, handle, send, encoded, signed, result_code,
  device_activation_flow, fatal,
}
use taws.Agent.Transitions.{Transition, ecall-Transition, ecall_early, ecall-IsTable}
use taws.Samples.{agent_calls, waiting, responded_to, idle, update}

abbrev name : Buf
name = some (b'a' ∷ [])

-- The QueryRequest with a request of attestation.
evidence_sent :
    (ecall_process_message agent_calls (0 ∷ []) name 100 waiting).result ≡ device_activation_flow
unfolding ecall_process_message verified decoded handle send encoded signed result_code
    process_query_request query_steps version_found select_cipher_suite create_evidence
    evidence_placed add_components taws.Evidence.Dcap.create_evidence_dcap_envelope
    taws.Evidence.is_uncompressed_p256_public_key taws.Evidence.Dcap.create_evidence_dcap
    taws.Evidence.get_query_challenge taws.Evidence.Dcap.ocall_get_qe_target_info
    taws.Evidence.Dcap.create_dcap_report_data taws.Evidence.Dcap.report_data_of
    taws.Evidence.Dcap.sha384_get_hash taws.Evidence.Dcap.hash_state
    taws.Evidence.Dcap.challenge_update taws.Evidence.Dcap.sha384_update taws.Evidence.Dcap.reported
    taws.Evidence.Dcap.ocall_get_quote_size taws.Evidence.Dcap.ocall_get_quote
    taws.Evidence.Dcap.create_raw_dcap_report_data
evidence_sent = refl

not_fatal : device_activation_flow ≢ fatal
not_fatal e = cc e

ecall-Transition_example :
    Transition waiting.status
      (ecall_process_message agent_calls (0 ∷ []) name 100 waiting).result
      (ecall_process_message agent_calls (0 ∷ []) name 100 waiting).agent.status
ecall-Transition_example =
    ecall-Transition agent_calls (0 ∷ []) name 100 waiting (λ e. not_fatal (sym evidence_sent ∙ e))

ecall_early_example :
    (ecall_process_message agent_calls (1 ∷ []) name 100 waiting).agent.suit ≡ idle
unfolding verified decoded
ecall_early_example = ecall_early agent_calls (1 ∷ []) name 100 waiting update refl refl

ecall-IsTable_example :
    IsTable (ecall_process_message agent_calls (1 ∷ []) name 100 responded_to).agent.suit.table
ecall-IsTable_example =
    ecall-IsTable agent_calls (1 ∷ []) name 100 responded_to initial_table-IsTable
