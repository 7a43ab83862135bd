-- ===== src/Query/Tests.antt =====
-- Enclave/src/Enclave_process_message.cpp: `process_query_request` at a concrete request.
use taws.Base.{
  ◌≡◌, refl, false, some, [], ◌∷◌, Buf, Bytes, replicate, ◌<◌, ◌^◌, length, ok, subst, arith,
}
use taws.TcManager.{initial_table}
use taws.Teep.{QueryResponse, sgx_quote3_teep_bundle, query_response}
use taws.Query.Versions.{Distinguishes}
use taws.Query.{
  process_query_request, query_steps, version_found, select_cipher_suite, create_evidence,
  evidence_placed, add_components,
}
use taws.Query.Answers.{Answers, process_query_request-Answers}
use taws.Query.Refusals.{Refusals, process_query_request-Refusals}
use taws.Query.Attestation.{Attests, process_query_request-Attests}
use taws.Evidence.{get_query_challenge}
use taws.Samples.{libteep, csuit, qcbor, query_calls, query_request, token}

abbrev response : QueryResponse
response = record {
  token = some (some token);
  selected_version = 0;
  attestation_payload = some (1 ∷ 2 ∷ [], sgx_quote3_teep_bundle);
  requested_tc_list = some (1 ∷ 2 ∷ []);
  contains_tc_list = false;
  tc_list_items = [];
  tc_list_len = 0;
}

abbrev name : Buf
name = some (b'a' ∷ [])

answered :
    process_query_request libteep csuit qcbor query_calls initial_table name query_request 0
    ≡ (query_response response, 0)
unfolding process_query_request query_steps version_found select_cipher_suite create_evidence
    evidence_placed add_components taws.Evidence.Dcap.create_evidence_dcap_envelope
    taws.Evidence.is_uncompressed_p256_public_key taws.Evidence.Dcap.create_evidence_dcap
    taws.Evidence.get_query_challenge taws.Evidence.Dcap.ocall_get_qe_target_info
    taws.Evidence.Dcap.create_dcap_report_data taws.Evidence.Dcap.report_data_of
    taws.Evidence.Dcap.sha384_get_hash taws.Evidence.Dcap.hash_state
    taws.Evidence.Dcap.challenge_update taws.Evidence.Dcap.sha384_update taws.Evidence.Dcap.reported
    taws.Evidence.Dcap.ocall_get_quote_size taws.Evidence.Dcap.ocall_get_quote
    taws.Evidence.Dcap.create_raw_dcap_report_data
answered = refl

libteep-Distinguishes : Distinguishes libteep
libteep-Distinguishes = record { invalid_same = refl; supported_other = refl }

process_query_request-Answers_example :
    Answers libteep qcbor initial_table query_request 0 response 0
process_query_request-Answers_example =
    process_query_request-Answers libteep csuit qcbor query_calls initial_table name query_request 0
      response 0 libteep-Distinguishes answered

process_query_request-Refusals_example :
    Refusals libteep query_request
      (process_query_request libteep csuit qcbor query_calls initial_table name query_request 0).0
process_query_request-Refusals_example =
    process_query_request-Refusals libteep csuit qcbor query_calls initial_table name query_request
      0 libteep-Distinguishes

small_challenge :
    (challenge : Bytes)
    → get_query_challenge query_request.challenge ≡ ok challenge
    → length challenge < 2 ^ 32
unfolding get_query_challenge
small_challenge challenge read =
    let same : replicate 16 6 ≡ challenge = cc read in
    subst (λ (c : Bytes). length c < 2 ^ 32) same (omega arith)

process_query_request-Attests_example :
    Attests query_calls query_request (1 ∷ 2 ∷ []) sgx_quote3_teep_bundle
process_query_request-Attests_example =
    process_query_request-Attests libteep csuit qcbor query_calls initial_table name query_request 0
      response 0 (1 ∷ 2 ∷ []) sgx_quote3_teep_bundle refl small_challenge answered refl
