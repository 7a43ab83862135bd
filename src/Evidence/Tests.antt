-- ===== src/Evidence/Tests.antt =====
-- Enclave/src/Enclave_generate_evidence.cpp: evidence at concrete answers of the libraries.
use taws.Base.{◌≡◌, refl, some, none, [], ◌∷◌, ok, err}
use taws.Teep.{invalid_value, no_memory, null_of}
use taws.Evidence.{is_uncompressed_p256_public_key, get_query_challenge}
use taws.Evidence.Dcap.{create_evidence_dcap_envelope}
use taws.Evidence.Generic.{create_evidence_generic}
use taws.Samples.{evidence_calls, agent_key, query_request}

generic_made :
    create_evidence_generic evidence_calls query_request (some 100) (some agent_key) 2
    ≡ (ok (8 ∷ 8 ∷ []), 2)
unfolding create_evidence_generic is_uncompressed_p256_public_key get_query_challenge
generic_made = refl

null_challenge_refused : get_query_challenge (some (null_of 3)) ≡ err invalid_value
unfolding get_query_challenge
null_challenge_refused = refl

-- The quote has three bytes.
small_buffer_refused :
    create_evidence_dcap_envelope evidence_calls query_request (some 2) (some agent_key)
    ≡ err no_memory
unfolding create_evidence_dcap_envelope is_uncompressed_p256_public_key
    taws.Evidence.Dcap.create_evidence_dcap get_query_challenge
    taws.Evidence.Dcap.ocall_get_qe_target_info taws.Evidence.Dcap.create_dcap_report_data
    taws.Evidence.Dcap.report_data_of taws.Evidence.Dcap.sha384_get_hash
    taws.Evidence.Dcap.hash_state taws.Evidence.Dcap.challenge_update
    taws.Evidence.Dcap.sha384_update taws.Evidence.Dcap.reported
    taws.Evidence.Dcap.ocall_get_quote_size
small_buffer_refused = refl

no_key_refused :
    create_evidence_dcap_envelope evidence_calls query_request (some 100) none ≡ err invalid_value
unfolding create_evidence_dcap_envelope is_uncompressed_p256_public_key
no_key_refused = refl
