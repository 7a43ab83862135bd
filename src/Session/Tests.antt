-- ===== src/Session/Tests.antt =====
-- App/src/sgx_teep_session.cpp: a session of three rounds.
use taws.Base.{ℕ, ◌≡◌, refl, none, some, List, [], ◌∷◌, Bytes, Buf, bytes_eq, false}
use taws.Agent.{
  device_activation_flow, success_sent, decoded, verified, received_query_request, received_update,
  waiting_query_request,
}
use taws.HttpClient.{http_ok}
use taws.TcManager.{initial_table}
use taws.Teep.{QueryResponse, Success, query_response, success_message}
use taws.Query.{
  process_query_request, query_steps, version_found, select_cipher_suite, add_components,
}
use taws.Update.{process_update}
use taws.Session.Install.{Post, agent_rounds, agent_behind, session_installs}
use taws.Samples.{
  libteep, csuit, qcbor, query_calls, update_calls, update, token, idle, waiting, plain_request,
  plain_calls,
}
use taws.DebugPrint.{codes}
use taws.DebugPrint.Values.{decimal}
use taws.Logger.{level_error, level_info}
use taws.Session.Lines.{SgxError, enclave_lost, no_device, log_teep_send, print_error_message}
use taws.Session.{SessionResult, log_success, Round, session_ok, run_teep_session}
use taws.Session.Ends.{Verdict, tam_done, exchanged, no_content, run_teep_session_result}

abbrev query : Round
query = record { post = λ b. (http_ok, 1 ∷ []); ecall = λ b. some (device_activation_flow, 2 ∷ []) }

abbrev install : Round
install = record { post = λ b. (http_ok, 3 ∷ []); ecall = λ b. some (success_sent, 4 ∷ []) }

abbrev ends : Round
ends = record { post = λ b. (http_ok, []); ecall = λ b. none }

run_teep_session_result_example :
    (result : SessionResult) × ((run_teep_session (query ∷ install ∷ ends ∷ [])).0 ≡ some result)
    × Verdict (device_activation_flow ∷ success_sent ∷ []) no_content result
run_teep_session_result_example =
    run_teep_session_result (query ∷ install ∷ ends ∷ [])
      (device_activation_flow ∷ success_sent ∷ []) no_content
      (exchanged query (install ∷ ends ∷ []) [] (1 ∷ []) (2 ∷ []) device_activation_flow
        (success_sent ∷ []) no_content refl refl refl (λ e. cc e)
        (exchanged install (ends ∷ []) (2 ∷ []) (3 ∷ []) (4 ∷ []) success_sent [] no_content refl
          refl refl (λ e. cc e) (tam_done ends [] (4 ∷ []) [] refl refl)))

abbrev name : Buf
name = some (b'a' ∷ [])

abbrev response : QueryResponse
response = record {
  token = some (some token);
  selected_version = 0;
  attestation_payload = none;
  requested_tc_list = none;
  contains_tc_list = false;
  tc_list_items = [];
  tc_list_len = 0;
}

abbrev reported : Success
reported = record { token = some token; suit_report = none }

request_answered :
    process_query_request libteep csuit qcbor query_calls initial_table name plain_request 0
    ≡ (query_response response, 0)
unfolding process_query_request query_steps version_found select_cipher_suite add_components
request_answered = refl

update_done :
    process_update libteep update_calls update idle
    ≡ (success_message reported, (process_update libteep update_calls update idle).1)
unfolding process_update taws.Update.update_steps taws.Update.token_accepted
    taws.Update.process_manifests taws.Update.process_manifest taws.Update.next_manifest
    taws.Update.with_processor taws.Update.read_envelope taws.Update.process_manifest_bytes
    taws.Update.envelope_processed taws.SuitProcessor.process_envelope
    taws.SuitProcessor.store_callback taws.TcManager.store_record taws.TcManager.claim_record
    taws.TcManager.fill_record taws.TcManager.find_by_digest taws.TcManager.find_index
    taws.TcManager.set_ids_from_component_id taws.TcManager.check_and_update_record
    taws.TcManager.update_or_discard bytes_eq
update_done = refl

request_decoded :
    decoded plain_calls (verified plain_calls (0 ∷ []) (plain_calls.verify_cose_sign1 (0 ∷ [])))
    ≡ some (received_query_request plain_request)
unfolding decoded verified
request_decoded = refl

update_decoded :
    decoded plain_calls (verified plain_calls (1 ∷ []) (plain_calls.verify_cose_sign1 (1 ∷ [])))
    ≡ some (received_update update)
unfolding decoded verified
update_decoded = refl

-- A POST that is answered with one message, whatever it sends.
abbrev says : Bytes → Post
says b = λ sent. (http_ok, b)

abbrev posts : List Post
posts = says (0 ∷ []) ∷ says (1 ∷ []) ∷ says [] ∷ []

session_installs_example :
    ((run_teep_session (agent_rounds plain_calls name 100 posts [] waiting)).0 ≡ some session_ok)
    × ((agent_behind plain_calls name 100 posts [] waiting).status ≡ waiting_query_request)
    × ((agent_behind plain_calls name 100 posts [] waiting).suit
        ≡ (process_update libteep update_calls update idle).1)
session_installs_example =
    session_installs plain_calls name 100 waiting (says (0 ∷ [])) (says (1 ∷ [])) (says []) (0 ∷ [])
      (1 ∷ []) (1 ∷ []) (1 ∷ []) (6 ∷ 6 ∷ 1 ∷ []) (6 ∷ 6 ∷ 1 ∷ []) plain_request response 0 update
      reported (process_update libteep update_calls update idle).1 refl refl refl request_decoded
      request_answered refl refl refl refl update_decoded update_done refl refl refl

-- Numbers for two errors of SGX; the others have 1.
number_of : SgxError → ℕ
number_of enclave_lost = 3
number_of no_device = 6
number_of err = 1

lost_lines :
    print_error_message number_of 3
    ≡ (level_info, "Please refer to the sample \"PowerTransition\" for details.")
      ∷ (level_error, "Power transition occurred.")
      ∷ []
unfolding print_error_message number_of
lost_lines = refl

unknown_line : print_error_message number_of 9 ≡ (level_error, "Unexpected error occurred.") ∷ []
unfolding print_error_message number_of
unknown_line = refl

sent_line : log_teep_send log_success 12 ≡ codes "sending TEEP Success: cose_size=12"
unfolding log_teep_send decimal
sent_line = refl
