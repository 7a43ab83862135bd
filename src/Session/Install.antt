-- ===== src/Session/Install.antt =====
-- App/src/sgx_teep_session.cpp with Enclave/src/Enclave_process_message.cpp: a session in which the
-- enclave is the TEEP Agent.
use taws.Base.{
  ℕ, ◌≡◌, ◌≢◌, refl, sym, ap, subst, ◌∙◌, true, false, Option, none, some, List, [], ◌∷◌, Bytes,
  Buf, is_empty, if◌then◌else◌,
}
use taws.SuitProcessor.{SuitState}
use taws.Teep.{
  QueryRequest, Update, QueryResponse, Success, PayloadFormat, query_response, success_message,
}
use taws.Query.{process_query_request}
use taws.Update.{process_update}
use taws.Agent.{
  Agent, AgentStatus, waiting_query_request, waiting_update_or_query_request, AgentCalls,
  EcallResult, fatal, EcallOutcome, received_query_request, received_update, verified, decoded,
  handle, release, result_code, next_status, ecall_process_message, success_sent, response_result,
  after_query, after_update, update_in,
}
use taws.Agent.Progress.{ecall_answers}
use taws.HttpClient.{HttpResult, http_ok}
use taws.Session.{
  Round, SessionResult, session_ok, session_ok_device_activated, run_teep_session, is_error,
  is_activation,
}
use taws.Session.Ends.{
  Exchange, tam_done, exchanged, no_content, Cause, expected_result, rounds_expected,
}

-- What is in the send buffer behind a call.
abbrev sent_bytes : Option Bytes → Bytes
sent_bytes none = []
sent_bytes (some b) = b

-- What the TAM answers to a POST.
abbrev pub Post : Type 0
Post = Bytes → HttpResult × Bytes

module _ (e : AgentCalls) (app_name : Buf) (allocated_len : ℕ) where
  abbrev agent_round : Post → Agent → Round
  agent_round post a = record {
    post = post;
    ecall = λ recv.
        let o = ecall_process_message e recv app_name allocated_len a in
        some (o.result, sent_bytes o.sent);
  }

  -- The rounds of a session with the Agent, and the Agent behind them.
  unfoldable pub agent_rounds : List Post → Bytes → Agent → List Round
  agent_rounds [] sent a = []
  agent_rounds (post ∷ posts) sent a =
      let o = ecall_process_message e (post sent).1 app_name allocated_len a in
      agent_round post a ∷ agent_rounds posts (sent_bytes o.sent) o.agent

  -- The Agent answers each response, but for the last, which has no content.
  unfoldable pub agent_behind : List Post → Bytes → Agent → Agent
  agent_behind [] sent a = a
  agent_behind (post ∷ posts) sent a =
      let o = ecall_process_message e (post sent).1 app_name allocated_len a in
      if is_empty (post sent).1 then a else agent_behind posts (sent_bytes o.sent) o.agent

  module _ (post : Post) (posts : List Post) (sent recv answer : Bytes) (a a' : Agent)
      (result : EcallResult) (posted : post sent ≡ (http_ok, recv)) (full : is_empty recv ≡ false)
      (answers : ecall_process_message e recv app_name allocated_len a
        ≡ record { result = result; sent = some answer; agent = a' }) where
    answered_eq :
        ecall_process_message e (post sent).1 app_name allocated_len a
        ≡ record { result = result; sent = some answer; agent = a' }
    answered_eq =
        ap (λ (p : HttpResult × Bytes). ecall_process_message e p.1 app_name allocated_len a) posted
        ∙ answers

    exchange_step :
        (results : List EcallResult) (cause : Cause)
        → result ≢ fatal
        → Exchange (agent_rounds posts answer a') answer results cause
        → Exchange (agent_rounds (post ∷ posts) sent a) sent (result ∷ results) cause
    unfolding agent_rounds
    exchange_step results cause alive rest =
        subst
          (λ (o : EcallOutcome).
            Exchange (agent_round post a ∷ agent_rounds posts (sent_bytes o.sent) o.agent) sent
              (result ∷ results) cause)
          (sym answered_eq)
          (exchanged (agent_round post a) (agent_rounds posts answer a') sent recv answer result
            results cause posted full
            (ap (λ (o : EcallOutcome). some (o.result, sent_bytes o.sent)) answers) alive rest)

    behind_step : agent_behind (post ∷ posts) sent a ≡ agent_behind posts answer a'
    unfolding agent_behind
    behind_step =
        ap
          (λ (o : EcallOutcome).
            if is_empty (post sent).1 then a else agent_behind posts (sent_bytes o.sent) o.agent)
          answered_eq
        ∙ ap (λ (p : HttpResult × Bytes). if is_empty p.1 then a else agent_behind posts answer a')
            posted
        ∙ ap (λ b. if b then a else agent_behind posts answer a') full

abbrev pub session_for : Option (Bytes × PayloadFormat) → SessionResult
session_for none = session_ok
session_for (some p) = session_ok_device_activated

session_expected :
    (p : Option (Bytes × PayloadFormat))
    → expected_result no_content (response_result p ∷ success_sent ∷ []) ≡ session_for p
unfolding response_result is_error is_activation
session_expected none = refl
session_expected (some p) = refl

response_alive : (p : Option (Bytes × PayloadFormat)) → response_result p ≢ fatal
unfolding response_result
response_alive none h = cc h
response_alive (some p) h = cc h

waits_for_update :
    (s : AgentStatus) (r : QueryResponse)
    → next_status s (query_response r) ≡ waiting_update_or_query_request
unfolding next_status
waits_for_update waiting_query_request r = refl
waits_for_update waiting_update_or_query_request r = refl

waits_for_query :
    (s : AgentStatus) (m : Success) → next_status s (success_message m) ≡ waiting_query_request
unfolding next_status
waits_for_query waiting_query_request m = refl
waits_for_query waiting_update_or_query_request m = refl

handles_update :
    (e : AgentCalls) (app_name : Buf) (up : Update) (a : Agent) (s : SuitState) (m : Success)
    → a.status ≡ waiting_update_or_query_request
    → process_update e.libteep e.update_calls up a.suit ≡ (success_message m, s)
    → handle e app_name (received_update up) a ≡ some (success_message m, record a { suit = s })
unfolding handle update_in
handles_update e app_name up a s m waits done =
    ap (λ t. some (update_in e up a t)) waits ∙ ap (λ r. some (after_update a r)) done

-- The Agent behind a QueryResponse.
abbrev responded : QueryResponse → ℕ → Agent → Agent
responded r heap a =
    release (query_response r)
      (record a { heap = heap; status = next_status a.status (query_response r) })

abbrev updated_agent : Success → SuitState → Agent → Agent
updated_agent m s a =
    release (success_message m)
      (record a { suit = s; status = next_status a.status (success_message m) })

-- A session installs what the TAM sends. Let the TAM answer the first POST with a QueryRequest, the
-- QueryResponse with an Update, and the Success with no content. Where the key is ready, both
-- messages are verified and decoded, their handlers answer with a QueryResponse and a Success, and
-- these are encoded and signed, the session ends well: with an activation, if there was evidence.
-- The Agent then has what the Update left and waits for a QueryRequest.
pub session_installs :
    (e : AgentCalls) (app_name : Buf) (allocated_len : ℕ) (a : Agent) (post1 post2 post3 : Post)
    (recv1 recv2 cbor1 cbor2 cose1 cose2 : Bytes) (q : QueryRequest) (r : QueryResponse) (heap : ℕ)
    (up : Update) (m : Success) (s : SuitState)
    → a.key_ready ≡ true
    → post1 [] ≡ (http_ok, recv1)
    → is_empty recv1 ≡ false
    → decoded e (verified e recv1 (e.verify_cose_sign1 recv1)) ≡ some (received_query_request q)
    → process_query_request e.libteep e.csuit e.qcbor e.query_calls a.suit.table app_name q a.heap
      ≡ (query_response r, heap)
    → e.encode_message (query_response r) ≡ some cbor1
    → e.sign_cose_sign1 cbor1 allocated_len ≡ some cose1
    → post2 cose1 ≡ (http_ok, recv2)
    → is_empty recv2 ≡ false
    → decoded e (verified e recv2 (e.verify_cose_sign1 recv2)) ≡ some (received_update up)
    → process_update e.libteep e.update_calls up a.suit ≡ (success_message m, s)
    → e.encode_message (success_message m) ≡ some cbor2
    → e.sign_cose_sign1 cbor2 allocated_len ≡ some cose2
    → post3 cose2 ≡ (http_ok, [])
    → ((run_teep_session
          (agent_rounds e app_name allocated_len (post1 ∷ post2 ∷ post3 ∷ []) [] a)).0
        ≡ some (session_for r.attestation_payload))
      × ((agent_behind e app_name allocated_len (post1 ∷ post2 ∷ post3 ∷ []) [] a).status
          ≡ waiting_query_request)
      × ((agent_behind e app_name allocated_len (post1 ∷ post2 ∷ post3 ∷ []) [] a).suit ≡ s)
unfolding handle release result_code agent_rounds agent_behind
session_installs e app_name allocated_len a post1 post2 post3 recv1 recv2 cbor1 cbor2 cose1 cose2 q
      r heap up m s key posted1 full1 good1 queried en1 si1 posted2 full2 good2 done en2 si2
      posted3 =
    let a1 = responded r heap a in
    let a2 = updated_agent m s a1 in
    let o1 =
      ecall_answers e recv1 app_name allocated_len a (record a { heap = heap })
        (received_query_request q) (query_response r) cbor1 cose1 key good1
        (ap (λ x. some (after_query a x)) queried) en1 si1 in
    let o2 =
      ecall_answers e recv2 app_name allocated_len a1 (record a1 { suit = s }) (received_update up)
        (success_message m) cbor2 cose2 key good2
        (handles_update e app_name up a1 s m (waits_for_update a.status r) done) en2 si2 in
    let last : Exchange (agent_rounds e app_name allocated_len (post3 ∷ []) cose2 a2) cose2 []
        no_content =
      tam_done (agent_round e app_name allocated_len post3 a2) _ cose2 [] posted3 refl in
    let second =
      exchange_step e app_name allocated_len post2 (post3 ∷ []) cose1 recv2 cose2 a1 a2 success_sent
        posted2 full2 o2 [] no_content (λ x. cc x) last in
    let first =
      exchange_step e app_name allocated_len post1 (post2 ∷ post3 ∷ []) [] recv1 cose1 a a1
        (response_result r.attestation_payload) posted1 full1 o1 (success_sent ∷ []) no_content
        (response_alive r.attestation_payload) second in
    let behind : agent_behind e app_name allocated_len (post1 ∷ post2 ∷ post3 ∷ []) [] a ≡ a2 =
      behind_step e app_name allocated_len post1 (post2 ∷ post3 ∷ []) [] recv1 cose1 a a1 _ posted1
        full1 o1
      ∙ behind_step e app_name allocated_len post2 (post3 ∷ []) cose1 recv2 cose2 a1 a2 _ posted2
          full2 o2
      ∙ ap
          (λ (p : HttpResult × Bytes).
            if is_empty p.1
            then a2
            else (ecall_process_message e p.1 app_name allocated_len a2).agent)
          posted3 in
    (
      rounds_expected (agent_rounds e app_name allocated_len (post1 ∷ post2 ∷ post3 ∷ []) [] a)
            (response_result r.attestation_payload ∷ success_sent ∷ []) no_content first
          ∙ ap some (session_expected r.attestation_payload),
      ap (λ (x : Agent). x.status) behind ∙ waits_for_query a1.status m,
      ap (λ (x : Agent). x.suit) behind,
    )
