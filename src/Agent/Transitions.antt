-- ===== src/Agent/Transitions.antt =====
-- Enclave/src/Enclave_process_message.cpp: the state machine of `ecall_process_message` and what
-- it sends.
use taws.Base.{
  ℕ, ◌≡◌, ◌≢◌, ◌⊎◌, inl, inr, refl, sym, ap, ◌∙◌, subst, Bool, true, Option, none, some, Bytes, Buf,
  Bool-cases, Option-cases, if◌then◌else◌, not,
}
use taws.TcManager.Invariant.{IsTable}
use taws.SuitProcessor.{SuitState}
use taws.Teep.{
  Update, Message, query_response, success_message, error_message, other_message, PayloadFormat,
}
use taws.Update.{process_update}
use taws.Update.Runs.{process_update-IsTable}
use taws.Agent.{
  AgentStatus, waiting_query_request, waiting_update_or_query_request, Agent, EcallResult, ok,
  response_is_teep_error, fatal, device_activation_flow, query_response_sent, success_sent,
  RecvMessage, received_query_request, received_update, received_other, AgentCalls, EcallOutcome,
  failed, verified, decoded, update_in, handle, next_status, release, response_result, result_code,
  signed, encoded, send, handled, process_decoded, ecall_process_message,
}

-- The moves of the state machine, by the result of the call.
pub data Transition : AgentStatus → EcallResult → AgentStatus → Type 0 where
  responded : (s : AgentStatus) → Transition s query_response_sent waiting_update_or_query_request
  attested : (s : AgentStatus) → Transition s device_activation_flow waiting_update_or_query_request
  succeeded : (s : AgentStatus) → Transition s success_sent waiting_query_request
  refused : (s : AgentStatus) → Transition s response_is_teep_error s
  other : (s : AgentStatus) → Transition s ok s

response-Transition :
    (s : AgentStatus) (p : Option (Bytes × PayloadFormat))
    → Transition s (response_result p) waiting_update_or_query_request
unfolding response_result
response-Transition s none = responded s
response-Transition s (some p) = attested s

message-Transition :
    (s : AgentStatus) (msg : Message) → Transition s (result_code msg) (next_status s msg)
unfolding result_code next_status
message-Transition waiting_query_request (query_response r) =
    response-Transition waiting_query_request r.attestation_payload
message-Transition waiting_update_or_query_request (query_response r) =
    response-Transition waiting_update_or_query_request r.attestation_payload
message-Transition waiting_query_request (success_message m) = succeeded waiting_query_request
message-Transition waiting_update_or_query_request (success_message m) =
    succeeded waiting_update_or_query_request
message-Transition waiting_query_request (error_message m) = refused waiting_query_request
message-Transition waiting_update_or_query_request (error_message m) =
    refused waiting_update_or_query_request
message-Transition waiting_query_request (other_message n) = other waiting_query_request
message-Transition waiting_update_or_query_request (other_message n) =
    other waiting_update_or_query_request

release_fields :
    (msg : Message) (a : Agent)
    → ((release msg a).status ≡ a.status) × ((release msg a).suit ≡ a.suit)
unfolding release
release_fields (query_response r) a = (refl, refl)
release_fields (success_message m) a = (refl, refl)
release_fields (error_message m) a = (refl, refl)
release_fields (other_message n) a = (refl, refl)

-- `send` keeps the table and the report.
send_suit :
    (e : AgentCalls) (allocated_len : ℕ) (msg : Message) (a : Agent)
    → (send e allocated_len msg a).agent.suit ≡ a.suit
unfolding send signed encoded
send_suit e allocated_len msg a = by_cbor (e.encode_message msg)
  where
    moved : Agent
    moved = record a { status = next_status a.status msg }

    by_cose : (cose : Option Bytes) → (signed msg moved cose).agent.suit ≡ a.suit
    by_cose none = (release_fields msg moved).1
    by_cose (some b) = (release_fields msg moved).1

    by_cbor : (cbor : Option Bytes) → (encoded e allocated_len msg moved cbor).agent.suit ≡ a.suit
    by_cbor none = (release_fields msg moved).1
    by_cbor (some c) = by_cose (e.sign_cose_sign1 c allocated_len)

-- How `send` ends: with nothing sent, or with a signed message.
record Delivered (e : AgentCalls) (allocated_len : ℕ) (msg : Message) (s : AgentStatus)
    (o : EcallOutcome) : Type 0 where
  pub cbor : Bytes
  pub cose : Bytes
  pub encodes : e.encode_message msg ≡ some cbor
  pub signs : e.sign_cose_sign1 cbor allocated_len ≡ some cose
  pub sends : o.sent ≡ some cose
  pub coded : o.result ≡ result_code msg
  pub moves : o.agent.status ≡ next_status s msg

send_cases :
    (e : AgentCalls) (allocated_len : ℕ) (msg : Message) (a : Agent)
    → (((send e allocated_len msg a).result ≡ fatal) × ((send e allocated_len msg a).sent ≡ none))
      ⊎ Delivered e allocated_len msg a.status (send e allocated_len msg a)
unfolding send encoded signed
send_cases e allocated_len msg a = elim (Option-cases (e.encode_message msg)) [
  | inl unencoded ↦ inl (rw unencoded (refl, refl))
  | inr (cbor, en) ↦ elim (Option-cases (e.sign_cose_sign1 cbor allocated_len)) [
    | inl unsigned ↦ inl (rw (en, unsigned) (refl, refl))
    | inr (cose, si) ↦ inr (record {
      cbor = cbor;
      cose = cose;
      encodes = en;
      signs = si;
      sends = rw (en, si) refl;
      coded = rw (en, si) refl;
      moves = rw (en, si) (release_fields msg (record a { status = next_status a.status msg })).0;
    })
  ]
]

handle_status :
    (e : AgentCalls) (app_name : Buf) (m : RecvMessage) (a a' : Agent) (msg : Message)
    → handle e app_name m a ≡ some (msg, a')
    → a'.status ≡ a.status
unfolding handle update_in
handle_status e app_name (received_query_request q) a a' msg h = cc h
handle_status e app_name (received_update up) a a' msg h = by_status a.status h
  where
    by_status :
        (s : AgentStatus) → some (update_in e up a s) ≡ some (msg, a') → a'.status ≡ a.status
    by_status waiting_query_request h' = cc h'
    by_status waiting_update_or_query_request h' = cc h'
handle_status e app_name received_other a a' msg h = cc h

pub early_suit :
    (e : AgentCalls) (app_name : Buf) (up : Update) (a a' : Agent) (msg : Message)
    → a.status ≡ waiting_query_request
    → handle e app_name (received_update up) a ≡ some (msg, a')
    → a'.suit ≡ a.suit
unfolding handle update_in
early_suit e app_name up a a' msg waits h =
    ap (λ o. from_option o) (sym (ap (λ s. some (update_in e up a s)) (sym waits) ∙ h))
  where
    from_option : Option (Message × Agent) → SuitState
    from_option none = a.suit
    from_option (some (msg', b)) = b.suit

handle-IsTable :
    (e : AgentCalls) (app_name : Buf) (m : RecvMessage) (a a' : Agent) (msg : Message)
    → IsTable a.suit.table
    → handle e app_name m a ≡ some (msg, a')
    → IsTable a'.suit.table
unfolding handle update_in
handle-IsTable e app_name (received_query_request q) a a' msg v h =
    let same : a.suit ≡ a'.suit = cc h in subst (λ (s : SuitState). IsTable s.table) same v
handle-IsTable e app_name (received_update up) a a' msg v h = by_status a.status h
  where
    by_status :
        (s : AgentStatus) → some (update_in e up a s) ≡ some (msg, a') → IsTable a'.suit.table
    by_status waiting_query_request h' =
        let same : a.suit ≡ a'.suit = cc h' in subst (λ (s : SuitState). IsTable s.table) same v
    by_status waiting_update_or_query_request h' =
        let same : (process_update e.libteep e.update_calls up a.suit).1 ≡ a'.suit = cc h' in
        subst (λ (s : SuitState). IsTable s.table) same
          (process_update-IsTable e.libteep e.update_calls up a.suit v)
handle-IsTable e app_name received_other a a' msg v h = cc h

-- One of t_cose's checks of the signature accepts what is received, with the payload: the second one
-- is asked where the first one refuses.
pub data Authentic (e : AgentCalls) (recv : Bytes) : Bytes → Type 0 where
  by_sign1 : (payload : Bytes) → e.verify_cose_sign1 recv ≡ some payload → Authentic e recv payload
  by_sign :
      (payload : Bytes)
      → e.verify_cose_sign1 recv ≡ none
      → e.verify_cose_sign recv ≡ some payload
      → Authentic e recv payload

-- A call either fails where it stands, or sends the answer of the handler.
record Answered (e : AgentCalls) (recv : Bytes) (app_name : Buf) (a : Agent) : Type 0 where
  message : RecvMessage
  answer : Message
  agent : Agent
  ready : a.key_ready ≡ true
  authentic : decoded e (verified e recv (e.verify_cose_sign1 recv)) ≡ some message
  handles : handle e app_name message a ≡ some (answer, agent)

module _ (e : AgentCalls) (recv : Bytes) (app_name : Buf) (allocated_len : ℕ) (a : Agent) where
  abbrev outcome : EcallOutcome
  outcome = ecall_process_message e recv app_name allocated_len a

  ecall_cases :
      (outcome ≡ failed a)
      ⊎ ((w : Answered e recv app_name a) × (outcome ≡ send e allocated_len w.answer w.agent))
  unfolding ecall_process_message process_decoded handled
  ecall_cases = elim (Bool-cases a.key_ready) [
    | inr unready ↦ inl (ap gate unready)
    | inl key ↦ elim (Option-cases (decoded e (verified e recv (e.verify_cose_sign1 recv)))) [
      | inl bad ↦ inl (ap gate key ∙ ap (process_decoded e allocated_len app_name a) bad)
      | inr (m, good) ↦ elim (Option-cases (handle e app_name m a)) [
        | inl default ↦ inl (
            ap gate key
            ∙ ap (process_decoded e allocated_len app_name a) good
            ∙ ap (handled e allocated_len a) default)
        | inr ((msg, a'), h) ↦ inr (
          record {
            message = m;
            answer = msg;
            agent = a';
            ready = key;
            authentic = good;
            handles = h;
          },
          ap gate key
              ∙ ap (process_decoded e allocated_len app_name a) good
              ∙ ap (handled e allocated_len a) h,
        )
      ]
    ]
  ]
    where
      gate : Bool → EcallOutcome
      gate b =
          if not b
          then failed a
          else process_decoded e allocated_len app_name a
              (decoded e (verified e recv (e.verify_cose_sign1 recv)))

  -- The moves that a call which does not fail makes.
  pub ecall-Transition :
      outcome.result ≢ fatal → Transition a.status outcome.result outcome.agent.status
  ecall-Transition sends = elim ecall_cases [
    | inl stop ↦ absurd (sends (ap (λ o. o.result) stop))
    | inr (w, e') ↦ elim (send_cases e allocated_len w.answer w.agent) [
      | inl (stop, _) ↦ absurd (sends (ap (λ o. o.result) e' ∙ stop))
      | inr d ↦
          let same = handle_status e app_name w.message a w.agent w.answer w.handles in
          rw (e', d.coded, d.moves, same) (message-Transition a.status w.answer)
    ]
  ]

  -- What a call needs in order to send something.
  pub record Sent (b : Bytes) : Type 0 where
    pub ready : a.key_ready ≡ true
    pub payload : Bytes
    pub message : RecvMessage
    pub authentic : Authentic e recv payload
    pub decodes : e.set_message_from_bytes payload ≡ some message
    pub answer : Message
    pub agent : Agent
    pub handles : handle e app_name message a ≡ some (answer, agent)
    pub cbor : Bytes
    pub encodes : e.encode_message answer ≡ some cbor
    pub signs : e.sign_cose_sign1 cbor allocated_len ≡ some b
    pub coded : outcome.result ≡ result_code answer

  -- An Update in front of any QueryRequest changes neither the table nor the report.
  pub ecall_early :
      (up : Update)
      → decoded e (verified e recv (e.verify_cose_sign1 recv)) ≡ some (received_update up)
      → a.status ≡ waiting_query_request
      → outcome.agent.suit ≡ a.suit
  ecall_early up is_update waits = elim ecall_cases [
    | inl stop ↦ ap (λ o. o.agent.suit) stop
    | inr (w, e') ↦
        ap (λ o. o.agent.suit) e'
        ∙ send_suit e allocated_len w.answer w.agent
        ∙ early_suit e app_name up a w.agent w.answer waits (
            subst (λ m. handle e app_name m a ≡ some (w.answer, w.agent))
              (cc (w.authentic, is_update)) w.handles)
  ]

  -- No call, whatever it receives and however it ends, makes the table ill formed.
  pub ecall-IsTable : IsTable a.suit.table → IsTable outcome.agent.suit.table
  ecall-IsTable v = elim ecall_cases [
    | inl stop ↦ subst (λ o. IsTable o.agent.suit.table) (sym stop) v
    | inr (w, e') ↦
        subst (λ (s : SuitState). IsTable s.table)
          (sym (ap (λ o. o.agent.suit) e' ∙ send_suit e allocated_len w.answer w.agent))
          (handle-IsTable e app_name w.message a w.agent w.answer v w.handles)
  ]

  -- A call keeps the table and the report, where its handler would.
  pub ecall_suit :
      ((m : RecvMessage) (a' : Agent) (msg : Message)
        → a.key_ready ≡ true
        → decoded e (verified e recv (e.verify_cose_sign1 recv)) ≡ some m
        → handle e app_name m a ≡ some (msg, a')
        → a'.suit ≡ a.suit)
      → outcome.agent.suit ≡ a.suit
  ecall_suit keeps = elim ecall_cases [
    | inl stop ↦ ap (λ o. o.agent.suit) stop
    | inr (w, e') ↦
        ap (λ o. o.agent.suit) e'
        ∙ send_suit e allocated_len w.answer w.agent
        ∙ keeps w.message w.agent w.answer w.ready w.authentic w.handles
  ]
