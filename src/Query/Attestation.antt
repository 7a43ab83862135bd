-- ===== src/Query/Attestation.antt =====
-- Enclave/src/Enclave_process_message.cpp and Enclave/src/Enclave_generate_evidence.cpp: what the
-- evidence in a QueryResponse shows.
use taws.Base.{
  ℕ, ◌≡◌, ◌<◌, ◌^◌, refl, sym, ap, subst, ◌∙◌, Bool, true, false, not, Option, none, some, length,
  Bytes, Buf, if◌then◌else◌, ok, to_option, to_option-eq-some,
}
use taws.Cbor.{Qcbor}
use taws.TcManager.{Csuit, Table}
use taws.Teep.{
  Libteep, QueryRequest, QueryResponse, PayloadFormat, sgx_quote3_teep_bundle, eat_cwt,
  query_response, cipher_suite_invalid, unsupported_msg_version, unsupported_cipher_suites,
}
use taws.Evidence.{get_query_challenge}
use taws.Evidence.Dcap.{create_evidence_dcap_envelope}
use taws.Evidence.Generic.{create_evidence_generic}
use taws.Evidence.Binding.{Bound, envelope-Bound}
use taws.Evidence.Claims.{Claimed, generic-Claimed}
use taws.Query.{
  QueryCalls, goes_on, version_found, select_cipher_suite, empty_response, add_components,
  payload_format, create_evidence, tail_left, evidence_placed, attested, query_steps,
  process_query_request,
}
use taws.Query.Components.{if_goes_on, components-Completed, empty-Blank}
use taws.Query.Answers.{answer_response}

-- The evidence `eat` of a format speaks of the agent's key and the request's challenge.
pub data Attests (e : QueryCalls) (req : QueryRequest) (eat : Bytes) : PayloadFormat → Type 0 where
  bound :
      e.sgx_evidence ≡ true
      → Bound e.evidence req e.work_buf_len e.agent_key eat
      → Attests e req eat sgx_quote3_teep_bundle
  claimed :
      e.sgx_evidence ≡ false
      → Claimed e.evidence req e.work_buf_len e.agent_key eat
      → Attests e req eat eat_cwt

module _ (e : QueryCalls) (req : QueryRequest) {eat : Bytes} where
  evidence-Attests :
      e.evidence.public_key_length ≡ 65
      → ((challenge : Bytes)
          → get_query_challenge req.challenge ≡ ok challenge
          → length challenge < 2 ^ 32)
      → create_evidence e req ≡ some eat
      → Attests e req eat (payload_format e.sgx_evidence)
  unfolding create_evidence
  evidence-Attests l small h = by_kind e.sgx_evidence refl h
    where
      by_kind :
          (b : Bool)
          → e.sgx_evidence ≡ b
          → (if b
              then to_option
                  (create_evidence_dcap_envelope e.evidence req (some e.work_buf_len) e.agent_key)
              else to_option
                  (create_evidence_generic e.evidence req (some e.work_buf_len) e.agent_key 0).0)
            ≡ some eat
          → Attests e req eat (payload_format b)
      by_kind true dcap h' = bound dcap (
          envelope-Bound e.evidence req e.work_buf_len e.agent_key l small (to_option-eq-some _ h'))
      by_kind false generic h' =
          claimed generic
            (generic-Claimed e.evidence req e.work_buf_len e.agent_key 0 l (to_option-eq-some _ h'))

  placed_eq :
      (q : Qcbor) (made : Option Bytes) (tmp : ℕ)
      → evidence_placed q e made ≡ some (eat, tmp)
      → made ≡ some eat
  unfolding evidence_placed
  placed_eq q none tmp h = cc h
  placed_eq q (some eat') tmp h = by_tail (q.slice_tail e.work_buf_len eat') h
    where
      by_tail : (o : Option ℕ) → tail_left eat' o ≡ some (eat, tmp) → some eat' ≡ some eat
      by_tail none h' = cc h'
      by_tail (some left) h' = cc h'

-- A payload in the response was placed as evidence.
payload_placed :
    (c : Csuit) (q : Qcbor) (e : QueryCalls) (t : Table) (app_name : Buf) (req : QueryRequest)
    (heap : ℕ) (r : QueryResponse) (heap' : ℕ) (eat : Bytes) (format : PayloadFormat) (asked : Bool)
    → (if asked
        then attested c q e t app_name req heap (evidence_placed q e (create_evidence e req))
        else add_components c q e t app_name req e.work_buf_len (empty_response req) heap)
      ≡ goes_on r heap'
    → r.attestation_payload ≡ some (eat, format)
    → (tmp : ℕ) × (evidence_placed q e (create_evidence e req) ≡ some (eat, tmp))
      × (payload_format e.sgx_evidence ≡ format)
unfolding attested
payload_placed c q e t app_name req heap r heap' eat format true h payload =
    by_evidence (evidence_placed q e (create_evidence e req)) h
  where
    by_evidence :
        (o : Option (Bytes × ℕ))
        → attested c q e t app_name req heap o ≡ goes_on r heap'
        → (tmp : ℕ) × (o ≡ some (eat, tmp)) × (payload_format e.sgx_evidence ≡ format)
    by_evidence none h' = cc h'
    by_evidence (some (eat', tmp)) h' =
        let f =
          components-Completed c q e t heap app_name req tmp _ r heap' (empty-Blank req _) refl
            h' in
        let same = sym f.payload ∙ payload in
        let eat_eq : eat' ≡ eat = cc same in
        let format_eq : payload_format e.sgx_evidence ≡ format = cc same in
        (tmp, ap (λ b. some (b, tmp)) eat_eq, format_eq)
payload_placed c q e t app_name req heap r heap' eat format false h payload =
    let f =
      components-Completed c q e t heap app_name req e.work_buf_len (empty_response req) r heap'
        (empty-Blank req _) refl h in
    cc (f.payload, payload)

-- Evidence in a QueryResponse is bound to the agent's key and to the challenge of the request: DCAP
-- evidence is an array of a quote over the digest of both and of these data themselves, and generic
-- evidence is a message signed by the attester's key whose claims confirm the key and repeat the
-- challenge. It holds where a public key has 65 bytes and the challenge fewer than 2^32.
pub process_query_request-Attests :
    (l : Libteep) (c : Csuit) (q : Qcbor) (e : QueryCalls) (t : Table) (app_name : Buf)
    (req : QueryRequest) (heap : ℕ) (r : QueryResponse) (heap' : ℕ) (eat : Bytes)
    (format : PayloadFormat)
    → e.evidence.public_key_length ≡ 65
    → ((challenge : Bytes)
        → get_query_challenge req.challenge ≡ ok challenge
        → length challenge < 2 ^ 32)
    → process_query_request l c q e t app_name req heap ≡ (query_response r, heap')
    → r.attestation_payload ≡ some (eat, format)
    → Attests e req eat format
unfolding process_query_request query_steps
process_query_request-Attests l c q e t app_name req heap r heap' eat format sized small h payload =
    let went = answer_response l req (query_steps l c q e t app_name req heap) r heap' h in
    let (_, h1) =
      if_goes_on (not (version_found req.versions)) unsupported_msg_version heap _ r heap' went in
    let (_, h2) =
      if_goes_on (l.cipher_suite_is_same (select_cipher_suite l req) (cipher_suite_invalid l))
        unsupported_cipher_suites heap _ r heap' h1 in
    let (tmp, placed, same) =
      payload_placed c q e t app_name req heap r heap' eat format req.attestation h2 payload in
    subst (Attests e req eat) same
      (evidence-Attests e req sized small (placed_eq e req q (create_evidence e req) tmp placed))
