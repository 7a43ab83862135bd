-- ===== src/Query/Answers.antt =====
-- Enclave/src/Enclave_process_message.cpp: what `process_query_request` answers, and the buffers
-- that it leaves on the heap.
use taws.Base.{
  ℕ, ◌+◌, ◌≡◌, ◌≢◌, ◌↔◌, refl, ap, Bool, true, false, not, Option, none, some, [], arith, Bytes,
  Buf, if◌then◌else◌,
}
use taws.TcManager.{Csuit, Table, record_count}
use taws.Teep.{
  Libteep, supported_version, cipher_suite_invalid, unsupported_msg_version,
  unsupported_cipher_suites, QueryRequest, QueryResponse, query_response, error_message,
  create_error,
}
use taws.Cbor.{Qcbor}
use taws.Query.Versions.{
  Supports, version_found-Supports, SupportsSuite, Distinguishes, select-SupportsSuite,
}
use taws.Query.Listing.{ListsAll}
use taws.Query.{
  QueryCalls, Step, goto_error, goes_on, version_found, select_cipher_suite, empty_response,
  add_components, create_evidence, evidence_placed, attested, query_steps, answer,
  process_query_request,
}
use taws.Query.Components.{if_goes_on, components-Completed, empty-Blank}

-- What the answer `r` to a request has, and how many buffers it owns.
pub record Answers (l : Libteep) (q : Qcbor) (t : Table) (req : QueryRequest) (heap : ℕ)
    (r : QueryResponse) (heap' : ℕ) : Type 0 where
  pub version_supported : Supports req.versions
  pub suite_supported : SupportsSuite l req
  pub token : r.token ≡ (if req.contains_token then some req.token else none)
  pub version : r.selected_version ≡ supported_version
  pub payload_asked : (r.attestation_payload ≡ none) ↔ (req.attestation ≡ false)
  pub component_asked : (r.requested_tc_list ≡ none) ↔ (req.trusted_components ≡ false)
  pub counted : r.tc_list_len ≡ (if req.trusted_components then record_count t else 0)
  pub listed : req.trusted_components ≡ true → ListsAll q t r
  pub unlisted :
      req.trusted_components ≡ false → (r.contains_tc_list ≡ false) × (r.tc_list_items ≡ [])
  pub owned : heap' ≡ heap + r.tc_list_len

attested-Answers :
    (l : Libteep) (c : Csuit) (q : Qcbor) (e : QueryCalls) (t : Table) (app_name : Buf)
    (req : QueryRequest) (heap : ℕ) (r : QueryResponse) (heap' : ℕ)
    → Supports req.versions
    → SupportsSuite l req
    → (asked : Bool) → req.attestation ≡ asked
    → (if asked
        then attested c q e t app_name req heap (evidence_placed q e (create_evidence e req))
        else add_components c q e t app_name req e.work_buf_len (empty_response req) heap)
      ≡ goes_on r heap'
    → Answers l q t req heap r heap'
unfolding attested
attested-Answers l c q e t app_name req heap r heap' vs ss true asked h =
    by_evidence (evidence_placed q e (create_evidence e req)) h
  where
    by_evidence :
        (o : Option (Bytes × ℕ))
        → attested c q e t app_name req heap o ≡ goes_on r heap'
        → Answers l q t req heap r heap'
    by_evidence none h' = cc h'
    by_evidence (some (eat, tmp)) h' =
        let f =
          components-Completed c q e t heap app_name req tmp _ r heap' (empty-Blank req _) refl
            h' in
        record {
          version_supported = vs;
          suite_supported = ss;
          token = f.token;
          version = f.version;
          payload_asked = (λ n. cc (n, f.payload), λ n. cc (n, asked));
          component_asked = f.component_asked;
          counted = f.counted;
          listed = f.listed;
          unlisted = f.unlisted;
          owned = f.owned;
        }
attested-Answers l c q e t app_name req heap r heap' vs ss false asked h =
    let f =
      components-Completed c q e t heap app_name req e.work_buf_len (empty_response req) r heap'
        (empty-Blank req _) refl h in
    record {
      version_supported = vs;
      suite_supported = ss;
      token = f.token;
      version = f.version;
      payload_asked = (λ n. asked, λ n. f.payload);
      component_asked = f.component_asked;
      counted = f.counted;
      listed = f.listed;
      unlisted = f.unlisted;
      owned = f.owned;
    }

pub answer_response :
    (l : Libteep) (req : QueryRequest) (step : Step) (r : QueryResponse) (heap' : ℕ)
    → answer l req step ≡ (query_response r, heap')
    → step ≡ goes_on r heap'
unfolding answer
answer_response l req (goto_error code heap) r heap' h = absurd (different (ap (λ p. p.0) h))
  where
    different : error_message (create_error l req.token code none none) ≢ query_response r
    different e = cc e
answer_response l req (goes_on r0 heap) r heap' h = cc h

-- A QueryResponse answers a request of a supported version and cipher suite. It repeats the token,
-- has evidence exactly if attestation is requested and names a component exactly if components
-- are, and then its list has, for each record of the table in order, QCBOR's encoding of the
-- record's name and hash, and it is flagged as a list unless the table is empty. It owns one new
-- buffer for each of them. libteep tells the supported suite and the invalid one apart.
pub process_query_request-Answers :
    (l : Libteep) (c : Csuit) (q : Qcbor) (e : QueryCalls) (t : Table) (app_name : Buf)
    (req : QueryRequest) (heap : ℕ) (r : QueryResponse) (heap' : ℕ)
    → Distinguishes l
    → process_query_request l c q e t app_name req heap ≡ (query_response r, heap')
    → Answers l q t req heap r heap'
unfolding process_query_request query_steps
process_query_request-Answers l c q e t app_name req heap r heap' d h =
    let (vs, h1) =
      if_goes_on (not (version_found req.versions)) unsupported_msg_version heap _ r heap' went in
    let (ss, h2) =
      if_goes_on (l.cipher_suite_is_same (select_cipher_suite l req) (cipher_suite_invalid l))
        unsupported_cipher_suites heap _ r heap' h1 in
    attested-Answers l c q e t app_name req heap r heap'
      ((version_found-Supports req.versions).0 (ground (arith, vs)))
      ((select-SupportsSuite l req d).0 ss) req.attestation refl h2
  where
    went : query_steps l c q e t app_name req heap ≡ goes_on r heap'
    went = answer_response l req (query_steps l c q e t app_name req heap) r heap' h
