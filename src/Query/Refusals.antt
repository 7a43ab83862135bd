-- ===== src/Query/Refusals.antt =====
-- Enclave/src/Enclave_process_message.cpp: with which code `process_query_request` refuses.
use taws.Base.{
  ℕ, ◌≡◌, ◌≢◌, ◌↔◌, refl, ap, ◌∙◌, Bool, true, false, not, Option, none, some, List, ltb,
  if◌then◌else◌, Bytes, Buf, is_empty, Status, success, failure,
}
use taws.TcManager.{Csuit, Table, TcListResult, get_tc_list, record_count}
use taws.Teep.{
  Libteep, cipher_suite_invalid, ErrCode, permanent_error, temporary_error, unsupported_msg_version,
  unsupported_cipher_suites, QueryRequest, QueryResponse, Message, query_response, error_message,
  Error, create_error,
}
use taws.Cbor.{Qcbor}
use taws.Query.Versions.{
  Supports, version_found-Supports, SupportsSuite, Distinguishes, select-SupportsSuite, refuted_iff,
  refused_iff,
}
use taws.Query.{
  QueryCalls, Step, goto_error, goes_on, version_found, select_cipher_suite, empty_response,
  tc_infos_done, tc_list_got, add_tc_list, requested_encoded, add_requested, add_components,
  create_evidence, evidence_placed, attested, query_steps, answer, process_query_request,
  build_tc_infos,
}

-- A step that does not refuse for the version or the cipher suite.
record Late (step : Step) : Type 0 where
  not_version : (heap : ℕ) → step ≢ goto_error unsupported_msg_version heap
  not_suite : (heap : ℕ) → step ≢ goto_error unsupported_cipher_suites heap

permanent-Late : (heap : ℕ) → Late (goto_error permanent_error heap)
permanent-Late heap = record { not_version = λ _ e. cc e; not_suite = λ _ e. cc e }

temporary-Late : (heap : ℕ) → Late (goto_error temporary_error heap)
temporary-Late heap = record { not_version = λ _ e. cc e; not_suite = λ _ e. cc e }

goes_on-Late : (r : QueryResponse) (heap : ℕ) → Late (goes_on r heap)
goes_on-Late r heap = record { not_version = λ _ e. cc e; not_suite = λ _ e. cc e }

if-Late : (b : Bool) (x y : Step) → Late x → Late y → Late (if b then x else y)
if-Late true x y lx ly = lx
if-Late false x y lx ly = ly

module _ (c : Csuit) (q : Qcbor) (e : QueryCalls) (t : Table) (heap : ℕ) where
  done-Late :
      (r : QueryResponse) (count : ℕ) (infos : Bool × List Bytes)
      → Late (tc_infos_done r heap count infos)
  unfolding tc_infos_done
  done-Late r count (true, infos) = goes_on-Late _ _
  done-Late r count (false, infos) = temporary-Late _

  got-Late :
      (r : QueryResponse) (res : TcListResult) (s : Status) → Late (tc_list_got c q e r heap res s)
  unfolding tc_list_got
  got-Late r res failure = temporary-Late heap
  got-Late r res success = done-Late r _ (build_tc_infos c q e.malloc_tc_info 0 res.out_items)

  listed-Late : (r : QueryResponse) → Late (add_tc_list c q e t r heap)
  unfolding add_tc_list
  listed-Late r =
      if-Late (ltb e.tc_list_capacity (record_count t)) (goto_error permanent_error heap) _
        (permanent-Late heap)
        (if-Late (not (ltb 0 (record_count t))) (goes_on r heap) _ (goes_on-Late r heap) (
          if-Late (not e.malloc_tc_list) (goto_error temporary_error heap) _ (temporary-Late heap)
            (got-Late r (get_tc_list c true true (record_count t) t) _)))

  encoded-Late :
      (r : QueryResponse) (id : Option Bytes) → Late (requested_encoded c q e t r heap id)
  unfolding requested_encoded
  encoded-Late r none = temporary-Late heap
  encoded-Late r (some id) = listed-Late (record r { requested_tc_list = some id })

  requested-Late :
      (app_name : Buf) (tmp : ℕ) (r : QueryResponse)
      → Late (add_requested c q e t app_name tmp r heap)
  unfolding add_requested
  requested-Late none tmp r = permanent-Late heap
  requested-Late (some name) tmp r =
      if-Late (is_empty name) (goto_error permanent_error heap) _ (permanent-Late heap)
        (encoded-Late r _)

  components-Late :
      (app_name : Buf) (req : QueryRequest) (tmp : ℕ) (r : QueryResponse)
      → Late (add_components c q e t app_name req tmp r heap)
  unfolding add_components
  components-Late app_name req tmp r =
      if-Late req.trusted_components _ (goes_on r heap) (requested-Late app_name tmp r)
        (goes_on-Late r heap)

  attested-Late :
      (app_name : Buf) (req : QueryRequest) (o : Option (Bytes × ℕ))
      → Late (attested c q e t app_name req heap o)
  unfolding attested
  attested-Late app_name req none = temporary-Late heap
  attested-Late app_name req (some (eat, tmp)) = components-Late app_name req tmp _

  -- What follows the choice of the cipher suite.
  rest-Late :
      (app_name : Buf) (req : QueryRequest)
      → Late (
          if req.attestation
          then attested c q e t app_name req heap (evidence_placed q e (create_evidence e req))
          else add_components c q e t app_name req e.work_buf_len (empty_response req) heap)
  rest-Late app_name req =
      if-Late req.attestation _ _
        (attested-Late app_name req (evidence_placed q e (create_evidence e req)))
        (components-Late app_name req e.work_buf_len (empty_response req))

-- A message that is an error of a code.
pub Refuses : ErrCode → Message → Type 0
Refuses code msg = (err : Error) × (msg ≡ error_message err) × (err.err_code ≡ code)

Stops : ErrCode → Step → Type 0
Stops code step = (heap : ℕ) × (step ≡ goto_error code heap)

answer-Refuses :
    (l : Libteep) (req : QueryRequest) (code : ErrCode) (step : Step)
    → Refuses code (answer l req step).0 ↔ Stops code step
unfolding answer create_error Refuses Stops
answer-Refuses l req code (goto_error code' heap) = (
  λ (err, same, coded).
      let same_code : code' ≡ err.err_code = cc same in
      (heap, ap (λ x. goto_error x heap) (same_code ∙ coded)),
  λ (heap', stop).
      let same_code : code' ≡ code = cc stop in
      (create_error l req.token code' none none, refl, same_code),
)
answer-Refuses l req code (goes_on r heap) =
    (λ (err, same, coded). absurd (different err same), λ (heap', stop). cc stop)
  where
    different : (err : Error) → query_response r ≢ error_message err
    different err e = cc e

-- The two refusals of a request.
pub record Refusals (l : Libteep) (req : QueryRequest) (msg : Message) : Type 0 where
  pub by_version : Refuses unsupported_msg_version msg ↔ (¬ Supports req.versions)
  pub by_suite :
      Refuses unsupported_cipher_suites msg ↔ (Supports req.versions × (¬ SupportsSuite l req))

guards :
    (versions suites : Bool) (heap : ℕ) (rest : Step)
    → Late rest
    → (Stops unsupported_msg_version (
          if not versions
          then goto_error unsupported_msg_version heap
          else if suites
          then goto_error unsupported_cipher_suites heap
          else rest)
        ↔ (versions ≡ false))
      × (Stops unsupported_cipher_suites (
            if not versions
            then goto_error unsupported_msg_version heap
            else if suites
            then goto_error unsupported_cipher_suites heap
            else rest)
          ↔ ((versions ≡ true) × (suites ≡ true)))
unfolding Stops
guards false suites heap rest late =
    ((λ _. refl, λ _. (heap, refl)), (λ (h, stop). cc stop, λ (v, s). cc v))
guards true true heap rest late =
    ((λ (h, stop). cc stop, λ v. cc v), (λ _. (refl, refl), λ _. (heap, refl)))
guards true false heap rest late = (
  (λ (h, stop). absurd (late.not_version h stop), λ v. cc v),
  (λ (h, stop). absurd (late.not_suite h stop), λ (v, s). cc s),
)

-- A request is refused with the code for the version exactly if it lists versions and the supported
-- one is not among them, and with the code for the cipher suite exactly if the version is supported
-- and it has a list of cipher suites in which none is the same as the supported one, whatever else it
-- asks for. libteep tells the supported suite and the invalid one apart.
pub process_query_request-Refusals :
    (l : Libteep) (c : Csuit) (q : Qcbor) (e : QueryCalls) (t : Table) (app_name : Buf)
    (req : QueryRequest) (heap : ℕ)
    → Distinguishes l
    → Refusals l req (process_query_request l c q e t app_name req heap).0
unfolding process_query_request query_steps
process_query_request-Refusals l c q e t app_name req heap d =
    let found = version_found req.versions in
    let bad_suite = l.cipher_suite_is_same (select_cipher_suite l req) (cipher_suite_invalid l) in
    let (versions, suites) = guards found bad_suite heap _ (rest-Late c q e t heap app_name req) in
    let step = query_steps l c q e t app_name req heap in
    let (ver_to, ver_from) = answer-Refuses l req unsupported_msg_version step in
    let (suite_to, suite_from) = answer-Refuses l req unsupported_cipher_suites step in
    let (supports, is_found) = version_found-Supports req.versions in
    let (lacks, not_found) = refuted_iff found (version_found-Supports req.versions) in
    let (no_suite, is_bad) = refused_iff bad_suite (select-SupportsSuite l req d) in
    record {
      by_version = (λ r. lacks (versions.0 (ver_to r)), λ n. ver_from (versions.1 (not_found n)));
      by_suite = (
        λ r. let (v, s) = suites.0 (suite_to r) in (supports v, no_suite s),
        λ (v, n). suite_from (suites.1 (is_found v, is_bad n)),
      );
    }
