-- ===== src/Query.antt =====
-- Enclave/src/Enclave_process_message.cpp: `process_query_request` and the CBOR of the list of
-- Trusted Components. The heap is the number of live tc-info buffers.
pub mod Versions
pub mod Listing
pub mod Components
pub mod Answers
pub mod Refusals
pub mod Attestation
mod Tests
use taws.Base.{
  ℕ, zero, suc, ◌+◌, ◌-◌, ℤ, Bool, true, false, not, ◌&&◌, ◌||◌, Option, none, some, List, [], ◌∷◌,
  ltb, leb, ◌==◌, if◌then◌else◌, length, min, Bytes, is_empty, Buf, to_option, Status, success,
  failure,
}
use taws.Cbor.{
  Qcbor, QcborOp, open_map, close_map, open_array, close_array, close_bstr_wrap,
  open_array_in_map_n, bstr_wrap_in_map_n, add_bytes, add_int64,
}
use taws.TcManager.{
  Csuit, Table, TcListItem, component_id_max_len, record_count, get_tc_list, TcListResult,
}
use taws.Evidence.{EvidenceCalls, TeepKey}
use taws.Evidence.Dcap.{create_evidence_dcap_envelope}
use taws.Evidence.Generic.{create_evidence_generic}
use taws.Teep.{
  Libteep, supported_version, CipherSuite, supported_cipher_suite, cipher_suite_invalid, ErrCode,
  permanent_error, temporary_error, unsupported_msg_version, unsupported_cipher_suites,
  QueryRequest, QueryResponse, PayloadFormat, sgx_quote3_teep_bundle, eat_cwt, Message,
  query_response, error_message, create_error,
}

-- The rest of what `process_query_request` calls, and the agent's key.
pub record QueryCalls : Type 0 where
  pub sgx_evidence : Bool  -- SGX_EVIDENCE
  pub evidence : EvidenceCalls
  pub agent_key : Option TeepKey
  pub malloc_tc_list : Bool
  pub malloc_tc_info : ℕ → Bool  -- the buffer of the item at an index
  pub tc_list_capacity : ℕ  -- the size of `tc_list.items`
  pub work_buf_len : ℕ

-- `encode_tc_info_map`
pub encode_tc_info_map : TcListItem → List QcborOp
encode_tc_info_map item =
    open_map
    ∷ open_array_in_map_n (ℤ.pos 0)
    ∷ add_bytes item.component_id
    ∷ close_array
    ∷ bstr_wrap_in_map_n (ℤ.pos 3)
    ∷ open_array
    ∷ add_int64 (ℤ.negsuc 15)
    ∷ add_bytes item.tc_image_digest
    ∷ close_array
    ∷ close_bstr_wrap
    ∷ close_map
    ∷ []

second_pass : Qcbor → Bool → TcListItem → Option ℕ → Option Bytes
second_pass q block item none = none
second_pass q block item (some size) =
    if size == 0 then none else if not block then none else q.finish size (encode_tc_info_map item)

-- `build_tc_info_cbor_from_tc_list_item`; a buffer that is not returned is freed.
unfoldable pub build_tc_info : Csuit → Qcbor → Bool → TcListItem → Option Bytes
unfolding second_pass
build_tc_info c q block item =
    if length item.component_id == 0 || ltb (component_id_max_len c) (length item.component_id)
    then none
    else second_pass q block item (q.finish_get_size (encode_tc_info_map item))

-- The loop over the items: what it wrote, and whether it went through.
abbrev tc_info_built : Option Bytes → Bool × List Bytes → Bool × List Bytes
tc_info_built none rest = (false, [])
tc_info_built (some tc_info) (done, written) = (done, tc_info ∷ written)

unfoldable pub build_tc_infos : Csuit → Qcbor → (ℕ → Bool) → ℕ → List TcListItem → Bool × List Bytes
build_tc_infos c q malloc i [] = (true, [])
build_tc_infos c q malloc i (item ∷ items) =
    tc_info_built (build_tc_info c q (malloc i) item) (build_tc_infos c q malloc (suc i) items)

-- `free_query_response_tc_list_buffers`: the heap and the response afterwards.
unfoldable pub free_tc_list_buffers : ℕ → QueryResponse → ℕ × QueryResponse
free_tc_list_buffers heap r = (heap - r.tc_list_len, record r { tc_list_len = 0 })

-- A step of the handler jumps to `error`, or goes on. Both leave a heap.
pub data Step : Type 0 where
  goto_error : ErrCode → ℕ → Step
  goes_on : QueryResponse → ℕ → Step

-- Does the TEEP agent take part in the version that the request asks for?
abbrev contains_version : List ℕ → Bool
contains_version [] = false
contains_version (v ∷ vs) = v == supported_version || contains_version vs

unfoldable pub version_found : Option (List ℕ) → Bool
version_found none = true
version_found (some vs) = contains_version vs

find_cipher_suite : Libteep → CipherSuite → List CipherSuite → CipherSuite
find_cipher_suite l chosen [] = chosen
find_cipher_suite l chosen (s ∷ ss) =
    let rest = find_cipher_suite l chosen ss in
    if l.cipher_suite_is_same s (supported_cipher_suite l) then supported_cipher_suite l else rest

unfoldable pub select_cipher_suite : Libteep → QueryRequest → CipherSuite
unfolding find_cipher_suite
select_cipher_suite l q =
    find_cipher_suite l
      (if not q.contains_cipher_suites then supported_cipher_suite l else cipher_suite_invalid l)
      q.cipher_suites

-- The response after `memset` and up to the evidence.
abbrev empty_response : QueryRequest → QueryResponse
empty_response q = record {
  token = if q.contains_token then some q.token else none;
  selected_version = supported_version;
  attestation_payload = none;
  requested_tc_list = none;
  contains_tc_list = false;
  tc_list_items = [];
  tc_list_len = 0;
}

tc_infos_done : QueryResponse → ℕ → ℕ → Bool × List Bytes → Step
unfolding free_tc_list_buffers
tc_infos_done r heap count (true, infos) =
    goes_on (record r { contains_tc_list = true; tc_list_items = infos; tc_list_len = count })
      (heap + length infos)
tc_infos_done r heap count (false, infos) =
    let (heap', r') =
      free_tc_list_buffers (heap + length infos) (record r { tc_list_items = infos }) in
    goto_error temporary_error heap'

tc_list_got : Csuit → Qcbor → QueryCalls → QueryResponse → ℕ → TcListResult → Status → Step
tc_list_got c q e r heap res failure = goto_error temporary_error heap
tc_list_got c q e r heap res success =
    tc_infos_done r heap (length res.out_items)
      (build_tc_infos c q e.malloc_tc_info 0 res.out_items)

add_tc_list : Csuit → Qcbor → QueryCalls → Table → QueryResponse → ℕ → Step
unfolding tc_infos_done
add_tc_list c q e t r heap =
    if ltb e.tc_list_capacity (record_count t)
    then goto_error permanent_error heap
    else if not (ltb 0 (record_count t))
    then goes_on r heap
    else if not e.malloc_tc_list
    then goto_error temporary_error heap
    else let res = get_tc_list c true true (record_count t) t in
      tc_list_got c q e r heap res res.status

requested_encoded : Csuit → Qcbor → QueryCalls → Table → QueryResponse → ℕ → Option Bytes → Step
unfolding add_tc_list tc_list_got
requested_encoded c q e t r heap none = goto_error temporary_error heap
requested_encoded c q e t r heap (some id) =
    add_tc_list c q e t (record r { requested_tc_list = some id }) heap

-- `app_name` is `none` where the pointer is NULL.
add_requested : Csuit → Qcbor → QueryCalls → Table → Buf → ℕ → QueryResponse → ℕ → Step
unfolding requested_encoded
add_requested c q e t none tmp r heap = goto_error permanent_error heap
add_requested c q e t (some name) tmp r heap =
    if is_empty name
    then goto_error permanent_error heap
    else requested_encoded c q e t r heap
        (q.finish tmp (open_array ∷ add_bytes name ∷ close_array ∷ []))

-- `trusted_components`, once `tmp` bytes of the work buffer are left.
unfoldable pub add_components :
    Csuit → Qcbor → QueryCalls → Table → Buf → QueryRequest → ℕ → QueryResponse → ℕ → Step
unfolding add_requested
add_components c q e t app_name req tmp r heap =
    if req.trusted_components then add_requested c q e t app_name tmp r heap else goes_on r heap

abbrev payload_format : Bool → PayloadFormat
payload_format true = sgx_quote3_teep_bundle
payload_format false = eat_cwt

unfoldable pub create_evidence : QueryCalls → QueryRequest → Option Bytes
create_evidence e req =
    if e.sgx_evidence
    then to_option (create_evidence_dcap_envelope e.evidence req (some e.work_buf_len) e.agent_key)
    else to_option (create_evidence_generic e.evidence req (some e.work_buf_len) e.agent_key 0).0

abbrev tail_left : Bytes → Option ℕ → Option (Bytes × ℕ)
tail_left eat none = none
tail_left eat (some tmp) = some (eat, tmp)

-- The evidence, and what it leaves of the work buffer.
unfoldable pub evidence_placed : Qcbor → QueryCalls → Option Bytes → Option (Bytes × ℕ)
evidence_placed q e none = none
evidence_placed q e (some eat) = tail_left eat (q.slice_tail e.work_buf_len eat)

unfoldable pub attested :
    Csuit → Qcbor → QueryCalls → Table → Buf → QueryRequest → ℕ → Option (Bytes × ℕ) → Step
attested c q e t app_name req heap none = goto_error temporary_error heap
attested c q e t app_name req heap (some (eat, tmp)) =
    add_components c q e t app_name req tmp
      (record (empty_response req) {
        attestation_payload = some (eat, payload_format e.sgx_evidence);
      })
      heap

unfoldable pub query_steps :
    Libteep → Csuit → Qcbor → QueryCalls → Table → Buf → QueryRequest → ℕ → Step
unfolding attested
query_steps l c q e t app_name req heap =
    if not (version_found req.versions)
    then goto_error unsupported_msg_version heap
    else if l.cipher_suite_is_same (select_cipher_suite l req) (cipher_suite_invalid l)
    then goto_error unsupported_cipher_suites heap
    else if req.attestation
    then attested c q e t app_name req heap (evidence_placed q e (create_evidence e req))
    else add_components c q e t app_name req e.work_buf_len (empty_response req) heap

pub answer : Libteep → QueryRequest → Step → Message × ℕ
answer l req (goto_error code heap) =
    (error_message (create_error l req.token code none none), heap)
answer l req (goes_on r heap) = (query_response r, heap)

-- `process_query_request`: the message, and the heap. It returns TEEP_SUCCESS always.
unfoldable pub process_query_request :
    Libteep → Csuit → Qcbor → QueryCalls → Table → Buf → QueryRequest → ℕ → Message × ℕ
unfolding answer
process_query_request l c q e t app_name req heap =
    answer l req (query_steps l c q e t app_name req heap)
