-- ===== src/Query/Components.antt =====
-- Enclave/src/Enclave_process_message.cpp: the part of `process_query_request` on Trusted Components,
-- and what it puts into a response.
use taws.Base.{
  ℕ, suc, ◌+◌, ◌≡◌, ◌↔◌, ◌⊎◌, inl, inr, refl, sym, ap, ◌∙◌, ◌<◌, get_elem?, Bool, true, false, not,
  Option, none, some, List, [], ◌∷◌, length, arith, Bytes, Buf, is_empty, ltb, if◌then◌else◌,
  Status, success, failure,
}
use taws.TcManager.{Csuit, Table, TcListItem, TcListResult, get_tc_list, record_count, slot}
use taws.TcManager.TcList.{get_tc_list-Exported, tc_list_item-Fit}
use taws.Teep.{
  ErrCode, permanent_error, temporary_error, QueryRequest, QueryResponse, PayloadFormat,
}
use taws.Cbor.{Qcbor}
use taws.Query.Listing.{Entry, ListsAll, exported_entries}
use taws.Query.{
  QueryCalls, build_tc_info, build_tc_infos, tc_info_built, Step, goto_error, goes_on,
  empty_response, tc_infos_done, tc_list_got, add_tc_list, requested_encoded, add_requested,
  add_components,
}

-- A response `r` and a heap that come of `r0` by listing the records of `t`.
record Filled (q : Qcbor) (t : Table) (heap : ℕ) (r0 r : QueryResponse) (heap' : ℕ) : Type 0 where
  token : r.token ≡ r0.token
  version : r.selected_version ≡ r0.selected_version
  payload : r.attestation_payload ≡ r0.attestation_payload
  requested : r.requested_tc_list ≡ r0.requested_tc_list
  counted : r.tc_list_len ≡ record_count t
  listed : ListsAll q t r
  owned : heap' ≡ heap + r.tc_list_len

-- A response without a list.
pub record Blank (r : QueryResponse) : Type 0 where
  pub no_count : r.tc_list_len ≡ 0
  pub no_list : r.contains_tc_list ≡ false
  pub no_items : r.tc_list_items ≡ []

built_length :
    (o : Option Bytes) (rest : Bool × List Bytes) (n : ℕ)
    → (rest.0 ≡ true → length rest.1 ≡ n)
    → (tc_info_built o rest).0 ≡ true
    → length (tc_info_built o rest).1 ≡ suc n
built_length none rest n len h = cc h
built_length (some info) (done, infos) n len h = ap suc (len h)

infos_length :
    (c : Csuit) (q : Qcbor) (malloc : ℕ → Bool) (i : ℕ) (items : List TcListItem)
    → (build_tc_infos c q malloc i items).0 ≡ true
    → length (build_tc_infos c q malloc i items).1 ≡ length items
unfolding build_tc_infos
infos_length c q malloc i [] h = refl
infos_length c q malloc i (item ∷ items) h =
    built_length (build_tc_info c q (malloc i) item) (build_tc_infos c q malloc (suc i) items)
      (length items) (infos_length c q malloc (suc i) items) h

pub if_goes_on :
    (b : Bool) (code : ErrCode) (heap : ℕ) (y : Step) (r : QueryResponse) (heap' : ℕ)
    → (if b then goto_error code heap else y) ≡ goes_on r heap'
    → (b ≡ false) × (y ≡ goes_on r heap')
if_goes_on true code heap y r heap' h = cc h
if_goes_on false code heap y r heap' h = (refl, h)

skip_goes_on :
    (b : Bool) (r r' : QueryResponse) (heap heap' : ℕ) (y : Step)
    → (if not b then goes_on r heap else y) ≡ goes_on r' heap'
    → ((b ≡ false) × (r ≡ r') × (heap ≡ heap')) ⊎ ((b ≡ true) × (y ≡ goes_on r' heap'))
skip_goes_on true r r' heap heap' y h = inr (refl, h)
skip_goes_on false r r' heap heap' y h = inl (refl, cc h, cc h)

count_zero : (n : ℕ) → ltb 0 n ≡ false → n ≡ 0
count_zero n h = ground arith

module _ (c : Csuit) (q : Qcbor) (e : QueryCalls) (t : Table) (heap : ℕ) where
  -- The list that the loop made of the items, where it went through.
  abbrev Lists : Bool × List Bytes → Type 0
  Lists infos =
      infos.0 ≡ true
      → (i : ℕ) → i < record_count t
      → (info : Bytes) × (get_elem? infos.1 i ≡ some info) × Entry q (slot t i) info

  done-Filled :
      (r r' : QueryResponse) (heap' count : ℕ) (infos : Bool × List Bytes)
      → count ≡ record_count t
      → ltb 0 (record_count t) ≡ true
      → (infos.0 ≡ true → length infos.1 ≡ count)
      → Lists infos
      → tc_infos_done r heap count infos ≡ goes_on r' heap'
      → Filled q t heap r r' heap'
  unfolding tc_infos_done
  done-Filled r r' heap' count (true, infos) n some_record len lists h =
      let items : infos ≡ r'.tc_list_items = cc h in
      let flag : true ≡ r'.contains_tc_list = cc h in
      record {
        token = cc h;
        version = cc h;
        payload = cc h;
        requested = cc h;
        counted = cc (h, n);
        listed = record {
          flagged = sym flag ∙ sym some_record;
          complete = ap length (sym items) ∙ len refl ∙ n;
          entries = λ i lt.
              let (info, there, e') = lists refl i lt in
              (info, ap (λ l. get_elem? l i) (sym items) ∙ there, e');
        };
        owned = cc (h, len refl);
      }
  done-Filled r r' heap' count (false, infos) n some_record len lists h = cc h

  got-Filled :
      (r r' : QueryResponse) (heap' : ℕ) (res : TcListResult) (s : Status)
      → ltb 0 (record_count t) ≡ true
      → (s ≡ success → length res.out_items ≡ record_count t)
      → (s ≡ success → Lists (build_tc_infos c q e.malloc_tc_info 0 res.out_items))
      → tc_list_got c q e r heap res s ≡ goes_on r' heap'
      → Filled q t heap r r' heap'
  unfolding tc_list_got
  got-Filled r r' heap' res failure some_record n lists h = cc h
  got-Filled r r' heap' res success some_record n lists h =
      done-Filled r r' heap' (length res.out_items)
        (build_tc_infos c q e.malloc_tc_info 0 res.out_items) (n refl) some_record
        (infos_length c q e.malloc_tc_info 0 res.out_items) (lists refl) h

  listed-Filled :
      (r r' : QueryResponse) (heap' : ℕ)
      → add_tc_list c q e t r heap ≡ goes_on r' heap'
      → Blank r
      → Filled q t heap r r' heap'
  unfolding add_tc_list
  listed-Filled r r' heap' h blank =
      let (_, fits) =
        if_goes_on (ltb e.tc_list_capacity (record_count t)) permanent_error heap _ r' heap' h in
      elim (skip_goes_on (ltb 0 (record_count t)) r r' heap heap' _ fits) [
        | inl (no_record, same, same_heap) ↦
            let none_left = count_zero (record_count t) no_record in
            record {
              token = cc same;
              version = cc same;
              payload = cc same;
              requested = cc same;
              counted = cc (same, blank.no_count, none_left);
              listed = record {
                flagged = cc (same, blank.no_list, no_record);
                complete =
                    ap (λ (x : QueryResponse). length x.tc_list_items) (sym same)
                    ∙ ap length blank.no_items
                    ∙ sym none_left;
                entries = λ i lt. absurd (omega (arith, lt, none_left));
              };
              owned = still same same_heap;
            }
        | inr (some_record, go) ↦
            let (_, got) = if_goes_on (not e.malloc_tc_list) temporary_error heap _ r' heap' go in
            got-Filled r r' heap' res res.status some_record
              (λ good. (get_tc_list-Exported c true true (record_count t) t good).complete)
              (λ good. exported_entries c q e.malloc_tc_info t res.out_items (exports good)) got
      ]
    where
      res : TcListResult
      res = get_tc_list c true true (record_count t) t

      exports :
          res.status ≡ success
          → (i : ℕ) → i < record_count t
          → (x : TcListItem) × (record {
            component_id = (slot t i).wapp_name;
            tc_image_digest = (slot t i).wapp_hash;
          }
              ≡ x)
            × (get_elem? res.out_items i ≡ some x)
      exports good i lt =
          let (x, made, there) =
            (get_tc_list-Exported c true true (record_count t) t good).listed i lt in
          (x, (tc_list_item-Fit c (slot t i) x made).1, there)

      still : r ≡ r' → heap ≡ heap' → heap' ≡ heap + r'.tc_list_len
      still same same_heap =
          let len : r.tc_list_len ≡ r'.tc_list_len = cc same in
          omega (arith, len, same_heap, blank.no_count)

-- A response that comes of `r0` by the part on the components.
pub record Completed (q : Qcbor) (t : Table) (req : QueryRequest) (heap : ℕ) (r0 r : QueryResponse)
    (heap' : ℕ) : Type 0 where
  pub token : r.token ≡ r0.token
  pub version : r.selected_version ≡ r0.selected_version
  pub payload : r.attestation_payload ≡ r0.attestation_payload
  pub component_asked : (r.requested_tc_list ≡ none) ↔ (req.trusted_components ≡ false)
  pub counted : r.tc_list_len ≡ (if req.trusted_components then record_count t else 0)
  pub listed : req.trusted_components ≡ true → ListsAll q t r
  pub unlisted :
      req.trusted_components ≡ false → (r.contains_tc_list ≡ false) × (r.tc_list_items ≡ [])
  pub owned : heap' ≡ heap + r.tc_list_len

module _ (c : Csuit) (q : Qcbor) (e : QueryCalls) (t : Table) (heap : ℕ) where
  encoded-Filled :
      (r r' : QueryResponse) (heap' : ℕ) (id : Option Bytes)
      → requested_encoded c q e t r heap id ≡ goes_on r' heap'
      → Blank r
      → (b : Bytes) × Filled q t heap (record r { requested_tc_list = some b }) r' heap'
  unfolding requested_encoded
  encoded-Filled r r' heap' none h blank = cc h
  encoded-Filled r r' heap' (some b) h blank = (
    b,
    listed-Filled c q e t heap (record r { requested_tc_list = some b }) r' heap' h
        (record { no_count = blank.no_count; no_list = blank.no_list; no_items = blank.no_items }),
  )

  requested-Filled :
      (app_name : Buf) (tmp : ℕ) (r r' : QueryResponse) (heap' : ℕ)
      → add_requested c q e t app_name tmp r heap ≡ goes_on r' heap'
      → Blank r
      → (b : Bytes) × Filled q t heap (record r { requested_tc_list = some b }) r' heap'
  unfolding add_requested
  requested-Filled none tmp r r' heap' h blank = cc h
  requested-Filled (some name) tmp r r' heap' h blank =
      encoded-Filled r r' heap' _ (if_goes_on (is_empty name) permanent_error heap _ r' heap' h).1
        blank

  pub components-Completed :
      (app_name : Buf) (req : QueryRequest) (tmp : ℕ) (r r' : QueryResponse) (heap' : ℕ)
      → Blank r
      → r.requested_tc_list ≡ none
      → add_components c q e t app_name req tmp r heap ≡ goes_on r' heap'
      → Completed q t req heap r r' heap'
  unfolding add_components
  components-Completed app_name req tmp r r' heap' blank no_id h =
      by_flag req.trusted_components refl h
    where
      by_flag :
          (b : Bool)
          → req.trusted_components ≡ b
          → (if b then add_requested c q e t app_name tmp r heap else goes_on r heap)
            ≡ goes_on r' heap'
          → Completed q t req heap r r' heap'
      by_flag true asked h' =
          let (id, f) = requested-Filled app_name tmp r r' heap' h' blank in
          record {
            token = f.token;
            version = f.version;
            payload = f.payload;
            component_asked = (λ n. cc (n, f.requested), λ n. cc (n, asked));
            counted = rw asked f.counted;
            listed = λ _. f.listed;
            unlisted = λ n. cc (n, asked);
            owned = f.owned;
          }
      by_flag false asked h' = record {
        token = cc h';
        version = cc h';
        payload = cc h';
        component_asked = (λ n. asked, λ n. cc (h', no_id));
        counted = rw asked (cc (h', blank.no_count));
        listed = λ n. cc (n, asked);
        unlisted = λ _. (cc (h', blank.no_list), cc (h', blank.no_items));
        owned =
            let len : r.tc_list_len ≡ r'.tc_list_len = cc h' in
            let same : heap ≡ heap' = cc h' in omega (arith, len, same, blank.no_count);
      }

pub empty-Blank :
    (req : QueryRequest) (p : Option (Bytes × PayloadFormat))
    → Blank (record (empty_response req) { attestation_payload = p })
empty-Blank req p = record { no_count = refl; no_list = refl; no_items = refl }
