-- ===== src/Query/Listing.antt =====
-- Enclave/src/Enclave_process_message.cpp and Enclave/src/tc_manager.cpp: the list of Trusted
-- Components in a response.
use taws.Base.{
  ℕ, zero, suc, ◌<◌, ◌≡◌, refl, sym, ap, ◌∙◌, ℤ, Bool, true, false, not, ◌||◌, Option, none, some,
  List, [], ◌∷◌, length, get_elem?, ltb, ◌==◌, if◌then◌else◌, Bytes,
}
use taws.Cbor.{
  Qcbor, Cbor, int, bytes, array, map_of, wrapped, item, end_of_array, entry, end_of_map, calls,
}
use taws.TcManager.{
  Csuit, ManifestRecord, Table, TcListItem, record_count, slot, component_id_max_len,
}
use taws.Teep.{QueryResponse}
use taws.Query.{encode_tc_info_map, second_pass, build_tc_info, build_tc_infos, tc_info_built}

-- {0: [component_id], 3: << [-16, tc_image_digest] >>}
abbrev tc_info : Bytes → Bytes → Cbor
tc_info component_id digest = map_of (
    entry (ℤ.pos 0) (array (item (bytes component_id) end_of_array)) (
      entry (ℤ.pos 3)
        (wrapped (array (item (int (ℤ.negsuc 15)) (item (bytes digest) end_of_array)))) end_of_map))

encoded_map :
    (x : TcListItem) → encode_tc_info_map x ≡ calls (tc_info x.component_id x.tc_image_digest)
unfolding encode_tc_info_map calls
encoded_map x = refl

-- `info` is what QCBOR makes of the name and the hash of a record, in the size that it told.
pub record Entry (q : Qcbor) (r : ManifestRecord) (info : Bytes) : Type 0 where
  pub size : ℕ
  pub measured : q.finish_get_size (calls (tc_info r.wapp_name r.wapp_hash)) ≡ some size
  pub encoded : q.finish size (calls (tc_info r.wapp_name r.wapp_hash)) ≡ some info

-- A response that has each record of the table, in order.
pub record ListsAll (q : Qcbor) (t : Table) (r : QueryResponse) : Type 0 where
  pub flagged : r.contains_tc_list ≡ ltb 0 (record_count t)
  pub complete : length r.tc_list_items ≡ record_count t
  pub entries :
      (i : ℕ)
      → i < record_count t
      → (info : Bytes) × (get_elem? r.tc_list_items i ≡ some info) × Entry q (slot t i) info

if_some :
    (b : Bool) (x : Option Bytes) {info : Bytes}
    → (if b then none else x) ≡ some info
    → x ≡ some info
if_some true x h = cc h
if_some false x h = h

passes :
    (q : Qcbor) (block : Bool) (x : TcListItem) (o : Option ℕ) (info : Bytes)
    → second_pass q block x o ≡ some info
    → (size : ℕ) × (o ≡ some size) × (q.finish size (encode_tc_info_map x) ≡ some info)
unfolding second_pass
passes q block x none info h = cc h
passes q block x (some size) info h = (size, refl, if_some (not block) _ (if_some (size == 0) _ h))

built-Entry :
    (c : Csuit) (q : Qcbor) (block : Bool) (r : ManifestRecord) (x : TcListItem) (info : Bytes)
    → record { component_id = r.wapp_name; tc_image_digest = r.wapp_hash } ≡ x
    → build_tc_info c q block x ≡ some info
    → Entry q r info
unfolding build_tc_info
built-Entry c q block r x info same h =
    let (size, measured, encoded) =
      passes q block x (q.finish_get_size (encode_tc_info_map x)) info (
        if_some (length x.component_id == 0 || ltb (component_id_max_len c) (length x.component_id))
          _ h) in
    let ops =
      encoded_map x
      ∙ ap (λ (y : TcListItem). calls (tc_info y.component_id y.tc_image_digest)) (sym same) in
    record {
      size = size;
      measured = ap q.finish_get_size (sym ops) ∙ measured;
      encoded = ap (q.finish size) (sym ops) ∙ encoded;
    }

built_first :
    (o : Option Bytes) (rest : Bool × List Bytes)
    → (tc_info_built o rest).0 ≡ true
    → (info : Bytes) × (o ≡ some info)
      × (rest.0 ≡ true)
      × ((tc_info_built o rest).1 ≡ info ∷ rest.1)
built_first none rest h = cc h
built_first (some info) (done, infos) h = (info, refl, h, refl)

-- Where the loop went through, each item made its bytes.
infos_built :
    (c : Csuit) (q : Qcbor) (malloc : ℕ → Bool) (k : ℕ) (items : List TcListItem)
    → (build_tc_infos c q malloc k items).0 ≡ true
    → (i : ℕ) (x : TcListItem) → get_elem? items i ≡ some x
    → (info : Bytes) × (block : Bool) × (get_elem? (build_tc_infos c q malloc k items).1 i
        ≡ some info)
      × (build_tc_info c q block x ≡ some info)
unfolding build_tc_infos
infos_built c q malloc k [] h i x at_i = cc at_i
infos_built c q malloc k (y ∷ items) h zero x at_i =
    let (info, made, _, front) =
      built_first (build_tc_info c q (malloc k) y) (build_tc_infos c q malloc (suc k) items) h in
    let same : y ≡ x = cc at_i in
    (
      info,
      malloc k,
      ap (λ l. get_elem? l 0) front,
      ap (build_tc_info c q (malloc k)) (sym same) ∙ made,
    )
infos_built c q malloc k (y ∷ items) h (suc i) x at_i =
    let (first, _, done, front) =
      built_first (build_tc_info c q (malloc k) y) (build_tc_infos c q malloc (suc k) items) h in
    let (info, block, there, made) = infos_built c q malloc (suc k) items done i x at_i in
    (info, block, ap (λ l. get_elem? l (suc i)) front ∙ there, made)

-- The bytes of each record of the table.
pub exported_entries :
    (c : Csuit) (q : Qcbor) (malloc : ℕ → Bool) (t : Table) (items : List TcListItem)
    → ((i : ℕ)
        → i < record_count t
        → (x : TcListItem) × (record {
          component_id = (slot t i).wapp_name;
          tc_image_digest = (slot t i).wapp_hash;
        }
            ≡ x)
          × (get_elem? items i ≡ some x))
    → (build_tc_infos c q malloc 0 items).0 ≡ true
    → (i : ℕ) → i < record_count t
    → (info : Bytes) × (get_elem? (build_tc_infos c q malloc 0 items).1 i ≡ some info)
      × Entry q (slot t i) info
exported_entries c q malloc t items listed done i lt =
    let (x, same, at_i) = listed i lt in
    let (info, block, there, made) = infos_built c q malloc 0 items done i x at_i in
    (info, there, built-Entry c q block (slot t i) x info same made)
