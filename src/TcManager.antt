-- ===== src/TcManager.antt =====
-- Enclave/src/tc_manager.cpp: the operations on the table of Trusted Component records. Each function
-- takes the table and returns it; a pointer into the array is an index.
pub mod Lookup
pub mod Removal
pub mod Invariant
pub mod Contents
pub mod Writes
pub mod Store
pub mod Payload
pub mod Duplicates
pub mod Update
pub mod Finalise
pub mod Names
pub mod TcList
pub mod History
mod Tests
use taws.Base.{
  ℕ, zero, suc, ◌-◌, Bool, true, false, not, ◌&&◌, ◌||◌, Option, none, some, List, [], ◌∷◌, ltb,
  leb, ◌==◌, if◌then◌else◌, length, set, get_or, take, replicate, min, Bytes, bytes_eq, is_empty,
  Buf, is_null_or_empty, Status, success, failure,
}
pub use taws.TcTable.{
  Csuit, ManifestRecord, record_max_count, sha256_digest_length, zero_record, Table, initial_table,
  slot, write, record_at, is_complete, discard, records_alloc,
}
unfoldable pub use taws.TcTable.{
  digest_matches, find_index, find_by_digest, name_matches, find_by_wapp_name,
  find_record_by_digest, find_record_by_wapp_name, swap_clear, remove_at,
}

skip_slashes : Bytes → Bytes
skip_slashes [] = []
skip_slashes (c ∷ s) = if c == b'/' then skip_slashes s else c ∷ s

-- The text moves to the front of the buffer, if a slash was skipped.
trim : ℕ → Bytes → Bytes
unfolding skip_slashes
trim filename_len filename =
    let trimmed = skip_slashes filename in
    if length trimmed == length filename then filename else take (filename_len - 1) trimmed

named : ℕ → Bool × Bytes → Bool × Bytes
unfolding trim
named filename_len (false, filename) = (false, filename)
named filename_len (true, filename) = (true, trim filename_len filename)

-- The result and the buffer's content; the callers use the content alone.
unfoldable pub set_ids_from_component_id : Csuit → Buf → Bytes → ℕ → Bool × Bytes
unfolding named
set_ids_from_component_id c none filename filename_len = (false, filename)
set_ids_from_component_id c (some encoded) filename filename_len =
    if filename_len == 0 || is_empty encoded
    then (false, filename)
    else elim (c.decode_component_identifier encoded) [
      | none ↦ (false, filename)
      | some id ↦ named filename_len (c.component_identifier_to_filename id filename_len filename)
    ]

pub data StoreOperation : Type 0 where
  suit_store other_operation : StoreOperation

-- `suit_store_args_t`
pub record StoreArgs : Type 0 where
  pub operation : StoreOperation
  pub manifest_digest : Buf
  pub is_manifest_itself : Bool
  pub manifest_sequence_number : ℕ
  pub dst : Buf
  pub src_buf : Buf

-- Whether the two calls of `malloc` succeed: for the digest, and for the copy of `src_buf`.
pub record Mallocs : Type 0 where
  pub digest_block : Bool
  pub src_block : Bool

-- A slot that was allocated is given back where the digest is missing or cannot be copied.
claim_new : Mallocs → StoreArgs → Table → Option (ℕ × Table) → Table × Option ℕ
claim_new m a t none = (t, none)
claim_new m a t (some (i, t')) =
    if is_null_or_empty a.manifest_digest
    then (discard i t', none)
    else if m.digest_block
    then (write t' i (record (slot t' i) { manifest_digest = a.manifest_digest }), some i)
    else (discard i t', none)

claim_found : Mallocs → StoreArgs → Table → Option ℕ → Table × Option ℕ
unfolding claim_new
claim_found m a t none = claim_new m a t (records_alloc t)
claim_found m a t (some i) = (t, some i)

-- The record that the arguments belong to, found or new.
unfoldable pub claim_record : Mallocs → StoreArgs → Table → Table × Option ℕ
unfolding claim_found
claim_record m a t = claim_found m a t (find_by_digest a.manifest_digest t)

-- The old copy is freed in any case; an empty source leaves NULL.
copied : Mallocs → Buf → Buf × Status
copied m src =
    if is_null_or_empty src
    then (none, success)
    else if m.src_block
    then (src, success)
    else (none, failure)

fill_manifest : Csuit → Mallocs → StoreArgs → ManifestRecord → ManifestRecord × Status
unfolding copied set_ids_from_component_id
fill_manifest c m a r =
    let name = (set_ids_from_component_id c a.dst r.manifest_name c.max_name_length).1 in
    let (bin, status) = copied m a.src_buf in
    (
      record r {
        manifest_sequence_number = a.manifest_sequence_number;
        manifest_name = name;
        manifest_bin = bin;
      },
      status,
    )

-- The digest is computed where the source was copied.
hash_of : Csuit → Buf → Bytes → Bytes
hash_of c none hash = hash
hash_of c (some bin) hash = c.generate_sha256 bin hash

fill_wapp : Csuit → Mallocs → StoreArgs → ManifestRecord → ManifestRecord × Status
unfolding copied set_ids_from_component_id hash_of
fill_wapp c m a r =
    let name = (set_ids_from_component_id c a.dst r.wapp_name c.max_name_length).1 in
    let (bin, status) = copied m a.src_buf in
    (record r { wapp_name = name; wapp_bin = bin; wapp_hash = hash_of c bin r.wapp_hash }, status)

unfoldable pub fill_record : Csuit → Mallocs → StoreArgs → ManifestRecord → ManifestRecord × Status
unfolding fill_manifest fill_wapp
fill_record c m a r = if a.is_manifest_itself then fill_manifest c m a r else fill_wapp c m a r

abbrev fill_slot : Csuit → Mallocs → StoreArgs → Table × Option ℕ → Table × Status
fill_slot c m a (t, none) = (t, failure)
fill_slot c m a (t, some i) =
    let (r, status) = fill_record c m a (slot t i) in (write t i r, status)

store_by : Csuit → Mallocs → StoreArgs → Table → StoreOperation → Table × Status
store_by c m a t suit_store = fill_slot c m a (claim_record m a t)
store_by c m a t other_operation = (t, failure)

-- `tc_manager_store_record_from_store_args`; `none` is a NULL argument.
unfoldable pub store_record : Csuit → Mallocs → Option StoreArgs → Table → Table × Status
unfolding store_by
store_record c m none t = (t, failure)
store_record c m (some a) t = store_by c m a t a.operation

-- The loop of `manifest_record_update_or_discard`: another record of the same name.
pub find_duplicate : Bytes → ℕ → List ManifestRecord → ℕ → ℕ → Option ℕ
unfolding name_matches
find_duplicate name self slots zero i = none
find_duplicate name self [] (suc n) i = none
find_duplicate name self (r ∷ slots) (suc n) i =
    let rest = find_duplicate name self slots n (suc i) in
    if i == self then rest else if name_matches name r then some i else rest

-- The newer of the two records stays, at the place of the other.
replace_or_drop : ℕ → ℕ → Table → Table
replace_or_drop other index t =
    if leb (slot t other).manifest_sequence_number (slot t index).manifest_sequence_number
    then remove_at index (write (write t other (slot t index)) index (slot t other))
    else remove_at index t

settle : ℕ → Table → Option ℕ → Table
unfolding replace_or_drop
settle index t none = t
settle index t (some other) = replace_or_drop other index t

unfoldable pub update_or_discard : ℕ → Table → Table
unfolding find_duplicate settle
update_or_discard index t =
    if is_empty (slot t index).wapp_name
    then t
    else if leb t.len index
    then t
    else settle index t (find_duplicate (slot t index).wapp_name index t.slots t.len 0)

check_found : Table → Option ℕ → Table × Status
check_found t none = (t, failure)
check_found t (some index) =
    if is_complete (slot t index)
    then (update_or_discard index t, success)
    else (discard index t, failure)

-- `tc_manager_check_and_update_record`
unfoldable pub check_and_update_record : Buf → Table → Table × Status
unfolding check_found
check_and_update_record digest t = check_found t (find_by_digest digest t)

-- `tc_manager_record_count`
abbrev pub record_count : Table → ℕ
record_count t = t.len

remove_times : ℕ → Table → Table
remove_times zero t = t
remove_times (suc n) t =
    let rest = remove_times n (remove_at 0 t) in if ltb 0 t.len then rest else t

-- `tc_manager_remove_all`; each round removes a record, so `len` rounds suffice.
unfoldable pub remove_all : Table → Table
unfolding remove_times
remove_all t = remove_times t.len t

-- `tc_list_item_t`
pub record TcListItem : Type 0 where
  pub component_id : Bytes
  pub tc_image_digest : Bytes

-- TC_COMPONENT_ID_MAX_LEN
abbrev pub component_id_max_len : Csuit → ℕ
component_id_max_len c = c.max_name_length - 1

-- `none` where the record ends the loop.
unfoldable pub tc_list_item : Csuit → ManifestRecord → Option TcListItem
tc_list_item c r =
    let name_len = min (length r.wapp_name) c.max_name_length in
    if not (is_complete r)
    then none
    else if name_len == 0 || leb c.max_name_length name_len || ltb (component_id_max_len c) name_len
    then none
    else some (record { component_id = take name_len r.wapp_name; tc_image_digest = r.wapp_hash })

abbrev add_item : Option TcListItem → Bool × List TcListItem → Bool × List TcListItem
add_item none rest = (false, [])
add_item (some item) (done, items) = (done, item ∷ items)

-- The items that the loop writes, and whether it went through.
unfoldable pub tc_list_items : Csuit → List ManifestRecord → ℕ → Bool × List TcListItem
tc_list_items c slots zero = (true, [])
tc_list_items c [] (suc n) = (false, [])
tc_list_items c (r ∷ slots) (suc n) = add_item (tc_list_item c r) (tc_list_items c slots n)

-- `out_count` is `none` where its pointer is NULL.
pub record TcListResult : Type 0 where
  pub status : Status
  pub out_count : Option ℕ
  pub out_items : List TcListItem

abbrev tc_list_failure : List TcListItem → TcListResult
tc_list_failure written = record { status = failure; out_count = some 0; out_items = written }

abbrev tc_list_end : Table → Bool × List TcListItem → TcListResult
tc_list_end t (true, items) = record { status = success; out_count = some t.len; out_items = items }
tc_list_end t (false, items) = tc_list_failure items

-- `tc_manager_get_tc_list`; the first two arguments tell whether the pointers are valid.
unfoldable pub get_tc_list : Csuit → Bool → Bool → ℕ → Table → TcListResult
get_tc_list c count_ptr items_ptr capacity t =
    if not count_ptr
    then record { status = failure; out_count = none; out_items = [] }
    else if capacity == 0 || not items_ptr
    then tc_list_failure []
    else if t.len == 0
    then record { status = success; out_count = some 0; out_items = [] }
    else if ltb capacity t.len
    then tc_list_failure []
    else tc_list_end t (tc_list_items c t.slots t.len)
