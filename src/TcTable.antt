-- ===== src/TcTable.antt =====
-- Enclave/src/tc_manager.cpp and Enclave/inc/tc_manager.h: the table of Trusted Component records,
-- the searches in it, and the removal of a record. `g_manifest_records` and `g_manifest_record_len`
-- are the two fields of `Table`; a pointer into the array is an index.
use taws.Base.{
  ℕ, zero, suc, ◌-◌, Bool, true, false, ◌&&◌, ◌||◌, Option, none, some, List, [], ◌∷◌, ltb, leb,
  ◌==◌, if◌then◌else◌, length, set, get_or, replicate, Bytes, bytes_eq, is_empty, Buf,
  is_null_or_empty,
}

-- What the table uses of libcsuit. A filename is the text in front of the NUL in its buffer; a
-- function that fills a buffer is given what the buffer held, and returns what it holds then.
pub record Csuit : Type 0 where
  pub max_name_length : ℕ  -- SUIT_MAX_NAME_LENGTH
  pub decode_component_identifier : Bytes → Option (List Bytes)
  pub component_identifier_to_filename : List Bytes → ℕ → Bytes → Bool × Bytes
  pub generate_sha256 : Bytes → Bytes → Bytes

pub record ManifestRecord : Type 0 where
  pub manifest_digest : Buf
  pub manifest_name : Bytes
  pub manifest_sequence_number : ℕ
  pub manifest_bin : Buf
  pub wapp_name : Bytes
  pub wapp_hash : Bytes
  pub wapp_bin : Buf

-- TC_MANAGER_RECORD_MAX_COUNT
abbrev pub record_max_count : ℕ
record_max_count = 20

-- SHA256_DIGEST_LENGTH, the size of `wapp_hash`.
abbrev pub sha256_digest_length : ℕ
sha256_digest_length = 32

-- A record of zero bytes.
abbrev pub zero_record : ManifestRecord
zero_record = record {
  manifest_digest = none;
  manifest_name = [];
  manifest_sequence_number = 0;
  manifest_bin = none;
  wapp_name = [];
  wapp_hash = replicate sha256_digest_length 0;
  wapp_bin = none;
}

pub record Table : Type 0 where
  pub slots : List ManifestRecord
  pub len : ℕ

abbrev pub initial_table : Table
initial_table = record { slots = replicate record_max_count zero_record; len = 0 }

-- `g_manifest_records[i]`
abbrev pub slot : Table → ℕ → ManifestRecord
slot t i = get_or t.slots i zero_record

abbrev pub write : Table → ℕ → ManifestRecord → Table
write t i r = record t { slots = set t.slots i r }

-- A digest matches a stored one of the same length and bytes.
unfoldable pub digest_matches : Bytes → Buf → Bool
digest_matches d none = false
digest_matches d (some e) = (length e == length d) && bytes_eq e d

-- The loop over the first `n` slots, from index `i` on: the index of the first that passes.
unfoldable pub find_index : (ManifestRecord → Bool) → List ManifestRecord → ℕ → ℕ → Option ℕ
find_index p slots zero i = none
find_index p [] (suc n) i = none
find_index p (r ∷ slots) (suc n) i = if p r then some i else find_index p slots n (suc i)

unfoldable pub find_by_digest : Buf → Table → Option ℕ
unfolding digest_matches
find_by_digest none t = none
find_by_digest (some d) t =
    if is_empty d
    then none
    else find_index (λ r. digest_matches d r.manifest_digest) t.slots t.len 0

unfoldable pub name_matches : Bytes → ManifestRecord → Bool
name_matches name r = if is_empty r.wapp_name then false else bytes_eq r.wapp_name name

-- `none` is a NULL `wapp_name`.
unfoldable pub find_by_wapp_name : Buf → Table → Option ℕ
unfolding name_matches
find_by_wapp_name none t = none
find_by_wapp_name (some name) t =
    if is_empty name then none else find_index (name_matches name) t.slots t.len 0

abbrev pub record_at : Table → Option ℕ → Option ManifestRecord
record_at t none = none
record_at t (some k) = some (slot t k)

-- `tc_manager_find_record_by_digest`
unfoldable pub find_record_by_digest : Buf → Table → Option ManifestRecord
find_record_by_digest digest t = record_at t (find_by_digest digest t)

-- `tc_manager_find_record_by_wappname`
unfoldable pub find_record_by_wapp_name : Buf → Table → Option ManifestRecord
find_record_by_wapp_name name t = record_at t (find_by_wapp_name name t)

abbrev pub is_complete : ManifestRecord → Bool
is_complete r =
    if is_empty r.manifest_name || is_empty r.wapp_name
    then false
    else if is_null_or_empty r.manifest_bin
    then false
    else if is_null_or_empty r.wapp_bin
    then false
    else true

-- The slot at `index` changes places with the last one, which is cleared by `z`.
unfoldable pub swap_clear {ℓ} : {A : Type ℓ} → A → List A → ℕ → ℕ → List A
swap_clear z slots index last =
    let swapped =
      if index == last
      then slots
      else set (set slots index (get_or slots last z)) last (get_or slots index z) in
    set swapped last z

unfoldable pub remove_at : ℕ → Table → Table
unfolding swap_clear
remove_at index t =
    if leb t.len index
    then t
    else record { slots = swap_clear zero_record t.slots index (t.len - 1); len = t.len - 1 }

-- `record_index < g_manifest_record_len` in front of a removal.
abbrev pub discard : ℕ → Table → Table
discard index t = if ltb index t.len then remove_at index t else t

-- The slot keeps its contents: `remove_at` has cleared it.
abbrev pub records_alloc : Table → Option (ℕ × Table)
records_alloc t =
    if leb record_max_count t.len then none else some (t.len, record t { len = suc t.len })
