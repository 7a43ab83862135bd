-- ===== src/TcManager/TcList.antt =====
-- Enclave/src/tc_manager.cpp: `tc_manager_get_tc_list`, the export of the table.
use taws.Base.{
  ℕ, zero, suc, ◌<◌, ◌≤◌, ◌≡◌, ◌⊎◌, subst, refl, sym, ap, Bool, true, false, none, some, List, [],
  ◌∷◌, arith, min, take, take_all, Bytes, Buf, is_empty, is_null_or_empty, ◌∙◌, length, get_elem?,
  get_or, Option-cases, Bool-cases, inl, inr, success, failure,
}
use taws.TcManager.{
  Csuit, ManifestRecord, Table, zero_record, slot, TcListItem, TcListResult, is_complete,
  tc_list_item, tc_list_items, get_tc_list,
}

-- Slot `i` made the item that was written at `i`.
abbrev Listed : Csuit → List ManifestRecord → List TcListItem → ℕ → Type 0
Listed c slots items i =
    (item : TcListItem) × (tc_list_item c (get_or slots i zero_record) ≡ some item)
    × (get_elem? items i ≡ some item)

-- The loop goes through only if every record makes an item, and then it writes those items.
items-Listed :
    (c : Csuit) (slots : List ManifestRecord) (n : ℕ)
    → (tc_list_items c slots n).0 ≡ true
    → (i : ℕ) → i < n
    → Listed c slots (tc_list_items c slots n).1 i
unfolding tc_list_items
items-Listed c slots zero h i lt = absurd (omega arith)
items-Listed c [] (suc n) h i lt = cc
items-Listed c (r ∷ slots) (suc n) h zero lt = elim (Option-cases (tc_list_item c r)) [
  | inl e ↦ cc (rw e at h)
  | inr (item, e) ↦ rw e (item, refl, refl)
]
items-Listed c (r ∷ slots) (suc n) h (suc i) lt = elim (Option-cases (tc_list_item c r)) [
  | inl e ↦ cc (rw e at h)
  | inr (item, e) ↦ rw e (items-Listed c slots n (rw e at h) i (omega arith))
]

length-items :
    (c : Csuit) (slots : List ManifestRecord) (n : ℕ)
    → (tc_list_items c slots n).0 ≡ true
    → length (tc_list_items c slots n).1 ≡ n
unfolding tc_list_items
length-items c slots zero h = refl
length-items c [] (suc n) h = cc
length-items c (r ∷ slots) (suc n) h = elim (Option-cases (tc_list_item c r)) [
  | inl e ↦ cc (rw e at h)
  | inr (item, e) ↦ rw e (ap suc (length-items c slots n (rw e at h)))
]

-- What a caller gets from a call that succeeds.
pub record Exported (c : Csuit) (capacity : ℕ) (t : Table) (r : TcListResult) : Type 0 where
  pub fits : t.len ≤ capacity
  pub counted : r.out_count ≡ some t.len
  pub complete : length r.out_items ≡ t.len
  pub listed : (i : ℕ) → i < t.len → Listed c t.slots r.out_items i

export_success :
    (c : Csuit) (count_ptr items_ptr : Bool) (capacity : ℕ) (t : Table)
    → (get_tc_list c count_ptr items_ptr capacity t).status ≡ success
    → ((t.len ≡ 0)
        × (get_tc_list c count_ptr items_ptr capacity t
            ≡ record { status = success; out_count = some 0; out_items = [] }))
      ⊎ ((t.len ≤ capacity)
          × ((tc_list_items c t.slots t.len).0 ≡ true)
          × (get_tc_list c count_ptr items_ptr capacity t ≡ record {
            status = success;
            out_count = some t.len;
            out_items = (tc_list_items c t.slots t.len).1;
          }))
unfolding get_tc_list
export_success c count_ptr items_ptr capacity t h = ground arith

-- A successful export has one item for each active record, in order, and fits the buffer.
pub get_tc_list-Exported :
    (c : Csuit) (count_ptr items_ptr : Bool) (capacity : ℕ) (t : Table)
    → (get_tc_list c count_ptr items_ptr capacity t).status ≡ success
    → Exported c capacity t (get_tc_list c count_ptr items_ptr capacity t)
get_tc_list-Exported c count_ptr items_ptr capacity t h =
    elim (export_success c count_ptr items_ptr capacity t h) [
      | inl (empty, e) ↦ subst (Exported c capacity t) (sym e) (record {
        fits = omega arith;
        counted = ap some (sym empty);
        complete = sym empty;
        listed = λ i lt. absurd (omega arith);
      })
      | inr (fits, done, e) ↦ subst (Exported c capacity t) (sym e) (record {
        fits = fits;
        counted = refl;
        complete = length-items c t.slots t.len done;
        listed = items-Listed c t.slots t.len done;
      })
    ]

-- A record that is fit for the list: it has names and payloads, and the application's name is
-- shorter than the buffers for it.
pub record Fit (c : Csuit) (r : ManifestRecord) : Type 0 where
  pub manifest_named : 0 < length r.manifest_name
  pub app_named : 0 < length r.wapp_name
  pub name_fits : length r.wapp_name < c.max_name_length
  pub manifest_stored : (b : Bytes) × (r.manifest_bin ≡ some b) × (0 < length b)
  pub app_stored : (b : Bytes) × (r.wapp_bin ≡ some b) × (0 < length b)

filled : (b : Bytes) → is_empty b ≡ false → 0 < length b
filled [] h = cc h
filled (x ∷ b) h = omega arith

stored : (b : Buf) → is_null_or_empty b ≡ false → (x : Bytes) × (b ≡ some x) × (0 < length x)
stored none h = cc h
stored (some b) h = (b, refl, filled b h)

complete_tests :
    (r : ManifestRecord)
    → is_complete r ≡ true
    → (is_empty r.manifest_name ≡ false)
      × (is_empty r.wapp_name ≡ false)
      × (is_null_or_empty r.manifest_bin ≡ false)
      × (is_null_or_empty r.wapp_bin ≡ false)
complete_tests r h = ground arith

item_tests :
    (c : Csuit) (r : ManifestRecord) (item : TcListItem)
    → tc_list_item c r ≡ some item
    → (is_complete r ≡ true)
      × (min (length r.wapp_name) c.max_name_length < c.max_name_length)
      × (record {
        component_id = take (min (length r.wapp_name) c.max_name_length) r.wapp_name;
        tc_image_digest = r.wapp_hash;
      }
          ≡ item)
unfolding tc_list_item
item_tests c r item h = ground arith

abbrev item_of : ManifestRecord → Bytes → TcListItem
item_of r name = record { component_id = name; tc_image_digest = r.wapp_hash }

-- A record makes an item only if it is fit, and the item has its name and its hash.
pub tc_list_item-Fit :
    (c : Csuit) (r : ManifestRecord) (item : TcListItem)
    → tc_list_item c r ≡ some item
    → Fit c r × (record { component_id = r.wapp_name; tc_image_digest = r.wapp_hash } ≡ item)
tc_list_item-Fit c r item h =
    let (whole, short, same) = item_tests c r item h in
    let (name, app, manifest_bin, wapp_bin) = complete_tests r whole in
    let fits : length r.wapp_name < c.max_name_length = omega arith in
    let all_of = take_all (min (length r.wapp_name) c.max_name_length) r.wapp_name (omega arith) in
    (
      record {
        manifest_named = filled r.manifest_name name;
        app_named = filled r.wapp_name app;
        name_fits = fits;
        manifest_stored = stored r.manifest_bin manifest_bin;
        app_stored = stored r.wapp_bin wapp_bin;
      },
      ap (item_of r) (sym all_of) ∙ same,
    )

-- It fails, and reports no item, as soon as one active record is not fit for the list.
pub get_tc_list_unfit :
    (c : Csuit) (items_ptr : Bool) (capacity : ℕ) (t : Table) (i : ℕ)
    → i < t.len
    → ¬ Fit c (slot t i)
    → ((get_tc_list c true items_ptr capacity t).status ≡ failure)
      × ((get_tc_list c true items_ptr capacity t).out_count ≡ some 0)
unfolding get_tc_list
get_tc_list_unfit c items_ptr capacity t i lt unfit = ground (arith, stopped)
  where
    stopped : (tc_list_items c t.slots t.len).0 ≡ false
    stopped = elim (Bool-cases (tc_list_items c t.slots t.len).0) [
      | inl done ↦
          let (item, e, _) = items-Listed c t.slots t.len done i lt in
          absurd (unfit (tc_list_item-Fit c (slot t i) item e).0)
      | inr e ↦ e
    ]
