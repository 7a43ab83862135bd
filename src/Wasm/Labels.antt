-- ===== src/Wasm/Labels.antt =====
-- Enclave/src/Enclave_wasm.cpp: that `ensure_wamr_running` leaves an instance of the module that the
-- table has under the name, and not just its hash in `g_loaded_module`.
use taws.Base.{
  ℕ, ◌+◌, ◌≡◌, refl, ◌∙◌, subst, true, false, not, Option, none, some, length, Bytes, Buf, is_empty,
  bytes_eq, u32, if◌then◌else◌, Option-cases, inl, inr,
}
use taws.TcManager.{Csuit, ManifestRecord, Table, find_record_by_wapp_name}
use taws.Wasm.{
  initial_wamr, ok, trusted_component_not_found, invalid_argument, resource_exhausted,
  internal_error, Wamr, WamrCalls, reset, instantiated, module_loaded, load_bin, with_name, reload,
  reuse_or_reload, with_bin, with_record, ensure_wamr_running,
}
use taws.Wasm.Loading.{Owned, ensure_wamr_running_loaded}

-- `Code hash i`: the instance `i` runs a module whose record has `hash`. It holds at least of what
-- WAMR makes of the bytes of the record of a name.
pub record Makes (Code : Bytes → ℕ → Type 0) (e : WamrCalls) (t : Table) (name : Buf) : Type 0 where
  pub code :
      (r : ManifestRecord) (bin : Bytes) (handle i : ℕ)
      → find_record_by_wapp_name name t ≡ some r
      → r.wapp_bin ≡ some bin
      → e.load bin (u32 (length bin)) ≡ some handle
      → e.instantiate handle ≡ some i
      → Code r.wapp_hash i

-- The instance that is loaded is one of the hash that is kept with it.
pub record Labelled (Code : Bytes → ℕ → Type 0) (w : Wamr) : Type 0 where
  pub label : (i : ℕ) → w.loaded_module.module_instance ≡ some i → Code w.loaded_module.wapp_hash i

pub initial_wamr-Labelled : (Code : Bytes → ℕ → Type 0) → Labelled Code initial_wamr
initial_wamr-Labelled Code = record { label = λ i h. cc h }

module _ (Code : Bytes → ℕ → Type 0) (c : Csuit) (e : WamrCalls) (name : Bytes)
    (r : ManifestRecord) where
  empty-Labelled : (w : Wamr) → w.loaded_module.module_instance ≡ none → Labelled Code w
  empty-Labelled w empty = record { label = λ i h. cc (empty, h) }

  module _ (bin : Bytes)
      (code : (handle i : ℕ)
        → e.load bin (u32 (length bin)) ≡ some handle
        → e.instantiate handle ≡ some i
        → Code r.wapp_hash i) where
    instantiated-Labelled :
        (w : Wamr) (handle : ℕ) (o : Option ℕ)
        → e.load bin (u32 (length bin)) ≡ some handle
        → e.instantiate handle ≡ o
        → Labelled Code (instantiated r w handle o).1
    unfolding instantiated reset
    instantiated-Labelled w handle none loads makes = record { label = λ i h. cc h }
    instantiated-Labelled w handle (some j) loads makes = record {
      label = λ i h. code handle i loads (makes ∙ h);
    }

    module_loaded-Labelled :
        (w : Wamr) (o : Option ℕ)
        → e.load bin (u32 (length bin)) ≡ o
        → Labelled Code (module_loaded e r w o).1
    unfolding module_loaded reset
    module_loaded-Labelled w none loads = record { label = λ i h. cc h }
    module_loaded-Labelled w (some handle) loads =
        instantiated-Labelled (record w { live_modules = w.live_modules + 1 }) handle
          (e.instantiate handle) loads refl

    load_bin-Labelled :
        (w : Wamr) → w.loaded_module.module_instance ≡ none → Labelled Code (load_bin e r bin w).1
    unfolding load_bin
    load_bin-Labelled w empty =
        let filled = record w {
          loaded_module = record w.loaded_module { wapp_bin = some bin };
          live_bins = w.live_bins + 1;
        } in
        let bare = record w { loaded_module = record w.loaded_module { wapp_bin = none } } in
        elim e.malloc_bin
          as (λ b.
            Labelled Code
              (if not b
                then (resource_exhausted, bare)
                else module_loaded e r filled (e.load bin (u32 (length bin)))).1) [
                  | true ↦ module_loaded-Labelled filled (e.load bin (u32 (length bin))) refl
                  | false ↦ empty-Labelled bare empty
                ]

    reload-Labelled :
        (w : Wamr)
        → w.loaded_module.module_instance ≡ none
        → Labelled Code (reload c e name r bin w).1
    unfolding reload
    reload-Labelled w empty =
        let named = with_name c name w in
        let started = record named { runtime_inited = true } in
        elim w.runtime_inited
          as (λ b.
            Labelled Code
              (if b
                then load_bin e r bin named
                else if not e.full_init
                then (internal_error, named)
                else load_bin e r bin started).1) [
                  | true ↦ load_bin-Labelled named empty
                  | false ↦
                      elim e.full_init
                        as (λ b.
                          Labelled Code
                            (if not b
                              then (internal_error, named)
                              else load_bin e r bin started).1) [
                                | true ↦ load_bin-Labelled started empty
                                | false ↦ empty-Labelled named empty
                              ]
                ]

    reuse-Labelled :
        (w : Wamr) (o : Option ℕ)
        → w.loaded_module.module_instance ≡ o
        → Labelled Code w
        → Labelled Code (reuse_or_reload c e name r bin w o).1
    unfolding reuse_or_reload reset
    reuse-Labelled w none h l = reload-Labelled w h
    reuse-Labelled w (some j) h l =
        elim (bytes_eq w.loaded_module.wapp_hash r.wapp_hash)
          as (λ b. Labelled Code (if b then (ok, w) else reload c e name r bin (reset w)).1) [
            | true ↦ l
            | false ↦ reload-Labelled (reset w) refl
          ]

  with_bin-Labelled :
      (w : Wamr) (b : Buf)
      → r.wapp_bin ≡ b
      → ((bin : Bytes) (handle i : ℕ)
          → r.wapp_bin ≡ some bin
          → e.load bin (u32 (length bin)) ≡ some handle
          → e.instantiate handle ≡ some i
          → Code r.wapp_hash i)
      → Labelled Code w
      → Labelled Code (with_bin c e name r w b).1
  unfolding with_bin
  with_bin-Labelled w none same code l = l
  with_bin-Labelled w (some bin) same code l =
      elim (is_empty bin)
        as (λ b.
          Labelled Code
            (if b
              then (trusted_component_not_found, w)
              else reuse_or_reload c e name r bin w w.loaded_module.module_instance).1) [
                | true ↦ l
                | false ↦
                    reuse-Labelled bin (λ handle i. code bin handle i same) w
                      w.loaded_module.module_instance refl l
              ]

record-Labelled :
    (Code : Bytes → ℕ → Type 0) (c : Csuit) (e : WamrCalls) (t : Table) (name : Bytes) (w : Wamr)
    (o : Option ManifestRecord)
    → find_record_by_wapp_name (some name) t ≡ o
    → Makes Code e t (some name)
    → Labelled Code w
    → Labelled Code (with_record c e name w o).1
unfolding with_record
record-Labelled Code c e t name w none found m l = l
record-Labelled Code c e t name w (some r) found m l =
    with_bin-Labelled Code c e name r w r.wapp_bin refl
      (λ bin handle i. m.code r bin handle i found) l

pub ensure_wamr_running-Labelled :
    (Code : Bytes → ℕ → Type 0) (c : Csuit) (e : WamrCalls) (t : Table) (name : Bytes) (w : Wamr)
    → Makes Code e t (some name)
    → Labelled Code w
    → Labelled Code (ensure_wamr_running c e t name w).1
unfolding ensure_wamr_running
ensure_wamr_running-Labelled Code c e t name w m l =
    let found = find_record_by_wapp_name (some name) t in
    elim (is_empty name)
      as (λ b.
        Labelled Code (if b then (invalid_argument, w) else with_record c e name w found).1) [
          | true ↦ l
          | false ↦ record-Labelled Code c e t name w found refl m l
        ]

-- Where the result is ok, the instance that is loaded is one of the module that the table has under
-- the name: of the instance before it is known that it has the hash that was kept with it, and of
-- what WAMR makes of the record's bytes that it has the record's hash.
pub ensure_wamr_running_code :
    (Code : Bytes → ℕ → Type 0) (c : Csuit) (e : WamrCalls) (t : Table) (name : Bytes) (w : Wamr)
    → Owned w
    → Makes Code e t (some name)
    → Labelled Code w
    → (ensure_wamr_running c e t name w).0 ≡ ok
    → (r : ManifestRecord) × (i : ℕ) × (find_record_by_wapp_name (some name) t ≡ some r)
      × ((ensure_wamr_running c e t name w).1.loaded_module.module_instance ≡ some i)
      × Code r.wapp_hash i
      × ((ensure_wamr_running c e t name w).1.loaded_module.wapp_hash ≡ r.wapp_hash)
ensure_wamr_running_code Code c e t name w own m l h =
    let (r, found, same, loaded) = ensure_wamr_running_loaded c e t name w own h in
    let after = (ensure_wamr_running c e t name w).1 in
    elim (Option-cases after.loaded_module.module_instance) [
      | inl none_ ↦ absurd (loaded none_)
      | inr (i, e') ↦ (
        r,
        i,
        found,
        e',
        subst (λ d. Code d i) same
            ((ensure_wamr_running-Labelled Code c e t name w m l).label i e'),
        same,
      )
    ]
