-- ===== src/Wasm/Loading.antt =====
-- Enclave/src/Enclave_wasm.cpp: `ensure_wamr_running`, and which module it leaves loaded.
use taws.Base.{
  ℕ, ◌+◌, ◌-◌, ◌≡◌, ◌≢◌, refl, sym, ap, ◌∙◌, Bool, true, false, not, Option, none, some, arith,
  length, Bytes, Buf, is_empty, bytes_eq, bytes_eq_iff, u32, if◌then◌else◌,
}
use taws.TcManager.{Csuit, ManifestRecord, Table, find_record_by_wapp_name}
use taws.Wasm.{
  initial_wamr, WasmResult, ok, trusted_component_not_found, invalid_argument, resource_exhausted,
  internal_error, Wamr, WamrCalls, present, reset, instantiated, module_loaded, load_bin, with_name,
  reload, reuse_or_reload, with_bin, with_record, ensure_wamr_running,
}

-- Just the objects of the loaded module are alive, and there are none where it has no instance.
pub record Owned (w : Wamr) : Type 0 where
  pub instances : w.live_instances ≡ present w.loaded_module.module_instance
  pub modules : w.live_modules ≡ present w.loaded_module.wasm_module
  pub bins : w.live_bins ≡ present w.loaded_module.wapp_bin
  pub whole :
      w.loaded_module.module_instance ≡ none
      → (w.loaded_module.wasm_module ≡ none) × (w.loaded_module.wapp_bin ≡ none)

-- Nothing is loaded.
record Clean (w : Wamr) : Type 0 where
  instances : w.live_instances ≡ 0
  modules : w.live_modules ≡ 0
  bins : w.live_bins ≡ 0
  no_instance : w.loaded_module.module_instance ≡ none
  no_module : w.loaded_module.wasm_module ≡ none
  no_bin : w.loaded_module.wapp_bin ≡ none

pub initial_wamr-Owned : Owned initial_wamr
initial_wamr-Owned = record {
  instances = refl;
  modules = refl;
  bins = refl;
  whole = λ h. (refl, refl);
}

Clean-Owned : (w : Wamr) → Clean w → Owned w
Clean-Owned w k = record {
  instances = rw k.no_instance k.instances;
  modules = rw k.no_module k.modules;
  bins = rw k.no_bin k.bins;
  whole = λ h. (k.no_module, k.no_bin);
}

reset-Clean :
    (w : Wamr)
    → w.live_instances ≡ present w.loaded_module.module_instance
    → w.live_modules ≡ present w.loaded_module.wasm_module
    → w.live_bins ≡ present w.loaded_module.wapp_bin
    → Clean (reset w)
unfolding reset
reset-Clean w i m b = record {
  instances = omega (arith, i);
  modules = omega (arith, m);
  bins = omega (arith, b);
  no_instance = refl;
  no_module = refl;
  no_bin = refl;
}

Owned-Clean : (w : Wamr) → Owned w → w.loaded_module.module_instance ≡ none → Clean w
Owned-Clean w o h =
    let (no_module, no_bin) = o.whole h in
    record {
      instances = o.instances ∙ ap present h;
      modules = o.modules ∙ ap present no_module;
      bins = o.bins ∙ ap present no_bin;
      no_instance = h;
      no_module = no_module;
      no_bin = no_bin;
    }

-- What a way through `ensure_wamr_running` leaves.
record Leaves (r : ManifestRecord) (res : WasmResult × Wamr) : Type 0 where
  owned : Owned res.1
  loaded :
      res.0 ≡ ok
      → (res.1.loaded_module.wapp_hash ≡ r.wapp_hash) × (res.1.loaded_module.module_instance ≢ none)

module _ (c : Csuit) (e : WamrCalls) (name : Bytes) (r : ManifestRecord) where
  instantiated-Leaves :
      (w : Wamr) (handle : ℕ) (o : Option ℕ)
      → w.live_instances ≡ 0
      → w.live_modules ≡ 1
      → w.live_bins ≡ present w.loaded_module.wapp_bin
      → w.loaded_module.module_instance ≡ none
      → w.loaded_module.wasm_module ≡ none
      → Leaves r (instantiated r w handle o)
  unfolding instantiated
  instantiated-Leaves w handle none i m b no_i no_m = record {
    owned = Clean-Owned (reset (record w { live_modules = w.live_modules - 1 })) (
        reset-Clean (record w { live_modules = w.live_modules - 1 }) (i ∙ sym (ap present no_i))
          (ap (λ n. n - 1) m ∙ sym (ap present no_m)) b);
    loaded = λ h. cc h;
  }
  instantiated-Leaves w handle (some instance_) i m b no_i no_m = record {
    owned = record { instances = ap (λ n. n + 1) i; modules = m; bins = b; whole = λ h. cc h };
    loaded = λ h. (refl, λ n. cc n);
  }

  module_loaded-Leaves :
      (w : Wamr) (o : Option ℕ)
      → w.live_instances ≡ 0
      → w.live_modules ≡ 0
      → w.live_bins ≡ present w.loaded_module.wapp_bin
      → w.loaded_module.module_instance ≡ none
      → w.loaded_module.wasm_module ≡ none
      → Leaves r (module_loaded e r w o)
  unfolding module_loaded
  module_loaded-Leaves w none i m b no_i no_m = record {
    owned =
        Clean-Owned (reset w)
          (reset-Clean w (i ∙ sym (ap present no_i)) (m ∙ sym (ap present no_m)) b);
    loaded = λ h. cc h;
  }
  module_loaded-Leaves w (some handle) i m b no_i no_m =
      instantiated-Leaves (record w { live_modules = w.live_modules + 1 }) handle
        (e.instantiate handle) i (ap (λ n. n + 1) m) b no_i no_m

  load_bin-Leaves : (bin : Bytes) (w : Wamr) → Clean w → Leaves r (load_bin e r bin w)
  unfolding load_bin
  load_bin-Leaves bin w k = by_malloc e.malloc_bin
    where
      by_malloc :
          (b : Bool)
          → Leaves r (
              if not b
              then (
                resource_exhausted,
                record w { loaded_module = record w.loaded_module { wapp_bin = none } },
              )
              else module_loaded e r
                  (record w {
                    loaded_module = record w.loaded_module { wapp_bin = some bin };
                    live_bins = w.live_bins + 1;
                  })
                  (e.load bin (u32 (length bin))))
      by_malloc true =
          module_loaded-Leaves _ (e.load bin (u32 (length bin))) k.instances k.modules
            (ap (λ n. n + 1) k.bins) k.no_instance k.no_module
      by_malloc false = record {
        owned =
            Clean-Owned (record w { loaded_module = record w.loaded_module { wapp_bin = none } })
              (record {
                instances = k.instances;
                modules = k.modules;
                bins = k.bins;
                no_instance = k.no_instance;
                no_module = k.no_module;
                no_bin = refl;
              });
        loaded = λ h. cc h;
      }

  reload-Leaves : (bin : Bytes) (w : Wamr) → Clean w → Leaves r (reload c e name r bin w)
  unfolding reload
  reload-Leaves bin w k = by_flags w.runtime_inited e.full_init
    where
      named : (b : Bool) → Clean (record (with_name c name w) { runtime_inited = b })
      named b = record {
        instances = k.instances;
        modules = k.modules;
        bins = k.bins;
        no_instance = k.no_instance;
        no_module = k.no_module;
        no_bin = k.no_bin;
      }

      by_flags :
          (b i : Bool)
          → Leaves r (
              if b
              then load_bin e r bin (with_name c name w)
              else if not i
              then (internal_error, with_name c name w)
              else load_bin e r bin (record (with_name c name w) { runtime_inited = true }))
      by_flags true i = load_bin-Leaves bin (with_name c name w) (named w.runtime_inited)
      by_flags false true =
          load_bin-Leaves bin (record (with_name c name w) { runtime_inited = true }) (named true)
      by_flags false false = record {
        owned = Clean-Owned (with_name c name w) (named w.runtime_inited);
        loaded = λ h. cc h;
      }

  reuse-Leaves :
      (bin : Bytes) (w : Wamr) (o : Option ℕ)
      → w.loaded_module.module_instance ≡ o
      → Owned w
      → Leaves r (reuse_or_reload c e name r bin w o)
  unfolding reuse_or_reload
  reuse-Leaves bin w none h own = reload-Leaves bin w (Owned-Clean w own h)
  reuse-Leaves bin w (some instance_) h own =
      by_hash (bytes_eq w.loaded_module.wapp_hash r.wapp_hash) refl
    where
      by_hash :
          (b : Bool)
          → bytes_eq w.loaded_module.wapp_hash r.wapp_hash ≡ b
          → Leaves r (if b then (ok, w) else reload c e name r bin (reset w))
      by_hash true same = record {
        owned = own;
        loaded = λ _. ((bytes_eq_iff w.loaded_module.wapp_hash r.wapp_hash).0 same, λ n. cc (n, h));
      }
      by_hash false other =
          reload-Leaves bin (reset w) (reset-Clean w own.instances own.modules own.bins)

  bin-Leaves : (w : Wamr) (bin : Buf) → Owned w → Leaves r (with_bin c e name r w bin)
  unfolding with_bin
  bin-Leaves w none own = record { owned = own; loaded = λ h. cc h }
  bin-Leaves w (some bin) own = by_size (is_empty bin)
    where
      by_size :
          (b : Bool)
          → Leaves r (
              if b
              then (trusted_component_not_found, w)
              else reuse_or_reload c e name r bin w w.loaded_module.module_instance)
      by_size true = record { owned = own; loaded = λ h. cc h }
      by_size false = reuse-Leaves bin w w.loaded_module.module_instance refl own

record-Owned :
    (c : Csuit) (e : WamrCalls) (name : Bytes) (w : Wamr) (o : Option ManifestRecord)
    → Owned w
    → Owned (with_record c e name w o).1
unfolding with_record
record-Owned c e name w none own = own
record-Owned c e name w (some r) own = (bin-Leaves c e name r w r.wapp_bin own).owned

record_loaded :
    (c : Csuit) (e : WamrCalls) (name : Bytes) (w : Wamr) (o : Option ManifestRecord)
    → Owned w
    → (with_record c e name w o).0 ≡ ok
    → (r : ManifestRecord) × (o ≡ some r)
      × ((with_record c e name w o).1.loaded_module.wapp_hash ≡ r.wapp_hash)
      × ((with_record c e name w o).1.loaded_module.module_instance ≢ none)
unfolding with_record
record_loaded c e name w none own h = cc h
record_loaded c e name w (some r) own h =
    let (same, instance_) = (bin-Leaves c e name r w r.wapp_bin own).loaded h in
    (r, refl, same, instance_)

-- Every way through leaves just the objects of the loaded module alive.
pub ensure_wamr_running-Owned :
    (c : Csuit) (e : WamrCalls) (t : Table) (name : Bytes) (w : Wamr)
    → Owned w
    → Owned (ensure_wamr_running c e t name w).1
unfolding ensure_wamr_running
ensure_wamr_running-Owned c e t name w own = by_name (is_empty name)
  where
    by_name :
        (b : Bool)
        → Owned
            (if b
              then (invalid_argument, w)
              else with_record c e name w (find_record_by_wapp_name (some name) t)).1
    by_name true = own
    by_name false = record-Owned c e name w (find_record_by_wapp_name (some name) t) own

-- Where the result is ok, a module is instantiated whose hash is that of the record of the name.
pub ensure_wamr_running_loaded :
    (c : Csuit) (e : WamrCalls) (t : Table) (name : Bytes) (w : Wamr)
    → Owned w
    → (ensure_wamr_running c e t name w).0 ≡ ok
    → (r : ManifestRecord) × (find_record_by_wapp_name (some name) t ≡ some r)
      × ((ensure_wamr_running c e t name w).1.loaded_module.wapp_hash ≡ r.wapp_hash)
      × ((ensure_wamr_running c e t name w).1.loaded_module.module_instance ≢ none)
unfolding ensure_wamr_running
ensure_wamr_running_loaded c e t name w own = by_name (is_empty name)
  where
    found : Option ManifestRecord
    found = find_record_by_wapp_name (some name) t

    step : Bool → WasmResult × Wamr
    step b = if b then (invalid_argument, w) else with_record c e name w found

    by_name :
        (b : Bool)
        → (step b).0 ≡ ok
        → (r : ManifestRecord) × (found ≡ some r)
          × ((step b).1.loaded_module.wapp_hash ≡ r.wapp_hash)
          × ((step b).1.loaded_module.module_instance ≢ none)
    by_name true h = cc h
    by_name false h = record_loaded c e name w found own h
