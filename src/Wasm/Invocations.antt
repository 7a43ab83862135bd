-- ===== src/Wasm/Invocations.antt =====
-- Enclave/src/Enclave_wasm.cpp: `ecall_invoke_wasm` from its arguments to its result.
use taws.Base.{
  ℕ, ◌≡◌, ◌≢◌, refl, sym, ap, ◌∙◌, Bool, true, false, not, ◌||◌, Option, none, some, [], arith,
  Bytes, Buf, is_empty, if◌then◌else◌,
}
use taws.TcManager.{Csuit, Table, ManifestRecord, find_record_by_wapp_name}
use taws.Wasm.{
  WasmResult, ok, invalid_argument, Wamr, WamrCalls, WasmOutcome, Invocation, stopped,
  function_found, lookup_function, ensured, invoke_named, ensure_wamr_running, ecall_invoke_wasm,
  with_record, with_bin, reuse_or_reload, reload, load_bin, module_loaded, instantiated, reset,
}
use taws.Wasm.Loading.{Owned, ensure_wamr_running-Owned}
use taws.Wasm.Labels.{Makes, Labelled, ensure_wamr_running-Labelled, ensure_wamr_running_code}
use taws.Wasm.Results.{Delivered, Ends, execute-Ends}

ensure_fields :
    (c : Csuit) (e : WamrCalls) (t : Table) (name : Bytes) (w : Wamr)
    → ((ensure_wamr_running c e t name w).1.live_exec_envs ≡ w.live_exec_envs)
      × ((ensure_wamr_running c e t name w).1.live_blocks ≡ w.live_blocks)
unfolding ensure_wamr_running with_record with_bin reuse_or_reload reload load_bin module_loaded
    instantiated reset
ensure_fields c e t name w = (ground arith, ground arith)

-- The instance that ran is one of the module that the table has under the name, its function of the
-- name is the one that is called, and what the second call left in its block is given back.
pub record Ran (Code : Bytes → ℕ → Type 0) (e : WamrCalls) (t : Table) (name func_name : Buf)
    (input : Bytes) (output_len : ℕ) (o : WasmOutcome) : Type 0 where
  pub found : ManifestRecord
  pub instance_ : ℕ
  pub func : Bytes
  pub function : ℕ
  pub is_named : find_record_by_wapp_name name t ≡ some found
  pub loaded : o.wamr.loaded_module.module_instance ≡ some instance_
  pub code : Code found.wapp_hash instance_
  pub same_hash : o.wamr.loaded_module.wapp_hash ≡ found.wapp_hash
  pub func_given : func_name ≡ some func
  pub looked_up : e.lookup_function instance_ func ≡ some function
  pub delivered :
      Delivered e (record { function = function; input = input; output_len = output_len }) o

-- What is true of a call, however it ends.
pub record Invoked (Code : Bytes → ℕ → Type 0) (e : WamrCalls) (t : Table) (name func_name : Buf)
    (input : Bytes) (output_len : ℕ) (w : Wamr) (o : WasmOutcome) : Type 0 where
  pub owned : Owned o.wamr
  pub labelled : Labelled Code o.wamr
  pub envs : o.wamr.live_exec_envs ≡ w.live_exec_envs
  pub blocks : o.wamr.live_blocks ≡ w.live_blocks
  pub delivered : o.result ≡ ok → Ran Code e t name func_name input output_len o
  pub withheld : o.result ≢ ok → o.output ≡ []

module _ (Code : Bytes → ℕ → Type 0) (e : WamrCalls) (t : Table) where
  still-Invoked :
      (name func_name : Buf) (input : Bytes) (output_len : ℕ) (w : Wamr) (r : WasmResult)
      (n : Option ℕ)
      → Owned w
      → Labelled Code w
      → r ≢ ok
      → Invoked Code e t name func_name input output_len w
          (record { result = r; actual_len = n; output = []; wamr = w })
  still-Invoked name func_name input output_len w r n own l bad = record {
    owned = own;
    labelled = l;
    envs = refl;
    blocks = refl;
    delivered = λ h. absurd (bad h);
    withheld = λ _. refl;
  }

module _ (Code : Bytes → ℕ → Type 0) (c : Csuit) (e : WamrCalls) (t : Table)
    (name func input : Bytes) (output_len : ℕ) (w : Wamr) (own : Owned w)
    (made : Makes Code e t (some name)) (l : Labelled Code w)
    (in_fails : (n : ℕ) → (e.malloc_input n).1 ≡ false → (e.malloc_input n).0 ≡ 0)
    (out_fails : (n : ℕ) → (e.malloc_output n).1 ≡ false → (e.malloc_output n).0 ≡ 0) where
  abbrev loaded_state : Wamr
  loaded_state = (ensure_wamr_running c e t name w).1

  abbrev Runs : WasmOutcome → Type 0
  Runs o = Invoked Code e t (some name) (some func) input output_len w o

  abbrev called : ℕ → Invocation
  called f = record { function = f; input = input; output_len = output_len }

  same_lookup :
      (o : Option ℕ) (i f : ℕ)
      → o ≡ some i
      → lookup_function e func loaded_state o ≡ some f
      → e.lookup_function i func ≡ some f
  unfolding lookup_function
  same_lookup o i f h looked = sym (ap (lookup_function e func loaded_state) h) ∙ looked

  -- A run in the state that `ensure_wamr_running` left.
  Ends-Invoked :
      (f : ℕ) (o : WasmOutcome)
      → (ensure_wamr_running c e t name w).0 ≡ ok
      → lookup_function e func loaded_state loaded_state.loaded_module.module_instance ≡ some f
      → Ends e (called f) loaded_state o
      → Runs o
  Ends-Invoked f o loads looked x =
      let (same_envs, same_blocks) = ensure_fields c e t name w in
      let own' = ensure_wamr_running-Owned c e t name w own in
      record {
        owned = record {
          instances = rw x.loaded (x.instances ∙ own'.instances);
          modules = rw x.loaded (x.modules ∙ own'.modules);
          bins = rw x.loaded (x.bins ∙ own'.bins);
          whole = rw x.loaded own'.whole;
        };
        labelled = record {
          label = rw x.loaded (ensure_wamr_running-Labelled Code c e t name w made l).label;
        };
        envs = x.envs ∙ same_envs;
        blocks = x.blocks ∙ same_blocks;
        delivered = λ h.
            let (found, i, is_named, inst, code, same_hash) =
              ensure_wamr_running_code Code c e t name w own made l loads in
            record {
              found = found;
              instance_ = i;
              func = func;
              function = f;
              is_named = is_named;
              loaded = ap (λ m. m.module_instance) x.loaded ∙ inst;
              code = code;
              same_hash = ap (λ m. m.wapp_hash) x.loaded ∙ same_hash;
              func_given = refl;
              looked_up = same_lookup loaded_state.loaded_module.module_instance i f inst looked;
              delivered = x.delivered h;
            };
        withheld = λ h. (x.withheld h).1;
      }

  stopped-Invoked : (r : WasmResult) → r ≢ ok → Runs (stopped r loaded_state)
  stopped-Invoked r bad =
      let (same_envs, same_blocks) = ensure_fields c e t name w in
      record {
        owned = ensure_wamr_running-Owned c e t name w own;
        labelled = ensure_wamr_running-Labelled Code c e t name w made l;
        envs = same_envs;
        blocks = same_blocks;
        delivered = λ h. absurd (bad h);
        withheld = λ _. refl;
      }

  function_found-Invoked :
      (o : Option ℕ)
      → (ensure_wamr_running c e t name w).0 ≡ ok
      → lookup_function e func loaded_state loaded_state.loaded_module.module_instance ≡ o
      → Runs (function_found e input output_len loaded_state o)
  unfolding function_found
  function_found-Invoked none loads looked =
      stopped-Invoked WasmResult.wasm_incompatible (λ h. cc h)
  function_found-Invoked (some f) loads looked =
      Ends-Invoked f _ loads looked (execute-Ends e (called f) loaded_state in_fails out_fails)

  ensured-Invoked :
      (r : WasmResult)
      → (ensure_wamr_running c e t name w).0 ≡ r
      → Runs (ensured e func input output_len (r, loaded_state))
  unfolding ensured
  ensured-Invoked WasmResult.ok e' =
      function_found-Invoked
        (lookup_function e func loaded_state loaded_state.loaded_module.module_instance) e' refl
  ensured-Invoked WasmResult.invalid_argument e' =
      stopped-Invoked WasmResult.invalid_argument (λ h. cc h)
  ensured-Invoked WasmResult.trusted_component_not_found e' =
      stopped-Invoked WasmResult.trusted_component_not_found (λ h. cc h)
  ensured-Invoked WasmResult.wasm_incompatible e' =
      stopped-Invoked WasmResult.wasm_incompatible (λ h. cc h)
  ensured-Invoked WasmResult.resource_exhausted e' =
      stopped-Invoked WasmResult.resource_exhausted (λ h. cc h)
  ensured-Invoked WasmResult.wasm_execution_failed e' =
      stopped-Invoked WasmResult.wasm_execution_failed (λ h. cc h)
  ensured-Invoked WasmResult.output_buffer_too_small e' =
      stopped-Invoked WasmResult.output_buffer_too_small (λ h. cc h)
  ensured-Invoked WasmResult.internal_error e' =
      stopped-Invoked WasmResult.internal_error (λ h. cc h)

named-Invoked :
    (Code : Bytes → ℕ → Type 0) (c : Csuit) (e : WamrCalls) (t : Table) (wapp_name func_name : Buf)
    (input : Bytes) (output_ptr : Bool) (output_len : ℕ) (w : Wamr)
    → Owned w
    → Makes Code e t wapp_name
    → Labelled Code w
    → ((n : ℕ) → (e.malloc_input n).1 ≡ false → (e.malloc_input n).0 ≡ 0)
    → ((n : ℕ) → (e.malloc_output n).1 ≡ false → (e.malloc_output n).0 ≡ 0)
    → Invoked Code e t wapp_name func_name input output_len w
        (invoke_named c e t wapp_name func_name input output_ptr output_len w)
unfolding invoke_named
named-Invoked Code c e t (some name) (some func) input output_ptr output_len w own made l in_fails
      out_fails =
    elim (is_empty name || is_empty func || not output_ptr)
      as (λ b. Invoked Code e t (some name) (some func) input output_len w (
        if b
        then stopped invalid_argument w
        else ensured e func input output_len (ensure_wamr_running c e t name w))) [
          | true ↦
              still-Invoked Code e t (some name) (some func) input output_len w invalid_argument
                (some 0) own l λ h. cc h
          | false ↦
              ensured-Invoked Code c e t name func input output_len w own made l in_fails out_fails
                (ensure_wamr_running c e t name w).0 refl
        ]
named-Invoked Code c e t (some name) none input output_ptr output_len w own made l in_fails
      out_fails =
    still-Invoked Code e t (some name) none input output_len w invalid_argument (some 0) own l
      λ h. cc h
named-Invoked Code c e t none func_name input output_ptr output_len w own made l in_fails
      out_fails =
    still-Invoked Code e t none func_name input output_len w invalid_argument (some 0) own l
      λ h. cc h

-- However a call ends, it leaves no execution environment and no block of its own, and just the
-- objects of the loaded module, an instance of the hash that is kept with it. Where it is ok, the
-- instance that ran is one of the hash that the table has under the name, the function is the one
-- that WAMR finds in it, and what is given back are the bytes that its second call left, cut to the
-- smaller of the two sizes that its calls told, which is 1 to `output_len`. Otherwise nothing is.
-- It is known of the instance before that it has the hash that was kept with it, and of what WAMR
-- makes of the record's bytes that it has the record's hash. The allocator is taken to give a valid
-- pointer with an offset that is not 0.
pub ecall_invoke_wasm-Invoked :
    (Code : Bytes → ℕ → Type 0) (c : Csuit) (e : WamrCalls) (t : Table) (wapp_name func_name : Buf)
    (input : Bytes) (output_ptr : Bool) (output_len : ℕ) (len_ptr : Bool) (w : Wamr)
    → Owned w
    → Makes Code e t wapp_name
    → Labelled Code w
    → ((n : ℕ) → (e.malloc_input n).1 ≡ false → (e.malloc_input n).0 ≡ 0)
    → ((n : ℕ) → (e.malloc_output n).1 ≡ false → (e.malloc_output n).0 ≡ 0)
    → Invoked Code e t wapp_name func_name input output_len w
        (ecall_invoke_wasm c e t wapp_name func_name input output_ptr output_len len_ptr w)
unfolding ecall_invoke_wasm
ecall_invoke_wasm-Invoked Code c e t wapp_name func_name input output_ptr output_len true w own made
      l in_fails out_fails =
    named-Invoked Code c e t wapp_name func_name input output_ptr output_len w own made l in_fails
      out_fails
ecall_invoke_wasm-Invoked Code c e t wapp_name func_name input output_ptr output_len false w own
      made l in_fails out_fails =
    still-Invoked Code e t wapp_name func_name input output_len w invalid_argument none own l
      λ h. cc h
