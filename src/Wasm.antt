-- ===== src/Wasm.antt =====
-- Enclave/src/Enclave_wasm.cpp: the loaded WebAssembly module and `ecall_invoke_wasm`. WAMR is a
-- parameter; the state counts the objects of WAMR and the copies of a module that are alive.
pub mod Loading
pub mod Labels
pub mod Results
pub mod Invocations
mod Tests
use taws.Base.{
  ℕ, suc, ◌+◌, ◌-◌, Bool, true, false, not, ◌&&◌, ◌||◌, Option, none, some, List, [], ◌∷◌, ltb,
  ◌==◌, if◌then◌else◌, length, take, replicate, min, Bytes, bytes_eq, is_empty, Buf,
  is_null_or_empty, u32,
}
use taws.TcManager.{Csuit, ManifestRecord, Table, find_record_by_wapp_name, sha256_digest_length}

-- `ecall_wasm_result_t`
pub data WasmResult : Type 0 where
  ok invalid_argument trusted_component_not_found wasm_incompatible resource_exhausted : WasmResult
  wasm_execution_failed output_buffer_too_small internal_error : WasmResult

-- `WamrLoadedModule`
pub record WamrLoadedModule : Type 0 where
  pub wapp_name : Bytes
  pub wapp_hash : Bytes
  pub wapp_bin : Buf
  pub wasm_module : Option ℕ
  pub module_instance : Option ℕ

-- After `memset`.
abbrev pub unloaded : WamrLoadedModule
unloaded = record {
  wapp_name = [];
  wapp_hash = replicate sha256_digest_length 0;
  wapp_bin = none;
  wasm_module = none;
  module_instance = none;
}

pub record Wamr : Type 0 where
  pub runtime_inited : Bool
  pub loaded_module : WamrLoadedModule
  pub live_bins : ℕ
  pub live_modules : ℕ
  pub live_instances : ℕ
  pub live_exec_envs : ℕ
  pub live_blocks : ℕ  -- wasm_runtime_module_malloc

abbrev pub initial_wamr : Wamr
initial_wamr = record {
  runtime_inited = false;
  loaded_module = unloaded;
  live_bins = 0;
  live_modules = 0;
  live_instances = 0;
  live_exec_envs = 0;
  live_blocks = 0;
}

-- What WAMR and malloc answer. A block is its offset, 0 if there is none, and whether the native
-- pointer is valid. A call gives `argv[0]` or fails; the second leaves bytes in the output block.
pub record WamrCalls : Type 0 where
  pub full_init : Bool
  pub malloc_bin : Bool
  pub load : Bytes → ℕ → Option ℕ
  pub instantiate : ℕ → Option ℕ
  pub lookup_function : ℕ → Bytes → Option ℕ
  pub create_exec_env : Bool
  pub malloc_input : ℕ → ℕ × Bool
  pub malloc_output : ℕ → ℕ × Bool
  pub first_call : ℕ → Bytes → List ℕ → Option ℕ
  pub second_call : ℕ → Bytes → List ℕ → Option (ℕ × Bytes)

abbrev pub present {ℓ} : {A : Type ℓ} → Option A → ℕ
present none = 0
present (some a) = 1

-- `reset_wamr_loaded_module`
unfoldable pub reset : Wamr → Wamr
reset w = record w {
  loaded_module = unloaded;
  live_instances = w.live_instances - present w.loaded_module.module_instance;
  live_modules = w.live_modules - present w.loaded_module.wasm_module;
  live_bins = w.live_bins - present w.loaded_module.wapp_bin;
}

unfoldable pub instantiated : ManifestRecord → Wamr → ℕ → Option ℕ → WasmResult × Wamr
instantiated r w handle none =
    (wasm_incompatible, reset (record w { live_modules = w.live_modules - 1 }))
instantiated r w handle (some instance_) = (
  ok,
  record w {
    loaded_module = record w.loaded_module {
      wasm_module = some handle;
      module_instance = some instance_;
      wapp_hash = r.wapp_hash;
    };
    live_instances = w.live_instances + 1;
  },
)

unfoldable pub module_loaded : WamrCalls → ManifestRecord → Wamr → Option ℕ → WasmResult × Wamr
module_loaded e r w none = (wasm_incompatible, reset w)
module_loaded e r w (some handle) =
    instantiated r (record w { live_modules = w.live_modules + 1 }) handle (e.instantiate handle)

-- From the allocation of the copy on, for a payload `bin`.
unfoldable pub load_bin : WamrCalls → ManifestRecord → Bytes → Wamr → WasmResult × Wamr
load_bin e r bin w =
    if not e.malloc_bin
    then (
      resource_exhausted,
      record w { loaded_module = record w.loaded_module { wapp_bin = none } },
    )
    else module_loaded e r
        (record w {
          loaded_module = record w.loaded_module { wapp_bin = some bin };
          live_bins = w.live_bins + 1;
        })
        (e.load bin (u32 (length bin)))

abbrev with_name : Csuit → Bytes → Wamr → Wamr
with_name c name w = record w {
  loaded_module = record w.loaded_module { wapp_name = take (c.max_name_length - 1) name };
}

unfoldable pub reload :
    Csuit → WamrCalls → Bytes → ManifestRecord → Bytes → Wamr → WasmResult × Wamr
reload c e name r bin w =
    if w.runtime_inited
    then load_bin e r bin (with_name c name w)
    else if not e.full_init
    then (internal_error, with_name c name w)
    else load_bin e r bin (record (with_name c name w) { runtime_inited = true })

unfoldable pub reuse_or_reload :
    Csuit → WamrCalls → Bytes → ManifestRecord → Bytes → Wamr → Option ℕ → WasmResult × Wamr
reuse_or_reload c e name r bin w none = reload c e name r bin w
reuse_or_reload c e name r bin w (some instance_) =
    if bytes_eq w.loaded_module.wapp_hash r.wapp_hash
    then (ok, w)
    else reload c e name r bin (reset w)

unfoldable pub with_bin :
    Csuit → WamrCalls → Bytes → ManifestRecord → Wamr → Buf → WasmResult × Wamr
with_bin c e name r w none = (trusted_component_not_found, w)
with_bin c e name r w (some bin) =
    if is_empty bin
    then (trusted_component_not_found, w)
    else reuse_or_reload c e name r bin w w.loaded_module.module_instance

unfoldable pub with_record :
    Csuit → WamrCalls → Bytes → Wamr → Option ManifestRecord → WasmResult × Wamr
with_record c e name w none = (trusted_component_not_found, w)
with_record c e name w (some r) = with_bin c e name r w r.wapp_bin

-- `ensure_wamr_running`; the caller has excluded a NULL name.
unfoldable pub ensure_wamr_running : Csuit → WamrCalls → Table → Bytes → Wamr → WasmResult × Wamr
ensure_wamr_running c e t name w =
    if is_empty name
    then (invalid_argument, w)
    else with_record c e name w (find_record_by_wapp_name (some name) t)

-- What a call returns and writes, and the state that it leaves.
pub record WasmOutcome : Type 0 where
  pub result : WasmResult
  pub actual_len : Option ℕ
  pub output : Bytes
  pub wamr : Wamr

abbrev pub stopped : WasmResult → Wamr → WasmOutcome
stopped result w = record { result = result; actual_len = some 0; output = []; wamr = w }

abbrev destroy_exec_env : Wamr → Wamr
destroy_exec_env w = record w { live_exec_envs = w.live_exec_envs - 1 }

-- `wasm_runtime_module_malloc` and `wasm_runtime_module_free`, by the offset.
abbrev block_taken : ℕ → Wamr → Wamr
block_taken ptr w = record w { live_blocks = if ptr == 0 then w.live_blocks else w.live_blocks + 1 }

abbrev block_freed : ℕ → Wamr → Wamr
block_freed ptr w = record w { live_blocks = if ptr == 0 then w.live_blocks else w.live_blocks - 1 }

-- The arguments of a run, which all its steps share.
pub record Invocation : Type 0 where
  pub function : ℕ
  pub input : Bytes
  pub output_len : ℕ

unfoldable pub second_returned : ℕ → ℕ → ℕ → Wamr → Option (ℕ × Bytes) → WasmOutcome
second_returned in_ptr out_ptr ret_len w none =
    stopped wasm_execution_failed (destroy_exec_env (block_freed in_ptr (block_freed out_ptr w)))
second_returned in_ptr out_ptr ret_len w (some (n, native_out)) =
    let w' = destroy_exec_env (block_freed in_ptr (block_freed out_ptr w)) in
    if n == 0 then stopped wasm_execution_failed w' else (record {
      result = ok;
      actual_len = some (min n ret_len);
      output = take (min n ret_len) native_out;
      wamr = w';
    })

unfoldable pub output_allocated : WamrCalls → Invocation → ℕ → ℕ → Wamr → ℕ × Bool → WasmOutcome
output_allocated e v in_ptr ret_len w (out_ptr, native) =
    let w' = block_taken out_ptr w in
    if out_ptr == 0 || not native
    then stopped resource_exhausted (destroy_exec_env (block_freed in_ptr w'))
    else second_returned in_ptr out_ptr ret_len w' (
        e.second_call v.function v.input
          (u32 in_ptr ∷ u32 (length v.input) ∷ u32 out_ptr ∷ ret_len ∷ []))

unfoldable pub first_returned : WamrCalls → Invocation → ℕ → Wamr → Option ℕ → WasmOutcome
first_returned e v in_ptr w none =
    stopped wasm_execution_failed (destroy_exec_env (block_freed in_ptr w))
first_returned e v in_ptr w (some ret_len) =
    if ret_len == 0
    then stopped wasm_execution_failed (destroy_exec_env (block_freed in_ptr w))
    else if ltb v.output_len ret_len
    then stopped output_buffer_too_small (destroy_exec_env (block_freed in_ptr w))
    else output_allocated e v in_ptr ret_len w (e.malloc_output ret_len)

unfoldable pub run : WamrCalls → Invocation → ℕ → Wamr → WasmOutcome
run e v in_ptr w =
    first_returned e v in_ptr w
      (e.first_call v.function v.input (u32 in_ptr ∷ u32 (length v.input) ∷ 0 ∷ 0 ∷ []))

unfoldable pub input_allocated : WamrCalls → Invocation → Wamr → ℕ × Bool → WasmOutcome
input_allocated e v w (in_ptr, native) =
    let w' = block_taken in_ptr w in
    if in_ptr == 0 || not native
    then stopped resource_exhausted (destroy_exec_env w')
    else run e v in_ptr w'

-- From the execution environment on.
unfoldable pub execute : WamrCalls → Invocation → Wamr → WasmOutcome
execute e v w =
    if not e.create_exec_env
    then stopped internal_error w
    else let w' = record w { live_exec_envs = w.live_exec_envs + 1 } in
      if ltb 0 (length v.input)
      then input_allocated e v w' (e.malloc_input (u32 (length v.input)))
      else run e v 0 w'

unfoldable pub function_found : WamrCalls → Bytes → ℕ → Wamr → Option ℕ → WasmOutcome
function_found e input output_len w none = stopped wasm_incompatible w
function_found e input output_len w (some f) =
    execute e (record { function = f; input = input; output_len = output_len }) w

unfoldable pub lookup_function : WamrCalls → Bytes → Wamr → Option ℕ → Option ℕ
lookup_function e func w none = none
lookup_function e func w (some instance_) = e.lookup_function instance_ func

unfoldable pub ensured : WamrCalls → Bytes → Bytes → ℕ → WasmResult × Wamr → WasmOutcome
ensured e func input output_len (ok, w) =
    function_found e input output_len w (lookup_function e func w w.loaded_module.module_instance)
ensured e func input output_len (r, w) = stopped r w

unfoldable pub invoke_named :
    Csuit → WamrCalls → Table → Buf → Buf → Bytes → Bool → ℕ → Wamr → WasmOutcome
invoke_named c e t (some name) (some func) input output_ptr output_len w =
    if is_empty name || is_empty func || not output_ptr
    then stopped invalid_argument w
    else ensured e func input output_len (ensure_wamr_running c e t name w)
invoke_named c e t (some name) none input output_ptr output_len w = stopped invalid_argument w
invoke_named c e t none func input output_ptr output_len w = stopped invalid_argument w

-- `ecall_invoke_wasm`; the Booleans tell whether `output` and `actual_len` are valid pointers.
unfoldable pub ecall_invoke_wasm :
    Csuit → WamrCalls → Table → Buf → Buf → Bytes → Bool → ℕ → Bool → Wamr → WasmOutcome
ecall_invoke_wasm c e t wapp_name func_name input output_ptr output_len len_ptr w =
    if not len_ptr
    then record { result = invalid_argument; actual_len = none; output = []; wamr = w }
    else invoke_named c e t wapp_name func_name input output_ptr output_len w
