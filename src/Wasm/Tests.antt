-- ===== src/Wasm/Tests.antt =====
-- Enclave/src/Enclave_wasm.cpp: wamr_calls at concrete inputs.
use taws.Base.{ℕ, ◌≡◌, sym, ap, refl, true, some, [], ◌∷◌, Bytes, replicate, bytes_eq}
use taws.TcManager.{
  ManifestRecord, Table, zero_record, find_record_by_wapp_name, find_by_wapp_name, find_index,
}
use taws.Wasm.{
  ok, initial_wamr, ensure_wamr_running, ecall_invoke_wasm, with_record, with_bin, reuse_or_reload,
  reload, load_bin, module_loaded, instantiated,
}
use taws.Wasm.Loading.{Owned, initial_wamr-Owned, ensure_wamr_running-Owned}
use taws.Wasm.Labels.{Makes, initial_wamr-Labelled, ensure_wamr_running_code}
use taws.Wasm.Invocations.{Invoked, ecall_invoke_wasm-Invoked}
use taws.Samples.{csuit, wamr_calls}

abbrev app : ManifestRecord
app = record zero_record {
  wapp_name = b'a' ∷ [];
  wapp_bin = some (3 ∷ []);
  wapp_hash = replicate 32 9;
}

abbrev table : Table
table = record { slots = app ∷ []; len = 1 }

abbrev name : Bytes
name = b'a' ∷ []

loads : (ensure_wamr_running csuit wamr_calls table name initial_wamr).0 ≡ ok
unfolding ensure_wamr_running with_record with_bin reuse_or_reload reload load_bin module_loaded
    instantiated find_record_by_wapp_name find_by_wapp_name find_index bytes_eq
loads = refl

ensure_wamr_running-Owned_example :
    Owned (ensure_wamr_running csuit wamr_calls table name initial_wamr).1
ensure_wamr_running-Owned_example =
    ensure_wamr_running-Owned csuit wamr_calls table name initial_wamr initial_wamr-Owned

-- WAMR's only instance is 2, of the module of `app`.
abbrev OfApp : Bytes → ℕ → Type 0
OfApp hash i = (hash ≡ replicate 32 9) × (i ≡ 2)

app_found : find_record_by_wapp_name (some name) table ≡ some app
unfolding find_record_by_wapp_name find_by_wapp_name find_index bytes_eq
app_found = refl

wamr_calls-Makes : Makes OfApp wamr_calls table (some name)
wamr_calls-Makes = record {
  code = λ r bin handle i found has_bin loads makes.
      let same : app ≡ r = cc (app_found, found) in
      (sym (ap (λ (q : ManifestRecord). q.wapp_hash) same), cc makes);
}

ensure_wamr_running_code_example :
    (r : ManifestRecord) × (i : ℕ) × (find_record_by_wapp_name (some name) table ≡ some r)
    × ((ensure_wamr_running csuit wamr_calls table name
          initial_wamr).1.loaded_module.module_instance
        ≡ some i)
    × OfApp r.wapp_hash i
    × ((ensure_wamr_running csuit wamr_calls table name initial_wamr).1.loaded_module.wapp_hash
        ≡ r.wapp_hash)
ensure_wamr_running_code_example =
    ensure_wamr_running_code OfApp csuit wamr_calls table name initial_wamr initial_wamr-Owned
      wamr_calls-Makes (initial_wamr-Labelled OfApp) loads

ecall_invoke_wasm-Invoked_example :
    Invoked OfApp wamr_calls table (some name) (some (b'f' ∷ [])) (5 ∷ []) 100 initial_wamr (
      ecall_invoke_wasm csuit wamr_calls table
        (some name)
        (some (b'f' ∷ []))
        (5 ∷ [])
        true
        100
        true
        initial_wamr)
ecall_invoke_wasm-Invoked_example =
    ecall_invoke_wasm-Invoked OfApp csuit wamr_calls table (some name) (some (b'f' ∷ [])) (5 ∷ [])
      true 100 true initial_wamr initial_wamr-Owned wamr_calls-Makes (initial_wamr-Labelled OfApp)
      (λ n h. cc h) (λ n h. cc h)
