-- ===== src/Enclave/Tests.antt =====
-- Enclave/src: a key is set, a QueryRequest and an Update are handled, and the module runs.
use taws.Base.{
  ℕ, Bytes, ◌≡◌, ◌∙◌, ap, Bool, refl, true, false, ◌||◌, some, [], ◌∷◌, Buf, bytes_eq, replicate,
}
use taws.KeyPair.History.{set}
use taws.Wasm.{ok, initial_wamr, ecall_invoke_wasm, ensure_wamr_running, ensured, with_record}
use taws.TcManager.{
  store_record, claim_record, fill_record, find_by_digest, find_index, set_ids_from_component_id,
  check_and_update_record, update_or_discard, find_record_by_wapp_name, find_by_wapp_name,
  ManifestRecord, Table,
}
use taws.SuitProcessor.{process_envelope, store_callback}
use taws.KeyPair.{Keys}
use taws.Update.{
  process_update, update_steps, token_accepted, process_manifests, process_manifest, next_manifest,
  with_processor, read_envelope, process_manifest_bytes, envelope_processed,
}
use taws.Enclave.{
  Enclave, initial_enclave, is_ready, process_message, key_call, with_key, agent_of, invoked, step,
  handles_update,
}
use taws.Enclave.Provenance.{Provenance}
use taws.Agent.{
  Agent, AgentCalls, ecall_process_message, RecvMessage, received_query_request, received_update,
}
use taws.Samples.{csuit, plain_calls, wamr_calls, key_calls, responded_to}

abbrev name : Buf
name = some (b'a' ∷ [])

abbrev keyed : Enclave
keyed = step (key_call (set key_calls)) initial_enclave

abbrev queried : Enclave
queried = step (process_message plain_calls (0 ∷ []) name 100) keyed

abbrev updated : Enclave
updated = step (process_message plain_calls (1 ∷ []) name 100) queried

key_is_ready : is_ready keyed.keys.state ≡ true
unfolding step taws.KeyPair.History.run taws.KeyPair.ecall_teep_set_esp256_key
key_is_ready = refl

-- The Agent once it has answered the request.
abbrev answered : Agent
answered = record responded_to { heap = 0 }

query_answered : queried.agent ≡ answered
unfolding step taws.Agent.ecall_process_message taws.KeyPair.History.run
    taws.KeyPair.ecall_teep_set_esp256_key taws.Agent.decoded taws.Agent.verified taws.Agent.handle
    taws.Agent.send taws.Agent.encoded taws.Agent.signed taws.Agent.release
    taws.Query.process_query_request taws.Query.query_steps taws.Query.version_found
    taws.Query.select_cipher_suite taws.Query.add_components taws.Agent.next_status
query_answered = refl

abbrev app : ManifestRecord
app = record {
  manifest_digest = some (1 ∷ []);
  manifest_name = b'a' ∷ [];
  manifest_sequence_number = 3;
  manifest_bin = some (7 ∷ 7 ∷ []);
  wapp_name = b'a' ∷ [];
  wapp_bin = some (7 ∷ 7 ∷ []);
  wapp_hash = replicate 32 9;
}

-- Whatever the key is, the Update stores the module.
stored :
    (k : Keys)
    → find_record_by_wapp_name name
        (ecall_process_message (with_key k plain_calls) (1 ∷ []) name 100 answered).agent.suit.table
      ≡ some app
unfolding ecall_process_message taws.Agent.decoded taws.Agent.verified taws.Agent.handle
    taws.Agent.send taws.Agent.encoded taws.Agent.signed taws.Agent.release taws.Agent.next_status
    process_update update_steps token_accepted process_manifests process_manifest next_manifest
    with_processor read_envelope process_manifest_bytes envelope_processed process_envelope
    store_callback store_record claim_record fill_record find_by_digest find_index
    set_ids_from_component_id check_and_update_record update_or_discard bytes_eq
    find_record_by_wapp_name find_by_wapp_name
stored k = refl

agent_waits : agent_of queried ≡ answered
unfolding step
agent_waits =
    ap (λ (a : Agent). record a { key_ready = is_ready keyed.keys.state }) query_answered
    ∙ ap (λ b. record answered { key_ready = b }) key_is_ready

module_found : find_record_by_wapp_name name updated.agent.suit.table ≡ some app
unfolding step
module_found =
    ap
      (λ a.
        find_record_by_wapp_name name
          (ecall_process_message (with_key queried.keys plain_calls) (1 ∷ []) name 100
            a).agent.suit.table)
      agent_waits
    ∙ stored queried.keys

-- A table that has the module.
found_runs :
    (t : Table)
    → find_record_by_wapp_name name t ≡ some app
    → (ecall_invoke_wasm csuit wamr_calls t name name (5 ∷ []) true 10 true initial_wamr).result
      ≡ ok
unfolding ecall_invoke_wasm ensure_wamr_running taws.Wasm.invoke_named taws.Wasm.ensured
    taws.Wasm.with_record taws.Wasm.with_bin taws.Wasm.reuse_or_reload taws.Wasm.reload
    taws.Wasm.load_bin taws.Wasm.module_loaded taws.Wasm.instantiated taws.Wasm.function_found
    taws.Wasm.lookup_function taws.Wasm.execute taws.Wasm.input_allocated taws.Wasm.run
    taws.Wasm.first_returned taws.Wasm.output_allocated taws.Wasm.second_returned bytes_eq
found_runs t found =
    ap
      (λ o.
        (ensured wamr_calls (b'a' ∷ []) (5 ∷ []) 10
          (with_record csuit wamr_calls (b'a' ∷ []) initial_wamr o)).result)
      found

runs : (invoked csuit wamr_calls name name (5 ∷ []) true 10 true updated).result ≡ ok
unfolding step
runs = found_runs updated.agent.suit.table module_found

abbrev handled : Bool
handled =
    handles_update (process_message plain_calls (1 ∷ []) name 100) queried
    || (handles_update (process_message plain_calls (0 ∷ []) name 100) keyed || false)

-- WAMR's only instance is 2, of the module of `app`.
abbrev OfApp : Bytes → ℕ → Type 0
OfApp hash i = (hash ≡ replicate 32 9) × (i ≡ 2)
