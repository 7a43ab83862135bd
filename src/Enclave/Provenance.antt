-- ===== src/Enclave/Provenance.antt =====
-- Enclave/src: what is true of the enclave after any ecalls, and where the code comes from that runs.
use taws.Base.{
  ℕ, ◌≡◌, refl, sym, ap, ◌∙◌, Bool, true, false, ◌&&◌, ◌||◌, Option, none, some, Bytes, Buf,
}
use taws.TcManager.{Csuit, initial_table}
use taws.TcManager.Invariant.{IsTable}
use taws.TcManager.History.{initial_table-IsTable}
use taws.SuitProcessor.{SuitState}
use taws.Teep.{Message}
use taws.KeyPair.History.{KeyCall}
use taws.Agent.{
  Agent, AgentStatus, waiting_query_request, waiting_update_or_query_request, AgentCalls,
  RecvMessage, received_query_request, received_update, received_other, verified, decoded, handle,
  ecall_process_message,
}
use taws.Agent.Transitions.{ecall-IsTable, ecall_suit, early_suit}
use taws.Wasm.{WamrCalls, WasmOutcome}
use taws.Wasm.Loading.{Owned, initial_wamr-Owned}
use taws.Wasm.Labels.{Makes, Labelled, initial_wamr-Labelled}
use taws.Wasm.Invocations.{Ran, ecall_invoke_wasm-Invoked}
use taws.Enclave.{
  Enclave, initial_enclave, with_key, process_message, invoke_wasm, key_call, agent_of, step,
  is_update, expects_update, handles_update, accepted, message_in, authentic,
}

-- An allocator that gives a valid pointer with each offset that is not 0.
pub record Allocates (e : WamrCalls) : Type 0 where
  pub for_input : (n : ℕ) → (e.malloc_input n).1 ≡ false → (e.malloc_input n).0 ≡ 0
  pub for_output : (n : ℕ) → (e.malloc_output n).1 ≡ false → (e.malloc_output n).0 ≡ 0

-- The states that ecalls lead to, and whether one of these calls handled an Update. In each call of
-- `ecall_invoke_wasm` WAMR makes an instance of the hash of the record out of the record's bytes.
pub data Reached (Code : Bytes → ℕ → Type 0) : Bool → Enclave → Type 0 where
  created : Reached Code false initial_enclave
  by_message :
      (e : AgentCalls) (recv : Bytes) (app_name : Buf) (allocated_len : ℕ) {updated : Bool}
      {en : Enclave}
      → Reached Code updated en
      → Reached Code
          (handles_update (process_message e recv app_name allocated_len) en || updated)
          (step (process_message e recv app_name allocated_len) en)
  by_invocation :
      (c : Csuit) (e : WamrCalls) (wapp_name func_name : Buf) (input : Bytes) (output_ptr : Bool)
      (output_len : ℕ) (len_ptr : Bool) {updated : Bool} {en : Enclave}
      → Allocates e
      → Makes Code e en.agent.suit.table wapp_name
      → Reached Code updated en
      → Reached Code updated
          (step (invoke_wasm c e wapp_name func_name input output_ptr output_len len_ptr) en)
  by_key_call :
      (call : KeyCall) {updated : Bool} {en : Enclave}
      → Reached Code updated en
      → Reached Code updated (step (key_call call) en)

-- What is true of the enclave: the table is well formed, WAMR's objects are those of the loaded
-- module, whose instance has the hash that is kept with it, and the table is empty up to the first Update.
pub record IsEnclave (Code : Bytes → ℕ → Type 0) (updated : Bool) (en : Enclave) : Type 0 where
  pub table : IsTable en.agent.suit.table
  pub owned : Owned en.wamr
  pub labelled : Labelled Code en.wamr
  pub unfilled : updated ≡ false → en.agent.suit.table ≡ initial_table

none_of : (a b : Bool) → (a || b) ≡ false → (a ≡ false) × (b ≡ false)
none_of true b h = cc h
none_of false b h = (refl, h)

not_both : (a b : Bool) → (a && b) ≡ false → a ≡ true → b ≡ false
not_both true b h yes_ = h
not_both false b h yes_ = cc yes_

query_suit :
    (e : AgentCalls) (app_name : Buf) (m : RecvMessage) (a a' : Agent) (msg : Message)
    → is_update (some m) ≡ false
    → handle e app_name m a ≡ some (msg, a')
    → a'.suit ≡ a.suit
unfolding handle
query_suit e app_name (received_query_request q) a a' msg none_ h = cc h
query_suit e app_name (received_update up) a a' msg none_ h = cc none_
query_suit e app_name received_other a a' msg none_ h = cc h

not_expected : (s : AgentStatus) → expects_update s ≡ false → s ≡ waiting_query_request
not_expected waiting_query_request h = refl
not_expected waiting_update_or_query_request h = cc h

-- A message which is no Update that is handled keeps the table.
-- The agent takes the messages that are authentic, and no others.
received_authentic :
    (e : AgentCalls) (recv : Bytes)
    → decoded e (verified e recv (e.verify_cose_sign1 recv)) ≡ authentic e recv
unfolding verified decoded
received_authentic e recv = by_sign1 (e.verify_cose_sign1 recv)
  where
    by_payload : (o : Option Bytes) → decoded e o ≡ message_in e o
    by_payload none = refl
    by_payload (some payload) = refl

    by_sign1 :
        (o : Option Bytes)
        → decoded e (verified e recv o) ≡ message_in e (accepted o (e.verify_cose_sign recv))
    by_sign1 none = by_payload (e.verify_cose_sign recv)
    by_sign1 (some payload) = refl

unhandled_suit :
    (e : AgentCalls) (recv : Bytes) (app_name : Buf) (allocated_len : ℕ) (a : Agent)
    → (a.key_ready && (is_update (authentic e recv) && expects_update a.status)) ≡ false
    → (ecall_process_message e recv app_name allocated_len a).agent.suit ≡ a.suit
unhandled_suit e recv app_name allocated_len a h = ecall_suit e recv app_name allocated_len a keeps
  where
    keeps :
        (m : RecvMessage) (a' : Agent) (msg : Message)
        → a.key_ready ≡ true
        → decoded e (verified e recv (e.verify_cose_sign1 recv)) ≡ some m
        → handle e app_name m a ≡ some (msg, a')
        → a'.suit ≡ a.suit
    keeps m a' msg ready taken handles =
        by_kind m
          (ap (λ o. is_update o && expects_update a.status)
              (sym (sym (received_authentic e recv) ∙ taken))
            ∙ not_both a.key_ready _ h ready)
          handles
      where
        by_kind :
            (m' : RecvMessage)
            → (is_update (some m') && expects_update a.status) ≡ false
            → handle e app_name m' a ≡ some (msg, a')
            → a'.suit ≡ a.suit
        by_kind (received_query_request q) unexpected h' =
            query_suit e app_name (received_query_request q) a a' msg refl h'
        by_kind (received_update up) unexpected h' =
            early_suit e app_name up a a' msg (not_expected a.status unexpected) h'
        by_kind received_other unexpected h' = query_suit e app_name received_other a a' msg refl h'

pub ecalls-IsEnclave :
    (Code : Bytes → ℕ → Type 0) (updated : Bool) (en : Enclave)
    → Reached Code updated en
    → IsEnclave Code updated en
unfolding step
ecalls-IsEnclave Code _ _ created = record {
  table = initial_table-IsTable;
  owned = initial_wamr-Owned;
  labelled = initial_wamr-Labelled Code;
  unfilled = λ _. refl;
}
ecalls-IsEnclave Code _ _
      (by_message e recv app_name allocated_len {updated = updated} {en = en} r) =
    let v = ecalls-IsEnclave Code updated en r in
    record {
      table = ecall-IsTable (with_key en.keys e) recv app_name allocated_len (agent_of en) v.table;
      owned = v.owned;
      labelled = v.labelled;
      unfilled = λ none_.
          let (unhandled, before) =
            none_of (handles_update (process_message e recv app_name allocated_len) en) updated
              none_ in
          ap (λ (s : SuitState). s.table)
            (unhandled_suit (with_key en.keys e) recv app_name allocated_len (agent_of en)
              unhandled)
          ∙ v.unfilled before;
    }
ecalls-IsEnclave Code _ _
      (by_invocation c e wapp_name func_name input output_ptr output_len len_ptr {updated = updated}
        {en = en} a m r) =
    let v = ecalls-IsEnclave Code updated en r in
    let i =
      ecall_invoke_wasm-Invoked Code c e en.agent.suit.table wapp_name func_name input output_ptr
        output_len len_ptr en.wamr v.owned m v.labelled a.for_input a.for_output in
    record { table = v.table; owned = i.owned; labelled = i.labelled; unfilled = v.unfilled }
ecalls-IsEnclave Code _ _ (by_key_call call {updated = updated} {en = en} r) =
    let v = ecalls-IsEnclave Code updated en r in
    record { table = v.table; owned = v.owned; labelled = v.labelled; unfilled = v.unfilled }

-- An invocation that gives a result ran an instance of the hash that the table has under the name,
-- and an Update was handled before it.
pub record Provenance (Code : Bytes → ℕ → Type 0) (updated : Bool) (en : Enclave) (e : WamrCalls)
    (name func_name : Buf) (input : Bytes) (output_len : ℕ) (o : WasmOutcome) : Type 0 where
  pub ran : Ran Code e en.agent.suit.table name func_name input output_len o
  pub after_update : updated ≡ true
