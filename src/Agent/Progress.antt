-- ===== src/Agent/Progress.antt =====
-- Enclave/src/Enclave_process_message.cpp: when `ecall_process_message` sends an answer.
use taws.Base.{ℕ, ◌≡◌, ap, ◌∙◌, Bool, true, not, some, if◌then◌else◌, Bytes, Buf}
use taws.Teep.{Message}
use taws.Agent.{
  Agent, AgentCalls, RecvMessage, EcallOutcome, failed, verified, decoded, handle, next_status,
  release, result_code, signed, encoded, send, handled, process_decoded, ecall_process_message,
}

-- A message that is verified and decoded with the key ready is answered, where its handler has an
-- answer that is encoded and signed.
pub ecall_answers :
    (e : AgentCalls) (recv : Bytes) (app_name : Buf) (allocated_len : ℕ) (a a' : Agent)
    (m : RecvMessage) (msg : Message) (cbor cose : Bytes)
    → a.key_ready ≡ true
    → decoded e (verified e recv (e.verify_cose_sign1 recv)) ≡ some m
    → handle e app_name m a ≡ some (msg, a')
    → e.encode_message msg ≡ some cbor
    → e.sign_cose_sign1 cbor allocated_len ≡ some cose
    → ecall_process_message e recv app_name allocated_len a ≡ record {
      result = result_code msg;
      sent = some cose;
      agent = release msg (record a' { status = next_status a'.status msg });
    }
unfolding ecall_process_message process_decoded handled send encoded signed
ecall_answers e recv app_name allocated_len a a' m msg cbor cose key good h en si =
    ap gate key
    ∙ ap (process_decoded e allocated_len app_name a) good
    ∙ ap (handled e allocated_len a) h
    ∙ ap (encoded e allocated_len msg moved) en
    ∙ ap (signed msg moved) si
  where
    moved : Agent
    moved = record a' { status = next_status a'.status msg }

    gate : Bool → EcallOutcome
    gate b =
        if not b
        then failed a
        else process_decoded e allocated_len app_name a
            (decoded e (verified e recv (e.verify_cose_sign1 recv)))
