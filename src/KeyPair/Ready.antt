-- ===== src/KeyPair/Ready.antt =====
-- Enclave/src/Enclave_generate_keypair.cpp: when the key is ready, and what it is then.
use taws.Base.{
  ◌≡◌, ◌↔◌, refl, sym, ap, ◌∙◌, Bool, true, false, Option, none, some, take, drop, Bytes, Result,
  ok, err, ◌&&◌, if◌then◌else◌,
}
use taws.Cbor.{Cbor, map_of, entry, end_of_map, int, bytes, calls}
use taws.Teep.{TeepErr, unexpected_error}
use taws.KeyPair.{
  heap_block, KeyParts, key_uninitialized, key_ready, Keys, CoseLabels, KeyCalls,
  thumbprint_buffer_size, pointed, cose_key_calls, finished_or, kid_pointer, kid_hashed,
  with_arrays, teep_generate_kid, tam_key_set, kid_owned, generation_end, generated_key_set,
  ec_key_got, ecall_teep_generate_esp256_key_pair, built_in_set, ecall_teep_set_esp256_key,
  key_freed,
}

-- The COSE_Key of a public key.
pub cose_key : CoseLabels → Bytes → Cbor
cose_key l pk = map_of (
    entry l.kty (int l.kty_ec2) (
      entry l.crv (int l.crv_p256) (
        entry l.x (bytes (take 32 (drop 1 pk)))
          (entry l.y (bytes (take 32 (drop 33 pk))) end_of_map))))

-- The hash of the COSE_Key of a public key.
abbrev pub thumbprint : KeyCalls → Bytes → Result TeepErr Bytes
thumbprint e pk =
    e.generate_sha256
      (finished_or e.cose_key_bytes
        (e.qcbor.finish thumbprint_buffer_size (calls (cose_key e.labels pk))))
      e.malloc_kid

-- A key that was made: it is ready, its kid is the hash of its COSE_Key, and the TAM's key is set.
pub record IsMade (e : KeyCalls) (k : Keys) : Type 0 where
  pub ready : k.state ≡ key_ready
  pub digest : Bytes
  pub hashed : thumbprint e (pointed k.agent.public_key) ≡ ok digest
  pub kid : k.agent.kid ≡ kid_pointer e.malloc_kid digest
  pub kid_block :
      e.malloc_kid ≡ true
      → (cbor : Bytes)
      → e.qcbor.finish thumbprint_buffer_size
          (calls (cose_key e.labels (pointed k.agent.public_key)))
        ≡ some cbor
      → (d : Bytes) × (e.generate_sha256 cbor true ≡ ok d) × (k.agent.kid ≡ heap_block d)
  pub tam : k.tam_cose_tag ≡ e.cose_sign1_tag

-- The behaviour of a call that makes a key: it succeeds exactly if the key is ready behind it, and
-- then the key is made as it should be.
pub record Makes (e : KeyCalls) (r : Option TeepErr × Keys) : Type 0 where
  pub if_ready : (r.0 ≡ none) ↔ (r.1.state ≡ key_ready)
  pub made : r.0 ≡ none → IsMade e r.1

-- A failure leaves the key as it was, or not ready.
record FailsUnready (e : KeyCalls) (r : Option TeepErr × Keys) : Type 0 where
  made : r.0 ≡ none → IsMade e r.1
  unready : (code : TeepErr) → r.0 ≡ some code → r.1.state ≡ key_uninitialized

unready-Makes : (e : KeyCalls) (r : Option TeepErr × Keys) → FailsUnready e r → Makes e r
unready-Makes e (none, k) f = record {
  if_ready = (λ h. (f.made refl).ready, λ h. refl);
  made = f.made;
}
unready-Makes e (some code, k) f =
    let un = f.unready code refl in
    record { if_ready = (λ h. cc h, λ h. cc (h, un)); made = λ h. cc h }

-- The kid is hashed, and the state of the key is not changed.
record IsHashed (e : KeyCalls) (k : Keys) (r : Option TeepErr × Keys) : Type 0 where
  state : r.1.state ≡ k.state
  public_key : r.1.agent.public_key ≡ k.agent.public_key
  digest :
      r.0 ≡ none
      → (d : Bytes) × (thumbprint e (pointed k.agent.public_key) ≡ ok d)
        × (r.1.agent.kid ≡ kid_pointer e.malloc_kid d)

generate-IsHashed : (e : KeyCalls) (k : Keys) → IsHashed e k (teep_generate_kid e k)
unfolding teep_generate_kid cose_key_calls cose_key calls
generate-IsHashed e k = by_hash (thumbprint e (pointed k.agent.public_key)) refl
  where
    by_hash :
        (h : Result TeepErr Bytes)
        → thumbprint e (pointed k.agent.public_key) ≡ h
        → IsHashed e k (kid_hashed e k h)
    by_hash (ok d) same = record { state = refl; public_key = refl; digest = λ _. (d, same, refl) }
    by_hash (err code) same = record { state = refl; public_key = refl; digest = λ h. cc h }

module _ (e : KeyCalls) where
  owned-IsMade :
      (k : Keys) (r : Option TeepErr × Keys)
      → IsHashed e k r
      → (kid_owned e r).0 ≡ none
      → IsMade e (kid_owned e r).1
  unfolding kid_owned
  owned-IsMade k (some code, k') h s = cc s
  owned-IsMade k (none, k') h s = by_tam e.teep_key_init_public s
    where
      by_tam :
          (o : Option TeepErr)
          → (tam_key_set e (record k' { owns_kid = true }) o).0 ≡ none
          → IsMade e (tam_key_set e (record k' { owns_kid = true }) o).1
      by_tam none s' =
          let (d, hashed', kid) = h.digest refl in
          let hashed = ap (λ p. thumbprint e (pointed p)) h.public_key ∙ hashed' in
          record {
            ready = refl;
            digest = d;
            hashed = hashed;
            kid_block = λ block cbor finished. (
              d,
              sym (
                    ap (λ o. e.generate_sha256 (finished_or e.cose_key_bytes o) e.malloc_kid)
                      finished
                    ∙ ap (e.generate_sha256 cbor) block)
                  ∙ hashed,
              kid ∙ ap (λ b. kid_pointer b d) block,
            );
            kid = kid;
            tam = refl;
          }
      by_tam (some code) s' = cc s'

  owned_unready :
      (k : Keys) (r : Option TeepErr × Keys) (code : TeepErr)
      → k.state ≡ key_uninitialized
      → IsHashed e k r
      → (kid_owned e r).0 ≡ some code
      → (kid_owned e r).1.state ≡ key_uninitialized
  unfolding kid_owned
  owned_unready k (some code', k') code un h s = h.state ∙ un
  owned_unready k (none, k') code un h s = by_tam e.teep_key_init_public s
    where
      by_tam :
          (o : Option TeepErr)
          → (tam_key_set e (record k' { owns_kid = true }) o).0 ≡ some code
          → (tam_key_set e (record k' { owns_kid = true }) o).1.state ≡ key_uninitialized
      by_tam none s' = cc s'
      by_tam (some code') s' = h.state ∙ un

  built_in-FailsUnready :
      (k : Keys) (r : Option TeepErr × KeyParts)
      → k.state ≡ key_uninitialized
      → FailsUnready e (built_in_set e k r)
  unfolding built_in_set
  built_in-FailsUnready k (some code, parts) un = record { made = λ s. cc s; unready = λ c s. un }
  built_in-FailsUnready k (none, parts) un =
      let k' = record k { agent = parts } in
      let hashed = generate-IsHashed e k' in
      record {
        made = owned-IsMade k' (teep_generate_kid e k') hashed;
        unready = λ code. owned_unready k' (teep_generate_kid e k') code un hashed;
      }

  end-FailsUnready :
      (r : Option TeepErr × Keys) → (r.0 ≡ none → IsMade e r.1) → FailsUnready e (generation_end r)
  unfolding generation_end
  end-FailsUnready (none, k) made = record { made = made; unready = λ code s. cc s }
  end-FailsUnready (some code, k) made = record { made = λ s. cc s; unready = λ c s. refl }

  generated-IsMade :
      (private public : Bytes) (k : Keys) (r : Option TeepErr × KeyParts)
      → (generated_key_set e private public k r).0 ≡ none
      → IsMade e (generated_key_set e private public k r).1
  unfolding generated_key_set
  generated-IsMade private public k (some code, parts) s = cc s
  generated-IsMade private public k (none, parts) s =
      let k' = with_arrays private public parts k in
      owned-IsMade k' (teep_generate_kid e k') (generate-IsHashed e k') s

  got-IsMade :
      (k : Keys) (o : Option (Bytes × Bytes))
      → (ec_key_got e k o).0 ≡ none
      → IsMade e (ec_key_got e k o).1
  unfolding ec_key_got
  got-IsMade k none s = cc s
  got-IsMade k (some (private, public)) s =
      generated-IsMade private public k (e.teep_key_init private public k.agent) s

  if-IsMade :
      (b : Bool) (x : Option TeepErr × Keys) (k : Keys) (code : TeepErr)
      → (x.0 ≡ none → IsMade e x.1)
      → (if b then x else (some code, k)).0 ≡ none
      → IsMade e (if b then x else (some code, k)).1
  if-IsMade true x k code made s = made s
  if-IsMade false x k code made s = cc s

-- Whatever the libraries answer, the two calls that make a key succeed exactly if the key is ready
-- behind them, and then the TAM's key has its tag. Where malloc gives a block and QCBOR finishes the
-- COSE_Key of the public key, the kid is a block with its hash; a failed malloc leaves a NULL kid, and
-- where QCBOR does not finish, the hash is one of the bytes that were there.
pub key-Makes :
    (e : KeyCalls) (k : Keys)
    → Makes e (ecall_teep_generate_esp256_key_pair e k) × Makes e (ecall_teep_set_esp256_key e k)
unfolding ecall_teep_generate_esp256_key_pair ecall_teep_set_esp256_key
key-Makes e k = (
  unready-Makes e _ (
      end-FailsUnready e
        (if e.ctx_new && e.keygen_init && e.set_curve && e.keygen
          then ec_key_got e (key_freed e k) e.get1_ec_key
          else (some unexpected_error, key_freed e k))
        (if-IsMade e (e.ctx_new && e.keygen_init && e.set_curve && e.keygen)
          (ec_key_got e (key_freed e k) e.get1_ec_key) (key_freed e k) unexpected_error
          (got-IsMade e (key_freed e k) e.get1_ec_key))),
  unready-Makes e _
      (built_in-FailsUnready e (record (key_freed e k) { state = key_uninitialized }) _ refl),
)
