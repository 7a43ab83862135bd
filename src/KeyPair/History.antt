-- ===== src/KeyPair/History.antt =====
-- Enclave/src/Enclave_generate_keypair.cpp: the key over sequences of calls.
use taws.Base.{
  ◌≡◌, refl, sym, ap, ◌∙◌, Bool, true, false, ◌&&◌, ◌||◌, Option, none, some, List, [], ◌∷◌, Bytes,
  Result, ok, err, if◌then◌else◌, arith,
}
use taws.Teep.{TeepErr, unexpected_error}
use taws.KeyPair.{
  KeyParts, key_uninitialized, key_ready, KeyState, Keys, KeyCalls, clear_agent_sign_buffers,
  kid_hashed, teep_generate_kid, tam_key_set, kid_owned, generation_end, with_arrays,
  generated_key_set, ec_key_got, key_freed, ecall_teep_generate_esp256_key_pair, freed_keypair,
  ecall_teep_free_keypair, built_in_set, ecall_teep_set_esp256_key, kid_pointer, counted,
}
use taws.KeyPair.Blocks.{IsKeys, Cleared, clear-Cleared, bare-IsKeys, owned_kids}

-- The ecalls on the key.
pub data KeyCall : Type 0 where
  generate set free_keypair : KeyCalls → KeyCall

unfoldable pub run : KeyCall → Keys → Keys
run (generate e) k = (ecall_teep_generate_esp256_key_pair e k).1
run (set e) k = (ecall_teep_set_esp256_key e k).1
run (free_keypair e) k = ecall_teep_free_keypair e k

unfoldable pub runs : List KeyCall → Keys → Keys
runs [] k = k
runs (call ∷ calls) k = runs calls (run call k)

abbrev pub answers : KeyCall → KeyCalls
answers (generate e) = e
answers (set e) = e
answers (free_keypair e) = e

-- The hash never fails.
pub record Hashing (e : KeyCalls) : Type 0 where
  pub hashed : (b : Bytes) (block : Bool) → (d : Bytes) × (e.generate_sha256 b block ≡ ok d)

abbrev pub is_generate : KeyCall → Bool
is_generate (generate e) = true
is_generate (set e) = false
is_generate (free_keypair e) = false

abbrev pub generates : List KeyCall → Bool
generates [] = false
generates (call ∷ calls) = is_generate call || generates calls

module _ (e : KeyCalls) (h : Hashing e) where
  tam-IsKeys : (k : Keys) (o : Option TeepErr) → IsKeys k → IsKeys (tam_key_set e k o).1
  unfolding tam_key_set
  tam-IsKeys k (some code) v = v
  tam-IsKeys k none v = record {
    one_kid = v.one_kid;
    kid_is_block = v.kid_is_block;
    private_in_array = v.private_in_array;
    public_in_array = v.public_in_array;
  }

  -- A state that owns no kid gets one.
  kid-IsKeys :
      (k : Keys) → IsKeys k → k.owns_kid ≡ false → IsKeys (kid_owned e (teep_generate_kid e k)).1
  unfolding teep_generate_kid kid_owned
  kid-IsKeys k v no_kid = by_hash _ (h.hashed _ e.malloc_kid)
    where
      none_alive : k.live_kids ≡ 0
      none_alive = v.one_kid ∙ ap (λ o. owned_kids o k.agent.kid) no_kid

      by_malloc :
          (block : Bool) (d : Bytes)
          → IsKeys (record k {
            agent = record k.agent { kid = kid_pointer block d };
            live_kids = counted block k.live_kids;
            owns_kid = true;
          })
      by_malloc true d = record {
        one_kid = omega (arith, none_alive);
        kid_is_block = λ _ b same. cc same;
        private_in_array = v.private_in_array;
        public_in_array = v.public_in_array;
      }
      by_malloc false d = record {
        one_kid = none_alive;
        kid_is_block = λ _ b same. cc same;
        private_in_array = v.private_in_array;
        public_in_array = v.public_in_array;
      }

      by_hash :
          (r : Result TeepErr Bytes)
          → (d : Bytes) × (r ≡ ok d)
          → IsKeys (kid_owned e (kid_hashed e k r)).1
      by_hash (ok d) hashed = tam-IsKeys _ e.teep_key_init_public (by_malloc e.malloc_kid d)
      by_hash (err code) hashed = cc hashed.1

  built_in-IsKeys :
      (k : Keys) (r : Option TeepErr × KeyParts) (k0 : Keys)
      → Cleared k0 k
      → IsKeys (built_in_set e k r).1
  unfolding built_in_set
  built_in-IsKeys k (some code, parts) k0 c = bare-IsKeys _ c.live c.no_kid c.no_private c.no_public
  built_in-IsKeys k (none, parts) k0 c =
      kid-IsKeys (record k { agent = parts })
        (bare-IsKeys _ c.live c.no_kid c.no_private c.no_public) c.no_kid

  generated-IsKeys :
      (private public : Bytes) (k : Keys) (r : Option TeepErr × KeyParts) (k0 : Keys)
      → Cleared k0 k
      → IsKeys (generated_key_set e private public k r).1
  unfolding generated_key_set
  generated-IsKeys private public k (some code, parts) k0 c =
      bare-IsKeys _ c.live c.no_kid c.no_private c.no_public
  generated-IsKeys private public k (none, parts) k0 c =
      kid-IsKeys (with_arrays private public parts k)
        (record {
          one_kid = c.live ∙ ap (λ o. owned_kids o parts.kid) (sym c.no_kid);
          kid_is_block = λ owned. cc (owned, c.no_kid);
          private_in_array = λ _. (private, refl);
          public_in_array = λ _. (public, refl);
        })
        c.no_kid

  got-IsKeys :
      (k : Keys) (o : Option (Bytes × Bytes)) (k0 : Keys)
      → Cleared k0 k
      → IsKeys (ec_key_got e k o).1
  unfolding ec_key_got
  got-IsKeys k none k0 c = bare-IsKeys k c.live c.no_kid c.no_private c.no_public
  got-IsKeys k (some (private, public)) k0 c =
      generated-IsKeys private public k (e.teep_key_init private public k.agent) k0 c

-- A state with nothing owned, whatever the key and its state are.
bare_state-IsKeys : (k k' : Keys) → Cleared k k' → IsKeys (record k' { state = key_uninitialized })
bare_state-IsKeys k k' c = bare-IsKeys _ c.live c.no_kid c.no_private c.no_public

pub freed-Cleared : (e : KeyCalls) (k : Keys) → IsKeys k → Cleared k (key_freed e k)
freed-Cleared e k v =
    let c = clear-Cleared k v in
    record {
      live = c.live;
      wild = c.wild;
      no_kid = c.no_kid;
      no_private = c.no_private;
      no_public = c.no_public;
    }

if-IsKeys :
    (b : Bool) (x y : Option TeepErr × Keys)
    → IsKeys x.1
    → IsKeys y.1
    → IsKeys (if b then x else y).1
if-IsKeys true x y vx vy = vx
if-IsKeys false x y vx vy = vy

end-IsKeys : (r : Option TeepErr × Keys) → IsKeys r.1 → IsKeys (generation_end r).1
unfolding generation_end
end-IsKeys (none, k) v = v
end-IsKeys (some code, k) v = bare_state-IsKeys k (clear_agent_sign_buffers k) (clear-Cleared k v)

pub generate-IsKeys :
    (e : KeyCalls) (k : Keys)
    → Hashing e
    → IsKeys k
    → IsKeys (ecall_teep_generate_esp256_key_pair e k).1
unfolding ecall_teep_generate_esp256_key_pair
generate-IsKeys e k h v =
    let freed = freed-Cleared e k v in
    end-IsKeys _ (
      if-IsKeys (e.ctx_new && e.keygen_init && e.set_curve && e.keygen) _
        (some unexpected_error, key_freed e k)
        (got-IsKeys e h (key_freed e k) e.get1_ec_key k freed)
        (bare-IsKeys _ freed.live freed.no_kid freed.no_private freed.no_public))

pub set-IsKeys :
    (e : KeyCalls) (k : Keys) → Hashing e → IsKeys k → IsKeys (ecall_teep_set_esp256_key e k).1
unfolding ecall_teep_set_esp256_key
set-IsKeys e k h v =
    let c = freed-Cleared e k v in
    built_in-IsKeys e h (record (key_freed e k) { state = key_uninitialized })
      (e.teep_key_init e.built_in_private e.built_in_public (key_freed e k).agent) k
      (record {
        live = c.live;
        wild = c.wild;
        no_kid = c.no_kid;
        no_private = c.no_private;
        no_public = c.no_public;
      })

pub free-IsKeys : (e : KeyCalls) (k : Keys) → IsKeys k → IsKeys (ecall_teep_free_keypair e k)
unfolding ecall_teep_free_keypair
free-IsKeys e k v = by_state k.state
  where
    by_state : (s : KeyState) → IsKeys (freed_keypair e s k)
    by_state key_uninitialized = v
    by_state key_ready =
        let c = clear-Cleared k v in bare-IsKeys _ c.live c.no_kid c.no_private c.no_public

pub run-IsKeys :
    (call : KeyCall) (k : Keys) → Hashing (answers call) → IsKeys k → IsKeys (run call k)
unfolding run
run-IsKeys (generate e) k h v = generate-IsKeys e k h v
run-IsKeys (set e) k h v = set-IsKeys e k h v
run-IsKeys (free_keypair e) k h v = free-IsKeys e k v
