-- ===== src/KeyPair/Frees.antt =====
-- Enclave/src/Enclave_generate_keypair.cpp: what the calls on the key give to `free`.
use taws.Base.{
  ◌≡◌, ◌+◌, refl, sym, ap, subst, ◌∙◌, Bool, true, false, ◌&&◌, ◌||◌, Option, none, some, List, [],
  ◌∷◌, Bytes, Result, ok, err, if◌then◌else◌, arith,
}
use taws.Teep.{TeepErr, unexpected_error}
use taws.KeyPair.{
  KeyParts, key_uninitialized, key_ready, KeyState, Keys, initial_keys, KeyCalls, kid_hashed,
  teep_generate_kid, tam_key_set, kid_owned, generation_end, with_arrays, generated_key_set,
  ec_key_got, key_freed, ecall_teep_generate_esp256_key_pair, freed_keypair,
  ecall_teep_free_keypair, built_in_set, ecall_teep_set_esp256_key,
}
use taws.KeyPair.Ready.{key-Makes}
use taws.KeyPair.Blocks.{count, IsKeys, clear-Cleared, bare-IsKeys}
use taws.KeyPair.History.{
  KeyCall, generate, set, free_keypair, run, runs, answers, Hashing, is_generate, generates,
  freed-Cleared, generate-IsKeys, run-IsKeys,
}

-- The flags of the arrays and the wild frees are as they were.
record Keeps (k k' : Keys) : Type 0 where
  wild : k'.wild_frees ≡ k.wild_frees
  owns_private : k'.owns_private ≡ k.owns_private
  owns_public : k'.owns_public ≡ k.owns_public

kid_owned-Keeps : (e : KeyCalls) (k : Keys) → Keeps k (kid_owned e (teep_generate_kid e k)).1
unfolding teep_generate_kid kid_owned
kid_owned-Keeps e k = by_hash _
  where
    by_tam : (k' : Keys) (o : Option TeepErr) → Keeps k k' → Keeps k (tam_key_set e k' o).1
    by_tam k' none s = record {
      wild = s.wild;
      owns_private = s.owns_private;
      owns_public = s.owns_public;
    }
    by_tam k' (some code) s = s

    by_hash : (r : Result TeepErr Bytes) → Keeps k (kid_owned e (kid_hashed e k r)).1
    by_hash (ok d) =
        by_tam _ e.teep_key_init_public
          (record { wild = refl; owns_private = refl; owns_public = refl })
    by_hash (err code) = record { wild = refl; owns_private = refl; owns_public = refl }

built_in-Keeps :
    (e : KeyCalls) (k : Keys) (r : Option TeepErr × KeyParts) → Keeps k (built_in_set e k r).1
unfolding built_in_set
built_in-Keeps e k (some code, parts) = record {
  wild = refl;
  owns_private = refl;
  owns_public = refl;
}
built_in-Keeps e k (none, parts) =
    let s = kid_owned-Keeps e (record k { agent = parts }) in
    record { wild = s.wild; owns_private = s.owns_private; owns_public = s.owns_public }

-- The arrays that a state owns are given to `free` by a call, and none is owned behind it.
record FreesArrays (k k' : Keys) : Type 0 where
  wild : k'.wild_frees ≡ k.wild_frees + (count k.owns_private + count k.owns_public)
  no_private : k'.owns_private ≡ false
  no_public : k'.owns_public ≡ false

set-FreesArrays :
    (e : KeyCalls) (k : Keys) → IsKeys k → FreesArrays k (ecall_teep_set_esp256_key e k).1
unfolding ecall_teep_set_esp256_key
set-FreesArrays e k v =
    let c = freed-Cleared e k v in
    let s =
      built_in-Keeps e (record (key_freed e k) { state = key_uninitialized })
        (e.teep_key_init e.built_in_private e.built_in_public (key_freed e k).agent) in
    record {
      wild = s.wild ∙ c.wild;
      no_private = s.owns_private ∙ c.no_private;
      no_public = s.owns_public ∙ c.no_public;
    }

-- Nothing happens to a key that is not ready.
free-FreesArrays :
    (e : KeyCalls) (k : Keys)
    → IsKeys k
    → k.state ≡ key_ready
    → FreesArrays k (ecall_teep_free_keypair e k)
unfolding ecall_teep_free_keypair
free-FreesArrays e k v ready =
    let c = clear-Cleared k v in
    subst (λ s. FreesArrays k (freed_keypair e s k)) (sym ready)
      (record { wild = c.wild; no_private = c.no_private; no_public = c.no_public })

-- No array is owned, and none was given to `free`.
record IsTame (k : Keys) : Type 0 where
  tame : k.wild_frees ≡ 0
  no_private : k.owns_private ≡ false
  no_public : k.owns_public ≡ false

frees-IsTame : (k k' : Keys) → FreesArrays k k' → IsTame k → IsTame k'
frees-IsTame k k' f t =
    let private : count k.owns_private ≡ 0 = ap count t.no_private in
    let public : count k.owns_public ≡ 0 = ap count t.no_public in
    let zero_ = t.tame in
    let sum = f.wild in
    record {
      tame = omega (arith, private, public, zero_, sum);
      no_private = f.no_private;
      no_public = f.no_public;
    }

run-IsTame :
    (call : KeyCall) (k : Keys)
    → is_generate call ≡ false
    → IsKeys k
    → IsTame k
    → IsTame (run call k)
unfolding run ecall_teep_free_keypair
run-IsTame (generate e) k none_ v t = cc none_
run-IsTame (set e) k none_ v t = frees-IsTame k _ (set-FreesArrays e k v) t
run-IsTame (free_keypair e) k none_ v t = by_state k.state refl
  where
    by_state : (s : KeyState) → k.state ≡ s → IsTame (freed_keypair e s k)
    by_state key_uninitialized same = t
    by_state key_ready same =
        subst (λ s. IsTame (freed_keypair e s k)) same
          (frees-IsTame k (freed_keypair e k.state k) (free-FreesArrays e k v same) t)

-- In each of the calls the hash never fails.
pub data AllHashing : List KeyCall → Type 0 where
  no_call : AllHashing []
  next_call :
      {call : KeyCall} {calls : List KeyCall}
      → Hashing (answers call)
      → AllHashing calls
      → AllHashing (call ∷ calls)

-- A state that calls on the key lead to.
pub record Kept (calls : List KeyCall) (k : Keys) : Type 0 where
  pub is_keys : IsKeys k
  pub tame : generates calls ≡ false → k.wild_frees ≡ 0

none_of : (a b : Bool) → (a || b) ≡ false → (a ≡ false) × (b ≡ false)
none_of true b h = cc h
none_of false b h = (refl, h)

runs-IsKeys :
    (calls : List KeyCall) (k : Keys) → AllHashing calls → IsKeys k → IsKeys (runs calls k)
unfolding runs
runs-IsKeys [] k h v = v
runs-IsKeys (call ∷ calls) k (next_call h hs) v =
    runs-IsKeys calls (run call k) hs (run-IsKeys call k h v)

runs-IsTame :
    (calls : List KeyCall) (k : Keys)
    → AllHashing calls
    → generates calls ≡ false
    → IsKeys k
    → IsTame k
    → IsTame (runs calls k)
unfolding runs
runs-IsTame [] k h none_ v t = t
runs-IsTame (call ∷ calls) k (next_call h hs) none_ v t =
    let (first, rest) = none_of (is_generate call) (generates calls) none_ in
    runs-IsTame calls (run call k) hs rest (run-IsKeys call k h v) (run-IsTame call k first v t)

-- After any sequence of generating, setting and freeing the key, in which the hash never fails, the
-- kid that is owned is the only one alive, so none is lost. Where no call generates a key, every
-- pointer that was given to `free` is a block of malloc.
pub keys-Kept : (calls : List KeyCall) → AllHashing calls → Kept calls (runs calls initial_keys)
keys-Kept calls h =
    let v : IsKeys initial_keys = bare-IsKeys initial_keys refl refl refl refl in
    record {
      is_keys = runs-IsKeys calls initial_keys h v;
      tame = λ none_.
          (runs-IsTame calls initial_keys h none_ v
            (record { tame = refl; no_private = refl; no_public = refl })).tame;
    }

-- A state that owns its two arrays.
record OwnsArrays (k : Keys) : Type 0 where
  private : k.owns_private ≡ true
  public : k.owns_public ≡ true

module _ (e : KeyCalls) where
  generated-OwnsArrays :
      (private public : Bytes) (k : Keys) (r : Option TeepErr × KeyParts)
      → (generated_key_set e private public k r).0 ≡ none
      → OwnsArrays (generated_key_set e private public k r).1
  unfolding generated_key_set
  generated-OwnsArrays private public k (some code, parts) h = cc h
  generated-OwnsArrays private public k (none, parts) h =
      let s = kid_owned-Keeps e (with_arrays private public parts k) in
      record { private = s.owns_private; public = s.owns_public }

  got-OwnsArrays :
      (k : Keys) (o : Option (Bytes × Bytes))
      → (ec_key_got e k o).0 ≡ none
      → OwnsArrays (ec_key_got e k o).1
  unfolding ec_key_got
  got-OwnsArrays k none h = cc h
  got-OwnsArrays k (some (private, public)) h =
      generated-OwnsArrays private public k (e.teep_key_init private public k.agent) h

  if-OwnsArrays :
      (b : Bool) (x : Option TeepErr × Keys) (k : Keys) (code : TeepErr)
      → (x.0 ≡ none → OwnsArrays x.1)
      → (if b then x else (some code, k)).0 ≡ none
      → OwnsArrays (if b then x else (some code, k)).1
  if-OwnsArrays true x k code owns h = owns h
  if-OwnsArrays false x k code owns h = cc h

  end-OwnsArrays :
      (r : Option TeepErr × Keys)
      → (r.0 ≡ none → OwnsArrays r.1)
      → (generation_end r).0 ≡ none
      → OwnsArrays (generation_end r).1
  unfolding generation_end
  end-OwnsArrays (none, k) owns h = owns refl
  end-OwnsArrays (some code, k) owns h = cc h

  generate-OwnsArrays :
      (k : Keys)
      → (ecall_teep_generate_esp256_key_pair e k).0 ≡ none
      → OwnsArrays (ecall_teep_generate_esp256_key_pair e k).1
  unfolding ecall_teep_generate_esp256_key_pair
  generate-OwnsArrays k h =
      end-OwnsArrays _
        (if-OwnsArrays (e.ctx_new && e.keygen_init && e.set_curve && e.keygen)
          (ec_key_got e (key_freed e k) e.get1_ec_key) (key_freed e k) unexpected_error
          (got-OwnsArrays (key_freed e k) e.get1_ec_key))
        h

two_arrays : (k k' : Keys) → OwnsArrays k → FreesArrays k k' → k'.wild_frees ≡ k.wild_frees + 2
two_arrays k k' o f =
    let private : count k.owns_private ≡ 1 = ap count o.private in
    let public : count k.owns_public ≡ 1 = ap count o.public in
    let sum = f.wild in omega (arith, private, public, sum)

-- A key that was generated, from a state that is well formed and with a hash that does not fail: the
-- next call that frees the key, or sets another, gives two arrays of the program to `free`.
pub generated_freed :
    (e e' : KeyCalls) (k : Keys)
    → Hashing e
    → IsKeys k
    → (ecall_teep_generate_esp256_key_pair e k).0 ≡ none
    → ((run (free_keypair e') (run (generate e) k)).wild_frees
        ≡ (run (generate e) k).wild_frees + 2)
      × ((run (set e') (run (generate e) k)).wild_frees ≡ (run (generate e) k).wild_frees + 2)
unfolding run
generated_freed e e' k h v made =
    let k' = (ecall_teep_generate_esp256_key_pair e k).1 in
    let v' = generate-IsKeys e k h v in
    let owns = generate-OwnsArrays e k made in
    let ready = ((key-Makes e k).0.made made).ready in
    (
      two_arrays k' _ owns (free-FreesArrays e' k' v' ready),
      two_arrays k' _ owns (set-FreesArrays e' k' v'),
    )
