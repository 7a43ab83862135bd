-- ===== src/Wasm/Results.antt =====
-- Enclave/src/Enclave_wasm.cpp: what a run of `ecall_invoke_wasm` gives back, and what it leaves.
use taws.Base.{
  ℕ, ◌+◌, ◌≤◌, ◌<◌, ◌≡◌, ◌≢◌, inl, inr, refl, Bool, true, false, not, ◌||◌, Option, none, some, [],
  ◌∷◌, arith, ltb, ◌==◌, length, take, min, Bytes, u32, if◌then◌else◌, Bool-cases,
}
use taws.Wasm.{
  WasmResult, ok, wasm_execution_failed, internal_error, resource_exhausted,
  output_buffer_too_small, Wamr, WamrCalls, WasmOutcome, stopped, destroy_exec_env, block_taken,
  block_freed, Invocation, second_returned, output_allocated, first_returned, run, input_allocated,
  execute,
}

-- What is held in an offset.
abbrev block : ℕ → ℕ
block ptr = if ptr == 0 then 0 else 1

-- The state inside a run that began in `w0`, with one environment and the block `ptr`.
record Inside (w0 : Wamr) (ptr : ℕ) (w : Wamr) : Type 0 where
  envs : w.live_exec_envs ≡ w0.live_exec_envs + 1
  blocks : w.live_blocks ≡ w0.live_blocks + block ptr
  instances : w.live_instances ≡ w0.live_instances
  modules : w.live_modules ≡ w0.live_modules
  bins : w.live_bins ≡ w0.live_bins
  loaded : w.loaded_module ≡ w0.loaded_module

-- What a run that is ok gives back: the first call of the function told a size that fits, the second
-- one filled a block, and the smaller of the two sizes is copied out of it.
pub record Delivered (e : WamrCalls) (v : Invocation) (o : WasmOutcome) : Type 0 where
  pub in_ptr : ℕ
  pub out_ptr : ℕ
  pub ret_len : ℕ
  pub n : ℕ
  pub native_out : Bytes
  pub sized :
      e.first_call v.function v.input (u32 in_ptr ∷ u32 (length v.input) ∷ 0 ∷ 0 ∷ [])
      ≡ some ret_len
  pub filled :
      e.second_call v.function v.input
        (u32 in_ptr ∷ u32 (length v.input) ∷ u32 out_ptr ∷ ret_len ∷ [])
      ≡ some (n, native_out)
  pub told : o.actual_len ≡ some (min n ret_len)
  pub not_empty : 0 < min n ret_len
  pub in_buffer : min n ret_len ≤ v.output_len
  pub written : o.output ≡ take (min n ret_len) native_out

-- A run leaves what it found, and gives back what the function wrote, and none unless it is ok.
pub record Ends (e : WamrCalls) (v : Invocation) (w0 : Wamr) (o : WasmOutcome) : Type 0 where
  pub envs : o.wamr.live_exec_envs ≡ w0.live_exec_envs
  pub blocks : o.wamr.live_blocks ≡ w0.live_blocks
  pub instances : o.wamr.live_instances ≡ w0.live_instances
  pub modules : o.wamr.live_modules ≡ w0.live_modules
  pub bins : o.wamr.live_bins ≡ w0.live_bins
  pub loaded : o.wamr.loaded_module ≡ w0.loaded_module
  pub delivered : o.result ≡ ok → Delivered e v o
  pub withheld : o.result ≢ ok → (o.actual_len ≡ some 0) × (o.output ≡ [])

-- A block that is taken and freed.
freed-taken : (ptr n : ℕ) → (if ptr == 0 then n else n + 1) ≡ n + block ptr
freed-taken ptr n = ground arith

module _ (e : WamrCalls) (v : Invocation) (w0 : Wamr) where
  -- The answers of the two calls of the function.
  abbrev Sized : ℕ → ℕ → Type 0
  Sized in_ptr ret_len =
      e.first_call v.function v.input (u32 in_ptr ∷ u32 (length v.input) ∷ 0 ∷ 0 ∷ [])
      ≡ some ret_len

  abbrev Filled : ℕ → ℕ → ℕ → Option (ℕ × Bytes) → Type 0
  Filled in_ptr out_ptr ret_len o =
      e.second_call v.function v.input
        (u32 in_ptr ∷ u32 (length v.input) ∷ u32 out_ptr ∷ ret_len ∷ [])
      ≡ o

  stopped-Ends :
      (r : WasmResult) (ptr : ℕ) (w : Wamr)
      → r ≢ ok
      → Inside w0 ptr w
      → Ends e v w0 (stopped r (destroy_exec_env (block_freed ptr w)))
  stopped-Ends r ptr w bad k = record {
    envs = omega (arith, k.envs);
    blocks = let b = k.blocks in ground (arith, b);
    instances = k.instances;
    modules = k.modules;
    bins = k.bins;
    loaded = k.loaded;
    delivered = λ h. absurd (bad h);
    withheld = λ _. (refl, refl);
  }

  ok-Ends :
      (in_ptr out_ptr ret_len n : ℕ) (native_out : Bytes) (w : Wamr)
      → 0 < n
      → 0 < ret_len
      → ret_len ≤ v.output_len
      → Sized in_ptr ret_len
      → Filled in_ptr out_ptr ret_len (some (n, native_out))
      → Inside w0 in_ptr w
      → Ends e v w0 (record {
        result = ok;
        actual_len = some (min n ret_len);
        output = take (min n ret_len) native_out;
        wamr = destroy_exec_env (block_freed in_ptr w);
      })
  ok-Ends in_ptr out_ptr ret_len n native_out w pos some_out fits sized filled k = record {
    envs = omega (arith, k.envs);
    blocks = let b = k.blocks in ground (arith, b);
    instances = k.instances;
    modules = k.modules;
    bins = k.bins;
    loaded = k.loaded;
    delivered = λ _. record {
      in_ptr = in_ptr;
      out_ptr = out_ptr;
      ret_len = ret_len;
      n = n;
      native_out = native_out;
      sized = sized;
      filled = filled;
      told = refl;
      not_empty = omega arith;
      in_buffer = omega arith;
      written = refl;
    };
    withheld = λ h. absurd (h refl);
  }

  second_returned-Ends :
      (in_ptr out_ptr ret_len : ℕ) (w : Wamr) (o : Option (ℕ × Bytes))
      → 0 < ret_len
      → ret_len ≤ v.output_len
      → Sized in_ptr ret_len
      → Filled in_ptr out_ptr ret_len o
      → Inside w0 in_ptr (block_freed out_ptr w)
      → Ends e v w0 (second_returned in_ptr out_ptr ret_len w o)
  unfolding second_returned
  second_returned-Ends in_ptr out_ptr ret_len w none some_out fits sized filled k =
      stopped-Ends wasm_execution_failed in_ptr (block_freed out_ptr w) (λ h. cc h) k
  second_returned-Ends in_ptr out_ptr ret_len w (some (n, native_out)) some_out fits sized filled
        k =
      elim (Bool-cases (n == 0)) [
        | inl zero_len ↦
            rw zero_len
              (stopped-Ends wasm_execution_failed in_ptr (block_freed out_ptr w) (λ h. cc h) k)
        | inr pos ↦ rw pos (
            ok-Ends in_ptr out_ptr ret_len n native_out (block_freed out_ptr w) (ground arith)
              some_out fits sized filled k)
      ]

module _ (e : WamrCalls) (v : Invocation) (w0 : Wamr)
    (in_fails : (n : ℕ) → (e.malloc_input n).1 ≡ false → (e.malloc_input n).0 ≡ 0)
    (out_fails : (n : ℕ) → (e.malloc_output n).1 ≡ false → (e.malloc_output n).0 ≡ 0) where
  output_allocated-Ends :
      (in_ptr ret_len : ℕ) (w : Wamr) (p : ℕ × Bool)
      → (p.1 ≡ false → p.0 ≡ 0)
      → 0 < ret_len
      → ret_len ≤ v.output_len
      → Sized e v w0 in_ptr ret_len
      → Inside w0 in_ptr w
      → Ends e v w0 (output_allocated e v in_ptr ret_len w p)
  unfolding output_allocated
  output_allocated-Ends in_ptr ret_len w (out_ptr, native) fails some_out fits sized k =
      elim (Bool-cases (out_ptr == 0 || not native)) [
        | inl bad ↦ rw bad (
            stopped-Ends e v w0 resource_exhausted in_ptr (block_taken out_ptr w) (λ h. cc h)
              (taken (ground (arith, fails))))
        | inr good ↦ rw good (
            second_returned-Ends e v w0 in_ptr out_ptr ret_len (block_taken out_ptr w) _ some_out
              fits sized refl freed)
      ]
    where
      taken : out_ptr ≡ 0 → Inside w0 in_ptr (block_taken out_ptr w)
      taken z = record {
        envs = k.envs;
        blocks = rw z k.blocks;
        instances = k.instances;
        modules = k.modules;
        bins = k.bins;
        loaded = k.loaded;
      }

      freed : Inside w0 in_ptr (block_freed out_ptr (block_taken out_ptr w))
      freed = record {
        envs = k.envs;
        blocks = let b = k.blocks in ground (arith, b);
        instances = k.instances;
        modules = k.modules;
        bins = k.bins;
        loaded = k.loaded;
      }

  first_returned-Ends :
      (in_ptr : ℕ) (w : Wamr) (o : Option ℕ)
      → e.first_call v.function v.input (u32 in_ptr ∷ u32 (length v.input) ∷ 0 ∷ 0 ∷ []) ≡ o
      → Inside w0 in_ptr w
      → Ends e v w0 (first_returned e v in_ptr w o)
  unfolding first_returned
  first_returned-Ends in_ptr w none sized k =
      stopped-Ends e v w0 wasm_execution_failed in_ptr w (λ h. cc h) k
  first_returned-Ends in_ptr w (some ret_len) sized k = elim (Bool-cases (ret_len == 0)) [
    | inl zero_len ↦ rw zero_len (stopped-Ends e v w0 wasm_execution_failed in_ptr w (λ h. cc h) k)
    | inr pos ↦ elim (Bool-cases (ltb v.output_len ret_len)) [
      | inl large ↦
          rw (pos, large) (stopped-Ends e v w0 output_buffer_too_small in_ptr w (λ h. cc h) k)
      | inr fits ↦
          rw (pos, fits)
            (output_allocated-Ends in_ptr ret_len w (e.malloc_output ret_len) (out_fails ret_len)
              (ground (arith, pos)) (ground (arith, fits)) sized k)
    ]
  ]

  run-Ends : (in_ptr : ℕ) (w : Wamr) → Inside w0 in_ptr w → Ends e v w0 (run e v in_ptr w)
  unfolding run
  run-Ends in_ptr w k = first_returned-Ends in_ptr w _ refl k

  entered :
      (ptr : ℕ)
      → Inside w0 ptr (block_taken ptr (record w0 { live_exec_envs = w0.live_exec_envs + 1 }))
  entered ptr = record {
    envs = refl;
    blocks = freed-taken ptr w0.live_blocks;
    instances = refl;
    modules = refl;
    bins = refl;
    loaded = refl;
  }

  input_allocated-Ends :
      (p : ℕ × Bool)
      → (p.1 ≡ false → p.0 ≡ 0)
      → Ends e v w0 (input_allocated e v (record w0 { live_exec_envs = w0.live_exec_envs + 1 }) p)
  unfolding input_allocated
  input_allocated-Ends (in_ptr, native) fails = elim (Bool-cases (in_ptr == 0 || not native)) [
    | inl bad ↦
        let z : in_ptr ≡ 0 = ground (arith, fails) in
        rw (bad, z) (stopped-Ends e v w0 resource_exhausted 0 _ (λ h. cc h) (entered 0))
    | inr good ↦ rw good (run-Ends in_ptr _ (entered in_ptr))
  ]

  pub execute-Ends : Ends e v w0 (execute e v w0)
  unfolding execute
  execute-Ends =
      let w' = record w0 { live_exec_envs = w0.live_exec_envs + 1 } in
      let input_block = e.malloc_input (u32 (length v.input)) in
      elim e.create_exec_env
        as (λ b. Ends e v w0 (
          if not b
          then stopped internal_error w0
          else if ltb 0 (length v.input)
          then input_allocated e v w' input_block
          else run e v 0 w')) [
            | false ↦ record {
              envs = refl;
              blocks = refl;
              instances = refl;
              modules = refl;
              bins = refl;
              loaded = refl;
              delivered = λ h. cc h;
              withheld = λ _. (refl, refl);
            }
            | true ↦
                elim (ltb 0 (length v.input))
                  as (λ b.
                    Ends e v w0 (if b then input_allocated e v w' input_block else run e v 0 w')) [
                      | false ↦ run-Ends 0 _ (entered 0)
                      | true ↦ input_allocated-Ends input_block (in_fails (u32 (length v.input)))
                    ]
          ]
