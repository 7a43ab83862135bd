-- ===== src/Attester/Lifetime.antt =====
-- App/src/attester_api.cpp: the enclave over sequences of calls.
use taws.Base.{
  ℕ, zero, suc, ◌+◌, ◌-◌, ℤ, ◌≡◌, ◌≢◌, inl, inr, refl, sym, ap, ◌∙◌, subst, Bool, true, false, not,
  ◌||◌, Option, none, some, List, [], ◌∷◌, if◌then◌else◌, Bytes, bytes_eq, Buf, arith, Bool-cases,
}
use taws.Attester.{
  Attester, initial_attester, SgxCalls, minus_one, key_result, mode_or_default, set_up_key,
  sgx_initialized, attester_init, attester_set_log_level, session_started, attester_install,
  wasm_invoked, attester_invoke_wasm, attester_close, level_valid, missing, sgx_result,
}

abbrev enclaves : Bool → ℕ
enclaves true = 1
enclaves false = 0

-- One enclave is alive where the host is initialised, and else none, and no key is ready then.
pub record IsAttester (a : Attester) : Type 0 where
  pub one_enclave : a.live_enclaves ≡ enclaves a.initialized
  pub key_needs_enclave : a.key_ready ≡ true → a.initialized ≡ true

-- The calls of the interface.
pub data Call : Type 0 where
  init : Buf → Call
  set_log_level : ℤ → Call
  install : Buf → Buf → Call
  invoke_wasm : Buf → Buf → Bool → Bool → Call
  close : Call

-- A call, with SGX's answers in it.
unfoldable pub step : SgxCalls → Call → Attester → Attester
step e (init mode) a = (attester_init e mode a).1
step e (set_log_level level) a = (attester_set_log_level e level a).1
step e (install url name) a = (attester_install e url name a).1
step e (invoke_wasm name func out len) a = (attester_invoke_wasm e name func out len a).1
step e close a = attester_close a

unfoldable pub steps : List (SgxCalls × Call) → Attester → Attester
steps [] a = a
steps ((e, call) ∷ calls) a = steps calls (step e call a)

key_result-IsAttester :
    (a : Attester) (o : Option ℤ)
    → IsAttester a
    → a.initialized ≡ true
    → IsAttester (key_result a o).1
key_result-IsAttester a none v h = v
key_result-IsAttester a (some (ℤ.negsuc n)) v h = v
key_result-IsAttester a (some (ℤ.pos zero)) v h = record {
  one_enclave = v.one_enclave;
  key_needs_enclave = λ _. h;
}
key_result-IsAttester a (some (ℤ.pos (suc n))) v h = v

if-IsAttester :
    (b : Bool) (x y : ℤ × Attester)
    → IsAttester x.1
    → IsAttester y.1
    → IsAttester (if b then x else y).1
if-IsAttester true x y vx vy = vx
if-IsAttester false x y vx vy = vy

set_up_key-IsAttester :
    (e : SgxCalls) (mode : Bytes) (a : Attester)
    → IsAttester a
    → a.initialized ≡ true
    → IsAttester (set_up_key e mode a).1
unfolding set_up_key
set_up_key-IsAttester e mode a v h =
    if-IsAttester a.key_ready (ℤ.pos 0, a) _ v
      (if-IsAttester (bytes_eq mode (b'y' ∷ b'e' ∷ b's' ∷ [])) (key_result a e.generate_key_pair) _
        (key_result-IsAttester a e.generate_key_pair v h)
        (if-IsAttester (bytes_eq mode (b'n' ∷ b'o' ∷ [])) (key_result a e.set_key) (minus_one, a)
          (key_result-IsAttester a e.set_key v h) v))

initialized-IsAttester :
    (e : SgxCalls) (mode : Buf) (a : Attester)
    → IsAttester a
    → IsAttester (sgx_initialized e mode a).1
unfolding sgx_initialized
initialized-IsAttester e mode a v = by_flag a.initialized refl
  where
    a' : Attester
    a' = record a { stdio_configured = true }

    v' : IsAttester a'
    v' = record { one_enclave = v.one_enclave; key_needs_enclave = v.key_needs_enclave }

    entered : Attester
    entered = record a' { initialized = true; live_enclaves = a'.live_enclaves + 1 }

    by_flag :
        (b : Bool)
        → a.initialized ≡ b
        → IsAttester
            (if b
              then (ℤ.pos 0, a')
              else if not e.create_enclave
              then (minus_one, a')
              else set_up_key e (mode_or_default mode) entered).1
    by_flag true h = v'
    by_flag false h =
        if-IsAttester (not e.create_enclave) (minus_one, a') _ v'
          (set_up_key-IsAttester e (mode_or_default mode) entered
            (record {
              one_enclave = ap (λ n. n + 1) (v.one_enclave ∙ ap enclaves h);
              key_needs_enclave = λ _. refl;
            })
            refl)

started-IsAttester :
    (e : SgxCalls) (url name : Buf) (r : ℤ × Attester)
    → IsAttester r.1
    → IsAttester (session_started e url name r).1
unfolding session_started
started-IsAttester e url name (ℤ.pos zero, a) v = ground (arith, v)
started-IsAttester e url name (ℤ.pos (suc n), a) v = v
started-IsAttester e url name (ℤ.negsuc n, a) v = v

invoked-IsAttester :
    (e : SgxCalls) (name func : Buf) (out len : Bool) (r : ℤ × Attester)
    → IsAttester r.1
    → IsAttester (wasm_invoked e name func out len r).1
unfolding wasm_invoked
invoked-IsAttester e name func out len (ℤ.pos zero, a) v =
    if-IsAttester (missing name || missing func || not out || not len) (minus_one, a)
      (sgx_result e.invoke_wasm, a) v v
invoked-IsAttester e name func out len (ℤ.pos (suc n), a) v = v
invoked-IsAttester e name func out len (ℤ.negsuc n, a) v = v

close-IsAttester : (a : Attester) → IsAttester a → IsAttester (attester_close a)
unfolding attester_close
close-IsAttester a v = elim (Bool-cases a.initialized) [
  | inl open_ ↦
      subst IsAttester
        (ap
          (λ b.
            if b
            then record a {
              initialized = false;
              key_ready = false;
              live_enclaves = a.live_enclaves - 1;
            }
            else a)
          (sym open_))
        (record {
          one_enclave = ap (λ n. n - 1) (v.one_enclave ∙ ap enclaves open_);
          key_needs_enclave = λ h. cc h;
        })
  | inr closed ↦
      subst IsAttester
        (ap
          (λ b.
            if b
            then record a {
              initialized = false;
              key_ready = false;
              live_enclaves = a.live_enclaves - 1;
            }
            else a)
          (sym closed))
        v
]

level-IsAttester :
    (e : SgxCalls) (level : ℤ) (a : Attester)
    → IsAttester a
    → IsAttester (attester_set_log_level e level a).1
unfolding attester_set_log_level
level-IsAttester e level a v =
    if-IsAttester (not (level_valid level)) (minus_one, a) _ v
      (if-IsAttester a.initialized
        (if e.set_log_level then ℤ.pos 0 else minus_one, record a { pending_log_level = level })
        (ℤ.pos 0, record a { pending_log_level = level }) v' v')
  where
    v' : IsAttester (record a { pending_log_level = level })
    v' = record { one_enclave = v.one_enclave; key_needs_enclave = v.key_needs_enclave }

step-IsAttester :
    (e : SgxCalls) (call : Call) (a : Attester) → IsAttester a → IsAttester (step e call a)
unfolding step attester_install attester_invoke_wasm
step-IsAttester e (init mode) a v = initialized-IsAttester e mode a v
step-IsAttester e (set_log_level level) a v = level-IsAttester e level a v
step-IsAttester e (install url name) a v =
    started-IsAttester e url name (sgx_initialized e none a) (initialized-IsAttester e none a v)
step-IsAttester e (invoke_wasm name func out len) a v =
    invoked-IsAttester e name func out len (sgx_initialized e none a)
      (initialized-IsAttester e none a v)
step-IsAttester e close a v = close-IsAttester a v

from-IsAttester :
    (calls : List (SgxCalls × Call)) (a : Attester) → IsAttester a → IsAttester (steps calls a)
unfolding steps
from-IsAttester [] a v = v
from-IsAttester ((e, call) ∷ calls) a v =
    from-IsAttester calls (step e call a) (step-IsAttester e call a v)

-- After any sequence of calls, whatever SGX answers in them, one enclave is alive if the host is
-- initialised and none if not, and a key is ready only in an enclave.
pub steps-IsAttester : (calls : List (SgxCalls × Call)) → IsAttester (steps calls initial_attester)
steps-IsAttester calls =
    from-IsAttester calls initial_attester
      (record { one_enclave = refl; key_needs_enclave = λ h. cc h })

key_result_ready :
    (a : Attester) (o : Option ℤ)
    → (key_result a o).0 ≡ ℤ.pos 0
    → (key_result a o).1.key_ready ≡ true
key_result_ready a none h = cc h
key_result_ready a (some (ℤ.negsuc n)) h = cc h
key_result_ready a (some (ℤ.pos zero)) h = refl
key_result_ready a (some (ℤ.pos (suc n))) h = absurd (positive h)
  where
    positive : ℤ.pos (suc n) ≢ ℤ.pos 0
    positive e = let z : suc n ≡ 0 = cc e in omega (arith, z)

Ready : ℤ × Attester → Type 0
Ready r = r.0 ≡ ℤ.pos 0 → r.1.key_ready ≡ true

if-Ready :
    (b : Bool) (x y : ℤ × Attester) → (b ≡ true → Ready x) → Ready y → Ready (if b then x else y)
unfolding Ready
if-Ready true x y rx ry = rx refl
if-Ready false x y rx ry = ry

set_up_key-Ready : (e : SgxCalls) (mode : Bytes) (a : Attester) → Ready (set_up_key e mode a)
unfolding set_up_key Ready
set_up_key-Ready e mode a =
    if-Ready a.key_ready (ℤ.pos 0, a) _ (λ key _. key)
      (if-Ready (bytes_eq mode (b'y' ∷ b'e' ∷ b's' ∷ [])) (key_result a e.generate_key_pair) _
        (λ _. key_result_ready a e.generate_key_pair)
        (if-Ready (bytes_eq mode (b'n' ∷ b'o' ∷ [])) (key_result a e.set_key) (minus_one, a)
          (λ _. key_result_ready a e.set_key) λ h. cc h))

-- An initialisation that succeeds where there was no enclave leaves an enclave with its key ready.
pub attester_init_ready :
    (e : SgxCalls) (mode : Buf) (a : Attester)
    → a.initialized ≡ false
    → (attester_init e mode a).0 ≡ ℤ.pos 0
    → (attester_init e mode a).1.key_ready ≡ true
unfolding sgx_initialized Ready
attester_init_ready e mode a fresh = subst Ready (sym opened) (
    if-Ready (not e.create_enclave) _ _ (λ _ h. cc h)
      (set_up_key-Ready e (mode_or_default mode) entered))
  where
    entered : Attester
    entered = record a {
      stdio_configured = true;
      initialized = true;
      live_enclaves = a.live_enclaves + 1;
    }

    opened : sgx_initialized e mode a ≡ (
        if not e.create_enclave
        then (minus_one, record a { stdio_configured = true })
        else set_up_key e (mode_or_default mode) entered)
    opened =
        ap
          (λ b.
            if b
            then (ℤ.pos 0, record a { stdio_configured = true })
            else if not e.create_enclave
            then (minus_one, record a { stdio_configured = true })
            else set_up_key e (mode_or_default mode) entered)
          fresh
