-- ===== src/Attester/Tests.antt =====
-- App/src/attester_api.cpp: calls at concrete answers of SGX.
use taws.Base.{ℤ, ◌≡◌, refl, true, none, some, List, [], ◌∷◌, bytes_eq}
use taws.Attester.{SgxCalls, initial_attester, attester_init, sgx_initialized, set_up_key}
use taws.Attester.Lifetime.{
  IsAttester, init, close, Call, steps, steps-IsAttester, attester_init_ready,
}

abbrev sgx : SgxCalls
sgx = record {
  create_enclave = true;
  set_log_level = true;
  generate_key_pair = some (ℤ.pos 0);
  set_key = none;
  invoke_wasm = none;
  rounds = [];
}

abbrev calls : List (SgxCalls × Call)
calls = (sgx, init none) ∷ (sgx, close) ∷ (sgx, init none) ∷ []

steps-IsAttester_example : IsAttester (steps calls initial_attester)
steps-IsAttester_example = steps-IsAttester calls

initialises : (attester_init sgx none initial_attester).0 ≡ ℤ.pos 0
unfolding sgx_initialized set_up_key bytes_eq
initialises = refl

attester_init_ready_example : (attester_init sgx none initial_attester).1.key_ready ≡ true
attester_init_ready_example = attester_init_ready sgx none initial_attester refl initialises
