-- ===== src/Teep/Tests.antt =====
-- Enclave/src/Enclave_process_message.cpp: `create_error` at concrete arguments.
use taws.Base.{ℤ, ◌==◌, none, some, [], ◌∷◌, replicate}
use taws.Teep.{Libteep, manifest_processing_failed, create_error}
use taws.Teep.Errors.{Shaped, create_error-Shaped}

abbrev libteep : Libteep
libteep = record {
  cose_sign1_tag = 18;
  algorithm_esp256 = ℤ.negsuc 8;
  invalid16_tag = 65535;
  cose_none = ℤ.pos 0;
  max_array_length = 16;
  cipher_suite_is_same = λ a b. a.first.cose_tag == b.first.cose_tag;
}

create_error-Shaped_example :
    Shaped libteep
      (some (replicate 8 5))
      (some (1 ∷ []))
      (create_error libteep (some (replicate 8 5)) manifest_processing_failed none (some (1 ∷ [])))
create_error-Shaped_example =
    create_error-Shaped libteep (some (replicate 8 5)) manifest_processing_failed none
      (some (1 ∷ []))
