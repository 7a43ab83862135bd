-- ===== src/KeyPair/Tests.antt =====
-- Enclave/src/Enclave_generate_keypair.cpp: the key at concrete answers of the libraries.
use taws.Base.{◌≡◌, ◌+◌, refl, none, List, [], ◌∷◌, replicate}
use taws.KeyPair.{initial_keys, ecall_teep_generate_esp256_key_pair, ecall_teep_set_esp256_key}
use taws.KeyPair.Ready.{Makes, key-Makes}
use taws.KeyPair.Blocks.{IsKeys, bare-IsKeys}
use taws.KeyPair.History.{KeyCall, generate, set, free_keypair, run, runs, Hashing}
use taws.KeyPair.Frees.{AllHashing, no_call, next_call, Kept, keys-Kept, generated_freed}
use taws.Samples.{key_calls}

key-Makes_example :
    Makes key_calls (ecall_teep_generate_esp256_key_pair key_calls initial_keys)
    × Makes key_calls (ecall_teep_set_esp256_key key_calls initial_keys)
key-Makes_example = key-Makes key_calls initial_keys

hashing : Hashing key_calls
hashing = record { hashed = λ b block. (replicate 32 9, refl) }

abbrev set_twice : List KeyCall
set_twice = set key_calls ∷ free_keypair key_calls ∷ set key_calls ∷ []

set_twice-AllHashing : AllHashing set_twice
set_twice-AllHashing = next_call hashing (next_call hashing (next_call hashing no_call))

keys-Kept_example : Kept set_twice (runs set_twice initial_keys)
keys-Kept_example = keys-Kept set_twice set_twice-AllHashing

initial_keys-IsKeys : IsKeys initial_keys
initial_keys-IsKeys = bare-IsKeys initial_keys refl refl refl refl

generated : (ecall_teep_generate_esp256_key_pair key_calls initial_keys).0 ≡ none
unfolding ecall_teep_generate_esp256_key_pair taws.KeyPair.generation_end taws.KeyPair.ec_key_got
generated = refl

generated_freed_example :
    ((run (free_keypair key_calls) (run (generate key_calls) initial_keys)).wild_frees
      ≡ (run (generate key_calls) initial_keys).wild_frees + 2)
    × ((run (set key_calls) (run (generate key_calls) initial_keys)).wild_frees
        ≡ (run (generate key_calls) initial_keys).wild_frees + 2)
generated_freed_example =
    generated_freed key_calls key_calls initial_keys hashing initial_keys-IsKeys generated
