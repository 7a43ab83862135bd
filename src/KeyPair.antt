-- ===== src/KeyPair.antt =====
-- Enclave/src/Enclave_generate_keypair.cpp: the key of the TEEP Agent. The state counts the blocks of
-- kids that are alive, the TAM's keys that were made and not freed, and the calls of `free` on a
-- pointer that malloc did not return. OpenSSL's objects of one call are freed on each way out of it.
pub mod Ready
pub mod Blocks
pub mod History
pub mod Frees
mod Tests
use taws.Base.{
  ℕ, zero, suc, ◌+◌, ◌-◌, ℤ, Bool, true, false, Option, none, some, List, [], ◌∷◌, if◌then◌else◌,
  take, drop, Bytes, Buf, Result, ok, err, ◌&&◌, not,
}
use taws.Cbor.{Qcbor, QcborOp, open_map, close_map, add_int64_to_map_n, add_bytes_to_map_n}
use taws.Teep.{TeepErr, unexpected_error}

-- What a pointer of the key points to: nothing, an array of the program, or a block of malloc.
pub data Pointer : Type 0 where
  null_pointer : Pointer
  static_array : Bytes → Pointer
  heap_block : Bytes → Pointer

-- `teep_key_t`
pub record KeyParts : Type 0 where
  pub private_key : Pointer
  pub public_key : Pointer
  pub kid : Pointer

-- `teep_key_state_t`
pub data KeyState : Type 0 where
  key_uninitialized key_ready : KeyState

-- The globals: `agent_sign.key`, `g_key_state`, the three flags, and the tag of `tam_verify`.
pub record Keys : Type 0 where
  pub agent : KeyParts
  pub state : KeyState
  pub owns_private : Bool
  pub owns_public : Bool
  pub owns_kid : Bool
  pub tam_cose_tag : ℕ
  pub live_kids : ℕ
  pub live_tam_keys : ℕ
  pub wild_frees : ℕ

abbrev pub empty_key : KeyParts
empty_key = record { private_key = null_pointer; public_key = null_pointer; kid = null_pointer }

abbrev pub initial_keys : Keys
initial_keys = record {
  agent = empty_key;
  state = key_uninitialized;
  owns_private = false;
  owns_public = false;
  owns_kid = false;
  tam_cose_tag = 0;
  live_kids = 0;
  live_tam_keys = 0;
  wild_frees = 0;
}

-- The labels and values of a COSE_Key, which libteep declares.
pub record CoseLabels : Type 0 where
  pub kty : ℤ
  pub kty_ec2 : ℤ
  pub crv : ℤ
  pub crv_p256 : ℤ
  pub x : ℤ
  pub y : ℤ

-- The answers of OpenSSL, libteep and malloc in one call. `teep_key_init` and `teep_free_key` are
-- given the key and leave a key; `cose_key_bytes` is the local variable without a value.
pub record KeyCalls : Type 0 where
  pub ctx_new : Bool
  pub keygen_init : Bool
  pub set_curve : Bool
  pub keygen : Bool
  pub get1_ec_key : Option (Bytes × Bytes)
  pub labels : CoseLabels
  pub qcbor : Qcbor
  pub cose_key_bytes : Bytes
  pub malloc_kid : Bool
  pub generate_sha256 : Bytes → Bool → Result TeepErr Bytes
  pub teep_key_init : Bytes → Bytes → KeyParts → Option TeepErr × KeyParts
  pub teep_free_key : KeyParts → KeyParts
  pub teep_key_init_public : Option TeepErr
  pub built_in_private : Bytes
  pub built_in_public : Bytes
  pub cose_sign1_tag : ℕ

-- `free`, of a pointer that is not NULL.
unfoldable pub free : Pointer → Keys → Keys
free null_pointer k = k
free (static_array b) k = record k { wild_frees = k.wild_frees + 1 }
free (heap_block b) k = record k { live_kids = k.live_kids - 1 }

unfoldable pub clear_private : Keys → Keys
clear_private k =
    if k.owns_private
    then (let freed = free k.agent.private_key k in
        record freed { agent = record k.agent { private_key = null_pointer } })
    else k

unfoldable pub clear_public : Keys → Keys
clear_public k =
    if k.owns_public
    then (let freed = free k.agent.public_key k in
        record freed { agent = record k.agent { public_key = null_pointer } })
    else k

unfoldable pub clear_kid : Keys → Keys
clear_kid k =
    if k.owns_kid
    then (let freed = free k.agent.kid k in
        record freed { agent = record k.agent { kid = null_pointer } })
    else k

abbrev pub disowned : Keys → Keys
disowned k = record k { owns_private = false; owns_public = false; owns_kid = false }

-- `clear_agent_sign_buffers`; a part that is NULL already stays as it is.
unfoldable pub clear_agent_sign_buffers : Keys → Keys
unfolding clear_private clear_public clear_kid
clear_agent_sign_buffers k = disowned (clear_kid (clear_public (clear_private k)))

-- COSE_KEY_THUMBPRINT_BUFFER_SIZE
abbrev pub thumbprint_buffer_size : ℕ
thumbprint_buffer_size = 11 + 32 + 32

abbrev pub pointed : Pointer → Bytes
pointed null_pointer = []
pointed (static_array b) = b
pointed (heap_block b) = b

pub cose_key_calls : CoseLabels → Bytes → List QcborOp
cose_key_calls l pk =
    open_map
    ∷ add_int64_to_map_n l.kty l.kty_ec2
    ∷ add_int64_to_map_n l.crv l.crv_p256
    ∷ add_bytes_to_map_n l.x (take 32 (drop 1 pk))
    ∷ add_bytes_to_map_n l.y (take 32 (drop 33 pk))
    ∷ close_map
    ∷ []

-- The result of `QCBOREncode_Finish` is not looked at.
abbrev pub finished_or : Bytes → Option Bytes → Bytes
finished_or old none = old
finished_or old (some b) = b

abbrev pub kid_pointer : Bool → Bytes → Pointer
kid_pointer true b = heap_block b
kid_pointer false b = null_pointer

abbrev pub counted : Bool → ℕ → ℕ
counted true n = n + 1
counted false n = n

-- The block of the kid, as it is left by malloc and by the hash.
abbrev pub kid_hashed : KeyCalls → Keys → Result TeepErr Bytes → Option TeepErr × Keys
kid_hashed e k (ok digest) = (
  none,
  record k {
    agent = record k.agent { kid = kid_pointer e.malloc_kid digest };
    live_kids = counted e.malloc_kid k.live_kids;
  },
)
kid_hashed e k (err code) = (
  some code,
  record k {
    agent = record k.agent { kid = kid_pointer e.malloc_kid [] };
    live_kids = counted e.malloc_kid k.live_kids;
  },
)

-- `teep_generate_kid`
unfoldable pub teep_generate_kid : KeyCalls → Keys → Option TeepErr × Keys
unfolding cose_key_calls
teep_generate_kid e k = kid_hashed e k (
    e.generate_sha256
      (finished_or e.cose_key_bytes (
        e.qcbor.finish thumbprint_buffer_size
          (cose_key_calls e.labels (pointed k.agent.public_key))))
      e.malloc_kid)

-- The part on the TAM's key, behind the kid.
unfoldable pub tam_key_set : KeyCalls → Keys → Option TeepErr → Option TeepErr × Keys
tam_key_set e k (some code) = (some code, k)
tam_key_set e k none = (
  none,
  record k {
    tam_cose_tag = e.cose_sign1_tag;
    live_tam_keys = k.live_tam_keys + 1;
    state = key_ready;
  },
)

unfoldable pub kid_owned : KeyCalls → Option TeepErr × Keys → Option TeepErr × Keys
unfolding tam_key_set
kid_owned e (some code, k) = (some code, k)
kid_owned e (none, k) = tam_key_set e (record k { owns_kid = true }) e.teep_key_init_public

-- The labels `err` and `cleanup` of the generation.
unfoldable pub generation_end : Option TeepErr × Keys → Option TeepErr × Keys
generation_end (none, k) = (none, k)
generation_end (some code, k) =
    (some code, record (clear_agent_sign_buffers k) { state = key_uninitialized })

-- The two static arrays become the agent's key.
abbrev pub with_arrays : Bytes → Bytes → KeyParts → Keys → Keys
with_arrays private public parts k = record k {
  agent = record parts { private_key = static_array private; public_key = static_array public };
  owns_private = true;
  owns_public = true;
}

unfoldable pub generated_key_set :
    KeyCalls → Bytes → Bytes → Keys → Option TeepErr × KeyParts → Option TeepErr × Keys
unfolding teep_generate_kid kid_owned
generated_key_set e private public k (some code, parts) = (some code, record k { agent = parts })
generated_key_set e private public k (none, parts) =
    kid_owned e (teep_generate_kid e (with_arrays private public parts k))

unfoldable pub ec_key_got : KeyCalls → Keys → Option (Bytes × Bytes) → Option TeepErr × Keys
unfolding generated_key_set
ec_key_got e k none = (some unexpected_error, k)
ec_key_got e k (some (private, public)) =
    generated_key_set e private public k (e.teep_key_init private public k.agent)

-- What each way into a new key begins with.
abbrev pub key_freed : KeyCalls → Keys → Keys
key_freed e k =
    let cleared = clear_agent_sign_buffers k in
    record cleared { agent = e.teep_free_key cleared.agent }

-- `ecall_teep_generate_esp256_key_pair`; `none` is TEEP_SUCCESS.
unfoldable pub ecall_teep_generate_esp256_key_pair : KeyCalls → Keys → Option TeepErr × Keys
ecall_teep_generate_esp256_key_pair e k = generation_end (
    if e.ctx_new && e.keygen_init && e.set_curve && e.keygen
    then ec_key_got e (key_freed e k) e.get1_ec_key
    else (some unexpected_error, key_freed e k))

abbrev pub freed_keypair : KeyCalls → KeyState → Keys → Keys
freed_keypair e key_uninitialized k = k
freed_keypair e key_ready k = record (clear_agent_sign_buffers k) {
  agent = empty_key;
  tam_cose_tag = 0;
  live_tam_keys = k.live_tam_keys - 1;
  state = key_uninitialized;
}

-- `ecall_teep_free_keypair`
unfoldable pub ecall_teep_free_keypair : KeyCalls → Keys → Keys
ecall_teep_free_keypair e k = freed_keypair e k.state k

unfoldable pub built_in_set : KeyCalls → Keys → Option TeepErr × KeyParts → Option TeepErr × Keys
unfolding teep_generate_kid kid_owned
built_in_set e k (some code, parts) = (some code, record k { agent = parts })
built_in_set e k (none, parts) = kid_owned e (teep_generate_kid e (record k { agent = parts }))

-- `ecall_teep_set_esp256_key`
unfoldable pub ecall_teep_set_esp256_key : KeyCalls → Keys → Option TeepErr × Keys
unfolding built_in_set
ecall_teep_set_esp256_key e k =
    let freed = record (key_freed e k) { state = key_uninitialized } in
    built_in_set e freed (e.teep_key_init e.built_in_private e.built_in_public freed.agent)
