-- ===== src/Evidence.antt =====
-- Enclave/src/Enclave_generate_evidence.cpp: the key and the challenge that evidence is bound to,
-- and what the evidence uses of SGX, QCBOR and t_cose. The pointers to the request and to the
-- result are not NULL.
pub mod Label
pub mod Dcap
pub mod Generic
pub mod Binding
pub mod Claims
mod Tests
use taws.Base.{
  ℕ, zero, suc, Bool, true, false, not, ◌&&◌, Option, none, some, List, [], ◌∷◌, ltb, ◌==◌,
  if◌then◌else◌, length, take, drop, Bytes, Buf, Result, ok, err, guard,
}
use taws.Cbor.{Qcbor, QcborOp}
use taws.Teep.{RawBuf, null_of, points_to, TeepErr, invalid_value, unexpected_error, QueryRequest}

pub data SgxStatus : Type 0 where
  sgx_success error_unexpected error_invalid_parameter : SgxStatus
  other_error : ℕ → SgxStatus

-- What the evidence uses of `teep_key_t`; `public_key_len` is the length of the bytes.
pub record TeepKey : Type 0 where
  pub public_key : Buf
  pub kid : Bytes

-- SGX's SHA-384: the result of each call, `update` by its number, and the digest of what was put in.
pub record Sha384 : Type 0 where
  pub init : SgxStatus
  pub update : ℕ → SgxStatus
  pub get_hash : SgxStatus
  pub close : SgxStatus
  pub digest : Bytes → Bytes

-- The host's quoting library; `none` where it fails.
pub record QuotingLibrary : Type 0 where
  pub qe_get_target_info : Option Bytes
  pub qe_get_quote_size : Option ℕ
  pub qe_get_quote : Bytes → ℕ → Option Bytes

-- t_cose: the signing key, if it is made, whether the two parts are encoded, and the message that is
-- left in a buffer of a capacity around the payload that the calls build.
pub record Cose : Type 0 where
  pub attester_private_key : Bytes
  pub attester_public_key : Bytes
  pub key_init : Bytes → Bytes → Result TeepErr Bytes  -- teep_key_init_esp256_key_pair
  pub encode_parameters : Bool
  pub encode_signature : Bool
  pub finish_sign1 : Bytes → ℕ → List QcborOp → Option Bytes

pub record EvidenceCalls : Type 0 where
  pub public_key_length : ℕ  -- PRIME256V1_PUBLIC_KEY_LENGTH
  pub qcbor : Qcbor
  pub sha384 : Sha384
  pub bridge : ℕ → SgxStatus  -- each ocall's own result, by its number
  pub quoting : QuotingLibrary
  pub create_report : Bytes → Bytes → SgxStatus × Bytes
  pub malloc_quote : Bool
  pub malloc_raw_report_data : Bool
  pub cose : Cose

abbrev pub is_success : SgxStatus → Bool
is_success sgx_success = true
is_success error_unexpected = false
is_success error_invalid_parameter = false
is_success (other_error n) = false

-- `kP256CoordinateLength`
abbrev pub p256_coordinate_length : ℕ
p256_coordinate_length = 32

-- `teep_err_from_sgx_status`, as the chain that goes on after a success.
abbrev pub sgx_guard {ℓ} : {A : Type ℓ} → SgxStatus → Result TeepErr A → Result TeepErr A
sgx_guard status rest = guard (is_success status) unexpected_error rest

abbrev starts_with_4 : Bytes → Bool
starts_with_4 [] = false
starts_with_4 (b ∷ bs) = b == 4

abbrev pub public_key_of : Option TeepKey → Buf
public_key_of none = none
public_key_of (some key) = key.public_key

abbrev is_uncompressed : EvidenceCalls → Buf → Bool
is_uncompressed e none = false
is_uncompressed e (some pk) = (length pk == e.public_key_length) && starts_with_4 pk

-- `is_uncompressed_p256_public_key`
unfoldable pub is_uncompressed_p256_public_key : EvidenceCalls → Option TeepKey → Bool
is_uncompressed_p256_public_key e key = is_uncompressed e (public_key_of key)

abbrev bytes_or_none : Buf → Bytes
bytes_or_none none = []
bytes_or_none (some b) = b

-- `key_pair->public_key`; nothing of it is used where the key is not valid.
abbrev pub public_key_bytes : Option TeepKey → Bytes
public_key_bytes key = bytes_or_none (public_key_of key)

abbrev pub kid_bytes : Option TeepKey → Bytes
kid_bytes none = []
kid_bytes (some key) = key.kid

abbrev pub x_coordinate : Option TeepKey → Bytes
x_coordinate key = take p256_coordinate_length (drop 1 (public_key_bytes key))

abbrev pub y_coordinate : Option TeepKey → Bytes
y_coordinate key = take p256_coordinate_length (drop 33 (public_key_bytes key))

-- `get_query_challenge`; a NULL challenge has no bytes.
unfoldable pub get_query_challenge : Option RawBuf → Result TeepErr Bytes
get_query_challenge none = ok []
get_query_challenge (some (null_of n)) = if ltb 0 n then err invalid_value else ok []
get_query_challenge (some (points_to b)) = ok b

-- The first guard of each kind of evidence: `buf` is `none` where its pointer is NULL.
abbrev pub arguments_valid : EvidenceCalls → Option TeepKey → Option ℕ → Bool
arguments_valid e key none = false
arguments_valid e key (some capacity) = is_uncompressed_p256_public_key e key && not (capacity == 0)
