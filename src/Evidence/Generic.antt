-- ===== src/Evidence/Generic.antt =====
-- Enclave/src/Enclave_generate_evidence.cpp: generic evidence, an EAT that the attester's key signs.
-- The state counts the signing keys that are alive.
use taws.Base.{
  ℕ, ◌+◌, ◌-◌, ℤ, Option, none, some, List, [], ◌∷◌, ◌++◌, Bytes, Result, ok, err, guard, ok_or,
  if◌then◌else◌,
}
use taws.Cbor.{
  QcborOp, open_map, close_map, open_array, close_array, bstr_wrap, close_bstr_wrap,
  open_map_in_map_n, open_array_in_map_n, add_bytes, add_text, add_int64, add_bytes_to_map_n,
  add_text_to_map_n, add_int64_to_map_n,
}
use taws.Teep.{RawBuf, TeepErr, invalid_value, unexpected_error, signing_failed, QueryRequest}
use taws.Evidence.Label
use taws.Evidence.{
  TeepKey, EvidenceCalls, kid_bytes, x_coordinate, y_coordinate, get_query_challenge,
  arguments_valid,
}

abbrev pub default_eat_nonce : Bytes
default_eat_nonce = 148 ∷ 143 ∷ 136 ∷ 96 ∷ 209 ∷ 58 ∷ 70 ∷ 62 ∷ 142 ∷ []

abbrev pub ueid_bytes : Bytes
ueid_bytes =
    1 ∷ 98 ∷ 117 ∷ 105 ∷ 108 ∷ 100 ∷ 105 ∷ 110 ∷ 103 ∷ 45 ∷ 100 ∷ 101 ∷ 118 ∷ 45 ∷ 49 ∷ 50 ∷ 51 ∷ []

abbrev pub oemid_bytes : Bytes
oemid_bytes = 137 ∷ 72 ∷ 35 ∷ []

abbrev pub hwmodel_bytes : Bytes
hwmodel_bytes =
    84 ∷ 157 ∷ 206 ∷ 204 ∷ 139 ∷ 152 ∷ 124 ∷ 115 ∷ 123 ∷ 68 ∷ 228 ∷ 15 ∷ 124 ∷ 99 ∷ 92 ∷ 232 ∷ []

abbrev deadbeef : Bytes
deadbeef = 222 ∷ 173 ∷ 190 ∷ 239 ∷ []

abbrev pub deadbeef_bytes : Bytes
deadbeef_bytes =
    deadbeef
    ++ (deadbeef ++ (deadbeef ++ (deadbeef ++ (deadbeef ++ (deadbeef ++ (deadbeef ++ deadbeef))))))

-- "1.3.4", "urn:ietf:rfc:rfc9711" and "TEEP Agent"
abbrev pub version_text : Bytes
version_text = b'1' ∷ b'.' ∷ b'3' ∷ b'.' ∷ b'4' ∷ []

abbrev pub profile_text : Bytes
profile_text =
    b'u' ∷ b'r' ∷ b'n' ∷ b':' ∷ b'i' ∷ b'e' ∷ b't' ∷ b'f' ∷ b':' ∷ b'r' ∷ b'f' ∷ b'c' ∷ b':' ∷ b'r'
    ∷ b'f' ∷ b'c' ∷ b'9' ∷ b'7' ∷ b'1' ∷ b'1' ∷ []

abbrev pub agent_text : Bytes
agent_text = b'T' ∷ b'E' ∷ b'E' ∷ b'P' ∷ b' ' ∷ b'A' ∷ b'g' ∷ b'e' ∷ b'n' ∷ b't' ∷ []

-- The nonce is the challenge, where the request has one.
abbrev pub nonce : Option RawBuf → Bytes → Bytes
nonce none challenge = default_eat_nonce
nonce (some b) challenge = challenge

-- The calls between the two parts of t_cose.
unfoldable pub payload_calls : Option TeepKey → Bytes → List QcborOp
payload_calls key eat_nonce =
    open_map
    ∷ open_map_in_map_n Label.cnf
    ∷ open_map_in_map_n Label.cose_key
    ∷ add_int64_to_map_n Label.key_type (ℤ.pos 2)
    ∷ add_int64_to_map_n Label.curve (ℤ.pos 1)
    ∷ add_bytes_to_map_n Label.x_label (x_coordinate key)
    ∷ add_bytes_to_map_n Label.y_label (y_coordinate key)
    ∷ close_map
    ∷ add_bytes_to_map_n Label.key_id (kid_bytes key)
    ∷ close_map
    ∷ add_bytes_to_map_n Label.eat_nonce eat_nonce
    ∷ add_bytes_to_map_n Label.ueid ueid_bytes
    ∷ add_bytes_to_map_n Label.oemid oemid_bytes
    ∷ add_bytes_to_map_n Label.hwmodel hwmodel_bytes
    ∷ open_array_in_map_n Label.hwversion
    ∷ add_text version_text
    ∷ add_int64 (ℤ.pos 1)
    ∷ close_array
    ∷ add_text_to_map_n Label.eat_profile profile_text
    ∷ open_array_in_map_n Label.measurements
    ∷ open_array
    ∷ add_int64 Label.content_type
    ∷ bstr_wrap
    ∷ open_map
    ∷ open_array_in_map_n Label.id_
    ∷ add_text agent_text
    ∷ open_array
    ∷ add_text version_text
    ∷ add_int64 (ℤ.pos 1)
    ∷ close_array
    ∷ close_array
    ∷ open_array_in_map_n Label.measurement_value
    ∷ add_int64 Label.algorithm
    ∷ add_bytes deadbeef_bytes
    ∷ close_array
    ∷ close_map
    ∷ close_bstr_wrap
    ∷ close_array
    ∷ close_array
    ∷ close_map
    ∷ []

-- What is signed with the key, up to `cleanup`.
unfoldable pub eat_signed :
    EvidenceCalls → QueryRequest → ℕ → Option TeepKey → Bytes → Bytes → Result TeepErr Bytes
eat_signed e req capacity key challenge signing_key =
    guard e.cose.encode_parameters signing_failed (
      guard e.cose.encode_signature signing_failed (
        ok_or
          (e.cose.finish_sign1 signing_key capacity
            (payload_calls key (nonce req.challenge challenge)))
          unexpected_error))

-- `cleanup`: a key that was made is freed.
abbrev pub cleaned_up :
    ℕ → (Bytes → Result TeepErr Bytes) → Result TeepErr Bytes → Result TeepErr Bytes × ℕ
cleaned_up keys sign (err code) = (err code, keys)
cleaned_up keys sign (ok signing_key) = (sign signing_key, (keys + 1) - 1)

unfoldable pub after_challenge :
    EvidenceCalls
    → QueryRequest
    → ℕ
    → Option TeepKey
    → ℕ
    → Result TeepErr Bytes
    → Result TeepErr Bytes × ℕ
after_challenge e req capacity key keys (err code) = (err code, keys)
after_challenge e req capacity key keys (ok challenge) =
    cleaned_up keys (eat_signed e req capacity key challenge)
      (e.cose.key_init e.cose.attester_private_key e.cose.attester_public_key)

-- `create_evidence_generic`
unfoldable pub create_evidence_generic :
    EvidenceCalls → QueryRequest → Option ℕ → Option TeepKey → ℕ → Result TeepErr Bytes × ℕ
unfolding after_challenge eat_signed
create_evidence_generic e req none key keys = (err invalid_value, keys)
create_evidence_generic e req (some capacity) key keys =
    if arguments_valid e key (some capacity)
    then after_challenge e req capacity key keys (get_query_challenge req.challenge)
    else (err invalid_value, keys)
