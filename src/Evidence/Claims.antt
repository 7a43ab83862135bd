-- ===== src/Evidence/Claims.antt =====
-- Enclave/src/Enclave_generate_evidence.cpp: what generic evidence claims.
use taws.Base.{
  ℕ, ◌≡◌, refl, ◌∙◌, ap, sym, Bool, true, false, ◌&&◌, Option, none, some, [], ◌∷◌, ◌++◌, subst,
  ltb, Bool-cases, inl, inr, length, drop, take, take-drop, drop-drop, take_all, length-drop, arith,
  ==_iff, ◌==◌, Bytes, Buf, Result, ok, err, ok_or-eq-ok, guard-eq-ok, ℤ, if◌then◌else◌,
}
use taws.Cbor.{
  Cbor, int, bytes, text, array, map_of, wrapped, item, end_of_array, entry, end_of_map, calls,
}
use taws.Teep.{RawBuf, null_of, points_to, QueryRequest, TeepErr, signing_failed, unexpected_error}
use taws.Evidence.{
  TeepKey, EvidenceCalls, kid_bytes, x_coordinate, y_coordinate, is_uncompressed_p256_public_key,
  get_query_challenge, arguments_valid, starts_with_4, is_uncompressed, bytes_or_none,
}
use taws.Evidence.Label
use taws.Evidence.Generic.{
  payload_calls, nonce, ueid_bytes, oemid_bytes, hwmodel_bytes, deadbeef_bytes, version_text,
  profile_text, agent_text, eat_signed, cleaned_up, after_challenge, create_evidence_generic,
}

abbrev version_item : Cbor
version_item = array (item (text version_text) (item (int (ℤ.pos 1)) end_of_array))

abbrev confirmation : Bytes → Bytes → Bytes → Cbor
confirmation x y kid = map_of (
    entry Label.cose_key
      (map_of (
        entry Label.key_type (int (ℤ.pos 2)) (
          entry Label.curve (int (ℤ.pos 1))
            (entry Label.x_label (bytes x) (entry Label.y_label (bytes y) end_of_map)))))
      (entry Label.key_id (bytes kid) end_of_map))

abbrev measured : Cbor
measured = map_of (
    entry Label.id_ (array (item (text agent_text) (item version_item end_of_array))) (
      entry Label.measurement_value
        (array (item (int Label.algorithm) (item (bytes deadbeef_bytes) end_of_array))) end_of_map))

-- The claims: one map, that confirms a key and repeats a nonce.
pub claims : Bytes → Bytes → Bytes → Bytes → Cbor
claims x y kid eat_nonce = map_of (
    entry Label.cnf (confirmation x y kid) (
      entry Label.eat_nonce (bytes eat_nonce) (
        entry Label.ueid (bytes ueid_bytes) (
          entry Label.oemid (bytes oemid_bytes) (
            entry Label.hwmodel (bytes hwmodel_bytes) (
              entry Label.hwversion version_item (
                entry Label.eat_profile (text profile_text) (
                  entry Label.measurements
                    (array (
                      item
                        (array
                          (item (int Label.content_type) (item (wrapped measured) end_of_array)))
                        end_of_array))
                    end_of_map))))))))

payload_claims :
    (key : Option TeepKey) (eat_nonce : Bytes)
    → payload_calls key eat_nonce
      ≡ calls (claims (x_coordinate key) (y_coordinate key) (kid_bytes key) eat_nonce)
unfolding payload_calls calls claims
payload_claims key eat_nonce = refl

-- The bytes of the challenge of a request: a challenge that is not there has none, and a NULL pointer
-- is one of no bytes.
pub data Asks : Option RawBuf → Bytes → Type 0 where
  no_challenge : Asks none []
  null_challenge : (n : ℕ) → n ≡ 0 → Asks (some (null_of n)) []
  challenge_of : (b : Bytes) → Asks (some (points_to b)) b

pub read-Asks :
    (o : Option RawBuf) (challenge : Bytes)
    → get_query_challenge o ≡ ok challenge
    → Asks o challenge
unfolding get_query_challenge
read-Asks none challenge h = subst (Asks none) (cc h) no_challenge
read-Asks (some (null_of n)) challenge h = elim (Bool-cases (ltb 0 n)) [
  | inl bad ↦ cc (bad, h)
  | inr fine ↦
      let same : [] ≡ challenge = cc (fine, h) in
      subst (Asks (some (null_of n))) same (null_challenge n (ground arith))
]
read-Asks (some (points_to b)) challenge h =
    subst (Asks (some (points_to b))) (cc h) (challenge_of b)

-- The nonce of an EAT: the challenge of the request, and the constant where it has none.
pub data Repeats : Option RawBuf → Bytes → Type 0 where
  by_default : Repeats none (148 ∷ 143 ∷ 136 ∷ 96 ∷ 209 ∷ 58 ∷ 70 ∷ 62 ∷ 142 ∷ [])
  by_request : (o : RawBuf) (b : Bytes) → Asks (some o) b → Repeats (some o) b

nonce-Repeats :
    (o : Option RawBuf) (challenge : Bytes) → Asks o challenge → Repeats o (nonce o challenge)
nonce-Repeats none challenge a = by_default
nonce-Repeats (some o) challenge a = by_request o challenge a

-- A key that a statement of the evidence speaks of: 0x04, and the two coordinates.
pub record UncompressedKey (key : Option TeepKey) : Type 0 where
  pub teep_key : TeepKey
  pub public_key : Bytes
  pub given : key ≡ some teep_key
  pub present : teep_key.public_key ≡ some public_key
  pub sized : length public_key ≡ 65
  pub marked : starts_with_4 public_key ≡ true
  pub x : x_coordinate key ≡ take 32 (drop 1 public_key)
  pub y : y_coordinate key ≡ drop 33 public_key
  pub kid : kid_bytes key ≡ teep_key.kid
  pub coordinates : x_coordinate key ++ y_coordinate key ≡ drop 1 public_key

pub and_true : (a b : Bool) → (a && b) ≡ true → (a ≡ true) × (b ≡ true)
and_true true b h = (refl, h)
and_true false b h = cc h

pub key_coordinates :
    (pk : Bytes) → length pk ≡ 65 → take 32 (drop 1 pk) ++ take 32 (drop 33 pk) ≡ drop 1 pk
key_coordinates pk h =
    ap (λ ys. take 32 (drop 1 pk) ++ ys)
      (take_all 32 (drop 33 pk) (omega (arith, length-drop 33 pk, h)) ∙ sym (drop-drop 32 1 pk))
    ∙ take-drop 32 (drop 1 pk)

pub valid-UncompressedKey :
    (e : EvidenceCalls) (key : Option TeepKey)
    → e.public_key_length ≡ 65
    → is_uncompressed_p256_public_key e key ≡ true
    → UncompressedKey key
unfolding is_uncompressed_p256_public_key
valid-UncompressedKey e none l h = cc h
valid-UncompressedKey e (some key) l h = of_bytes key.public_key refl h
  where
    of_bytes :
        (b : Buf) → key.public_key ≡ b → is_uncompressed e b ≡ true → UncompressedKey (some key)
    of_bytes none same h' = cc h'
    of_bytes (some pk) same h' =
        let (len, first) = and_true (length pk == e.public_key_length) (starts_with_4 pk) h' in
        let sized : length pk ≡ 65 = (==_iff (length pk) e.public_key_length).0 len ∙ l in
        record {
          teep_key = key;
          public_key = pk;
          given = refl;
          present = same;
          sized = sized;
          marked = first;
          x = ap (λ b. take 32 (drop 1 (bytes_or_none b))) same;
          y =
              ap (λ b. take 32 (drop 33 (bytes_or_none b))) same
              ∙ take_all 32 (drop 33 pk) (omega (arith, length-drop 33 pk, sized));
          kid = refl;
          coordinates =
              ap (λ b. take 32 (drop 1 (bytes_or_none b)) ++ take 32 (drop 33 (bytes_or_none b)))
                same
              ∙ key_coordinates pk sized;
        }

-- What a result of generic evidence shows: the claims about the coordinates and the kid of the key
-- and about the challenge, signed with the attester's key.
pub record Claimed (e : EvidenceCalls) (req : QueryRequest) (capacity : ℕ) (key : Option TeepKey)
    (eat : Bytes) : Type 0 where
  pub confirmed : UncompressedKey key
  pub signing_key : Bytes
  pub eat_nonce : Bytes
  pub attester_key :
      e.cose.key_init e.cose.attester_private_key e.cose.attester_public_key ≡ ok signing_key
  pub repeats : Repeats req.challenge eat_nonce
  pub encoded :
      e.cose.finish_sign1 signing_key capacity (
        calls (
          claims
            (take 32 (drop 1 confirmed.public_key))
            (drop 33 confirmed.public_key)
            confirmed.teep_key.kid
            eat_nonce))
      ≡ some eat

pub if-eq-ok :
    (b : Bool) (code : TeepErr) (x : Result TeepErr Bytes × ℕ) (keys : ℕ) {eat : Bytes}
    → (if b then x else (err code, keys)).0 ≡ ok eat
    → (b ≡ true) × (x.0 ≡ ok eat)
if-eq-ok true code x keys h = (refl, h)
if-eq-ok false code x keys h = cc h

module _ (e : EvidenceCalls) (req : QueryRequest) (capacity : ℕ) (key : Option TeepKey) (keys : ℕ)
    {eat : Bytes} where
  signed_encoded :
      (challenge signing_key : Bytes)
      → eat_signed e req capacity key challenge signing_key ≡ ok eat
      → e.cose.finish_sign1 signing_key capacity (payload_calls key (nonce req.challenge challenge))
        ≡ some eat
  unfolding eat_signed
  signed_encoded challenge signing_key h =
      let (_, parameters) = guard-eq-ok e.cose.encode_parameters signing_failed _ h in
      let (_, signature) = guard-eq-ok e.cose.encode_signature signing_failed _ parameters in
      ok_or-eq-ok _ unexpected_error signature

  key_made :
      (challenge : Bytes) (made : Result TeepErr Bytes)
      → (cleaned_up keys (eat_signed e req capacity key challenge) made).0 ≡ ok eat
      → (signing_key : Bytes) × (made ≡ ok signing_key)
        × (eat_signed e req capacity key challenge signing_key ≡ ok eat)
  key_made challenge (err code) h = cc h
  key_made challenge (ok signing_key) h = (signing_key, refl, h)

  challenge_read :
      (r : Result TeepErr Bytes)
      → (after_challenge e req capacity key keys r).0 ≡ ok eat
      → (challenge : Bytes) × (r ≡ ok challenge)
        × ((cleaned_up keys
              (eat_signed e req capacity key challenge)
              (e.cose.key_init e.cose.attester_private_key e.cose.attester_public_key)).0
            ≡ ok eat)
  unfolding after_challenge
  challenge_read (err code) h = cc h
  challenge_read (ok challenge) h = (challenge, refl, h)

  pub generic-Claimed :
      e.public_key_length ≡ 65
      → (create_evidence_generic e req (some capacity) key keys).0 ≡ ok eat
      → Claimed e req capacity key eat
  unfolding create_evidence_generic
  generic-Claimed l h =
      let (valid, go) = if-eq-ok (arguments_valid e key (some capacity)) _ _ keys h in
      let (challenge, read, made) = challenge_read (get_query_challenge req.challenge) go in
      let (signing_key, attester, sign) =
        key_made challenge (e.cose.key_init e.cose.attester_private_key e.cose.attester_public_key)
          made in
      let confirmed =
        valid-UncompressedKey e key l
          (and_true (is_uncompressed_p256_public_key e key) _ valid).0 in
      let eat_nonce = nonce req.challenge challenge in
      record {
        confirmed = confirmed;
        signing_key = signing_key;
        eat_nonce = eat_nonce;
        attester_key = attester;
        repeats = nonce-Repeats req.challenge challenge (read-Asks req.challenge challenge read);
        encoded =
            ap
              (λ (k : Bytes × Bytes × Bytes).
                e.cose.finish_sign1 signing_key capacity (calls (claims k.0 k.1 k.2 eat_nonce)))
              (sym (
                ap (λ x. (x, y_coordinate key, kid_bytes key)) confirmed.x
                ∙ ap (λ y. (take 32 (drop 1 confirmed.public_key), y, kid_bytes key)) confirmed.y
                ∙ ap (λ k. (take 32 (drop 1 confirmed.public_key), drop 33 confirmed.public_key, k))
                    confirmed.kid))
            ∙ ap (e.cose.finish_sign1 signing_key capacity) (sym (payload_claims key eat_nonce))
            ∙ signed_encoded challenge signing_key sign;
      }

-- The signing key is freed, however the call ends.
pub generic_keys :
    (e : EvidenceCalls) (req : QueryRequest) (buf : Option ℕ) (key : Option TeepKey) (keys : ℕ)
    → (create_evidence_generic e req buf key keys).1 ≡ keys
unfolding create_evidence_generic after_challenge
generic_keys e req none key keys = refl
generic_keys e req (some capacity) key keys =
    if_keys (arguments_valid e key (some capacity)) _ _
      (challenge_keys (get_query_challenge req.challenge))
  where
    if_keys :
        (b : Bool) (x : Result TeepErr Bytes × ℕ) (code : TeepErr)
        → x.1 ≡ keys
        → (if b then x else (err code, keys)).1 ≡ keys
    if_keys true x code h = h
    if_keys false x code h = refl

    made_keys :
        (sign : Bytes → Result TeepErr Bytes) (made : Result TeepErr Bytes)
        → (cleaned_up keys sign made).1 ≡ keys
    made_keys sign (err code) = refl
    made_keys sign (ok signing_key) = omega arith

    challenge_keys :
        (r : Result TeepErr Bytes) → (after_challenge e req capacity key keys r).1 ≡ keys
    challenge_keys (err code) = refl
    challenge_keys (ok challenge) =
        made_keys (eat_signed e req capacity key challenge)
          (e.cose.key_init e.cose.attester_private_key e.cose.attester_public_key)
