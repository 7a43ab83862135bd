-- ===== src/SuitProcessor/Image.antt =====
-- Enclave/src/suit_processor_wrapper.cpp: a payload is stored, and then its image is checked.
use taws.Base.{
  ◌<◌, ◌≡◌, ◌⊎◌, ◌↔◌, refl, sym, ap, ◌∙◌, inl, inr, false, some, arith, length, [], ◌∷◌, Bytes,
  is_empty, subst, Status, success, failure,
}
use taws.TcManager.{
  Csuit, ManifestRecord, Table, StoreArgs, suit_store, Mallocs, store_record, find_record_by_digest,
  sha256_digest_length,
}
use taws.TcManager.Invariant.{IsTable}
use taws.TcManager.Contents.{lookup}
use taws.TcManager.Payload.{store_payload}
use taws.SuitProcessor.{
  suit_success, SuitConditionArgs, image_match, SuitCallbackRet, sha256, SuitState, DecodeDigest,
  store_callback, store_forwarded, store_result, condition_callback, wapp_bin_size,
}
use taws.SuitProcessor.Condition.{Matches, condition_callback-Matches}

-- The expectation is met by a payload `bin` with hash `h`.
abbrev pub Expects : DecodeDigest → SuitConditionArgs → Bytes → Bytes → Type 0
Expects decode x bin h =
    ((x.expected_u64 ≡ 0) ⊎ (length bin ≡ x.expected_u64))
    × (decode x.expected_str ≡ (suit_success, record { algorithm_id = sha256; bytes = h }))

store_won :
    (c : Csuit) (m : Mallocs) (a : StoreArgs) (s : SuitState)
    → a.operation ≡ suit_store
    → (store_callback c m a s).0 ≡ suit_success
    → ((store_record c m (some a) s.table).1 ≡ success)
      × ((store_callback c m a s).1.table ≡ (store_record c m (some a) s.table).0)
unfolding store_callback store_forwarded
store_won c m a s op h =
    let at = ap (store_forwarded c m a s) op in
    let (won, same) = result (store_record c m (some a) s.table) (sym (ap (λ p. p.0) at) ∙ h) in
    (won, ap (λ p. p.1.table) at ∙ same)
  where
    result :
        (r : Table × Status)
        → (store_result r s).0 ≡ suit_success
        → (r.1 ≡ success) × ((store_result r s).1.table ≡ r.0)
    result (t, success) e = (refl, refl)
    result (t, failure) e = cc e

nonempty_length : (bin : Bytes) → is_empty bin ≡ false → 0 < length bin
nonempty_length [] h = cc h
nonempty_length (b ∷ bin) h = omega arith

module _ (decode : DecodeDigest) (x : SuitConditionArgs) (r : ManifestRecord) (bin h : Bytes)
    (size : length h ≡ sha256_digest_length) (full : is_empty bin ≡ false)
    (held : r.wapp_bin ≡ some bin) (hashed : r.wapp_hash ≡ h) where
  bin_size : wapp_bin_size r.wapp_bin ≡ length bin
  unfolding wapp_bin_size
  bin_size = ap wapp_bin_size held

  meets_expected : Matches decode x r → Expects decode x bin h
  meets_expected w = (
    sized w.sized,
    w.decoded ∙ λ i.
        (suit_success, record { algorithm_id = w.algorithm i; bytes = (w.hashed ∙ hashed) i }),
  )
    where
      sized :
          (x.expected_u64 ≡ 0) ⊎ (wapp_bin_size r.wapp_bin ≡ x.expected_u64)
          → (x.expected_u64 ≡ 0) ⊎ (length bin ≡ x.expected_u64)
      sized (inl e) = inl e
      sized (inr e) = inr (sym bin_size ∙ e)

  expected-Matches : Expects decode x bin h → Matches decode x r
  expected-Matches (sized, decoded) = record {
    digest = record { algorithm_id = sha256; bytes = h };
    present = subst (λ n. 0 < n) (sym bin_size) (nonempty_length bin full);
    sized = size_of sized;
    decoded = decoded;
    algorithm = refl;
    digest_size = size;
    hashed = sym hashed;
  }
    where
      size_of :
          (x.expected_u64 ≡ 0) ⊎ (length bin ≡ x.expected_u64)
          → (x.expected_u64 ≡ 0) ⊎ (wapp_bin_size r.wapp_bin ≡ x.expected_u64)
      size_of (inl e) = inl e
      size_of (inr e) = inr (bin_size ∙ e)

-- After a payload was stored under a digest, the image check for that digest succeeds exactly if
-- the expected size is 0 or the payload's, and the expected digest is SHA-256 and the payload's.
pub store-condition_callback :
    (c : Csuit) (decode : DecodeDigest) (m : Mallocs) (a : StoreArgs) (x : SuitConditionArgs)
    (ret : SuitCallbackRet) (s : SuitState) (d bin h : Bytes)
    → IsTable s.table
    → a.operation ≡ suit_store
    → a.manifest_digest ≡ some d
    → is_empty d ≡ false
    → a.is_manifest_itself ≡ false
    → a.src_buf ≡ some bin
    → is_empty bin ≡ false
    → ((old : Bytes) → c.generate_sha256 bin old ≡ h)
    → length h ≡ sha256_digest_length
    → (store_callback c m a s).0 ≡ suit_success
    → x.condition ≡ image_match
    → x.manifest_digest ≡ some d
    → ((condition_callback decode x (some ret) (store_callback c m a s).1).0 ≡ suit_success)
      ↔ Expects decode x bin h
unfolding lookup
store-condition_callback c decode m a x ret s d bin h v op ad nonempty payload src full hash size
      won image xd =
    let (ok, tables) = store_won c m a s op won in
    let (r, at, (held, (old, hashed))) =
      store_payload c m a s.table d bin v op ad nonempty payload src full ok in
    let found : find_record_by_digest x.manifest_digest (store_callback c m a s).1.table ≡ some r =
      (λ i. find_record_by_digest (xd i) (tables i)) ∙ at in
    let checks = condition_callback-Matches decode x ret (store_callback c m a s).1 image in
    let hashed' : r.wapp_hash ≡ h = hashed ∙ hash old in
    (
      (λ e.
          let (q, there, w) = checks.0 e in
          let same : q ≡ r = cc (there, found) in
          meets_expected decode x r bin h size full held hashed' (subst (Matches decode x) same w)),
      (λ e. checks.1 (r, found, expected-Matches decode x r bin h size full held hashed' e)),
    )
