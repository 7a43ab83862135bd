-- ===== src/SuitProcessor/Condition.antt =====
-- Enclave/src/suit_processor_wrapper.cpp: `__wrap_suit_condition_callback`.
use taws.Base.{
  ◌<◌, ◌≡◌, ◌≢◌, ◌⊎◌, ◌↔◌, refl, sym, ap, ◌∙◌, inl, inr, Option, none, some, arith, length,
  bytes_eq_iff, subst, Option-cases,
}
use taws.TcManager.{ManifestRecord, find_record_by_digest, sha256_digest_length}
use taws.SuitProcessor.{
  SuitErr, suit_success, SuitConditionArgs, SuitCondition, image_match, other_condition,
  SuitCallbackRet, SuitDigest, sha256, DecodeDigest, SuitState, wapp_bin_size, match_digest,
  match_image, check_condition, condition_found, condition_callback,
}

-- What an image match asks of a record.
pub record Matches (decode : DecodeDigest) (a : SuitConditionArgs) (r : ManifestRecord)
    : Type 0 where
  pub digest : SuitDigest
  pub present : 0 < wapp_bin_size r.wapp_bin
  pub sized : (a.expected_u64 ≡ 0) ⊎ (wapp_bin_size r.wapp_bin ≡ a.expected_u64)
  pub decoded : decode a.expected_str ≡ (suit_success, digest)
  pub algorithm : digest.algorithm_id ≡ sha256
  pub digest_size : length digest.bytes ≡ sha256_digest_length
  pub hashed : digest.bytes ≡ r.wapp_hash

digest_matched :
    (r : ManifestRecord) (p : SuitErr × SuitDigest) (ret : SuitCallbackRet)
    → (match_digest r p ret).0 ≡ suit_success
    → (p.0 ≡ suit_success)
      × (p.1.algorithm_id ≡ sha256)
      × (length p.1.bytes ≡ sha256_digest_length)
      × (p.1.bytes ≡ r.wapp_hash)
unfolding match_digest
digest_matched r (suit_success, d) ret h = ground (arith, bytes_eq_iff d.bytes r.wapp_hash)
digest_matched r (e, d) ret h = cc

image_tests :
    (decode : DecodeDigest) (a : SuitConditionArgs) (r : ManifestRecord) (ret : SuitCallbackRet)
    → (match_image decode a r ret).0 ≡ suit_success
    → (0 < wapp_bin_size r.wapp_bin)
      × ((a.expected_u64 ≡ 0) ⊎ (wapp_bin_size r.wapp_bin ≡ a.expected_u64))
      × ((match_digest r (decode a.expected_str) ret).0 ≡ suit_success)
unfolding match_image
image_tests decode a r ret h = ground arith

match_image-Matches :
    (decode : DecodeDigest) (a : SuitConditionArgs) (r : ManifestRecord) (ret : SuitCallbackRet)
    → (match_image decode a r ret).0 ≡ suit_success
    → Matches decode a r
match_image-Matches decode a r ret h =
    let (present, sized, last) = image_tests decode a r ret h in
    let (accepted, algorithm, size, hashed) = digest_matched r (decode a.expected_str) ret last in
    record {
      digest = (decode a.expected_str).1;
      present = present;
      sized = sized;
      decoded = ap (λ e. (e, (decode a.expected_str).1)) accepted;
      algorithm = algorithm;
      digest_size = size;
      hashed = hashed;
    }

digest_accepted :
    (r : ManifestRecord) (d : SuitDigest) (ret : SuitCallbackRet)
    → d.algorithm_id ≡ sha256
    → length d.bytes ≡ sha256_digest_length
    → d.bytes ≡ r.wapp_hash
    → (match_digest r (suit_success, d) ret).0 ≡ suit_success
unfolding match_digest
digest_accepted r d ret algorithm size hashed = ground (arith, bytes_eq_iff d.bytes r.wapp_hash)

image_accepted :
    (decode : DecodeDigest) (a : SuitConditionArgs) (r : ManifestRecord) (ret : SuitCallbackRet)
    → Matches decode a r
    → (match_image decode a r ret).0 ≡ suit_success
unfolding match_image
image_accepted decode a r ret w =
    ground (arith, digest_accepted r w.digest ret w.algorithm w.digest_size w.hashed, w.decoded)

-- For the condition image match, and a callback that is given a place for its reason: it succeeds
-- exactly if a record of the digest is there and the image in it is as expected.
pub condition_callback-Matches :
    (decode : DecodeDigest) (a : SuitConditionArgs) (ret : SuitCallbackRet) (s : SuitState)
    → a.condition ≡ image_match
    → ((condition_callback decode a (some ret) s).0 ≡ suit_success) ↔ (
        (r : ManifestRecord) × (find_record_by_digest a.manifest_digest s.table ≡ some r)
        × Matches decode a r)
unfolding condition_callback condition_found check_condition
condition_callback-Matches decode a ret s image = (to, from)
  where
    at :
        {o : Option ManifestRecord}
        → find_record_by_digest a.manifest_digest s.table ≡ o
        → (condition_callback decode a (some ret) s).0 ≡ (condition_found decode a ret o).0
    at e = ap (λ o. (condition_found decode a ret o).0) e

    check :
        (r : ManifestRecord)
        → (condition_found decode a ret (some r)).0 ≡ (match_image decode a r ret).0
    check r = ap (λ c. (check_condition decode a r ret c).0) image

    to :
        (condition_callback decode a (some ret) s).0 ≡ suit_success
        → (r : ManifestRecord) × (find_record_by_digest a.manifest_digest s.table ≡ some r)
          × Matches decode a r
    to h = elim (Option-cases (find_record_by_digest a.manifest_digest s.table)) [
      | inl e ↦ absurd (cc (at e, h))
      | inr (r, e) ↦ (r, e, match_image-Matches decode a r ret (sym (at e ∙ check r) ∙ h))
    ]

    from :
        (r : ManifestRecord) × (find_record_by_digest a.manifest_digest s.table ≡ some r)
          × Matches decode a r
        → (condition_callback decode a (some ret) s).0 ≡ suit_success
    from (r, e, w) = at e ∙ check r ∙ image_accepted decode a r ret w

digest_reason :
    (r : ManifestRecord) (p : SuitErr × SuitDigest) (ret : SuitCallbackRet)
    → (match_digest r p ret).0 ≢ suit_success
    → (match_digest r p ret).1.reason ≢ none
unfolding match_digest
digest_reason r (suit_success, d) ret h = ground arith
digest_reason r (e, d) ret h = λ absent. cc absent

image_reason :
    (decode : DecodeDigest) (a : SuitConditionArgs) (r : ManifestRecord) (ret : SuitCallbackRet)
    → (match_image decode a r ret).0 ≢ suit_success
    → (match_image decode a r ret).1.reason ≢ none
unfolding match_image
image_reason decode a r ret h = ground (arith, digest_reason r (decode a.expected_str) ret)

found_reason :
    (decode : DecodeDigest) (a : SuitConditionArgs) (ret : SuitCallbackRet)
    (o : Option ManifestRecord)
    → (condition_found decode a ret o).0 ≢ suit_success
    → (condition_found decode a ret o).1.reason ≢ none
unfolding condition_found check_condition
found_reason decode a ret none h = λ absent. cc absent
found_reason decode a ret (some r) h = by_condition a.condition h
  where
    by_condition :
        (c : SuitCondition)
        → (check_condition decode a r ret c).0 ≢ suit_success
        → (check_condition decode a r ret c).1.reason ≢ none
    by_condition image_match h = image_reason decode a r ret h
    by_condition other_condition h = absurd (h refl)

-- A check that fails says why.
pub condition_callback_reason :
    (decode : DecodeDigest) (a : SuitConditionArgs) (ret ret' : SuitCallbackRet) (s : SuitState)
    → (condition_callback decode a (some ret) s).0 ≢ suit_success
    → (condition_callback decode a (some ret) s).1 ≡ some ret'
    → ret'.reason ≢ none
unfolding condition_callback
condition_callback_reason decode a ret ret' s h e =
    let found = find_record_by_digest a.manifest_digest s.table in
    let same : (condition_found decode a ret found).1 ≡ ret' = cc e in
    subst (λ (q : SuitCallbackRet). q.reason ≢ none) same (found_reason decode a ret found h)
