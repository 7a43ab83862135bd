-- ===== src/Evidence/Binding.antt =====
-- Enclave/src/Enclave_generate_evidence.cpp: what DCAP evidence is bound to.
use taws.Base.{
  ℕ, suc, ◌≡◌, ◌≤◌, ◌<◌, ◌^◌, refl, subst, ◌∙◌, ap, sym, Bool, true, false, not, ◌||◌, Option, none,
  some, [], ◌∷◌, ◌++◌, length, drop, take, take_all, append_assoc, replicate, u32, arith, ◌==◌, ltb,
  Bytes, Result, ok, err, >>=-eq-ok, guard-eq-ok, ok_or-eq-ok, if◌then◌else◌,
}
use taws.Cbor.{array, item, bytes, end_of_array, calls}
use taws.Teep.{QueryRequest, invalid_value, no_memory, unexpected_error}
use taws.Evidence.{
  SgxStatus, sgx_success, error_unexpected, error_invalid_parameter, other_error, is_success,
  Sha384, TeepKey, EvidenceCalls, x_coordinate, y_coordinate, is_uncompressed_p256_public_key,
  get_query_challenge, arguments_valid,
}
use taws.Evidence.Dcap.{
  host_result, ocall_get_qe_target_info, ocall_get_quote_size, ocall_get_quote, bridged,
  create_raw_dcap_report_data, next_call, sha384_update, sha384_get_hash, challenge_update,
  report_data_of, hash_state, create_dcap_report_data, reported, create_evidence_dcap,
  envelope_calls, create_evidence_dcap_envelope,
}
use taws.Evidence.Claims.{Asks, read-Asks, UncompressedKey, valid-UncompressedKey, and_true}

module _ (e : EvidenceCalls) (req : QueryRequest) (key : Option TeepKey) where
  -- The raw report data are the coordinates and the challenge.
  raw_eq :
      {raw : Bytes}
      → create_raw_dcap_report_data e req key ≡ ok raw
      → (challenge : Bytes) × (get_query_challenge req.challenge ≡ ok challenge)
        × (x_coordinate key ++ (y_coordinate key ++ challenge) ≡ raw)
  unfolding create_raw_dcap_report_data
  raw_eq h =
      let (_, go) = guard-eq-ok (is_uncompressed_p256_public_key e key) invalid_value _ h in
      let (challenge, read, put) = >>=-eq-ok (get_query_challenge req.challenge) _ go in
      let (_, made) = guard-eq-ok e.malloc_raw_report_data no_memory _ put in
      (challenge, read, cc made)

-- A call on the hash went well: so did the ones before it.
call_done :
    (r : SgxStatus) (hashed : Bytes) (state : SgxStatus × Bytes)
    → is_success (next_call r hashed state).0 ≡ true
    → (is_success state.0 ≡ true) × ((next_call r hashed state).1 ≡ hashed)
call_done r hashed (sgx_success, h) good = (refl, refl)
call_done r hashed (error_unexpected, h) good = cc good
call_done r hashed (error_invalid_parameter, h) good = cc good
call_done r hashed (other_error n, h) good = cc good

append_nil : (xs : Bytes) → xs ++ [] ≡ xs
append_nil [] = refl
append_nil (x ∷ xs) = ap (◌∷◌ x) (append_nil xs)

-- A challenge below 2^32 bytes is put in whole.
challenge_put :
    (sha : Sha384) (challenge : Bytes) (state : SgxStatus × Bytes)
    → length challenge < 2 ^ 32
    → is_success (challenge_update sha challenge state).0 ≡ true
    → (is_success state.0 ≡ true)
      × ((challenge_update sha challenge state).1 ≡ state.1 ++ challenge)
unfolding challenge_update sha384_update
challenge_put sha [] state small h = (h, sym (append_nil state.1))
challenge_put sha (b ∷ bs) state small h =
    let fits : length (b ∷ bs) ≤ u32 (length (b ∷ bs)) = omega arith in
    let whole = take_all (u32 (length (b ∷ bs))) (b ∷ bs) fits in
    let cut = take (u32 (length (b ∷ bs))) (b ∷ bs) in
    let taken : challenge_update sha (b ∷ bs) state ≡ sha384_update sha 2 cut state =
      ap (λ t. if t then sha384_update sha 2 cut state else state) (positive (length bs)) in
    let (good, put) =
      call_done (sha.update 2) (state.1 ++ cut) state
        (ap (λ (r : SgxStatus × Bytes). is_success r.0) (sym taken) ∙ h) in
    (good, ap (λ (r : SgxStatus × Bytes). r.1) taken ∙ put ∙ ap (λ d. state.1 ++ d) whole)
  where
    positive : (n : ℕ) → ltb 0 (suc n) ≡ true
    positive n = ground arith

hash_eq :
    (e : EvidenceCalls) (key : Option TeepKey) (challenge : Bytes)
    → length challenge < 2 ^ 32
    → is_success (hash_state e key challenge).0 ≡ true
    → (hash_state e key challenge).1 ≡ x_coordinate key ++ (y_coordinate key ++ challenge)
unfolding hash_state sha384_update
hash_eq e key challenge small h =
    let first = sha384_update e.sha384 0 (x_coordinate key) (sgx_success, []) in
    let second = sha384_update e.sha384 1 (y_coordinate key) first in
    let (good2, put3) = challenge_put e.sha384 challenge second small h in
    let (good1, put2) = call_done (e.sha384.update 1) (first.1 ++ y_coordinate key) first good2 in
    let (_, put1) = call_done (e.sha384.update 0) (x_coordinate key) (sgx_success, []) good1 in
    put3
    ∙ ap (λ d. d ++ challenge) (put2 ∙ ap (λ d. d ++ y_coordinate key) put1)
    ∙ append_assoc (x_coordinate key) (y_coordinate key) challenge

report_data_got :
    (close_ret : SgxStatus) (state : SgxStatus × Bytes) {report_data : Bytes}
    → report_data_of close_ret state ≡ ok report_data
    → (is_success state.0 ≡ true) × (state.1 ++ replicate 16 0 ≡ report_data)
unfolding report_data_of
report_data_got close_ret (status, digest) h =
    let (good, closed) = guard-eq-ok (is_success status) unexpected_error _ h in
    let (_, made) = guard-eq-ok (is_success close_ret) unexpected_error _ closed in (good, cc made)

bridged_ok {ℓ} :
    {A : Type ℓ} (status : SgxStatus) (r : Result SgxStatus A) {a : A}
    → bridged status r ≡ ok a
    → r ≡ ok a
bridged_ok status (ok a) h =
    let (_, same) = guard-eq-ok (is_success status) unexpected_error (ok a) h in cc same
bridged_ok status (err s) h = cc h

host_ok {ℓ} : {A : Type ℓ} (o : Option A) {a : A} → host_result o ≡ ok a → o ≡ some a
host_ok none h = cc h
host_ok (some a) h = cc h

-- The report data of a quote: the digest of the key's coordinates and the challenge, and zeros.
pub report_data_for : EvidenceCalls → Bytes → Bytes
report_data_for e raw = e.sha384.digest raw ++ replicate 16 0

module _ (e : EvidenceCalls) (req : QueryRequest) (key : Option TeepKey) where
  report_data_eq :
      (challenge : Bytes) {report_data : Bytes}
      → get_query_challenge req.challenge ≡ ok challenge
      → length challenge < 2 ^ 32
      → create_dcap_report_data e req key ≡ ok report_data
      → report_data ≡ report_data_for e (x_coordinate key ++ (y_coordinate key ++ challenge))
  unfolding create_dcap_report_data report_data_for sha384_get_hash
  report_data_eq challenge read small h =
      let (_, go) = guard-eq-ok (is_uncompressed_p256_public_key e key) invalid_value _ h in
      let (challenge', read', put) = >>=-eq-ok (get_query_challenge req.challenge) _ go in
      let same : challenge' ≡ challenge = cc (read, read') in
      let (_, began) = guard-eq-ok (is_success e.sha384.init) unexpected_error _ put in
      let state = hash_state e key challenge' in
      let (got, made) = report_data_got e.sha384.close _ began in
      let (good, digest) = call_done e.sha384.get_hash (e.sha384.digest state.1) state got in
      let put_in =
        hash_eq e key challenge' (subst (λ c. length c < 2 ^ 32) (sym same) small) good in
      sym made
      ∙ ap (λ d. d ++ replicate 16 0)
          (digest
            ∙ ap e.sha384.digest
                (put_in ∙ ap (λ c. x_coordinate key ++ (y_coordinate key ++ c)) same))

-- A quote over the digest of `raw`.
pub record Quoted (e : EvidenceCalls) (capacity : ℕ) (raw quote : Bytes) : Type 0 where
  pub target_info : Bytes
  pub report : Bytes
  pub size : ℕ
  pub target : e.quoting.qe_get_target_info ≡ some target_info
  pub reported_on : (e.create_report target_info (report_data_for e raw)).1 ≡ report
  pub quoted : e.quoting.qe_get_quote report size ≡ some quote
  pub fits : (0 < size) × (size ≤ capacity)

-- What a result of DCAP evidence shows: the item is an array of a quote, and of the data that the
-- quote speaks of, which are the public key behind its first byte and the challenge.
pub record Bound (e : EvidenceCalls) (req : QueryRequest) (capacity : ℕ) (key : Option TeepKey)
    (eat : Bytes) : Type 0 where
  pub confirmed : UncompressedKey key
  pub challenge : Bytes
  pub quote : Bytes
  pub asked : Asks req.challenge challenge
  pub about : Quoted e capacity (drop 1 confirmed.public_key ++ challenge) quote
  pub encoded :
      e.qcbor.finish capacity (
        calls (
          array (
            item
              (bytes quote)
              (item (bytes (drop 1 confirmed.public_key ++ challenge)) end_of_array))))
      ≡ some eat

size_fits :
    (size capacity : ℕ)
    → not ((size == 0) || ltb capacity size) ≡ true
    → (0 < size) × (size ≤ capacity)
size_fits size capacity h = (ground arith, ground arith)

module _ (e : EvidenceCalls) (req : QueryRequest) (capacity : ℕ) (key : Option TeepKey) where
  reported_ok : (r : SgxStatus × Bytes) {report : Bytes} → reported r ≡ ok report → r.1 ≡ report
  unfolding reported
  reported_ok (status, made) h =
      let (_, same) = guard-eq-ok (is_success status) unexpected_error _ h in cc same

  quote_got :
      (report : Bytes) (size : ℕ) {quote : Bytes}
      → ocall_get_quote e.quoting (some report) false size ≡ ok quote
      → 0 < size
      → e.quoting.qe_get_quote report size ≡ some quote
  unfolding ocall_get_quote
  quote_got report size h positive = host_ok _ (ap asked (sym nonzero) ∙ h)
    where
      nonzero : (size == 0) ≡ false
      nonzero = ground arith

      asked : Bool → Result SgxStatus Bytes
      asked b =
          if b
          then err error_invalid_parameter
          else host_result (e.quoting.qe_get_quote report size)

  dcap-Quoted :
      (challenge : Bytes) {quote : Bytes}
      → get_query_challenge req.challenge ≡ ok challenge
      → length challenge < 2 ^ 32
      → create_evidence_dcap e req (some capacity) key ≡ ok quote
      → Quoted e capacity (x_coordinate key ++ (y_coordinate key ++ challenge)) quote
  unfolding create_evidence_dcap ocall_get_qe_target_info ocall_get_quote_size
  dcap-Quoted challenge read small h =
      let (_, h0) = guard-eq-ok (arguments_valid e key (some capacity)) invalid_value _ h in
      let (_, _, h1) = >>=-eq-ok (get_query_challenge req.challenge) _ h0 in
      let (target_info, target, h2) = >>=-eq-ok (bridged (e.bridge 0) _) _ h1 in
      let (report_data, data_made, h3) = >>=-eq-ok (create_dcap_report_data e req key) _ h2 in
      let (report, made, h4) = >>=-eq-ok (reported _) _ h3 in
      let (size, _, h5) = >>=-eq-ok (bridged (e.bridge 1) _) _ h4 in
      let (sized, h6) = guard-eq-ok (not ((size == 0) || ltb capacity size)) no_memory _ h5 in
      let fits = size_fits size capacity sized in
      record {
        target_info = target_info;
        report = report;
        size = size;
        target = host_ok _ (bridged_ok (e.bridge 0) _ target);
        reported_on =
            ap (λ d. (e.create_report target_info d).1)
              (sym (report_data_eq e req key challenge read small data_made))
            ∙ reported_ok _ made;
        quoted = quote_got report size (bridged_ok (e.bridge 2) _ h6) fits.0;
        fits = fits;
      }

  pub envelope-Bound :
      {eat : Bytes}
      → e.public_key_length ≡ 65
      → ((challenge : Bytes)
          → get_query_challenge req.challenge ≡ ok challenge
          → length challenge < 2 ^ 32)
      → create_evidence_dcap_envelope e req (some capacity) key ≡ ok eat
      → Bound e req capacity key eat
  unfolding create_evidence_dcap_envelope calls
  envelope-Bound l small h =
      let (valid, h0) = guard-eq-ok (arguments_valid e key (some capacity)) invalid_value _ h in
      let (_, h1) = guard-eq-ok e.malloc_quote no_memory _ h0 in
      let (quote, quoted, h2) = >>=-eq-ok (create_evidence_dcap e req (some capacity) key) _ h1 in
      let (raw, raw_made, h3) = >>=-eq-ok (create_raw_dcap_report_data e req key) _ h2 in
      let (challenge, read, same) = raw_eq e req key raw_made in
      let confirmed =
        valid-UncompressedKey e key l
          (and_true (is_uncompressed_p256_public_key e key) _ valid).0 in
      let whole : x_coordinate key ++ (y_coordinate key ++ challenge)
          ≡ drop 1 confirmed.public_key ++ challenge =
        sym (append_assoc (x_coordinate key) (y_coordinate key) challenge)
        ∙ ap (λ d. d ++ challenge) confirmed.coordinates in
      record {
        confirmed = confirmed;
        challenge = challenge;
        quote = quote;
        asked = read-Asks req.challenge challenge read;
        about =
            subst (λ d. Quoted e capacity d quote) whole
              (dcap-Quoted challenge read (small challenge read) quoted);
        encoded =
            ap (λ d. e.qcbor.finish capacity (envelope_calls quote d)) (sym whole ∙ same)
            ∙ ok_or-eq-ok _ unexpected_error h3;
      }
