-- ===== src/Teep/Errors.antt =====
-- Enclave/src/Enclave_process_message.cpp: what `create_error` puts into a message.
use taws.Base.{
  ◌≤◌, ◌≡◌, ◌≢◌, ◌↔◌, refl, Bool, true, false, ◌&&◌, none, some, [], ◌∷◌, leb, ltb, if◌then◌else◌,
  length, Bytes, Buf, arith, ltb, ap, sym, ◌∙◌,
}
use taws.Teep.{
  Libteep, supported_version, supported_cipher_suite, ErrCode, unsupported_msg_version,
  unsupported_cipher_suites, manifest_processing_failed, Error, error_token, error_suit_report,
  error_versions, error_cipher_suites, create_error, non_empty,
}

-- The shape of an error that answers a message with `token`.
pub record Shaped (l : Libteep) (token : Buf) (report : Buf) (e : Error) : Type 0 where
  pub token_echoed :
      (b : Buf)
      → e.token ≡ some b
      → (b ≡ token)
        × ((bytes : Bytes) × (token ≡ some bytes) × (8 ≤ length bytes) × (length bytes ≤ 64))
  pub versions_listed :
      (e.versions ≡ some (supported_version ∷ [])) ↔ (e.err_code ≡ unsupported_msg_version)
  pub suites_listed :
      (e.cipher_suites ≡ some (supported_cipher_suite l ∷ []))
      ↔ (e.err_code ≡ unsupported_cipher_suites)
  pub report_enclosed :
      (b : Bytes)
      → e.suit_report ≡ some b
      → (e.err_code ≡ manifest_processing_failed) × (report ≡ some b) × (b ≢ [])

chosen :
    {A : Type 0} (c : Bool) (x b : A) → (if c then some x else none) ≡ some b → (c ≡ true) × (b ≡ x)
chosen true x b h = (refl, cc h)
chosen false x b h = cc h

echoed :
    (token : Buf) (b : Buf)
    → error_token token ≡ some b
    → (b ≡ token)
      × ((bytes : Bytes) × (token ≡ some bytes) × (8 ≤ length bytes) × (length bytes ≤ 64))
unfolding error_token
echoed none b h = cc h
echoed (some bytes) b h =
    let (fits, same) = chosen (leb 8 (length bytes) && leb (length bytes) 64) (some bytes) b h in
    (same, (bytes, refl, ground (arith, fits), ground (arith, fits)))

versions_iff :
    (code : ErrCode)
    → (error_versions code ≡ some (supported_version ∷ [])) ↔ (code ≡ unsupported_msg_version)
unfolding error_versions
versions_iff ErrCode.permanent_error = (λ h. cc h, λ h. cc h)
versions_iff ErrCode.temporary_error = (λ h. cc h, λ h. cc h)
versions_iff ErrCode.unsupported_msg_version = (λ _. refl, λ _. refl)
versions_iff ErrCode.unsupported_cipher_suites = (λ h. cc h, λ h. cc h)
versions_iff ErrCode.manifest_processing_failed = (λ h. cc h, λ h. cc h)

suites_iff :
    (l : Libteep) (code : ErrCode)
    → (error_cipher_suites l code ≡ some (supported_cipher_suite l ∷ []))
      ↔ (code ≡ unsupported_cipher_suites)
unfolding error_cipher_suites
suites_iff l ErrCode.permanent_error = (λ h. cc h, λ h. cc h)
suites_iff l ErrCode.temporary_error = (λ h. cc h, λ h. cc h)
suites_iff l ErrCode.unsupported_msg_version = (λ h. cc h, λ h. cc h)
suites_iff l ErrCode.unsupported_cipher_suites = (λ _. refl, λ _. refl)
suites_iff l ErrCode.manifest_processing_failed = (λ h. cc h, λ h. cc h)

enclosed : (report : Buf) (b : Bytes) → non_empty report ≡ some b → (report ≡ some b) × (b ≢ [])
enclosed none b h = cc h
enclosed (some bytes) b h =
    let (full, same) = chosen (ltb 0 (length bytes)) bytes b h in
    (
      ap some (sym same),
      λ e. let z : length bytes ≡ 0 = ap length (sym same ∙ e) in ground (arith, full, z),
    )

report_cases :
    (code : ErrCode) (report : Buf) (b : Bytes)
    → error_suit_report code report ≡ some b
    → (code ≡ manifest_processing_failed) × (report ≡ some b) × (b ≢ [])
unfolding error_suit_report
report_cases ErrCode.permanent_error report b h = cc h
report_cases ErrCode.temporary_error report b h = cc h
report_cases ErrCode.unsupported_msg_version report b h = cc h
report_cases ErrCode.unsupported_cipher_suites report b h = cc h
report_cases ErrCode.manifest_processing_failed report b h =
    let (same, full) = enclosed report b h in (refl, same, full)

-- An error repeats the token only if it has 8 to 64 bytes. It lists the supported version exactly
-- for a wrong version and the cipher suite exactly for wrong suites, and it encloses the report,
-- which is not empty, only where a manifest has failed.
pub create_error-Shaped :
    (l : Libteep) (token : Buf) (code : ErrCode) (msg report : Buf)
    → Shaped l token report (create_error l token code msg report)
unfolding create_error
create_error-Shaped l token code msg report = record {
  token_echoed = echoed token;
  versions_listed = versions_iff code;
  suites_listed = suites_iff l code;
  report_enclosed = report_cases code report;
}
