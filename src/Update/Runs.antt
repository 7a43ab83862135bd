-- ===== src/Update/Runs.antt =====
-- Enclave/src/Enclave_process_message.cpp: what `process_update` does to the table and what it
-- answers. A run is a chain of rounds of the loop.
use taws.Base.{
  ℕ, suc, ◌≤◌, ◌≡◌, ◌≢◌, ◌↔◌, ◌⊎◌, inl, inr, refl, sym, ap, ◌∙◌, Bool, true, false, Option, none,
  some, List, [], ◌∷◌, length, arith, Bytes, Buf, subst, Status, success, failure, Bool-cases,
  if◌then◌else◌, not, ◌<◌, ltb, ◌||◌, ◌==◌,
}
use taws.TcManager.{check_and_update_record, Table}
use taws.TcManager.Invariant.{IsTable}
use taws.TcManager.Finalise.{check-IsTable}
use taws.SuitProcessor.{SuitErr, SuitState, process_envelope, get_suit_report}
use taws.SuitProcessor.Processing.{process_envelope-IsTable}
use taws.Teep.{
  Libteep, Update, buf_len, success_message, error_message, Success, ErrCode, permanent_error,
  temporary_error, non_empty, create_error,
}
use taws.Update.Rounds.{Round, manifest-Round, Round-manifest}
use taws.Update.{
  UpdateCalls, ManifestCalls, UpdateStep, goto_error, goes_on, record_updated, envelope_processed,
  process_manifest_bytes, read_envelope, with_processor, process_manifest, next_manifest,
  process_manifests, token_accepted, update_steps, update_answer, process_update,
}

-- The state that a step leaves.
pub after : UpdateStep → SuitState
after (goto_error code report s) = s
after (goes_on s) = s

record Keeps (step : UpdateStep) : Type 0 where
  kept : IsTable (after step).table

record_updated-Keeps :
    (s : SuitState) (r : Table × Status) → IsTable r.0 → Keeps (record_updated s r)
unfolding record_updated after
record_updated-Keeps s (t, success) v = record { kept = v }
record_updated-Keeps s (t, failure) v = record { kept = v }

refuse-Keeps :
    (s : SuitState)
    → IsTable s.table
    → (b : Bool) (code : ErrCode) {y : UpdateStep} → Keeps y
    → Keeps (if b then goto_error code none s else y)
unfolding after
refuse-Keeps s v true code k = record { kept = v }
refuse-Keeps s v false code k = k

module _ (u : UpdateCalls) (s : SuitState) (v : IsTable s.table) where
  here : {code : ErrCode} {report : Buf} → Keeps (goto_error code report s)
  unfolding after
  here = record { kept = v }

  envelope_processed-Keeps :
      (digest : Buf) (r : SuitErr × SuitState)
      → IsTable r.1.table
      → Keeps (envelope_processed u digest r)
  unfolding envelope_processed after
  envelope_processed-Keeps digest (SuitErr.suit_success, s') w =
      record_updated-Keeps s' (check_and_update_record digest s'.table)
        (check-IsTable s'.table digest w)
  envelope_processed-Keeps digest (SuitErr.err_fatal, s') w = record { kept = w }
  envelope_processed-Keeps digest (SuitErr.err_invalid_value, s') w = record { kept = w }
  envelope_processed-Keeps digest (SuitErr.err_condition_mismatch, s') w = record { kept = w }
  envelope_processed-Keeps digest (SuitErr.err_not_implemented, s') w = record { kept = w }
  envelope_processed-Keeps digest (SuitErr.err_no_memory, s') w = record { kept = w }
  envelope_processed-Keeps digest (SuitErr.other_suit_err n, s') w = record { kept = w }

  bytes-Keeps :
      (m : ManifestCalls) (envelope : Bytes) → Keeps (process_manifest_bytes u m envelope s)
  unfolding process_manifest_bytes after
  bytes-Keeps m envelope = refuse-Keeps s v (not (m.add_manifest envelope)) permanent_error (
      envelope_processed-Keeps (m.manifest_digest envelope)
        (process_envelope u.csuit u.decode_digest (m.script envelope) s)
        (process_envelope-IsTable u.csuit u.decode_digest (m.script envelope) s v))

  read_envelope-Keeps :
      (m : ManifestCalls) (manifest : Buf) (capacity : ℕ)
      → Keeps (read_envelope u m manifest capacity s)
  unfolding read_envelope after
  read_envelope-Keeps m none capacity = here
  read_envelope-Keeps m (some envelope) capacity =
      refuse-Keeps s v (length envelope == 0 || ltb capacity (length envelope)) permanent_error
        (bytes-Keeps m envelope)

  with_processor-Keeps :
      (m : ManifestCalls) (manifest : Buf) (capacity : Option ℕ)
      → Keeps (with_processor u m manifest capacity s)
  unfolding with_processor after
  with_processor-Keeps m manifest none = here
  with_processor-Keeps m manifest (some capacity) =
      refuse-Keeps s v (not m.set_recipient_key) temporary_error (
        refuse-Keeps s v (not m.add_recipient_key) temporary_error
          (read_envelope-Keeps m manifest capacity))

  process_manifest-Keeps :
      (m : ManifestCalls) (manifest : Buf) → Keeps (process_manifest u m manifest s)
  unfolding process_manifest after
  process_manifest-Keeps m manifest =
      refuse-Keeps s v (not m.calloc_reporting_engine) temporary_error (
        refuse-Keeps s v (not m.calloc_processor_context) temporary_error (
          refuse-Keeps s v (not m.set_sender_key) temporary_error (
            refuse-Keeps s v (not m.report_init_engine) temporary_error (
              refuse-Keeps s v (not m.report_start_encoding) temporary_error
                (with_processor-Keeps m manifest m.processor_init)))))

next-Keeps :
    (step : UpdateStep) (rest : SuitState → UpdateStep)
    → Keeps step
    → ((s : SuitState) → IsTable s.table → Keeps (rest s))
    → Keeps (next_manifest step rest)
unfolding next_manifest after
next-Keeps (goto_error code report s) rest w keeps = w
next-Keeps (goes_on s) rest w keeps = keeps s w.kept

process_manifests-Keeps :
    (u : UpdateCalls) (i : ℕ) (manifests : List Buf) (s : SuitState)
    → IsTable s.table
    → Keeps (process_manifests u i manifests s)
unfolding process_manifests after
process_manifests-Keeps u i [] s v = record { kept = v }
process_manifests-Keeps u i (manifest ∷ manifests) s v =
    next-Keeps (process_manifest u (u.manifest_calls i) manifest s)
      (process_manifests u (suc i) manifests)
      (process_manifest-Keeps u s v (u.manifest_calls i) manifest)
      (process_manifests-Keeps u (suc i) manifests)

table-update_answer :
    (l : Libteep) (up : Update) (step : UpdateStep) → (update_answer l up step).1 ≡ after step
unfolding update_answer after
table-update_answer l up (goto_error code report s) = refl
table-update_answer l up (goes_on s) = refl

steps-Keeps :
    (l : Libteep) (u : UpdateCalls) (up : Update) (s : SuitState)
    → IsTable s.table
    → Keeps (update_steps l u up s)
unfolding update_steps
steps-Keeps l u up s v = refuse-Keeps s v (not (token_accepted up)) permanent_error (
    refuse-Keeps s v
      (ltb (length up.manifest_list) 1 || ltb l.max_array_length (length up.manifest_list))
      permanent_error (process_manifests-Keeps u 0 up.manifest_list s v))

-- An Update, whatever it holds and however it ends, keeps the table well formed.
pub process_update-IsTable :
    (l : Libteep) (u : UpdateCalls) (up : Update) (s : SuitState)
    → IsTable s.table
    → IsTable (process_update l u up s).1.table
unfolding process_update after
process_update-IsTable l u up s v =
    subst (λ s'. IsTable s'.table) (sym (table-update_answer l up (update_steps l u up s)))
      (steps-Keeps l u up s v).kept

-- The rounds for a list of manifests, in each of which every call succeeds and the record is
-- finalised.
pub data Run (u : UpdateCalls) : ℕ → List Buf → SuitState → SuitState → Type 0 where
  ended : (i : ℕ) (s : SuitState) → Run u i [] s s
  round :
      (i : ℕ) (manifest : Buf) (manifests : List Buf) (s s' s'' : SuitState)
      → Round u (u.manifest_calls i) manifest s s'
      → Run u (suc i) manifests s' s''
      → Run u i (manifest ∷ manifests) s s''

next_goes_on :
    (step : UpdateStep) (rest : SuitState → UpdateStep) (s'' : SuitState)
    → next_manifest step rest ≡ goes_on s''
    → (s' : SuitState) × (step ≡ goes_on s') × (rest s' ≡ goes_on s'')
unfolding next_manifest
next_goes_on (goto_error code report s) rest s'' h = cc h
next_goes_on (goes_on s) rest s'' h = (s, refl, h)

manifests-Run :
    (u : UpdateCalls) (i : ℕ) (manifests : List Buf) (s s'' : SuitState)
    → process_manifests u i manifests s ≡ goes_on s''
    → Run u i manifests s s''
unfolding process_manifests
manifests-Run u i [] s s'' h = subst (Run u i [] s) (cc h) (ended i s)
manifests-Run u i (manifest ∷ manifests) s s'' h =
    let (s', first, rest) =
      next_goes_on (process_manifest u (u.manifest_calls i) manifest s)
        (process_manifests u (suc i) manifests) s'' h in
    round i manifest manifests s s' s'' (manifest-Round u (u.manifest_calls i) s s' manifest first)
      (manifests-Run u (suc i) manifests s' s'' rest)

Run-manifests :
    (u : UpdateCalls) (i : ℕ) (manifests : List Buf) (s s'' : SuitState)
    → Run u i manifests s s''
    → process_manifests u i manifests s ≡ goes_on s''
unfolding process_manifests next_manifest
Run-manifests u i manifests s s'' (ended _ _) = refl
Run-manifests u i manifests s s'' (round _ manifest rest _ s' _ first r) =
    ap (λ step. next_manifest step (process_manifests u (suc i) rest))
      (Round-manifest u (u.manifest_calls i) s s' manifest first)
    ∙ Run-manifests u (suc i) rest s' s'' r

-- What the two checks in front of the loop ask for.
pub record Admitted (l : Libteep) (up : Update) : Type 0 where
  pub contained : up.contains_token ≡ true
  pub long_enough : 8 ≤ buf_len up.token
  pub short_enough : buf_len up.token ≤ 64
  pub listed : 0 < length up.manifest_list
  pub list_fits : length up.manifest_list ≤ l.max_array_length

checks_passed :
    (l : Libteep) (u : UpdateCalls) (up : Update) (s s'' : SuitState)
    → update_steps l u up s ≡ goes_on s''
    → Admitted l up × (process_manifests u 0 up.manifest_list s ≡ goes_on s'')
unfolding update_steps token_accepted
checks_passed l u up s s'' h = (
  record {
    contained = ground arith;
    long_enough = ground arith;
    short_enough = ground arith;
    listed = ground arith;
    list_fits = ground arith;
  },
  ground arith,
)

checks_skipped :
    (l : Libteep) (u : UpdateCalls) (up : Update) (s : SuitState)
    → Admitted l up
    → update_steps l u up s ≡ process_manifests u 0 up.manifest_list s
unfolding update_steps token_accepted
checks_skipped l u up s a =
    let c = a.contained in
    let long = a.long_enough in
    let short = a.short_enough in let listed = a.listed in let fits = a.list_fits in ground arith

abbrev pub report_of : Update → SuitState → Success
report_of up s = record { token = up.token; suit_report = non_empty (get_suit_report s) }

answer_success :
    (l : Libteep) (up : Update) (step : UpdateStep) (m : Success) (s'' : SuitState)
    → update_answer l up step ≡ (success_message m, s'')
    → (step ≡ goes_on s'') × (m ≡ report_of up s'')
unfolding update_answer
answer_success l up (goto_error code report s) m s'' h = absurd (different (ap (λ p. p.0) h))
  where
    different : error_message (create_error l up.token code none report) ≢ success_message m
    different e = cc e
answer_success l up (goes_on s) m s'' h = (cc h, cc h)

-- An Update is answered by a Success exactly if its token and its list pass the checks and, for each
-- of its manifests in order, every call of libcsuit succeeds, the manifest fits its buffer, the
-- envelope is processed without an error, and the record of its digest is then finalised. The Success has the
-- token of the Update and the last report, and the state is the one behind the last manifest.
pub process_update_success :
    (l : Libteep) (u : UpdateCalls) (up : Update) (s s'' : SuitState) (m : Success)
    → (process_update l u up s ≡ (success_message m, s''))
      ↔ (Admitted l up × Run u 0 up.manifest_list s s'' × (m ≡ report_of up s''))
unfolding process_update update_answer
process_update_success l u up s s'' m = (
  λ h.
      let (went, reported) = answer_success l up (update_steps l u up s) m s'' h in
      let (admitted, through) = checks_passed l u up s s'' went in
      (admitted, manifests-Run u 0 up.manifest_list s s'' through, reported),
  λ (admitted, r, reported).
      ap (update_answer l up)
        (checks_skipped l u up s admitted ∙ Run-manifests u 0 up.manifest_list s s'' r)
      ∙ ap (λ m'. (success_message m', s'')) (sym reported),
)

token_admitted :
    (up : Update)
    → token_accepted up ≡ true
    → (up.contains_token ≡ true) × (8 ≤ buf_len up.token) × (buf_len up.token ≤ 64)
unfolding token_accepted
token_admitted up h = (ground arith, ground arith, ground arith)

accepted_or_stopped :
    (l : Libteep) (u : UpdateCalls) (up : Update) (s : SuitState)
    → Admitted l up ⊎ (update_steps l u up s ≡ goto_error permanent_error none s)
unfolding update_steps
accepted_or_stopped l u up s =
    let lacks =
      ltb (length up.manifest_list) 1 || ltb l.max_array_length (length up.manifest_list) in
    elim (Bool-cases (token_accepted up)) [
      | inr bad ↦ inr (rw bad refl)
      | inl good ↦ elim (Bool-cases lacks) [
        | inl bad ↦ inr (rw (good, bad) refl)
        | inr fine ↦
            let (c, long, short) = token_admitted up good in
            inl (record {
              contained = c;
              long_enough = long;
              short_enough = short;
              listed = ground arith;
              list_fits = ground arith;
            })
      ]
    ]

-- An Update that fails a check changes nothing, and its answer is a permanent error.
pub process_update_refused :
    (l : Libteep) (u : UpdateCalls) (up : Update) (s : SuitState)
    → ¬ Admitted l up
    → process_update l u up s
      ≡ (error_message (create_error l up.token permanent_error none none), s)
unfolding process_update update_answer
process_update_refused l u up s refused = elim (accepted_or_stopped l u up s) [
  | inl admitted ↦ absurd (refused admitted)
  | inr e ↦ ap (update_answer l up) e
]
