-- ===== src/Update/Rounds.antt =====
-- Enclave/src/Enclave_process_message.cpp: a round of the loop over the manifests that goes on, by
-- what the calls in it answer.
use taws.Base.{
  ℕ, ◌≤◌, ◌<◌, ◌≡◌, refl, sym, ap, ◌∙◌, Bool, true, false, not, ◌||◌, Option, none, some, length,
  ltb, ◌==◌, if◌then◌else◌, arith, Bytes, Buf, Status, success, failure,
}
use taws.TcManager.{check_and_update_record, Table}
use taws.SuitProcessor.{SuitErr, suit_success, SuitState, process_envelope}
use taws.Teep.{ErrCode, permanent_error, temporary_error}
use taws.Update.{
  UpdateCalls, ManifestCalls, UpdateStep, goto_error, goes_on, record_updated, envelope_processed,
  process_manifest_bytes, read_envelope, with_processor, process_manifest,
}

-- The envelope is processed by libcsuit without an error, and then the record of its digest is
-- finalised: both succeed.
pub record Finalises (u : UpdateCalls) (m : ManifestCalls) (envelope : Bytes) (s s' : SuitState)
    : Type 0 where
  pub processed : SuitState
  pub table : Table
  pub accepted : m.add_manifest envelope ≡ true
  pub processes :
      process_envelope u.csuit u.decode_digest (m.script envelope) s ≡ (suit_success, processed)
  pub finalises :
      check_and_update_record (m.manifest_digest envelope) processed.table ≡ (table, success)
  pub behind : s' ≡ record processed { table = table }

-- Each call in front succeeds, and the manifest fits the buffer of the processor.
pub record Round (u : UpdateCalls) (m : ManifestCalls) (manifest : Buf) (s s' : SuitState)
    : Type 0 where
  pub engine : m.calloc_reporting_engine ≡ true
  pub context : m.calloc_processor_context ≡ true
  pub sender_key : m.set_sender_key ≡ true
  pub reporting : m.report_init_engine ≡ true
  pub encoding : m.report_start_encoding ≡ true
  pub capacity : ℕ
  pub processor : m.processor_init ≡ some capacity
  pub recipient_key : m.set_recipient_key ≡ true
  pub recipient_added : m.add_recipient_key ≡ true
  pub envelope : Bytes
  pub given : manifest ≡ some envelope
  pub filled : 0 < length envelope
  pub fits : length envelope ≤ capacity
  pub finalised : Finalises u m envelope s s'

unstopped :
    (b : Bool) (code : ErrCode) (s : SuitState) (y : UpdateStep) {s' : SuitState}
    → (if not b then goto_error code none s else y) ≡ goes_on s'
    → (b ≡ true) × (y ≡ goes_on s')
unstopped true code s y h = (refl, h)
unstopped false code s y h = cc h

passed :
    (b : Bool) (code : ErrCode) (s : SuitState) (y : UpdateStep)
    → b ≡ true
    → (if not b then goto_error code none s else y) ≡ y
passed b code s y h = ap (λ z. if not z then goto_error code none s else y) h

unrefused :
    (b : Bool) (s : SuitState) (y : UpdateStep) {s' : SuitState}
    → (if b then goto_error permanent_error none s else y) ≡ goes_on s'
    → (b ≡ false) × (y ≡ goes_on s')
unrefused true s y h = cc h
unrefused false s y h = (refl, h)

updated_record :
    (s1 s' : SuitState) (r : Table × Status)
    → record_updated s1 r ≡ goes_on s'
    → (t : Table) × (r ≡ (t, success)) × (s' ≡ record s1 { table = t })
unfolding record_updated
updated_record s1 s' (t, success) h = (t, refl, cc h)
updated_record s1 s' (t, failure) h = cc h

processed_well :
    (u : UpdateCalls) (digest : Buf) (r : SuitErr × SuitState) (s' : SuitState)
    → envelope_processed u digest r ≡ goes_on s'
    → (s1 : SuitState) × (t : Table) × (r ≡ (suit_success, s1))
      × (check_and_update_record digest s1.table ≡ (t, success))
      × (s' ≡ record s1 { table = t })
unfolding envelope_processed
processed_well u digest (SuitErr.suit_success, s1) s' h =
    let (t, e, same) = updated_record s1 s' (check_and_update_record digest s1.table) h in
    (s1, t, refl, e, same)
processed_well u digest (SuitErr.err_fatal, s1) s' h = cc h
processed_well u digest (SuitErr.err_invalid_value, s1) s' h = cc h
processed_well u digest (SuitErr.err_condition_mismatch, s1) s' h = cc h
processed_well u digest (SuitErr.err_not_implemented, s1) s' h = cc h
processed_well u digest (SuitErr.err_no_memory, s1) s' h = cc h
processed_well u digest (SuitErr.other_suit_err n, s1) s' h = cc h

module _ (u : UpdateCalls) (m : ManifestCalls) (s s' : SuitState) where
  bytes-Finalises :
      (envelope : Bytes)
      → process_manifest_bytes u m envelope s ≡ goes_on s'
      → Finalises u m envelope s s'
  unfolding process_manifest_bytes
  bytes-Finalises envelope h =
      let (added, h1) = unstopped (m.add_manifest envelope) permanent_error s _ h in
      let (s1, t, processes, finalises, same) =
        processed_well u (m.manifest_digest envelope) _ s' h1 in
      record {
        processed = s1;
        table = t;
        accepted = added;
        processes = processes;
        finalises = finalises;
        behind = same;
      }

  Finalises-bytes :
      (envelope : Bytes)
      → Finalises u m envelope s s'
      → process_manifest_bytes u m envelope s ≡ goes_on s'
  unfolding process_manifest_bytes envelope_processed record_updated
  Finalises-bytes envelope f =
      passed (m.add_manifest envelope) permanent_error s _ f.accepted
      ∙ ap (envelope_processed u (m.manifest_digest envelope)) f.processes
      ∙ ap (record_updated f.processed) f.finalises
      ∙ ap goes_on (sym f.behind)

  read-Finalises :
      (manifest : Buf) (capacity : ℕ)
      → read_envelope u m manifest capacity s ≡ goes_on s'
      → (envelope : Bytes) × (manifest ≡ some envelope)
        × (0 < length envelope)
        × (length envelope ≤ capacity)
        × Finalises u m envelope s s'
  unfolding read_envelope
  read-Finalises none capacity h = cc h
  read-Finalises (some envelope) capacity h =
      let (ok_size, h1) =
        unrefused (length envelope == 0 || ltb capacity (length envelope)) s _ h in
      (
        envelope,
        refl,
        ground (arith, ok_size),
        ground (arith, ok_size),
        bytes-Finalises envelope h1,
      )

  Finalises-read :
      (envelope : Bytes) (capacity : ℕ)
      → 0 < length envelope
      → length envelope ≤ capacity
      → Finalises u m envelope s s'
      → read_envelope u m (some envelope) capacity s ≡ goes_on s'
  unfolding read_envelope
  Finalises-read envelope capacity pos fits f =
      let sized : (length envelope == 0 || ltb capacity (length envelope)) ≡ false = ground arith in
      ap
        (λ b.
          if b then goto_error permanent_error none s else process_manifest_bytes u m envelope s)
        sized
      ∙ Finalises-bytes envelope f

  with_init :
      (manifest : Buf) (o : Option ℕ)
      → with_processor u m manifest o s ≡ goes_on s'
      → (capacity : ℕ) × (o ≡ some capacity)
        × (m.set_recipient_key ≡ true)
        × (m.add_recipient_key ≡ true)
        × (read_envelope u m manifest capacity s ≡ goes_on s')
  unfolding with_processor
  with_init manifest none h = cc h
  with_init manifest (some capacity) h =
      let (set, h1) = unstopped m.set_recipient_key temporary_error s _ h in
      let (added, h2) = unstopped m.add_recipient_key temporary_error s _ h1 in
      (capacity, refl, set, added, h2)

  pub manifest-Round :
      (manifest : Buf) → process_manifest u m manifest s ≡ goes_on s' → Round u m manifest s s'
  unfolding process_manifest
  manifest-Round manifest h =
      let (engine, h1) = unstopped m.calloc_reporting_engine temporary_error s _ h in
      let (context, h2) = unstopped m.calloc_processor_context temporary_error s _ h1 in
      let (sender, h3) = unstopped m.set_sender_key temporary_error s _ h2 in
      let (reporting, h4) = unstopped m.report_init_engine temporary_error s _ h3 in
      let (encoding, h5) = unstopped m.report_start_encoding temporary_error s _ h4 in
      let (capacity, made, set, added, h6) = with_init manifest m.processor_init h5 in
      let (envelope, given, filled, fits, f) = read-Finalises manifest capacity h6 in
      record {
        engine = engine;
        context = context;
        sender_key = sender;
        reporting = reporting;
        encoding = encoding;
        capacity = capacity;
        processor = made;
        recipient_key = set;
        recipient_added = added;
        envelope = envelope;
        given = given;
        filled = filled;
        fits = fits;
        finalised = f;
      }

  pub Round-manifest :
      (manifest : Buf) → Round u m manifest s s' → process_manifest u m manifest s ≡ goes_on s'
  unfolding process_manifest with_processor
  Round-manifest manifest r =
      passed m.calloc_reporting_engine temporary_error s _ r.engine
      ∙ passed m.calloc_processor_context temporary_error s _ r.context
      ∙ passed m.set_sender_key temporary_error s _ r.sender_key
      ∙ passed m.report_init_engine temporary_error s _ r.reporting
      ∙ passed m.report_start_encoding temporary_error s _ r.encoding
      ∙ ap (λ o. with_processor u m manifest o s) r.processor
      ∙ passed m.set_recipient_key temporary_error s _ r.recipient_key
      ∙ passed m.add_recipient_key temporary_error s _ r.recipient_added
      ∙ ap (λ b. read_envelope u m b r.capacity s) r.given
      ∙ Finalises-read r.envelope r.capacity r.filled r.fits r.finalised
