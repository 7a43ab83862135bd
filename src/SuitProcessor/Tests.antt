-- ===== src/SuitProcessor/Tests.antt =====
-- Enclave/src/suit_processor_wrapper.cpp: the callbacks at concrete inputs.
use taws.Base.{◌≡◌, ◌≢◌, ◌↔◌, refl, true, false, none, some, [], ◌∷◌, replicate}
use taws.TcManager.{
  Csuit, ManifestRecord, StoreArgs, suit_store, Mallocs, initial_table, store_record, claim_record,
  fill_record, set_ids_from_component_id, find_by_digest, find_index, find_record_by_digest,
}
use taws.TcManager.Invariant.{IsTable}
use taws.TcManager.History.{initial_table-IsTable}
use taws.SuitProcessor.Report.{OneCopy, report_callback-OneCopy}
use taws.SuitProcessor.{
  suit_success, SuitConditionArgs, image_match, SuitCallbackRet, sha256, SuitState, DecodeDigest,
  store_callback, condition_callback, Script, finished, calls_store, calls_condition, calls_report,
  process_envelope, err_fatal, component_unsupported, condition_found,
}
use taws.SuitProcessor.Condition.{Matches, condition_callback-Matches, condition_callback_reason}
use taws.SuitProcessor.Processing.{process_envelope-IsTable}
use taws.SuitProcessor.Image.{Expects, store-condition_callback}

abbrev csuit : Csuit
csuit = record {
  max_name_length = 8;
  decode_component_identifier = λ b. some (b ∷ []);
  component_identifier_to_filename = λ ids n old. (true, b'a' ∷ []);
  generate_sha256 = λ b old. replicate 32 9;
}

abbrev decode : DecodeDigest
decode b = (suit_success, record { algorithm_id = sha256; bytes = replicate 32 9 })

abbrev enough : Mallocs
enough = record { digest_block = true; src_block = true }

abbrev payload : StoreArgs
payload = record {
  operation = suit_store;
  manifest_digest = some (1 ∷ []);
  is_manifest_itself = false;
  manifest_sequence_number = 0;
  dst = some (b'a' ∷ []);
  src_buf = some (7 ∷ 7 ∷ []);
}

abbrev image : SuitConditionArgs
image = record {
  manifest_digest = some (1 ∷ []);
  condition = image_match;
  expected_u64 = 2;
  expected_str = some (5 ∷ []);
}

abbrev untouched : SuitCallbackRet
untouched = record { reason = none; first_key = none; second_key = none }

abbrev idle : SuitState
idle = record { table = initial_table; suit_report = none }

payload_stored : (store_callback csuit enough payload idle).0 ≡ suit_success
unfolding store_callback store_record claim_record fill_record find_by_digest find_index
    set_ids_from_component_id
payload_stored = refl

store-condition_callback_example :
    ((condition_callback decode image
        (some untouched)
        (store_callback csuit enough payload idle).1).0
      ≡ suit_success)
    ↔ Expects decode image (7 ∷ 7 ∷ []) (replicate 32 9)
store-condition_callback_example =
    store-condition_callback csuit decode enough payload image untouched idle (1 ∷ []) (7 ∷ 7 ∷ [])
      (replicate 32 9) initial_table-IsTable refl refl refl refl refl refl (λ old. refl) refl
      payload_stored refl refl

condition_callback-Matches_example :
    ((condition_callback decode image (some untouched) idle).0 ≡ suit_success) ↔ (
      (r : ManifestRecord) × (find_record_by_digest image.manifest_digest idle.table ≡ some r)
      × Matches decode image r)
condition_callback-Matches_example = condition_callback-Matches decode image untouched idle refl

missing_record :
    condition_callback decode image (some untouched) idle
    ≡ (err_fatal, some (record untouched { reason = some component_unsupported }))
unfolding condition_callback condition_found find_record_by_digest find_by_digest find_index
missing_record = refl

condition_callback_reason_example :
    (record untouched { reason = some component_unsupported }).reason ≢ none
condition_callback_reason_example =
    condition_callback_reason decode image untouched
      (record untouched { reason = some component_unsupported }) idle (λ h. cc (h, missing_record))
      (cc missing_record)

-- A payload, its image check and a report.
abbrev script : Script
script = calls_store enough payload λ stored.
    calls_condition image (some untouched)
      λ checked. calls_report true (some (3 ∷ [])) λ reported. finished checked.0

process_envelope-IsTable_example : IsTable (process_envelope csuit decode script idle).1.table
process_envelope-IsTable_example =
    process_envelope-IsTable csuit decode script idle initial_table-IsTable

report_callback-OneCopy_example : OneCopy true (some (2 ∷ [])) idle 0
report_callback-OneCopy_example = report_callback-OneCopy true (some (2 ∷ [])) idle 0 refl
