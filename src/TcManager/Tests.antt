-- ===== src/TcManager/Tests.antt =====
-- Enclave/src/tc_manager.cpp: runs of the table, and its theorems at concrete inputs.
use taws.Base.{
  ℕ, zero, suc, ◌≡◌, ◌≢◌, refl, sym, ◌∙◌, Bool, true, false, none, some, List, [], ◌∷◌, ◌++◌, arith,
  Bytes, bytes_eq, inl, inr, success, failure, length, subst, replicate,
}
use taws.TcManager.{
  Csuit, Table, ManifestRecord, StoreArgs, Mallocs, suit_store, initial_table, zero_record, slot,
  store_record, check_and_update_record, get_tc_list, tc_list_item, claim_record, fill_record,
  set_ids_from_component_id, find_by_digest, find_index, remove_at, remove_all, update_or_discard,
  tc_list_items,
}
use taws.TcManager.Invariant.{IsTable}
use taws.TcManager.Contents.{lookup, Holds, lookup-cases}
use taws.TcManager.Store.{claimed, stored, observed, store_lem}
use taws.TcManager.Finalise.{Checked, check_lem}
use taws.TcManager.Names.{UniqueBut, Unique, Succeeded, no_downgrade, check-Unique}
use taws.TcManager.TcList.{Exported, get_tc_list-Exported, get_tc_list_unfit}
use taws.TcManager.History.{Call, stores, finalises, run, history-IsTable, remove_all_lem}

-- A component identifier is one byte string here, and its filename begins with a slash.
abbrev file_name : List Bytes → Bytes
file_name [] = []
file_name (id ∷ ids) = b'/' ∷ id

abbrev csuit : Csuit
csuit = record {
  max_name_length = 8;
  decode_component_identifier = λ b. some (b ∷ []);
  component_identifier_to_filename = λ ids n old. (true, file_name ids);
  generate_sha256 = λ b old. replicate 32 (length b);
}

abbrev enough : Mallocs
enough = record { digest_block = true; src_block = true }

abbrev args : Bool → ℕ → Bytes → Bytes → StoreArgs
args itself seq digest name = record {
  operation = suit_store;
  manifest_digest = some digest;
  is_manifest_itself = itself;
  manifest_sequence_number = seq;
  dst = some name;
  src_buf = some (1 ∷ 2 ∷ []);
}

-- A manifest, then its payload.
abbrev installs : ℕ → Bytes → Bytes → List Call
installs seq digest name =
    stores csuit enough (some (args true seq digest (b'm' ∷ [])))
    ∷ stores csuit enough (some (args false 0 digest name))
    ∷ []

abbrev app : Bytes
app = b'a' ∷ b'p' ∷ b'p' ∷ []

abbrev old_digest : Bytes
old_digest = 1 ∷ []

abbrev new_digest : Bytes
new_digest = 2 ∷ []

-- Version 3 is final, version 5 is stored but not yet checked.
abbrev pending_calls : List Call
pending_calls =
    installs 3 old_digest app ++ (finalises (some old_digest) ∷ installs 5 new_digest app)

abbrev final_record : ManifestRecord
final_record = record {
  manifest_digest = some old_digest;
  manifest_name = b'm' ∷ [];
  manifest_sequence_number = 3;
  manifest_bin = some (1 ∷ 2 ∷ []);
  wapp_name = app;
  wapp_hash = replicate 32 2;
  wapp_bin = some (1 ∷ 2 ∷ []);
}

abbrev new_record : ManifestRecord
new_record = record final_record { manifest_digest = some new_digest; manifest_sequence_number = 5 }

abbrev pending : Table
pending = record { slots = final_record ∷ new_record ∷ replicate 18 zero_record; len = 2 }

pending_runs : run pending_calls initial_table ≡ pending
unfolding run store_record claim_record fill_record set_ids_from_component_id find_by_digest
    check_and_update_record find_index update_or_discard bytes_eq
pending_runs = refl

history-IsTable_example : IsTable (run pending_calls initial_table)
history-IsTable_example = history-IsTable pending_calls

pending-IsTable : IsTable pending
pending-IsTable = subst IsTable pending_runs (history-IsTable pending_calls)

remove_all_lem_example :
    ((remove_all pending).len ≡ 0) × ((j : ℕ) → slot (remove_all pending) j ≡ zero_record)
remove_all_lem_example = remove_all_lem pending pending-IsTable

old_lookup : lookup old_digest pending ≡ some final_record
unfolding lookup find_by_digest find_index bytes_eq
old_lookup = refl

-- A third digest gets a record of its own, and the others keep theirs.
store_lem_example :
    observed old_digest (store_record csuit enough (some (args true 7 (3 ∷ []) app)) pending)
    ≡ stored csuit enough
        (args true 7 (3 ∷ []) app)
        (3 ∷ [])
        old_digest
        pending
        (claimed enough (3 ∷ []) pending)
store_lem_example =
    store_lem csuit enough (args true 7 (3 ∷ []) app) pending (3 ∷ []) pending-IsTable old_digest
      refl refl refl

check_lem_example :
    Checked new_digest pending
      (lookup new_digest pending)
      (check_and_update_record (some new_digest) pending)
check_lem_example = check_lem pending new_digest pending-IsTable

check_succeeds : (check_and_update_record (some new_digest) pending).1 ≡ success
unfolding check_and_update_record find_by_digest find_index bytes_eq update_or_discard remove_at
check_succeeds = refl

-- Version 5 takes the place of version 3.
check_replaces :
    (check_and_update_record (some new_digest) pending).0
    ≡ record { slots = new_record ∷ replicate 19 zero_record; len = 1 }
unfolding check_and_update_record find_by_digest find_index bytes_eq update_or_discard remove_at
check_replaces = refl

no_downgrade_example : Succeeded (check_and_update_record (some new_digest) pending).0 final_record
no_downgrade_example =
    no_downgrade pending new_digest old_digest final_record pending-IsTable check_succeeds
      old_lookup

-- Whatever is not the new record is the old one.
pending-UniqueBut : UniqueBut new_digest pending
pending-UniqueBut x y o p hx hy x_away y_away nonempty name =
    let hx' = only_old x o hx x_away in let hy' = only_old y p hy y_away in hx' ∙ sym hy'
  where
    old_index : (x : Bytes) (k : ℕ) → Holds x pending k → x ≢ new_digest → x ≡ old_digest
    old_index x zero held away = cc (held.1)
    old_index x (suc zero) held away = absurd (away (cc (held.1)))
    old_index x (suc (suc k)) held away = absurd (omega (arith, held.0))

    only_old :
        (x : Bytes) (o : ManifestRecord)
        → lookup x pending ≡ some o
        → x ≢ new_digest
        → x ≡ old_digest
    only_old x o h away = elim (lookup-cases x pending pending-IsTable) [
      | inl (gone, _) ↦ absurd (cc (h, gone))
      | inr (k, _, held) ↦ old_index x k held away
    ]

check-Unique_example : Unique (check_and_update_record (some new_digest) pending).0
check-Unique_example =
    check-Unique pending new_digest pending-IsTable check_succeeds pending-UniqueBut

export_succeeds : (get_tc_list csuit true true 4 pending).status ≡ success
unfolding get_tc_list tc_list_items tc_list_item
export_succeeds = refl

get_tc_list-Exported_example : Exported csuit 4 pending (get_tc_list csuit true true 4 pending)
get_tc_list-Exported_example = get_tc_list-Exported csuit true true 4 pending export_succeeds

abbrev partial_table : Table
partial_table = record {
  slots = final_record ∷ record new_record { wapp_bin = none } ∷ replicate 18 zero_record;
  len = 2;
}

get_tc_list_unfit_example :
    ((get_tc_list csuit true true 4 partial_table).status ≡ failure)
    × ((get_tc_list csuit true true 4 partial_table).out_count ≡ some 0)
get_tc_list_unfit_example =
    get_tc_list_unfit csuit true 4 partial_table 1 (omega arith)
      (λ fit. let (b, has, _) = fit.app_stored in cc has)
