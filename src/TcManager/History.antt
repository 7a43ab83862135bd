-- ===== src/TcManager/History.antt =====
-- Enclave/src/tc_manager.cpp: every sequence of calls, from the empty table on.
use taws.Base.{
  ℕ, zero, suc, ◌≤◌, ◌≡◌, arith, Buf, Option, List, [], ◌∷◌, get_or-replicate, length-replicate,
  ltb, Bool-cases, inl, inr,
}
use taws.TcManager.{
  Csuit, Mallocs, StoreArgs, Table, zero_record, slot, record_max_count, initial_table, remove_at,
  remove_times, remove_all, store_record, check_and_update_record,
}
use taws.TcManager.Removal.{len-remove_at}
use taws.TcManager.Invariant.{IsTable, remove_at-IsTable}
use taws.TcManager.Store.{store-IsTable}
use taws.TcManager.Finalise.{check-IsTable}

pub initial_table-IsTable : IsTable initial_table
initial_table-IsTable = record {
  full_size = length-replicate record_max_count zero_record;
  in_bounds = omega arith;
  cleared = λ j past. get_or-replicate record_max_count j zero_record;
  keyed = λ j lt. absurd (omega arith);
  distinct = λ i j li lj e. absurd (omega arith);
}

remove_times-IsTable : (n : ℕ) (t : Table) → IsTable t → IsTable (remove_times n t)
unfolding remove_times
remove_times-IsTable zero t v = v
remove_times-IsTable (suc n) t v = elim (Bool-cases (ltb 0 t.len)) [
  | inl more ↦
      rw more (remove_times-IsTable n (remove_at 0 t) (remove_at-IsTable 0 t v (ground arith)))
  | inr done ↦ rw done v
]

len-remove_times : (n : ℕ) (t : Table) → t.len ≤ n → (remove_times n t).len ≡ 0
unfolding remove_times
len-remove_times zero t h = omega arith
len-remove_times (suc n) t h = elim (Bool-cases (ltb 0 t.len)) [
  | inl more ↦
      let shorter = len-remove_at 0 t (ground arith) in
      rw more (len-remove_times n (remove_at 0 t) (omega (arith, shorter)))
  | inr done ↦ rw done (ground arith)
]

pub remove_all-IsTable : (t : Table) → IsTable t → IsTable (remove_all t)
unfolding remove_all
remove_all-IsTable t v = remove_times-IsTable t.len t v

-- Nothing stays: no record is active, and every slot is zero.
pub remove_all_lem :
    (t : Table)
    → IsTable t
    → ((remove_all t).len ≡ 0) × ((j : ℕ) → slot (remove_all t) j ≡ zero_record)
unfolding remove_all
remove_all_lem t v =
    let gone = len-remove_times t.len t (omega arith) in
    (gone, λ j. (remove_times-IsTable t.len t v).cleared j (omega (arith, gone)))

pub data Call : Type 0 where
  stores : Csuit → Mallocs → Option StoreArgs → Call
  finalises : Buf → Call
  clears : Call

unfoldable pub step : Call → Table → Table
step (stores c m a) t = (store_record c m a t).0
step (finalises b) t = (check_and_update_record b t).0
step clears t = remove_all t

unfoldable pub run : List Call → Table → Table
unfolding step
run [] t = t
run (call ∷ calls) t = run calls (step call t)

step-IsTable : (call : Call) (t : Table) → IsTable t → IsTable (step call t)
unfolding step
step-IsTable (stores c m a) t v = store-IsTable c m a t v
step-IsTable (finalises b) t v = check-IsTable t b v
step-IsTable clears t v = remove_all-IsTable t v

pub run-IsTable : (calls : List Call) (t : Table) → IsTable t → IsTable (run calls t)
unfolding run
run-IsTable [] t v = v
run-IsTable (call ∷ calls) t v = run-IsTable calls (step call t) (step-IsTable call t v)

-- The invariant holds after any sequence of the calls that change the table.
pub history-IsTable : (calls : List Call) → IsTable (run calls initial_table)
history-IsTable calls = run-IsTable calls initial_table initial_table-IsTable
