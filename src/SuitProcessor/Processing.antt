-- ===== src/SuitProcessor/Processing.antt =====
-- Enclave/src/suit_processor_wrapper.cpp: the callbacks in the order in which libcsuit makes them.
use taws.Base.{◌≡◌, refl, sym, Bool, some, arith, Buf, subst, Status, success, failure}
use taws.TcManager.{
  Csuit, Table, StoreArgs, StoreOperation, suit_store, other_operation, Mallocs, store_record,
}
use taws.TcManager.Invariant.{IsTable}
use taws.TcManager.Store.{store-IsTable}
use taws.SuitProcessor.{
  suit_success, SuitState, DecodeDigest, store_callback, store_forwarded, report_callback,
  condition_callback, Script, finished, calls_store, calls_invoke, calls_condition, calls_report,
  process_envelope, store_result,
}

table-store_result : (r : Table × Status) (s : SuitState) → (store_result r s).1.table ≡ r.0
unfolding store_result
table-store_result (t, success) s = refl
table-store_result (t, failure) s = refl

store_callback-IsTable :
    (c : Csuit) (m : Mallocs) (a : StoreArgs) (s : SuitState)
    → IsTable s.table
    → IsTable (store_callback c m a s).1.table
unfolding store_callback
store_callback-IsTable c m a s v = by_operation a.operation
  where
    by_operation : (o : StoreOperation) → IsTable (store_forwarded c m a s o).1.table
    by_operation suit_store =
        subst IsTable (sym (table-store_result (store_record c m (some a) s.table) s))
          (store-IsTable c m (some a) s.table v)
    by_operation other_operation = v

table-report_callback :
    (block : Bool) (report : Buf) (s : SuitState)
    → (report_callback block report s).1.table ≡ s.table
unfolding report_callback
table-report_callback block report s = ground arith

-- Whatever callbacks libcsuit makes, and however it ends, the table stays well formed.
pub process_envelope-IsTable :
    (c : Csuit) (decode : DecodeDigest) (script : Script) (s : SuitState)
    → IsTable s.table
    → IsTable (process_envelope c decode script s).1.table
unfolding process_envelope
process_envelope-IsTable c decode (finished e) s v = v
process_envelope-IsTable c decode (calls_store m a next) s v =
    process_envelope-IsTable c decode (next (store_callback c m a s).0) (store_callback c m a s).1
      (store_callback-IsTable c m a s v)
process_envelope-IsTable c decode (calls_invoke next) s v =
    process_envelope-IsTable c decode (next suit_success) s v
process_envelope-IsTable c decode (calls_condition a ret next) s v =
    process_envelope-IsTable c decode (next (condition_callback decode a ret s)) s v
process_envelope-IsTable c decode (calls_report block report next) s v =
    process_envelope-IsTable c decode (next (report_callback block report s).0)
      (report_callback block report s).1
      (subst IsTable (sym (table-report_callback block report s)) v)
