-- ===== src/Cbor.antt =====
-- What the program uses of QCBOR: the calls that build a CBOR item. An item is also a tree, and
-- `calls` are the calls that build it.
use taws.Base.{ℕ, ℤ, Option, List, [], ◌∷◌, ◌++◌, Bytes}

-- The calls, with QCBOR's names.
pub data QcborOp : Type 0 where
  open_map close_map open_array close_array bstr_wrap close_bstr_wrap : QcborOp
  open_map_in_map_n open_array_in_map_n bstr_wrap_in_map_n : ℤ → QcborOp
  add_bytes add_text : Bytes → QcborOp
  add_int64 : ℤ → QcborOp
  add_bytes_to_map_n add_text_to_map_n : ℤ → Bytes → QcborOp
  add_int64_to_map_n : ℤ → ℤ → QcborOp

-- `finish capacity calls` is the item that the calls leave in a buffer of that capacity;
-- `slice_tail` is the length that is left behind an item, if any.
pub record Qcbor : Type 0 where
  pub finish : ℕ → List QcborOp → Option Bytes
  pub finish_get_size : List QcborOp → Option ℕ
  pub slice_tail : ℕ → Bytes → Option ℕ

-- A CBOR item: a wrapped item is a byte string that encodes an item.
mutual
  pub data Cbor : Type 0 where
    int : ℤ → Cbor
    bytes text : Bytes → Cbor
    array : Items → Cbor
    map_of : Entries → Cbor
    wrapped : Cbor → Cbor

  pub data Items : Type 0 where
    end_of_array : Items
    item : Cbor → Items → Items

  pub data Entries : Type 0 where
    end_of_map : Entries
    entry : ℤ → Cbor → Entries → Entries

unfoldable mutual
  pub calls : Cbor → List QcborOp
  calls (int n) = add_int64 n ∷ []
  calls (bytes b) = add_bytes b ∷ []
  calls (text b) = add_text b ∷ []
  calls (array xs) = open_array ∷ (item_calls xs ++ (close_array ∷ []))
  calls (map_of es) = open_map ∷ (entry_calls es ++ (close_map ∷ []))
  calls (wrapped c) = bstr_wrap ∷ (calls c ++ (close_bstr_wrap ∷ []))

  pub item_calls : Items → List QcborOp
  item_calls end_of_array = []
  item_calls (item x xs) = calls x ++ item_calls xs

  -- The calls of an item that is the value of a label in a map.
  pub value_calls : ℤ → Cbor → List QcborOp
  value_calls k (int n) = add_int64_to_map_n k n ∷ []
  value_calls k (bytes b) = add_bytes_to_map_n k b ∷ []
  value_calls k (text b) = add_text_to_map_n k b ∷ []
  value_calls k (array xs) = open_array_in_map_n k ∷ (item_calls xs ++ (close_array ∷ []))
  value_calls k (map_of es) = open_map_in_map_n k ∷ (entry_calls es ++ (close_map ∷ []))
  value_calls k (wrapped c) = bstr_wrap_in_map_n k ∷ (calls c ++ (close_bstr_wrap ∷ []))

  pub entry_calls : Entries → List QcborOp
  entry_calls end_of_map = []
  entry_calls (entry k v es) = value_calls k v ++ entry_calls es
