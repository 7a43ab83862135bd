-- ===== src/TcManager/Removal.antt =====
-- Enclave/src/tc_manager.cpp: what `manifest_record_remove_at` leaves in the table.
use taws.Base.{
  ℕ, ◌-◌, ◌<◌, ◌≤◌, ◌≡◌, arith, ◌==◌, if◌then◌else◌, length, get_or, length-set, get_or-set, List,
  set,
}
use taws.TcManager.{Table, zero_record, slot, remove_at, swap_clear}

-- The record at an index comes from there, and at the freed place from the end.
abbrev pub source_index : ℕ → ℕ → ℕ → ℕ
source_index index len j = if j == index then len - 1 else j

length-swap_clear {ℓ} :
    {A : Type ℓ} (z : A) (xs : List A) (i n : ℕ) → length (swap_clear z xs i n) ≡ length xs
unfolding swap_clear
length-swap_clear z xs i n = ground (
  arith,
  length-set xs n z,
  length-set (set (set xs i (get_or xs n z)) n (get_or xs i z)) n z,
  length-set (set xs i (get_or xs n z)) n (get_or xs i z),
  length-set xs i (get_or xs n z),
)

get_or-swap_clear :
    {A : Type 0} (z : A) (xs : List A) (i n j : ℕ)
    → i ≤ n
    → n < length xs
    → get_or (swap_clear z xs i n) j z
      ≡ (if j == n then z else if j == i then get_or xs n z else get_or xs j z)
unfolding swap_clear
get_or-swap_clear z xs i n j h inside = ground (
  arith,
  get_or-set xs n j z z,
  get_or-set (set (set xs i (get_or xs n z)) n (get_or xs i z)) n j z z,
  get_or-set (set xs i (get_or xs n z)) n j (get_or xs i z) z,
  get_or-set xs i j (get_or xs n z) z,
  length-set (set xs i (get_or xs n z)) n (get_or xs i z),
  length-set xs i (get_or xs n z),
)

pub len-remove_at : (index : ℕ) (t : Table) → index < t.len → (remove_at index t).len ≡ t.len - 1
unfolding remove_at
len-remove_at index t h = ground arith

pub length-slots-remove_at :
    (index : ℕ) (t : Table) → length (remove_at index t).slots ≡ length t.slots
unfolding remove_at
length-slots-remove_at index t =
    ground (arith, length-swap_clear zero_record t.slots index (t.len - 1))

pub slot-remove_at :
    (index : ℕ) (t : Table) (j : ℕ)
    → index < t.len
    → t.len ≤ length t.slots
    → slot (remove_at index t) j
      ≡ (if j == t.len - 1 then zero_record else slot t (source_index index t.len j))
unfolding remove_at
slot-remove_at index t j h full =
    ground (arith, get_or-swap_clear zero_record t.slots index (t.len - 1) j)
