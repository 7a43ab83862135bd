-- ===== src/TcManager/Invariant.antt =====
-- Enclave/src/tc_manager.cpp: the invariant of the table, and that every call keeps it.
use taws.Base.{
  ℕ, ◌-◌, ◌<◌, ◌≤◌, ◌≡◌, inl, inr, arith, ◌==◌, length, ◌∙◌, Bool-cases, is_null_or_empty, false,
}
use taws.TcManager.{Table, zero_record, slot, remove_at, record_max_count}
use taws.TcManager.Removal.{source_index, len-remove_at, length-slots-remove_at, slot-remove_at}

-- The table has its size, the slots past the active ones are zero, every active record has a
-- digest, and no two have the same.
pub record IsTable (t : Table) : Type 0 where
  pub full_size : length t.slots ≡ record_max_count
  pub in_bounds : t.len ≤ record_max_count
  pub cleared : (j : ℕ) → t.len ≤ j → slot t j ≡ zero_record
  pub keyed : (j : ℕ) → j < t.len → is_null_or_empty (slot t j).manifest_digest ≡ false
  pub distinct :
      (i j : ℕ)
      → i < t.len
      → j < t.len
      → (slot t i).manifest_digest ≡ (slot t j).manifest_digest
      → i ≡ j

-- Where an active record of the smaller table stood before.
pub active-remove_at :
    (index : ℕ) (t : Table) (j : ℕ)
    → IsTable t
    → index < t.len
    → j < t.len - 1
    → slot (remove_at index t) j ≡ slot t (source_index index t.len j)
active-remove_at index t j v h lt =
    let full : t.len ≤ length t.slots = omega (arith, v.full_size, v.in_bounds) in
    let e : (j == t.len - 1) ≡ false = ground arith in slot-remove_at index t j h full ∙ rw e

pub remove_at-IsTable :
    (index : ℕ) (t : Table) → IsTable t → index < t.len → IsTable (remove_at index t)
remove_at-IsTable index t v h = record {
  full_size = omega (arith, length-slots-remove_at index t, v.full_size);
  in_bounds = omega (arith, shorter, v.in_bounds);
  cleared = λ j past. past_end j (omega (arith, shorter));
  keyed = λ j lt.
      let lt' : j < t.len - 1 = omega (arith, shorter) in
      rw (active-remove_at index t j v h lt') (v.keyed _ (ground arith));
  distinct = λ i j li lj e.
      let li' : i < t.len - 1 = omega (arith, shorter) in
      let lj' : j < t.len - 1 = omega (arith, shorter) in
      let e' = rw (active-remove_at index t i v h li', active-remove_at index t j v h lj') at e in
      let same =
        v.distinct (source_index index t.len i) (source_index index t.len j) (ground arith)
          (ground arith) e' in
      ground (arith, same);
}
  where
    shorter : (remove_at index t).len ≡ t.len - 1
    shorter = len-remove_at index t h

    full : t.len ≤ length t.slots
    full = omega (arith, v.full_size, v.in_bounds)

    past_end : (j : ℕ) → t.len - 1 ≤ j → slot (remove_at index t) j ≡ zero_record
    past_end j past = elim (Bool-cases (j == t.len - 1)) [
      | inl e ↦ slot-remove_at index t j h full ∙ rw e
      | inr e ↦
          slot-remove_at index t j h full ∙ rw e (rw (away j past e) (v.cleared j (ground arith)))
    ]
      where
        away : (j : ℕ) → t.len - 1 ≤ j → (j == t.len - 1) ≡ false → (j == index) ≡ false
        away j past e = ground arith
