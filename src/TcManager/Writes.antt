-- ===== src/TcManager/Writes.antt =====
-- Enclave/src/tc_manager.cpp: writes to an active slot, and to the slot after the active ones.
use taws.Base.{
  ℕ, suc, ◌<◌, ◌≡◌, refl, sym, ap, ◌∙◌, ◌≢◌, ◌⊎◌, inl, inr, some, arith, ◌==◌, if◌then◌else◌,
  length, length-set, get_or, get_or-set, Bool-cases, Bytes, bytes_eq, bytes_eq_iff, Buf, false,
  is_null_or_empty, subst, ◌-◌, ==_iff, is_empty, List, [], ◌∷◌, set, zero,
}
use taws.TcManager.{ManifestRecord, Table, zero_record, slot, remove_at, write, record_max_count}
use taws.TcManager.Invariant.{IsTable}
use taws.TcManager.Contents.{lookup, Holds, lookup-Holds, lookup-same}

abbrev pub grown : Table → Table
grown t = record t { len = suc t.len }

pub slot-write_self :
    (t : Table) (k : ℕ) (r : ManifestRecord) → k < length t.slots → slot (write t k r) k ≡ r
slot-write_self t k r h = get_or-set t.slots k k r zero_record ∙ ground arith

pub slot-write_ne :
    (t : Table) (k j : ℕ) (r : ManifestRecord) → k ≢ j → slot (write t k r) j ≡ slot t j
slot-write_ne t k j r h = get_or-set t.slots k j r zero_record ∙ ground arith

module _ (t : Table) (k : ℕ) (r : ManifestRecord) (v : IsTable t) where
  -- Every slot shows the digest that it had.
  digest-write :
      k < t.len
      → r.manifest_digest ≡ (slot t k).manifest_digest
      → (j : ℕ) → (slot (write t k r) j).manifest_digest ≡ (slot t j).manifest_digest
  digest-write h e j =
      let inside : k < length t.slots = omega (arith, v.full_size, v.in_bounds) in
      ground (arith, get_or-set t.slots k j r zero_record)

  pub write-IsTable :
      k < t.len → r.manifest_digest ≡ (slot t k).manifest_digest → IsTable (write t k r)
  write-IsTable h e = record {
    full_size = length-set t.slots k r ∙ v.full_size;
    in_bounds = v.in_bounds;
    cleared = λ j past. slot-write_ne t k j r (omega arith) ∙ v.cleared j past;
    keyed = λ j lt. rw (digest-write h e j) (v.keyed j lt);
    distinct =
        λ i j li lj eq. v.distinct i j li lj (sym (digest-write h e i) ∙ eq ∙ digest-write h e j);
  }

  -- The map has the new record for the digest, and is otherwise as it was.
  pub lookup-write :
      (e d : Bytes)
      → Holds d t k
      → r.manifest_digest ≡ some d
      → lookup e (write t k r) ≡ (if bytes_eq e d then some r else lookup e t)
  lookup-write e d held rd = elim (Bool-cases (bytes_eq e d)) [
    | inl same ↦ rw same (
        subst (λ b. lookup b (write t k r) ≡ some r) (sym ((bytes_eq_iff e d).0 same))
          (lookup-Holds d _ k w (held.0, kept k ∙ held.1) ∙ ap some (slot-write_self t k r inside)))
    | inr other ↦ rw other (
        lookup-same e t (write t k r) v w
          (λ j there.
            (j, (there.0, kept j ∙ there.1), slot-write_ne t k j r (apart j other there.1)))
          (λ j there. (j, (there.0, sym (kept j) ∙ there.1))))
  ]
    where
      rk : r.manifest_digest ≡ (slot t k).manifest_digest
      rk = rd ∙ sym held.1

      w : IsTable (write t k r)
      w = write-IsTable held.0 rk

      kept : (j : ℕ) → (slot (write t k r) j).manifest_digest ≡ (slot t j).manifest_digest
      kept = digest-write held.0 rk

      inside : k < length t.slots
      inside = omega (arith, held.0, v.full_size, v.in_bounds)

      apart : (j : ℕ) → bytes_eq e d ≡ false → (slot t j).manifest_digest ≡ some e → k ≢ j
      apart j no_match ej same =
          let eq : ◌≡◌ {A = Buf} (some d) (some e) =
            sym held.1 ∙ ap (λ i. (slot t i).manifest_digest) same ∙ ej in
          cc ((bytes_eq_iff e d).1 (cc eq), no_match)

set_self : {A : Type 0} (xs : List A) (i : ℕ) (z : A) → get_or xs i z ≡ z → set xs i z ≡ xs
set_self [] i z h = refl
set_self (x ∷ xs) zero z h = ap (λ y. y ∷ xs) (sym h)
set_self (x ∷ xs) (suc i) z h = ap (◌∷◌ x) (set_self xs i z h)

-- Giving the allocated slot back restores the table.
pub remove_at-grown : (t : Table) → IsTable t → remove_at t.len (grown t) ≡ t
unfolding remove_at
remove_at-grown t v =
    let cleared : set t.slots t.len zero_record ≡ t.slots =
      set_self t.slots t.len zero_record (v.cleared t.len (omega arith)) in
    let last : suc t.len - 1 ≡ t.len = omega arith in ground (arith, cleared, last)

abbrev pub fresh_record : Bytes → ManifestRecord
fresh_record d = record zero_record { manifest_digest = some d }

-- The table with an empty record for a new digest.
abbrev pub added : Table → Bytes → Table
added t d = write (grown t) t.len (fresh_record d)

below-suc : (j n : ℕ) → j < suc n → (j < n) ⊎ (j ≡ n)
below-suc j n h = omega arith

module _ (t : Table) (d : Bytes) (v : IsTable t) (room : t.len < record_max_count)
    (nonempty : is_empty d ≡ false) (fresh : (k : ℕ) → ¬ Holds d t k) where
  pub inside : t.len < length t.slots
  inside = omega (arith, v.full_size)

  pub new_slot : slot (added t d) t.len ≡ (fresh_record d)
  new_slot = slot-write_self (grown t) t.len (fresh_record d) inside

  old_slot : (j : ℕ) → j ≢ t.len → slot (added t d) j ≡ slot t j
  old_slot j h = slot-write_ne (grown t) t.len j (fresh_record d) (λ e. h (sym e))

  pub new_digest : (slot (added t d) t.len).manifest_digest ≡ some d
  new_digest = ap (λ r. r.manifest_digest) new_slot

  old_digest :
      (j : ℕ) → j < t.len → (slot (added t d) j).manifest_digest ≡ (slot t j).manifest_digest
  old_digest j lt = ap (λ r. r.manifest_digest) (old_slot j (omega arith))

  added_keyed :
      (j : ℕ) → j < suc t.len → is_null_or_empty (slot (added t d) j).manifest_digest ≡ false
  added_keyed j lt = elim (Bool-cases (j == t.len)) [
    | inl e ↦
        subst (λ i. is_null_or_empty (slot (added t d) i).manifest_digest ≡ false)
          (sym ((==_iff j t.len).0 e)) (rw new_digest nonempty)
    | inr e ↦ let lt' : j < t.len = ground arith in rw (old_digest j lt') (v.keyed j lt')
  ]

  not_new :
      (j : ℕ)
      → j < t.len
      → (slot (added t d) j).manifest_digest ≡ (slot (added t d) t.len).manifest_digest
      → ⊥
  not_new j lt e = fresh j (lt, sym (old_digest j lt) ∙ e ∙ new_digest)

  digest_at :
      {i j : ℕ}
      → i ≡ j
      → (slot (added t d) i).manifest_digest ≡ (slot (added t d) j).manifest_digest
  digest_at = ap (λ k. (slot (added t d) k).manifest_digest)

  added_distinct :
      (i j : ℕ)
      → i < suc t.len
      → j < suc t.len
      → (slot (added t d) i).manifest_digest ≡ (slot (added t d) j).manifest_digest
      → i ≡ j
  added_distinct i j li lj e = elim (below-suc i t.len li) [
    | inl i_old ↦ elim (below-suc j t.len lj) [
      | inl j_old ↦ v.distinct i j i_old j_old (sym (old_digest i i_old) ∙ e ∙ old_digest j j_old)
      | inr ej ↦ absurd (not_new i i_old (e ∙ digest_at ej))
    ]
    | inr ei ↦ elim (below-suc j t.len lj) [
      | inl j_old ↦ absurd (not_new j j_old (sym e ∙ digest_at ei))
      | inr ej ↦ ei ∙ sym ej
    ]
  ]

  pub added-IsTable : IsTable (added t d)
  added-IsTable = record {
    full_size = length-set t.slots t.len (fresh_record d) ∙ v.full_size;
    in_bounds = omega arith;
    cleared = λ j past. old_slot j (omega arith) ∙ v.cleared j (omega arith);
    keyed = added_keyed;
    distinct = added_distinct;
  }

  -- The map gains an empty record for the digest.
  pub lookup-added :
      (e : Bytes)
      → lookup e (added t d) ≡ (if bytes_eq e d then some (fresh_record d) else lookup e t)
  lookup-added e = elim (Bool-cases (bytes_eq e d)) [
    | inl same ↦ rw same (
        subst (λ b. lookup b (added t d) ≡ some (fresh_record d)) (sym ((bytes_eq_iff e d).0 same))
          (lookup-Holds d (added t d) t.len added-IsTable (omega arith, new_digest)
            ∙ ap some new_slot))
    | inr other ↦ rw other (lookup-same e t (added t d) v added-IsTable keep (back other))
  ]
    where
      keep :
          (k : ℕ) → Holds e t k → (j : ℕ) × Holds e (added t d) j × (slot (added t d) j ≡ slot t k)
      keep k held = (
        k,
        (omega (arith, held.0), old_digest k held.0 ∙ held.1),
        old_slot k (omega (arith, held.0)),
      )

      back : bytes_eq e d ≡ false → (k : ℕ) → Holds e (added t d) k → (j : ℕ) × Holds e t j
      back other k held = elim (below-suc k t.len held.0) [
        | inl old ↦ (k, (old, sym (old_digest k old) ∙ held.1))
        | inr ek ↦
            let eq : ◌≡◌ {A = Buf} (some e) (some d) = sym held.1 ∙ digest_at ek ∙ new_digest in
            absurd (cc ((bytes_eq_iff e d).1 (cc eq), other))
      ]
