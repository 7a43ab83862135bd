-- ===== src/TcManager/Finalise.antt =====
-- Enclave/src/tc_manager.cpp: the results of `tc_manager_check_and_update_record`, and what they
-- mean for the records of one name.
use taws.Base.{
  ℕ, ◌≡◌, refl, sym, ap, ◌∙◌, inl, inr, Option, none, some, arith, if◌then◌else◌, Bytes, Buf,
  Bool-cases, Status, success, failure, subst,
}
use taws.TcManager.{
  ManifestRecord, Table, slot, is_complete, find_by_digest, check_found, check_and_update_record,
  remove_at, discard,
}
use taws.TcManager.Lookup.{find_by_digest-null}
use taws.TcManager.Invariant.{IsTable, remove_at-IsTable}
use taws.TcManager.Contents.{
  lookup, Holds, find_by_digest-no_one, lookup-remove_at, lookup-cases, find_by_digest-Holds,
}
use taws.TcManager.Update.{
  Removes, Finalised, complete_named, update_or_discard-Finalised, update_or_discard-IsTable,
}

-- The three results, by what the map has for the digest.
abbrev pub Checked : Bytes → Table → Option ManifestRecord → Table × Status → Type 0
Checked d t none r = r ≡ (t, failure)
Checked d t (some r) (u, s) =
    if is_complete r then (s ≡ success) × Finalised d r t u else (s ≡ failure) × Removes d t u

module _ (t : Table) (d : Bytes) (k : ℕ) (v : IsTable t) (held : Holds d t k) where
  found_Checked : Checked d t (some (slot t k)) (check_found t (some k))
  unfolding check_found
  found_Checked = elim (Bool-cases (is_complete (slot t k))) [
    | inl whole ↦
        rw whole (refl, update_or_discard-Finalised t d k v held (complete_named (slot t k) whole))
    | inr partial ↦ rw partial (refl, λ e. ap (lookup e) discards ∙ lookup-remove_at e d t k v held)
  ]
    where
      discards : discard k t ≡ remove_at k t
      discards = ground (arith, held.0)

  found-IsTable : IsTable (check_found t (some k)).0
  unfolding check_found
  found-IsTable = elim (Bool-cases (is_complete (slot t k))) [
    | inl whole ↦
        rw whole (update_or_discard-IsTable t d k v held (complete_named (slot t k) whole))
    | inr partial ↦ rw partial (subst IsTable (sym discards) (remove_at-IsTable k t v held.0))
  ]
    where
      discards : discard k t ≡ remove_at k t
      discards = ground (arith, held.0)

-- Finalising a digest, on every branch.
pub check_lem :
    (t : Table) (d : Bytes)
    → IsTable t
    → Checked d t (lookup d t) (check_and_update_record (some d) t)
unfolding check_and_update_record check_found
check_lem t d v = elim (lookup-cases d t v) [
  | inl (gone, no_one) ↦
      subst (λ o. Checked d t o (check_found t (find_by_digest (some d) t))) (sym gone)
        (ap (check_found t) (find_by_digest-no_one d t v no_one))
  | inr (k, hit, held) ↦
      subst (λ o. Checked d t o (check_found t (find_by_digest (some d) t))) (sym hit)
        (subst (λ i. Checked d t (some (slot t k)) (check_found t i))
          (sym (find_by_digest-Holds d t k v held)) (found_Checked t d k v held))
]

unchanged : (t : Table) → IsTable t → IsTable (check_found t none).0
unfolding check_found
unchanged t v = v

pub check-IsTable : (t : Table) (b : Buf) → IsTable t → IsTable (check_and_update_record b t).0
unfolding check_and_update_record
check-IsTable t none v =
    subst (λ i. IsTable (check_found t i).0) (sym (find_by_digest-null none t refl)) (unchanged t v)
check-IsTable t (some d) v = elim (lookup-cases d t v) [
  | inl (_, no_one) ↦
      subst (λ i. IsTable (check_found t i).0) (sym (find_by_digest-no_one d t v no_one))
        (unchanged t v)
  | inr (k, _, held) ↦
      subst (λ i. IsTable (check_found t i).0) (sym (find_by_digest-Holds d t k v held))
        (found-IsTable t d k v held)
]
