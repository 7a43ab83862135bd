-- ===== src/TcManager/Store.antt =====
-- Enclave/src/tc_manager.cpp: `tc_manager_store_record_from_store_args` against the map.
use taws.Base.{
  ℕ, ◌<◌, ◌≡◌, refl, sym, ap, ◌∙◌, ◌⊎◌, inl, inr, Option, none, some, Bool, not, ◌||◌, arith, subst,
  if◌then◌else◌, leb, Bool-cases, Option-cases, Bytes, bytes_eq, true, false, is_empty,
  is_null_or_empty, Status, failure,
}
use taws.TcManager.{
  Csuit, ManifestRecord, Table, slot, write, record_max_count, StoreArgs, Mallocs, StoreOperation,
  suit_store, other_operation, find_by_digest, claim_record, claim_new, claim_found, records_alloc,
  fill_record, fill_slot, store_by, store_record,
}
use taws.TcManager.Lookup.{find_by_digest-null}
use taws.TcManager.Invariant.{IsTable}
use taws.TcManager.Contents.{lookup, Holds, find-cases, lookup-Holds, lookup-none}
use taws.TcManager.Writes.{
  fresh_record, added, added-IsTable, lookup-added, remove_at-grown, write-IsTable, new_slot,
  new_digest, lookup-write,
}

pub fill_record-digest :
    (c : Csuit) (m : Mallocs) (a : StoreArgs) (r : ManifestRecord)
    → (fill_record c m a r).0.manifest_digest ≡ r.manifest_digest
unfolding fill_record
fill_record-digest c m a r = ground arith

claim_new-added :
    (m : Mallocs) (a : StoreArgs) (t : Table) (d : Bytes)
    → IsTable t
    → a.manifest_digest ≡ some d
    → is_empty d ≡ false
    → t.len < record_max_count
    → m.digest_block ≡ true
    → claim_new m a t (records_alloc t) ≡ (added t d, some t.len)
unfolding claim_new
claim_new-added m a t d v ad nonempty room block = ground (arith, v.cleared t.len (omega arith))

claim_new-refused :
    (m : Mallocs) (a : StoreArgs) (t : Table)
    → IsTable t
    → (leb record_max_count t.len || not m.digest_block || is_null_or_empty a.manifest_digest)
      ≡ true
    → claim_new m a t (records_alloc t) ≡ (t, none)
unfolding claim_new
claim_new-refused m a t v h = ground (arith, remove_at-grown t v)

store-claim :
    (c : Csuit) (m : Mallocs) (a : StoreArgs) (t : Table)
    → a.operation ≡ suit_store
    → store_record c m (some a) t ≡ fill_slot c m a (claim_record m a t)
unfolding store_record
store-claim c m a t e = ap (store_by c m a t) e

-- The record that a store works on, by the map alone: the one that the digest has, or an empty
-- one if there is room and memory for it.
abbrev pub claimed_from : Mallocs → Bytes → Table → Option ManifestRecord → Option ManifestRecord
claimed_from m d t (some r) = some r
claimed_from m d t none =
    if leb record_max_count t.len || not m.digest_block then none else some (fresh_record d)

abbrev pub claimed : Mallocs → Bytes → Table → Option ManifestRecord
claimed m d t = claimed_from m d t (lookup d t)

under_if {ℓ} :
    {A : Type ℓ} (b : Bool) (w x y z : A)
    → y ≡ (if b then w else z)
    → (if b then x else y) ≡ (if b then x else z)
under_if true w x y z h = refl
under_if false w x y z h = h

-- What a store makes of the entry for `e`, and its result.
abbrev pub stored :
    Csuit
    → Mallocs
    → StoreArgs
    → Bytes
    → Bytes
    → Table
    → Option ManifestRecord
    → Option ManifestRecord × Status
stored c m a d e t none = (lookup e t, failure)
stored c m a d e t (some r) =
    (if bytes_eq e d then some (fill_record c m a r).0 else lookup e t, (fill_record c m a r).1)

abbrev pub observed : Bytes → Table × Status → Option ManifestRecord × Status
observed e (t, s) = (lookup e t, s)

module _ (c : Csuit) (m : Mallocs) (a : StoreArgs) (t : Table) (d : Bytes) (v : IsTable t) where
  store_known :
      (e : Bytes) (k : ℕ)
      → Holds d t k
      → observed e (fill_slot c m a (t, some k)) ≡ stored c m a d e t (some (slot t k))
  store_known e k held =
      let r = fill_record c m a (slot t k) in
      ap (λ o. (o, r.1))
        (lookup-write t k r.0 v e d held (fill_record-digest c m a (slot t k) ∙ held.1))

  store_added :
      (e : Bytes)
      → is_empty d ≡ false
      → t.len < record_max_count
      → ((k : ℕ) → ¬ Holds d t k)
      → observed e (fill_slot c m a (added t d, some t.len))
        ≡ stored c m a d e t (some (fresh_record d))
  store_added e nonempty room no_one = rw (new_slot t d v room nonempty no_one) (
      ap (λ o. (o, r.1))
        (written ∙ under_if (bytes_eq e d) _ _ _ _ (lookup-added t d v room nonempty no_one e)))
    where
      r : ManifestRecord × Status
      r = fill_record c m a (fresh_record d)

      written :
          lookup e (write (added t d) t.len r.0)
          ≡ (if bytes_eq e d then some r.0 else lookup e (added t d))
      written =
          lookup-write (added t d) t.len r.0 (added-IsTable t d v room nonempty no_one) e d
            (omega arith, new_digest t d v room nonempty no_one)
            (fill_record-digest c m a (fresh_record d))

  store_unknown :
      (e : Bytes)
      → ((k : ℕ) → ¬ Holds d t k)
      → a.manifest_digest ≡ some d
      → is_empty d ≡ false
      → observed e (fill_slot c m a (claim_new m a t (records_alloc t)))
        ≡ stored c m a d e t (claimed_from m d t none)
  store_unknown e no_one ad nonempty =
      elim (Bool-cases (leb record_max_count t.len || not m.digest_block)) [
        | inl refused ↦
            rw refused
              (ap (λ o. observed e (fill_slot c m a o)) (claim_new-refused m a t v (ground arith)))
        | inr granted ↦ rw granted (
            ap (λ o. observed e (fill_slot c m a o))
              (claim_new-added m a t d v ad nonempty (ground arith) (ground arith))
            ∙ store_added e nonempty (ground arith) no_one)
      ]

  pub store_lem :
      (e : Bytes)
      → a.operation ≡ suit_store
      → a.manifest_digest ≡ some d
      → is_empty d ≡ false
      → observed e (store_record c m (some a) t) ≡ stored c m a d e t (claimed m d t)
  unfolding claim_record claim_found
  store_lem e op ad nonempty =
      ap (observed e) (
        store-claim c m a t op
        ∙ ap (λ b. fill_slot c m a (claim_found m a t (find_by_digest b t))) ad)
      ∙ elim (find-cases d t v nonempty) [
        | inr (k, hit, held) ↦
            ap (λ o. observed e (fill_slot c m a (claim_found m a t o))) hit
            ∙ store_known e k held
            ∙ ap (λ o. stored c m a d e t (claimed_from m d t o)) (sym (lookup-Holds d t k v held))
        | inl (miss, no_one) ↦
            ap (λ o. observed e (fill_slot c m a (claim_found m a t o))) miss
            ∙ store_unknown e no_one ad nonempty
            ∙ ap (λ o. stored c m a d e t (claimed_from m d t o)) (sym (lookup-none d t v no_one))
      ]

-- A store with no digest, or with another operation, changes nothing and fails.
pub store_refused :
    (c : Csuit) (m : Mallocs) (a : StoreArgs) (t : Table)
    → IsTable t
    → (a.operation ≡ other_operation) ⊎ (is_null_or_empty a.manifest_digest ≡ true)
    → store_record c m (some a) t ≡ (t, failure)
unfolding store_record claim_record claim_found
store_refused c m a t v (inl other) = ap (store_by c m a t) other
store_refused c m a t v (inr empty) = refused a.operation
  where
    no_record : claim_record m a t ≡ (t, none)
    no_record =
        ap (claim_found m a t) (find_by_digest-null a.manifest_digest t empty)
        ∙ claim_new-refused m a t v (ground arith)

    refused : (o : StoreOperation) → store_by c m a t o ≡ (t, failure)
    refused suit_store = ap (fill_slot c m a) no_record
    refused other_operation = refl

operation-cases : (o : StoreOperation) → (o ≡ suit_store) ⊎ (o ≡ other_operation)
operation-cases suit_store = inl refl
operation-cases other_operation = inr refl

filled-IsTable :
    (c : Csuit) (m : Mallocs) (a : StoreArgs) (t : Table) (k : ℕ)
    → IsTable t
    → k < t.len
    → IsTable (fill_slot c m a (t, some k)).0
filled-IsTable c m a t k v lt = write-IsTable t k _ v lt (fill_record-digest c m a (slot t k))

stored-IsTable :
    (c : Csuit) (m : Mallocs) (a : StoreArgs) (t : Table) (d : Bytes)
    → IsTable t
    → a.operation ≡ suit_store
    → a.manifest_digest ≡ some d
    → is_empty d ≡ false
    → IsTable (store_record c m (some a) t).0
unfolding claim_record claim_found
stored-IsTable c m a t d v op ad nonempty =
    subst (λ o. IsTable (o).0)
      (sym (
        store-claim c m a t op
        ∙ ap (λ b. fill_slot c m a (claim_found m a t (find_by_digest b t))) ad))
      (elim (find-cases d t v nonempty) [
        | inr (k, hit, held) ↦
            subst (λ o. IsTable (fill_slot c m a (claim_found m a t o)).0) (sym hit)
              (filled-IsTable c m a t k v held.0)
        | inl (miss, no_one) ↦
            subst (λ o. IsTable (fill_slot c m a (claim_found m a t o)).0) (sym miss) (fresh no_one)
      ])
  where
    fresh :
        ((k : ℕ) → ¬ Holds d t k) → IsTable (fill_slot c m a (claim_new m a t (records_alloc t))).0
    fresh no_one = elim (Bool-cases (leb record_max_count t.len || not m.digest_block)) [
      | inl refused ↦
          subst (λ o. IsTable (fill_slot c m a o).0)
            (sym (claim_new-refused m a t v (ground arith))) v
      | inr granted ↦
          let room : t.len < record_max_count = ground arith in
          subst (λ o. IsTable (fill_slot c m a o).0)
            (sym (claim_new-added m a t d v ad nonempty room (ground arith)))
            (filled-IsTable c m a (added t d) t.len (added-IsTable t d v room nonempty no_one)
              (omega arith))
    ]

pub store-IsTable :
    (c : Csuit) (m : Mallocs) (o : Option StoreArgs) (t : Table)
    → IsTable t
    → IsTable (store_record c m o t).0
store-IsTable c m none t v = unfold store_record in v
store-IsTable c m (some a) t v = elim (operation-cases a.operation) [
  | inr other ↦ unchanged (inl other)
  | inl op ↦ elim (Bool-cases (is_null_or_empty a.manifest_digest)) [
    | inl empty ↦ unchanged (inr empty)
    | inr nonempty ↦ elim (Option-cases a.manifest_digest) [
      | inl e ↦ absurd (cc (nonempty, ap is_null_or_empty e))
      | inr (d, e) ↦ stored-IsTable c m a t d v op e (rw e at nonempty)
    ]
  ]
]
  where
    unchanged :
        (a.operation ≡ other_operation) ⊎ (is_null_or_empty a.manifest_digest ≡ true)
        → IsTable (store_record c m (some a) t).0
    unchanged h = subst (λ o. IsTable o.0) (sym (store_refused c m a t v h)) v
