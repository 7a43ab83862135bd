-- ===== src/TcManager/Contents.antt =====
-- Enclave/src/tc_manager.cpp: the table seen as a map from digests to records.
use taws.Base.{
  ℕ, ◌<◌, ◌≡◌, sym, ap, ◌∙◌, ◌≢◌, ◌⊎◌, inl, inr, Option, none, some, arith, ◌==◌, if◌then◌else◌,
  Bool-cases, Option-cases, Bytes, bytes_eq, bytes_eq_iff, subst, ◌-◌, is_empty, Buf, false,
}
use taws.TcManager.{
  ManifestRecord, Table, slot, remove_at, find_by_digest, find_record_by_digest, record_at,
}
use taws.TcManager.Lookup.{find_by_digest-some, find_by_digest-none, find_by_digest-null}
use taws.TcManager.Removal.{source_index, len-remove_at}
use taws.TcManager.Invariant.{IsTable, active-remove_at, remove_at-IsTable}

-- The entry for a digest: the record itself, not its place.
unfoldable pub lookup : Bytes → Table → Option ManifestRecord
unfolding find_record_by_digest
lookup e t = find_record_by_digest (some e) t

-- Record `k` is active and has digest `e`.
abbrev pub Holds : Bytes → Table → ℕ → Type 0
Holds e t k = (k < t.len) × ((slot t k).manifest_digest ≡ some e)

-- The search decides whether an active record has the digest.
pub find-cases :
    (e : Bytes) (t : Table)
    → IsTable t
    → is_empty e ≡ false
    → ((find_by_digest (some e) t ≡ none) × ((k : ℕ) → ¬ Holds e t k))
      ⊎ ((k : ℕ) × (find_by_digest (some e) t ≡ some k) × Holds e t k)
find-cases e t v h = elim (Option-cases (find_by_digest (some e) t)) [
  | inl miss ↦ inl (
    miss,
    λ k held.
        find_by_digest-none e t h miss k held.0 (omega (arith, held.0, v.full_size, v.in_bounds))
          held.1,
  )
  | inr (k, hit) ↦ let (lt, _, eq) = find_by_digest-some e t hit in inr (k, hit, (lt, eq))
]

pub Holds-nonempty : (e : Bytes) (t : Table) (k : ℕ) → IsTable t → Holds e t k → is_empty e ≡ false
Holds-nonempty e t k v held = let key = v.keyed k held.0 in rw (held.1) at key

pub find_by_digest-Holds :
    (e : Bytes) (t : Table) (k : ℕ) → IsTable t → Holds e t k → find_by_digest (some e) t ≡ some k
find_by_digest-Holds e t k v held = elim (find-cases e t v (Holds-nonempty e t k v held)) [
  | inl (_, no_one) ↦ absurd (no_one k held)
  | inr (j, hit, other) ↦ hit ∙ ap some (v.distinct j k other.0 held.0 (other.1 ∙ sym held.1))
]

pub lookup-Holds :
    (e : Bytes) (t : Table) (k : ℕ) → IsTable t → Holds e t k → lookup e t ≡ some (slot t k)
unfolding lookup
lookup-Holds e t k v held = ap (record_at t) (find_by_digest-Holds e t k v held)

pub find_by_digest-no_one :
    (e : Bytes) (t : Table)
    → IsTable t
    → ((k : ℕ) → ¬ Holds e t k)
    → find_by_digest (some e) t ≡ none
find_by_digest-no_one e t v no_one = elim (Bool-cases (is_empty e)) [
  | inl empty ↦ find_by_digest-null (some e) t empty
  | inr h ↦ elim (find-cases e t v h) [
    | inl (miss, _) ↦ miss
    | inr (k, _, held) ↦ absurd (no_one k held)
  ]
]

pub lookup-none :
    (e : Bytes) (t : Table) → IsTable t → ((k : ℕ) → ¬ Holds e t k) → lookup e t ≡ none
unfolding lookup
lookup-none e t v no_one = ap (record_at t) (find_by_digest-no_one e t v no_one)

-- Whether the map has a digest, by the record that holds it.
pub lookup-cases :
    (e : Bytes) (t : Table)
    → IsTable t
    → ((lookup e t ≡ none) × ((k : ℕ) → ¬ Holds e t k))
      ⊎ ((k : ℕ) × (lookup e t ≡ some (slot t k)) × Holds e t k)
lookup-cases e t v = elim (Bool-cases (is_empty e)) [
  | inl empty ↦
      let no_one : (k : ℕ) → ¬ Holds e t k = λ k held. cc (Holds-nonempty e t k v held, empty) in
      inl (lookup-none e t v no_one, no_one)
  | inr h ↦ elim (find-cases e t v h) [
    | inl (miss, no_one) ↦ inl (lookup-none e t v no_one, no_one)
    | inr (k, _, held) ↦ inr (k, lookup-Holds e t k v held, held)
  ]
]

-- Two tables that have the same active records are the same map.
pub lookup-same :
    (e : Bytes) (t u : Table)
    → IsTable t
    → IsTable u
    → ((k : ℕ) → Holds e t k → (j : ℕ) × Holds e u j × (slot u j ≡ slot t k))
    → ((k : ℕ) → Holds e u k → (j : ℕ) × Holds e t j)
    → lookup e u ≡ lookup e t
lookup-same e t u v w there back = elim (lookup-cases e t v) [
  | inl (miss, no_one) ↦
      lookup-none e u w (λ k held. no_one (back k held).0 (back k held).1) ∙ sym miss
  | inr (k, hit, held) ↦
      let (j, held', same) = there k held in lookup-Holds e u j w held' ∙ ap some same ∙ sym hit
]

-- What is active after a removal was active before, at another place than the removed one.
removed-Holds :
    (e : Bytes) (t : Table) (index j : ℕ)
    → IsTable t
    → index < t.len
    → Holds e (remove_at index t) j
    → (k : ℕ) × Holds e t k × (k ≢ index)
removed-Holds e t index j v h held =
    let lt : j < t.len - 1 = omega (arith, held.0, len-remove_at index t h) in
    (
      source_index index t.len j,
      (
        ground arith,
        sym (ap (λ r. r.manifest_digest) (active-remove_at index t j v h lt)) ∙ held.1,
      ),
      ground arith,
    )

kept-Holds :
    (e : Bytes) (t : Table) (index k : ℕ)
    → IsTable t
    → index < t.len
    → Holds e t k
    → k ≢ index
    → (j : ℕ) × Holds e (remove_at index t) j × (slot (remove_at index t) j ≡ slot t k)
kept-Holds e t index k v h held away =
    let j = if k == t.len - 1 then index else k in
    let lt : j < t.len - 1 = ground (arith, held.0) in
    let from : source_index index t.len j ≡ k = ground (arith, held.0) in
    let same : slot (remove_at index t) j ≡ slot t k =
      active-remove_at index t j v h lt ∙ ap (slot t) from in
    (
      j,
      (omega (arith, lt, len-remove_at index t h), ap (λ r. r.manifest_digest) same ∙ held.1),
      same,
    )

lookup-remove_at_self :
    (d : Bytes) (t : Table) (index : ℕ)
    → IsTable t
    → Holds d t index
    → lookup d (remove_at index t) ≡ none
lookup-remove_at_self d t index v held =
    lookup-none d _ (remove_at-IsTable index t v held.0) λ j held'.
      let (k, there, away) = removed-Holds d t index j v held.0 held' in
      away (v.distinct k index there.0 held.0 (there.1 ∙ sym held.1))

lookup-remove_at_other :
    (e d : Bytes) (t : Table) (index : ℕ)
    → IsTable t
    → Holds d t index
    → e ≢ d
    → lookup e (remove_at index t) ≡ lookup e t
lookup-remove_at_other e d t index v held other =
    lookup-same e t (remove_at index t) v (remove_at-IsTable index t v held.0)
      (λ k there. kept-Holds e t index k v held.0 there λ same.
        let eq : ◌≡◌ {A = Buf} (some e) (some d) =
          sym there.1 ∙ ap (λ i. (slot t i).manifest_digest) same ∙ held.1 in
        other (cc eq))
      (λ j there. let (k, before, _) = removed-Holds e t index j v held.0 there in (k, before))

-- A removal takes one record out of the map and leaves every other as it was.
pub lookup-remove_at :
    (e d : Bytes) (t : Table) (index : ℕ)
    → IsTable t
    → Holds d t index
    → lookup e (remove_at index t) ≡ (if bytes_eq e d then none else lookup e t)
lookup-remove_at e d t index v held = elim (Bool-cases (bytes_eq e d)) [
  | inl same ↦ rw same (
      subst (λ b. lookup b (remove_at index t) ≡ none) (sym ((bytes_eq_iff e d).0 same))
        (lookup-remove_at_self d t index v held))
  | inr other ↦
      rw other
        (lookup-remove_at_other e d t index v held λ same. cc ((bytes_eq_iff e d).1 same, other))
]
