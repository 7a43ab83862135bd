-- ===== src/TcManager/Lookup.antt =====
-- Enclave/src/tc_manager.cpp: the two searches of the table.
use taws.Base.{
  ℕ, zero, suc, ◌+◌, ◌<◌, ◌≡◌, refl, ◌≢◌, inl, inr, Bool, true, false, none, some, List, [], ◌∷◌,
  arith, length, get_or, Bytes, bytes_eq_iff, Bool-cases, is_empty, Buf, is_null_or_empty,
}
use taws.TcManager.{
  ManifestRecord, Table, zero_record, slot, find_index, find_by_digest, digest_matches,
}

-- The search stops at the first record that passes.
pub find_index-some :
    (p : ManifestRecord → Bool) (slots : List ManifestRecord) (n i : ℕ) {k : ℕ}
    → find_index p slots n i ≡ some k
    → (j : ℕ) × (k ≡ i + j)
      × (j < n)
      × (j < length slots)
      × (p (get_or slots j zero_record) ≡ true)
      × ((l : ℕ) → l < j → p (get_or slots l zero_record) ≡ false)
unfolding find_index
find_index-some p slots zero i h = cc
find_index-some p [] (suc n) i h = cc
find_index-some p (r ∷ slots) (suc n) i {k} h = elim (Bool-cases (p r)) [
  | inl e ↦ (0, ground arith, omega arith, omega arith, e, λ l lt. absurd (omega arith))
  | inr e ↦
      let (j, at, below, inside, passes, before) = find_index-some p slots n (suc i) (rw e at h) in
      (suc j, omega arith, omega arith, omega arith, passes, earlier e j before)
]
  where
    earlier :
        p r ≡ false
        → (j : ℕ) → ((l : ℕ) → l < j → p (get_or slots l zero_record) ≡ false)
        → (l : ℕ) → l < suc j
        → p (get_or (r ∷ slots) l zero_record) ≡ false
    earlier e j before zero lt = e
    earlier e j before (suc l) lt = before l (omega arith)

pub find_index-none :
    (p : ManifestRecord → Bool) (slots : List ManifestRecord) (n i : ℕ)
    → find_index p slots n i ≡ none
    → (j : ℕ) → j < n
    → j < length slots
    → p (get_or slots j zero_record) ≡ false
unfolding find_index
find_index-none p slots zero i h j lt in_slots = absurd (omega arith)
find_index-none p [] (suc n) i h j lt in_slots = absurd (omega arith)
find_index-none p (r ∷ slots) (suc n) i h zero lt in_slots = ground arith
find_index-none p (r ∷ slots) (suc n) i h (suc j) lt in_slots =
    find_index-none p slots n (suc i) (ground arith) j (omega arith) (omega arith)

pub digest_matches-eq : (d : Bytes) (b : Buf) → digest_matches d b ≡ true → b ≡ some d
unfolding digest_matches
digest_matches-eq d none h = cc
digest_matches-eq d (some b) h = ground (arith, bytes_eq_iff b d)

-- What a search by digest finds is an active record with that digest.
pub find_by_digest-some :
    (d : Bytes) (t : Table) {k : ℕ}
    → find_by_digest (some d) t ≡ some k
    → (k < t.len) × (k < length t.slots) × ((slot t k).manifest_digest ≡ some d)
unfolding find_by_digest
find_by_digest-some d t {k} h = elim (Bool-cases (is_empty d)) [
  | inl e ↦ absurd (cc (rw e at h))
  | inr e ↦
      let (j, at, below, inside, passes, _) = find_index-some _ t.slots t.len 0 (rw e at h) in
      let same : k ≡ j = omega arith in rw same (below, inside, digest_matches-eq d _ passes)
]

pub find_by_digest-none :
    (d : Bytes) (t : Table)
    → is_empty d ≡ false
    → find_by_digest (some d) t ≡ none
    → (j : ℕ) → j < t.len
    → j < length t.slots
    → (slot t j).manifest_digest ≢ some d
unfolding find_by_digest digest_matches
find_by_digest-none d t e h j lt in_slots eq =
    let fails = find_index-none _ t.slots t.len 0 (rw e at h) j lt in_slots in
    ground (arith, fails, eq, bytes_eq_iff d d)

pub find_by_digest-null :
    (b : Buf) (t : Table) → is_null_or_empty b ≡ true → find_by_digest b t ≡ none
unfolding find_by_digest
find_by_digest-null none t h = refl
find_by_digest-null (some d) t h = rw h
