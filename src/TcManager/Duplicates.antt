-- ===== src/TcManager/Duplicates.antt =====
-- Enclave/src/tc_manager.cpp: the search for a record of the same name, and the exchange of two.
use taws.Base.{
  ℕ, zero, suc, ◌+◌, ◌<◌, ◌≡◌, ◌≢◌, ◌⊎◌, set, sym, ap, ◌∙◌, inl, inr, true, false, none, some, List,
  [], ◌∷◌, arith, ◌==◌, if◌then◌else◌, length, length-set, get_or, get_or-set, Bytes, bytes_eq_iff,
  is_empty,
}
use taws.TcManager.{ManifestRecord, Table, zero_record, slot, write, name_matches, find_duplicate}
use taws.TcManager.Invariant.{IsTable}
use taws.TcManager.Contents.{lookup, lookup-same}

pub name_matches-eq :
    (name : Bytes) (r : ManifestRecord) → name_matches name r ≡ true → r.wapp_name ≡ name
unfolding name_matches
name_matches-eq name r h = ground (arith, bytes_eq_iff r.wapp_name name)

pub name_matches-ne :
    (name : Bytes) (r : ManifestRecord)
    → is_empty name ≡ false
    → name_matches name r ≡ false
    → r.wapp_name ≢ name
unfolding name_matches
name_matches-ne name r nonempty h e = ground (arith, e, bytes_eq_iff r.wapp_name name)

find_duplicate_step :
    (name : Bytes) (self : ℕ) (r : ManifestRecord) (slots : List ManifestRecord) (n i : ℕ) {k : ℕ}
    → find_duplicate name self (r ∷ slots) (suc n) i ≡ some k
    → ((k ≡ i) × (k ≢ self) × (name_matches name r ≡ true))
      ⊎ (find_duplicate name self slots n (suc i) ≡ some k)
unfolding find_duplicate
find_duplicate_step name self r slots n i h = ground arith

pub find_duplicate-some :
    (name : Bytes) (self : ℕ) (slots : List ManifestRecord) (n i : ℕ) {k : ℕ}
    → find_duplicate name self slots n i ≡ some k
    → (j : ℕ) × (k ≡ i + j)
      × (j < n)
      × (k ≢ self)
      × (name_matches name (get_or slots j zero_record) ≡ true)
find_duplicate-some name self slots zero i h = unfold find_duplicate in cc
find_duplicate-some name self [] (suc n) i h = unfold find_duplicate in cc
find_duplicate-some name self (r ∷ slots) (suc n) i h =
    elim (find_duplicate_step name self r slots n i h) [
      | inl (at, apart, hit) ↦ (0, omega arith, omega arith, apart, hit)
      | inr rest ↦
          let (j, at, below, apart, hit) = find_duplicate-some name self slots n (suc i) rest in
          (suc j, omega arith, omega arith, apart, hit)
    ]

pub find_duplicate-none :
    (name : Bytes) (self : ℕ) (slots : List ManifestRecord) (n i : ℕ)
    → find_duplicate name self slots n i ≡ none
    → (j : ℕ) → j < n
    → j < length slots
    → i + j ≢ self
    → name_matches name (get_or slots j zero_record) ≡ false
unfolding find_duplicate
find_duplicate-none name self slots zero i h j lt inside apart = absurd (omega arith)
find_duplicate-none name self [] (suc n) i h j lt inside apart = absurd (omega arith)
find_duplicate-none name self (r ∷ slots) (suc n) i h zero lt inside apart = ground arith
find_duplicate-none name self (r ∷ slots) (suc n) i h (suc j) lt inside apart =
    find_duplicate-none name self slots n (suc i) (ground arith) j (omega arith) (omega arith)
      (omega arith)

-- Two records change places.
abbrev pub exchanged : ℕ → ℕ → Table → Table
exchanged other index t = write (write t other (slot t index)) index (slot t other)

abbrev pub other_index : ℕ → ℕ → ℕ → ℕ
other_index i k j = if j == i then k else if j == k then i else j

module _ (t : Table) (i k : ℕ) (v : IsTable t) (hi : i < t.len) (hk : k < t.len) where
  pub slot-exchanged : (j : ℕ) → slot (exchanged i k t) j ≡ slot t (other_index i k j)
  slot-exchanged j = ground (
    arith,
    v.full_size,
    v.in_bounds,
    get_or-set (set t.slots i (slot t k)) k j (slot t i) zero_record,
    get_or-set t.slots i j (slot t k) zero_record,
    length-set t.slots i (slot t k),
  )

  inside : (j : ℕ) → j < t.len → other_index i k j < t.len
  inside j h = ground arith

  pub exchanged-IsTable : IsTable (exchanged i k t)
  exchanged-IsTable = record {
    full_size =
        length-set (set t.slots i (slot t k)) k (slot t i)
        ∙ length-set t.slots i (slot t k)
        ∙ v.full_size;
    in_bounds = v.in_bounds;
    cleared = λ j past. slot-exchanged j ∙ v.cleared _ (ground arith);
    keyed = λ j lt. rw (slot-exchanged j) (v.keyed _ (inside j lt));
    distinct = λ a b la lb e.
        let same =
          v.distinct (other_index i k a) (other_index i k b) (inside a la) (inside b lb)
            (sym (digest_at a) ∙ e ∙ digest_at b) in
        ground (arith, same);
  }
    where
      digest_at :
          (j : ℕ)
          → (slot (exchanged i k t) j).manifest_digest
            ≡ (slot t (other_index i k j)).manifest_digest
      digest_at j = ap (λ r. r.manifest_digest) (slot-exchanged j)

  pub lookup-exchanged : (e : Bytes) → lookup e (exchanged i k t) ≡ lookup e t
  lookup-exchanged e =
      lookup-same e t (exchanged i k t) v exchanged-IsTable
        (λ j held. (
          other_index i k j,
          (inside j held.0, ap (λ r. r.manifest_digest) (back j) ∙ held.1),
          back j,
        ))
        (λ j held. (
          other_index i k j,
          (inside j held.0, sym (ap (λ r. r.manifest_digest) (slot-exchanged j)) ∙ held.1),
        ))
    where
      back : (j : ℕ) → slot (exchanged i k t) (other_index i k j) ≡ slot t j
      back j = slot-exchanged (other_index i k j) ∙ ap (slot t) (twice j)
        where
          twice : (j : ℕ) → other_index i k (other_index i k j) ≡ j
          twice j = ground arith
