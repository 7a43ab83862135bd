-- ===== src/TcManager/Update.antt =====
-- Enclave/src/tc_manager.cpp: `tc_manager_check_and_update_record`, which finalises a record.
use taws.Base.{
  ℕ, ◌<◌, ◌≡◌, ◌≢◌, ◌⊎◌, sym, ap, ◌∙◌, inl, inr, true, false, Option, none, some, arith, leb,
  if◌then◌else◌, Bytes, bytes_eq, is_empty, Buf, Bool-cases, Option-cases, is_null_or_empty, subst,
}
use taws.TcManager.{
  ManifestRecord, Table, slot, is_complete, find_duplicate, settle, replace_or_drop,
  update_or_discard,
}
use taws.TcManager.Invariant.{IsTable, remove_at-IsTable}
use taws.TcManager.Contents.{lookup, Holds, lookup-Holds, lookup-cases, lookup-remove_at}
use taws.TcManager.Duplicates.{
  find_duplicate-some, find_duplicate-none, name_matches-eq, name_matches-ne, exchanged,
  slot-exchanged, exchanged-IsTable, lookup-exchanged,
}

-- Table `u` is the map `t` without the entry for `x`.
abbrev pub Removes : Bytes → Table → Table → Type 0
Removes x t u = (e : Bytes) → lookup e u ≡ (if bytes_eq e x then none else lookup e t)

-- Entry `x` of the map is another record with the name of `r`.
abbrev pub Rival : Bytes → Bytes → ManifestRecord → Table → ManifestRecord → Type 0
Rival x d r t o = (lookup x t ≡ some o) × (x ≢ d) × (o.wapp_name ≡ r.wapp_name)

-- The digest that goes, of the rival `o` and the new record `r`.
abbrev pub loser : Bytes → Bytes → ManifestRecord → ManifestRecord → Bytes
loser x d o r = if leb o.manifest_sequence_number r.manifest_sequence_number then x else d

-- What finalising the complete record `r` of digest `d` makes of the table: nothing if no other
-- record has its name, and else the older of the two goes, the other one on a tie.
abbrev pub Finalised : Bytes → ManifestRecord → Table → Table → Type 0
Finalised d r t u =
    ((u ≡ t) × ((x : Bytes) (o : ManifestRecord) → ¬ Rival x d r t o))
    ⊎ ((x : Bytes) × (o : ManifestRecord) × Rival x d r t o × Removes (loser x d o r) t u)

pub complete_named : (r : ManifestRecord) → is_complete r ≡ true → is_empty r.wapp_name ≡ false
complete_named r h = ground arith

module _ (t : Table) (d : Bytes) (k : ℕ) (v : IsTable t) (held : Holds d t k)
    (named : is_empty (slot t k).wapp_name ≡ false) where
  other_digest : (i : ℕ) → i < t.len → (x : Bytes) × Holds x t i
  other_digest i lt = elim (Option-cases (slot t i).manifest_digest) [
    | inl e ↦ absurd (cc (v.keyed i lt, ap is_null_or_empty e))
    | inr (x, e) ↦ (x, (lt, e))
  ]

  nobody_else :
      find_duplicate (slot t k).wapp_name k t.slots t.len 0 ≡ none
      → (x : Bytes) (o : ManifestRecord) → ¬ Rival x d (slot t k) t o
  nobody_else miss x o (found, apart, same) = elim (lookup-cases x t v) [
    | inl (gone, _) ↦ cc (found, gone)
    | inr (j, hit, there) ↦
        let away : j ≢ k = λ e. apart_index j there e in
        let here : o ≡ slot t j = cc (found, hit) in
        name_matches-ne _ (slot t j) named
          (find_duplicate-none _ k t.slots t.len 0 miss j there.0
            (omega (arith, there.0, v.full_size, v.in_bounds)) (omega arith))
          (ap (λ r. r.wapp_name) (sym here) ∙ same)
  ]
    where
      apart_index : (j : ℕ) → Holds x t j → j ≢ k
      apart_index j there e =
          let eq : ◌≡◌ {A = Buf} (some x) (some d) =
            sym there.1 ∙ ap (λ i. (slot t i).manifest_digest) e ∙ held.1 in
          apart (cc eq)

  rival :
      (i : ℕ)
      → find_duplicate (slot t k).wapp_name k t.slots t.len 0 ≡ some i
      → (x : Bytes) × Holds x t i × (i ≢ k) × Rival x d (slot t k) t (slot t i)
  rival i hit =
      let (j, at, below, apart, matches) = find_duplicate-some _ k t.slots t.len 0 hit in
      let at' : j ≡ i = omega arith in
      let lt : i < t.len = omega arith in
      let (x, there) = other_digest i lt in
      (
        x,
        there,
        apart,
        (
          lookup-Holds x t i v there,
          (λ e. apart (v.distinct i k lt held.0 (there.1 ∙ ap some e ∙ sym held.1))),
          subst (λ n. (slot t n).wapp_name ≡ (slot t k).wapp_name) at'
              (name_matches-eq _ _ matches),
        ),
      )

  settled :
      (i : ℕ) (x : Bytes)
      → Holds x t i
      → i ≢ k
      → Removes (loser x d (slot t i) (slot t k)) t (replace_or_drop i k t)
  unfolding replace_or_drop
  settled i x there apart =
      elim (Bool-cases
        (leb (slot t i).manifest_sequence_number (slot t k).manifest_sequence_number)) [
          | inl newer ↦ λ e. rw newer (
              lookup-remove_at e x (exchanged i k t) k (exchanged-IsTable t i k v there.0 held.0)
                (held.0, ap (λ r. r.manifest_digest) at_k ∙ there.1)
              ∙ ap (λ o. if bytes_eq e x then none else o)
                  (lookup-exchanged t i k v there.0 held.0 e))
          | inr older ↦ λ e. rw older (lookup-remove_at e d t k v held)
        ]
    where
      at_k : slot (exchanged i k t) k ≡ slot t i
      at_k = slot-exchanged t i k v there.0 held.0 k ∙ ap (slot t) (ground (arith, apart))

  replaced-IsTable : (i : ℕ) → i < t.len → IsTable (replace_or_drop i k t)
  unfolding replace_or_drop
  replaced-IsTable i lt =
      elim (Bool-cases
        (leb (slot t i).manifest_sequence_number (slot t k).manifest_sequence_number)) [
          | inl newer ↦
              rw newer
                (remove_at-IsTable k (exchanged i k t) (exchanged-IsTable t i k v lt held.0) held.0)
          | inr older ↦ rw older (remove_at-IsTable k t v held.0)
        ]

  abbrev duplicate : Option ℕ
  duplicate = find_duplicate (slot t k).wapp_name k t.slots t.len 0

  settles : update_or_discard k t ≡ settle k t duplicate
  unfolding update_or_discard
  settles = ground (arith, named, held.0)

  pub update_or_discard-Finalised : Finalised d (slot t k) t (update_or_discard k t)
  unfolding update_or_discard
  update_or_discard-Finalised =
      subst (Finalised d (slot t k) t) (sym settles) (elim (Option-cases duplicate) [
        | inl miss ↦ inl (ap (settle k t) miss, nobody_else miss)
        | inr (i, hit) ↦
            let (x, there, apart, r) = rival i hit in
            inr (
              x,
              slot t i,
              r,
              subst (λ o. Removes (loser x d (slot t i) (slot t k)) t (settle k t o)) (sym hit)
                  (settled i x there apart),
            )
      ])

  pub update_or_discard-IsTable : IsTable (update_or_discard k t)
  unfolding update_or_discard
  update_or_discard-IsTable = subst IsTable (sym settles) (elim (Option-cases duplicate) [
    | inl miss ↦ subst (λ o. IsTable (settle k t o)) (sym miss) v
    | inr (i, hit) ↦
        let (x, there, _, _) = rival i hit in
        subst (λ o. IsTable (settle k t o)) (sym hit) (replaced-IsTable i there.0)
  ])
