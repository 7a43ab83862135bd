-- ===== src/TcManager/Names.antt =====
-- Enclave/src/tc_manager.cpp and doc/tc-manager.md, section 5.2: one latest record for each name.
use taws.Base.{
  ◌≤◌, ◌≡◌, ◌≢◌, ◌⊎◌, refl, sym, ap, ◌∙◌, inl, inr, true, false, Option, none, some, arith, leb,
  Bytes, bytes_eq, bytes_eq_iff, is_empty, Bool-cases, success, subst,
}
use taws.TcManager.{ManifestRecord, Table, is_complete, check_and_update_record}
use taws.TcManager.Invariant.{IsTable}
use taws.TcManager.Contents.{lookup}
use taws.TcManager.Update.{Removes, Rival, Finalised}
use taws.TcManager.Finalise.{Checked, check_lem}

-- An entry of the smaller map is one of the larger.
Removes-kept :
    (z x : Bytes) (t u : Table) {o : ManifestRecord}
    → Removes z t u
    → lookup x u ≡ some o
    → (x ≢ z) × (lookup x t ≡ some o)
Removes-kept z x t u {o} gone h = elim (Bool-cases (bytes_eq x z)) [
  | inl same ↦ absurd (cc (gone x, h, same))
  | inr other ↦ (λ e. cc ((bytes_eq_iff x z).1 e, other), kept other)
]
  where
    kept : bytes_eq x z ≡ false → lookup x t ≡ some o
    kept other = sym (rw other at (gone x)) ∙ h

-- No two of the records, `d` left aside, have one name.
abbrev pub UniqueBut : Bytes → Table → Type 0
UniqueBut d t =
    (x y : Bytes) (o p : ManifestRecord)
    → lookup x t ≡ some o
    → lookup y t ≡ some p
    → x ≢ d
    → y ≢ d
    → is_empty o.wapp_name ≡ false
    → o.wapp_name ≡ p.wapp_name
    → x ≡ y

abbrev pub Unique : Table → Type 0
Unique t =
    (x y : Bytes) (o p : ManifestRecord)
    → lookup x t ≡ some o
    → lookup y t ≡ some p
    → is_empty o.wapp_name ≡ false
    → o.wapp_name ≡ p.wapp_name
    → x ≡ y

-- A successful result comes from a complete record.
pub success-Finalised :
    (t : Table) (d : Bytes)
    → IsTable t
    → (check_and_update_record (some d) t).1 ≡ success
    → (r : ManifestRecord) × (lookup d t ≡ some r)
      × (is_complete r ≡ true)
      × Finalised d r t (check_and_update_record (some d) t).0
success-Finalised t d v won = from (lookup d t) refl (check_lem t d v)
  where
    from :
        (o : Option ManifestRecord)
        → lookup d t ≡ o
        → Checked d t o (check_and_update_record (some d) t)
        → (r : ManifestRecord) × (lookup d t ≡ some r)
          × (is_complete r ≡ true)
          × Finalised d r t (check_and_update_record (some d) t).0
    from none e h = absurd (cc (won, h))
    from (some r) e h = elim (Bool-cases (is_complete r)) [
      | inl whole ↦ (r, e, whole, (rw whole at h).1)
      | inr partial ↦ absurd (cc (won, (rw partial at h).0))
    ]

some-eq : {a b : ManifestRecord} → some a ≡ some b → a ≡ b
some-eq e = cc e

bytes-cases : (x y : Bytes) → (x ≡ y) ⊎ (x ≢ y)
bytes-cases x y = elim (Bool-cases (bytes_eq x y)) [
  | inl same ↦ inl ((bytes_eq_iff x y).0 same)
  | inr other ↦ inr λ e. cc ((bytes_eq_iff x y).1 e, other)
]

Removes-other : (z x : Bytes) (t u : Table) → Removes z t u → x ≢ z → lookup x u ≡ lookup x t
Removes-other z x t u gone h = elim (Bool-cases (bytes_eq x z)) [
  | inl same ↦ absurd (h ((bytes_eq_iff x z).0 same))
  | inr other ↦ gone x ∙ rw other
]

-- The map has a record with the name of `o`, and at least its number.
abbrev pub Succeeded : Table → ManifestRecord → Type 0
Succeeded u o =
    (y : Bytes) × (p : ManifestRecord) × (lookup y u ≡ some p)
    × (p.wapp_name ≡ o.wapp_name)
    × (o.manifest_sequence_number ≤ p.manifest_sequence_number)

stays :
    (z x : Bytes) (t u : Table) (o : ManifestRecord)
    → Removes z t u
    → lookup x t ≡ some o
    → x ≢ z
    → Succeeded u o
stays z x t u o gone found apart =
    (x, o, Removes-other z x t u gone apart ∙ found, refl, omega arith)

-- Where the digest that goes is known, the other of the two records stays.
Finalised-cases :
    (t u : Table) (d : Bytes) (r : ManifestRecord)
    → Finalised d r t u
    → ((u ≡ t) × ((x : Bytes) (o : ManifestRecord) → ¬ Rival x d r t o))
      ⊎ ((x : Bytes) × (o : ManifestRecord) × Rival x d r t o
          × (o.manifest_sequence_number ≤ r.manifest_sequence_number)
          × Removes x t u)
      ⊎ ((x : Bytes) × (o : ManifestRecord) × Rival x d r t o
          × (r.manifest_sequence_number ≤ o.manifest_sequence_number)
          × Removes d t u)
Finalised-cases t u d r (inl h) = inl h
Finalised-cases t u d r (inr (x, o, rival, gone)) =
    elim (Bool-cases (leb o.manifest_sequence_number r.manifest_sequence_number)) [
      | inl newer ↦ inr (inl (x, o, rival, ground arith, rw newer at gone))
      | inr older ↦ inr (inr (x, o, rival, ground arith, rw older at gone))
    ]

Finalised-Succeeded :
    (t u : Table) (d x : Bytes) (r o : ManifestRecord)
    → lookup d t ≡ some r
    → Finalised d r t u
    → lookup x t ≡ some o
    → Succeeded u o
Finalised-Succeeded t u d x r o at_d f found = elim (Finalised-cases t u d r f) [
  | inl (e, _) ↦ (x, o, ap (lookup x) e ∙ found, refl, omega arith)
  | inr (inl (y, q, (at_y, apart, name), newer, gone)) ↦ elim (bytes-cases x y) [
    | inl same ↦
        let eq : q ≡ o = some-eq (sym at_y ∙ ap (λ z. lookup z t) (sym same) ∙ found) in
        subst (Succeeded u) eq
          (d, r, Removes-other y d t u gone (λ e. apart (sym e)) ∙ at_d, sym name, newer)
    | inr other ↦ stays y x t u o gone found other
  ]
  | inr (inr (y, q, (at_y, apart, name), older, gone)) ↦ elim (bytes-cases x d) [
    | inl same ↦
        let eq : r ≡ o = some-eq (sym at_d ∙ ap (λ z. lookup z t) (sym same) ∙ found) in
        subst (Succeeded u) eq (y, q, Removes-other d y t u gone apart ∙ at_y, name, older)
    | inr other ↦ stays d x t u o gone found other
  ]
]

-- A record that is finalised with success loses no name, nor lowers its sequence number.
pub no_downgrade :
    (t : Table) (d x : Bytes) (o : ManifestRecord)
    → IsTable t
    → (check_and_update_record (some d) t).1 ≡ success
    → lookup x t ≡ some o
    → Succeeded (check_and_update_record (some d) t).0 o
no_downgrade t d x o v won found =
    let (r, at_d, _, f) = success-Finalised t d v won in
    Finalised-Succeeded t _ d x r o at_d f found

-- Names are unique in `u` if it is a part of `t` in which no record but `r` has the name of `r`.
names_apart :
    (t u : Table) (d : Bytes) (r : ManifestRecord)
    → lookup d t ≡ some r
    → UniqueBut d t
    → ((x : Bytes) (o : ManifestRecord) → lookup x u ≡ some o → lookup x t ≡ some o)
    → ((y : Bytes) (p : ManifestRecord)
        → lookup y u ≡ some p
        → y ≢ d
        → p.wapp_name ≡ r.wapp_name
        → is_empty p.wapp_name ≡ false
        → lookup d u ≡ some r
        → ⊥)
    → Unique u
names_apart t u d r at_d others part alone x y o p hx hy nonempty name = elim (bytes-cases x d) [
  | inl x_d ↦ elim (bytes-cases y d) [
    | inl y_d ↦ x_d ∙ sym y_d
    | inr y_away ↦
        let at_r : o ≡ r = is_r x o hx x_d in
        absurd (
          alone y p hy y_away (sym name ∙ ap (λ q. q.wapp_name) at_r)
            (ap is_empty (sym name) ∙ nonempty)
            (ap (λ z. lookup z u) (sym x_d) ∙ hx ∙ ap some at_r))
  ]
  | inr x_away ↦ elim (bytes-cases y d) [
    | inl y_d ↦
        let at_r : p ≡ r = is_r y p hy y_d in
        absurd (
          alone x o hx x_away (name ∙ ap (λ q. q.wapp_name) at_r) nonempty
            (ap (λ z. lookup z u) (sym y_d) ∙ hy ∙ ap some at_r))
    | inr y_away ↦ others x y o p (part x o hx) (part y p hy) x_away y_away nonempty name
  ]
]
  where
    is_r : (z : Bytes) (q : ManifestRecord) → lookup z u ≡ some q → z ≡ d → q ≡ r
    is_r z q hz e = some-eq (sym (part z q hz) ∙ ap (λ w. lookup w t) e ∙ at_d)

Finalised-Unique :
    (t u : Table) (d : Bytes) (r : ManifestRecord)
    → lookup d t ≡ some r
    → Finalised d r t u
    → UniqueBut d t
    → Unique u
Finalised-Unique t u d r at_d f others = elim (Finalised-cases t u d r f) [
  | inl (e, nobody_else) ↦
      names_apart t u d r at_d others (λ x o h. sym (ap (lookup x) e) ∙ h)
        (λ y p h apart name nonempty _. nobody_else y p (sym (ap (lookup y) e) ∙ h, apart, name))
  | inr (inl (x, q, (at_x, apart, name), _, gone)) ↦
      names_apart t u d r at_d others (λ y o h. (Removes-kept x y t u gone h).1)
        (λ y p h away name' nonempty _.
          let (other, before) = Removes-kept x y t u gone h in
          other (others y x p q before at_x away apart nonempty (name' ∙ sym name)))
  | inr (inr (x, q, _, _, gone)) ↦
      names_apart t u d r at_d others (λ y o h. (Removes-kept d y t u gone h).1)
        (λ y p h away name' nonempty here. (Removes-kept d d t u gone here).0 refl)
]

-- Where the other records have different names, so have all after a record is finalised.
pub check-Unique :
    (t : Table) (d : Bytes)
    → IsTable t
    → (check_and_update_record (some d) t).1 ≡ success
    → UniqueBut d t
    → Unique (check_and_update_record (some d) t).0
check-Unique t d v won others =
    let (r, at_d, whole, f) = success-Finalised t d v won in Finalised-Unique t _ d r at_d f others
