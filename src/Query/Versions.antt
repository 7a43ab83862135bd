-- ===== src/Query/Versions.antt =====
-- Enclave/src/Enclave_process_message.cpp: which versions and cipher suites the agent takes part in.
use mathlib.Core.List.{Memᴰ}
use mathlib.Core.List.Memᴰ
use taws.Base.{
  ℕ, ◌≡◌, ◌⊎◌, ◌↔◌, inl, inr, refl, sym, ap, ◌∙◌, Bool, true, false, not, ◌||◌, Option, none, some,
  List, [], ◌∷◌, ◌==◌, ==_iff, if◌then◌else◌, Bool-cases,
}
use taws.Teep.{
  Libteep, supported_version, CipherSuite, supported_cipher_suite, cipher_suite_invalid,
  QueryRequest,
}
use taws.Query.{contains_version, version_found, find_cipher_suite, select_cipher_suite}

-- The supported version is among those that a request lists, if it lists any.
pub Supports : Option (List ℕ) → Type 0
Supports versions =
    (versions ≡ none) ⊎ ((vs : List ℕ) × (versions ≡ some vs) × Memᴰ supported_version vs)

or_true : (a b : Bool) → b ≡ true → (a || b) ≡ true
or_true true b h = refl
or_true false b h = h

one_more :
    (v : ℕ) (vs : List ℕ)
    → (contains_version vs ≡ true) ↔ Memᴰ supported_version vs
    → (contains_version (v ∷ vs) ≡ true) ↔ Memᴰ supported_version (v ∷ vs)
one_more v vs (shorter, shorter_back) = (to, from)
  where
    to : contains_version (v ∷ vs) ≡ true → Memᴰ supported_version (v ∷ vs)
    to h = elim (Bool-cases (v == supported_version)) [
      | inl same ↦ Memᴰ.head (sym ((==_iff v supported_version).0 same))
      | inr other ↦ Memᴰ.tail (shorter (sym (ap (λ b. b || contains_version vs) other) ∙ h))
    ]

    from : Memᴰ supported_version (v ∷ vs) → contains_version (v ∷ vs) ≡ true
    from (Memᴰ.head e) = ap (λ b. b || contains_version vs) ((==_iff v supported_version).1 (sym e))
    from (Memᴰ.tail m) = or_true (v == supported_version) (contains_version vs) (shorter_back m)

listed_version : (vs : List ℕ) → (contains_version vs ≡ true) ↔ Memᴰ supported_version vs
listed_version [] = (λ h. cc h, λ m. absurd (Memᴰ.not-nil m))
listed_version (v ∷ vs) = one_more v vs (listed_version vs)

pub version_found-Supports :
    (versions : Option (List ℕ)) → (version_found versions ≡ true) ↔ Supports versions
unfolding version_found Supports
version_found-Supports none = (λ _. inl refl, λ _. refl)
version_found-Supports (some vs) = (
  λ h. inr (vs, refl, (listed_version vs).0 h),
  λ s. elim s [
    | inl e ↦ cc e
    | inr (ws, same, m) ↦
        let e : vs ≡ ws = cc same in ap contains_version e ∙ (listed_version ws).1 m
  ],
)

-- The supported cipher suite is among those that a request lists, or it has no such list.
pub data SupportsSuite (l : Libteep) (req : QueryRequest) : Type 0 where
  unlisted : req.contains_cipher_suites ≡ false → SupportsSuite l req
  listed :
      (s : CipherSuite)
      → Memᴰ s req.cipher_suites
      → l.cipher_suite_is_same s (supported_cipher_suite l) ≡ true
      → SupportsSuite l req

-- libteep tells the supported suite and the invalid one apart.
pub record Distinguishes (l : Libteep) : Type 0 where
  pub invalid_same : l.cipher_suite_is_same (cipher_suite_invalid l) (cipher_suite_invalid l) ≡ true
  pub supported_other :
      l.cipher_suite_is_same (supported_cipher_suite l) (cipher_suite_invalid l) ≡ false

-- The loop chooses the supported suite where one of the list is the same, and else keeps its choice.
chosen_suite :
    (l : Libteep) (start : CipherSuite) (suites : List CipherSuite)
    → ((s : CipherSuite) × Memᴰ s suites
        × (l.cipher_suite_is_same s (supported_cipher_suite l) ≡ true)
        × (find_cipher_suite l start suites ≡ supported_cipher_suite l))
      ⊎ (((s : CipherSuite)
            → Memᴰ s suites
            → l.cipher_suite_is_same s (supported_cipher_suite l) ≡ false)
          × (find_cipher_suite l start suites ≡ start))
unfolding find_cipher_suite
chosen_suite l start [] = inr (λ s m. absurd (Memᴰ.not-nil m), refl)
chosen_suite l start (x ∷ xs) =
    let found = supported_cipher_suite l in
    elim (Bool-cases (l.cipher_suite_is_same x found)) [
      | inl same ↦ inl (
        x,
        Memᴰ.head refl,
        same,
        ap (λ b. if b then found else find_cipher_suite l start xs) same,
      )
      | inr other ↦ elim (chosen_suite l start xs) [
        | inl (s, m, same, e) ↦ inl (
          s,
          Memᴰ.tail m,
          same,
          ap (λ b. if b then found else find_cipher_suite l start xs) other ∙ e,
        )
        | inr (none_, e) ↦ inr (
          no_more other none_,
          ap (λ b. if b then found else find_cipher_suite l start xs) other ∙ e,
        )
      ]
    ]
  where
    no_more :
        l.cipher_suite_is_same x (supported_cipher_suite l) ≡ false
        → ((s : CipherSuite)
            → Memᴰ s xs
            → l.cipher_suite_is_same s (supported_cipher_suite l) ≡ false)
        → (s : CipherSuite) → Memᴰ s (x ∷ xs)
        → l.cipher_suite_is_same s (supported_cipher_suite l) ≡ false
    no_more other none_ s (Memᴰ.head e) =
        ap (λ y. l.cipher_suite_is_same y (supported_cipher_suite l)) e ∙ other
    no_more other none_ s (Memᴰ.tail m) = none_ s m

-- The chosen suite is not the invalid one exactly where the request supports a suite.
pub select-SupportsSuite :
    (l : Libteep) (req : QueryRequest)
    → Distinguishes l
    → (l.cipher_suite_is_same (select_cipher_suite l req) (cipher_suite_invalid l) ≡ false)
      ↔ SupportsSuite l req
unfolding select_cipher_suite
select-SupportsSuite l req d = by_list req.contains_cipher_suites refl
  where
    test : CipherSuite → Bool
    test s = l.cipher_suite_is_same s (cipher_suite_invalid l)

    start : Bool → CipherSuite
    start b = if not b then supported_cipher_suite l else cipher_suite_invalid l

    by_list :
        (b : Bool)
        → req.contains_cipher_suites ≡ b
        → (test (find_cipher_suite l (start b) req.cipher_suites) ≡ false) ↔ SupportsSuite l req
    by_list false h = (λ _. unlisted h, λ _. accepted)
      where
        accepted : test (find_cipher_suite l (supported_cipher_suite l) req.cipher_suites) ≡ false
        accepted = elim (chosen_suite l (supported_cipher_suite l) req.cipher_suites) [
          | inl (s, m, same, e) ↦ ap test e ∙ d.supported_other
          | inr (none_, e) ↦ ap test e ∙ d.supported_other
        ]
    by_list true h = elim (chosen_suite l (cipher_suite_invalid l) req.cipher_suites) [
      | inl (s, m, same, e) ↦ (λ _. listed s m same, λ _. ap test e ∙ d.supported_other)
      | inr (none_, e) ↦
          (λ refused. cc (sym (ap test e ∙ d.invalid_same) ∙ refused), λ w. refuted w none_)
    ]
      where
        refuted :
            SupportsSuite l req
            → ((s : CipherSuite)
                → Memᴰ s req.cipher_suites
                → l.cipher_suite_is_same s (supported_cipher_suite l) ≡ false)
            → test (find_cipher_suite l (cipher_suite_invalid l) req.cipher_suites) ≡ false
        refuted (unlisted h') none_ = cc (h, h')
        refuted (listed s m same) none_ = cc (same, none_ s m)

-- What a test does not find is not there, and what it finds there is there.
pub refuted_iff : {A : Type 0} (b : Bool) → (b ≡ true) ↔ A → (b ≡ false) ↔ (¬ A)
refuted_iff true (to, from) = (λ h. cc h, λ n. absurd (n (to refl)))
refuted_iff false (to, from) = (λ _ a. cc (from a), λ _. refl)

pub refused_iff : {A : Type 0} (b : Bool) → (b ≡ false) ↔ A → (b ≡ true) ↔ (¬ A)
refused_iff false (to, from) = (λ h. cc h, λ n. absurd (n (to refl)))
refused_iff true (to, from) = (λ _ a. cc (from a), λ _. refl)
