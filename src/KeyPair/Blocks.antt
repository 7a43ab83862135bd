-- ===== src/KeyPair/Blocks.antt =====
-- Enclave/src/Enclave_generate_keypair.cpp: which blocks the key owns, and what is given to `free`.
use taws.Base.{
  ℕ, ◌≡◌, ◌+◌, refl, sym, ap, subst, ◌∙◌, Bool, true, false, Bytes, if◌then◌else◌, arith,
}
use taws.KeyPair.{
  Pointer, null_pointer, static_array, heap_block, Keys, free, clear_private, clear_public,
  clear_kid, clear_agent_sign_buffers,
}

abbrev pub count : Bool → ℕ
count true = 1
count false = 0

-- A flag and a pointer: how many kids the key owns.
abbrev pub owned_kids : Bool → Pointer → ℕ
owned_kids false p = 0
owned_kids true null_pointer = 0
owned_kids true (static_array b) = 0
owned_kids true (heap_block b) = 1

-- A kid that is alive is owned, an owned kid is no array, and the owned key is in arrays.
pub record IsKeys (k : Keys) : Type 0 where
  pub one_kid : k.live_kids ≡ owned_kids k.owns_kid k.agent.kid
  pub kid_is_block : k.owns_kid ≡ true → (b : Bytes) → ¬ (k.agent.kid ≡ static_array b)
  pub private_in_array :
      k.owns_private ≡ true → (b : Bytes) × (k.agent.private_key ≡ static_array b)
  pub public_in_array : k.owns_public ≡ true → (b : Bytes) × (k.agent.public_key ≡ static_array b)

-- What `free` does to the rest of the state, where it is given an array `n` times.
record PartFreed (k k' : Keys) (n : ℕ) : Type 0 where
  wild : k'.wild_frees ≡ k.wild_frees + n
  live : k'.live_kids ≡ k.live_kids
  owns_kid : k'.owns_kid ≡ k.owns_kid
  kid : k'.agent.kid ≡ k.agent.kid

private-PartFreed :
    (k : Keys)
    → IsKeys k
    → PartFreed k (clear_private k) (count k.owns_private)
      × ((clear_private k).owns_public ≡ k.owns_public)
      × ((clear_private k).agent.public_key ≡ k.agent.public_key)
unfolding clear_private free
private-PartFreed k v = by_flag k.owns_private refl
  where
    cleared : Pointer → Keys
    cleared p =
        let freed = free p k in
        record freed { agent = record k.agent { private_key = null_pointer } }

    Shown : Bool → Keys → Type 0
    Shown b k' =
        PartFreed k k' (count b)
        × (k'.owns_public ≡ k.owns_public)
        × (k'.agent.public_key ≡ k.agent.public_key)

    by_flag :
        (b : Bool) → k.owns_private ≡ b → Shown b (if b then cleared k.agent.private_key else k)
    by_flag false h =
        (record { wild = omega arith; live = refl; owns_kid = refl; kid = refl }, refl, refl)
    by_flag true h =
        let (b, array) = v.private_in_array h in
        subst (λ p. Shown true (cleared p)) (sym array)
          (record { wild = refl; live = refl; owns_kid = refl; kid = refl }, refl, refl)

public-PartFreed :
    (k : Keys)
    → (k.owns_public ≡ true → (b : Bytes) × (k.agent.public_key ≡ static_array b))
    → PartFreed k (clear_public k) (count k.owns_public)
unfolding clear_public free
public-PartFreed k in_array = by_flag k.owns_public refl
  where
    cleared : Pointer → Keys
    cleared p =
        let freed = free p k in
        record freed { agent = record k.agent { public_key = null_pointer } }

    by_flag :
        (b : Bool)
        → k.owns_public ≡ b
        → PartFreed k (if b then cleared k.agent.public_key else k) (count b)
    by_flag false h = record { wild = omega arith; live = refl; owns_kid = refl; kid = refl }
    by_flag true h =
        let (b, array) = in_array h in
        subst (λ p. PartFreed k (cleared p) 1) (sym array)
          (record { wild = refl; live = refl; owns_kid = refl; kid = refl })

kid_freed :
    (k : Keys)
    → k.live_kids ≡ owned_kids k.owns_kid k.agent.kid
    → (k.owns_kid ≡ true → (b : Bytes) → ¬ (k.agent.kid ≡ static_array b))
    → ((clear_kid k).live_kids ≡ 0) × ((clear_kid k).wild_frees ≡ k.wild_frees)
unfolding clear_kid free
kid_freed k one no_array = by_flag k.owns_kid refl one
  where
    cleared : Pointer → Keys
    cleared p =
        let freed = free p k in record freed { agent = record k.agent { kid = null_pointer } }

    by_pointer :
        (p : Pointer)
        → k.live_kids ≡ owned_kids true p
        → ((b : Bytes) → ¬ (p ≡ static_array b))
        → ((cleared p).live_kids ≡ 0) × ((cleared p).wild_frees ≡ k.wild_frees)
    by_pointer null_pointer live none_ = (live, refl)
    by_pointer (static_array b) live none_ = absurd (none_ b refl)
    by_pointer (heap_block b) live none_ = (omega (arith, live), refl)

    by_flag :
        (b : Bool)
        → k.owns_kid ≡ b
        → k.live_kids ≡ owned_kids b k.agent.kid
        → ((if b then cleared k.agent.kid else k).live_kids ≡ 0)
          × ((if b then cleared k.agent.kid else k).wild_frees ≡ k.wild_frees)
    by_flag false h live = (live, refl)
    by_flag true h live = by_pointer k.agent.kid live (no_array h)

-- The release of the old key: no kid is left, and each array that the key owned was given to `free`.
pub record Cleared (k k' : Keys) : Type 0 where
  pub live : k'.live_kids ≡ 0
  pub wild : k'.wild_frees ≡ k.wild_frees + (count k.owns_private + count k.owns_public)
  pub no_kid : k'.owns_kid ≡ false
  pub no_private : k'.owns_private ≡ false
  pub no_public : k'.owns_public ≡ false

pub clear-Cleared : (k : Keys) → IsKeys k → Cleared k (clear_agent_sign_buffers k)
unfolding clear_agent_sign_buffers
clear-Cleared k v =
    let k1 = clear_private k in
    let k2 = clear_public k1 in
    let (f1, same_flag, same_key) = private-PartFreed k v in
    let f2 =
      public-PartFreed k1
        (λ h. let (b, array) = v.public_in_array (sym same_flag ∙ h) in (b, same_key ∙ array)) in
    let owns : k2.owns_kid ≡ k.owns_kid = f2.owns_kid ∙ f1.owns_kid in
    let kid : k2.agent.kid ≡ k.agent.kid = f2.kid ∙ f1.kid in
    let (live, wild) =
      kid_freed k2
        (f2.live
          ∙ f1.live
          ∙ v.one_kid
          ∙ ap (λ o. owned_kids o k.agent.kid) (sym owns)
          ∙ ap (owned_kids k2.owns_kid) (sym kid))
        (λ h b e. v.kid_is_block (sym owns ∙ h) b (sym kid ∙ e)) in
    record {
      live = live;
      wild =
          let same : count k1.owns_public ≡ count k.owns_public = ap count same_flag in
          omega (arith, wild, f1.wild, f2.wild, same);
      no_kid = refl;
      no_private = refl;
      no_public = refl;
    }

-- A state without an owned part.
pub bare-IsKeys :
    (k : Keys)
    → k.live_kids ≡ 0
    → k.owns_kid ≡ false
    → k.owns_private ≡ false
    → k.owns_public ≡ false
    → IsKeys k
bare-IsKeys k live kid private public = record {
  one_kid = live ∙ ap (λ o. owned_kids o k.agent.kid) (sym kid);
  kid_is_block = λ h. cc (h, kid);
  private_in_array = λ h. cc (h, private);
  public_in_array = λ h. cc (h, public);
}
