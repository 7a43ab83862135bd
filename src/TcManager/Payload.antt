-- ===== src/TcManager/Payload.antt =====
-- Enclave/src/tc_manager.cpp: what a stored payload leaves in the record of its digest.
use taws.Base.{
  ◌≡◌, refl, sym, ap, ◌∙◌, false, Option, none, some, arith, Bytes, bytes_eq_refl, is_empty,
  success,
}
use taws.TcManager.{
  Csuit, ManifestRecord, Table, StoreArgs, Mallocs, suit_store, fill_record, store_record,
}
use taws.TcManager.Invariant.{IsTable}
use taws.TcManager.Contents.{lookup}
use taws.TcManager.Store.{claimed, stored, observed, store_lem}

-- The record holds the payload, and its hash over what the field held before.
abbrev pub HoldsPayload : Csuit → Bytes → ManifestRecord → Type 0
HoldsPayload c bin r =
    (r.wapp_bin ≡ some bin) × ((old : Bytes) × (r.wapp_hash ≡ c.generate_sha256 bin old))

fill_payload :
    (c : Csuit) (m : Mallocs) (a : StoreArgs) (bin : Bytes) (r : ManifestRecord)
    → a.is_manifest_itself ≡ false
    → a.src_buf ≡ some bin
    → is_empty bin ≡ false
    → (fill_record c m a r).1 ≡ success
    → HoldsPayload c bin (fill_record c m a r).0
unfolding fill_record
fill_payload c m a bin r payload src nonempty h = (ground arith, (r.wapp_hash, ground arith))

module _ (c : Csuit) (m : Mallocs) (a : StoreArgs) (t : Table) (d bin : Bytes) (v : IsTable t)
    (op : a.operation ≡ suit_store) (ad : a.manifest_digest ≡ some d)
    (nonempty : is_empty d ≡ false) (payload : a.is_manifest_itself ≡ false)
    (src : a.src_buf ≡ some bin) (full : is_empty bin ≡ false) where
  pub store_payload :
      (store_record c m (some a) t).1 ≡ success
      → (r : ManifestRecord) × (lookup d (store_record c m (some a) t).0 ≡ some r)
        × HoldsPayload c bin r
  store_payload won = by_claim (claimed m d t) (store_lem c m a t d v d op ad nonempty)
    where
      by_claim :
          (o : Option ManifestRecord)
          → observed d (store_record c m (some a) t) ≡ stored c m a d d t o
          → (r : ManifestRecord) × (lookup d (store_record c m (some a) t).0 ≡ some r)
            × HoldsPayload c bin r
      by_claim none e = absurd (cc (ap (λ p. p.1) e, won))
      by_claim (some r) e =
          let filled : (fill_record c m a r).1 ≡ success = sym (ap (λ p. p.1) e) ∙ won in
          (
            (fill_record c m a r).0,
            ap (λ p. p.0) e ∙ rw (bytes_eq_refl d) refl,
            fill_payload c m a bin r payload src full filled,
          )
