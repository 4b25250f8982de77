-- ===== src/Node/Quota/Stored.antt =====
-- quota.rs: what `set_quota` and `clear_quota` leave in storage and in the cache.
use ferriskv.Prelude.{false, ◌≡◌, refl, ap, subst, none}
use ferriskv.Prelude.Bytes.{Bytes, bytes_eq, bytes_eq_refl}
use ferriskv.Prelude.Assoc.{insert, lookup-insert_here, lookup-insert_other}
use ferriskv.Core.Error as Error
use ferriskv.Core.Error.{err_not_ok, Result, ok, err}
use ferriskv.Core.Key.{metadata, encode}
use ferriskv.Core.Value as Value
use ferriskv.Core.Storage as Storage
use ferriskv.Core.Storage.{StorageBackend}
use ferriskv.Core.Storage.FjallStorage.{Fjall, Fallible, value, fault}
use ferriskv.Node.Quota.{
  Quota, QuotaStore, Json, quota, usage_of, used_bytes, quota_key, encoded_quota, cache_quota,
  set_quota_at, set_quota,
}

module _ (s : QuotaStore) (tenant : Bytes) (q : Quota) where
  -- The store with the tenant's quota in the cache.
  abbrev pub cached : QuotaStore
  cached = record s { quotas = insert tenant q s.quotas }

  pub quota-cached : quota cached tenant ≡ q
  unfolding quota
  quota-cached = rw (lookup-insert_here tenant tenant q s.quotas (bytes_eq_refl tenant)) refl

  pub usage_of-cached_other :
      (u : Bytes) → bytes_eq tenant u ≡ false → usage_of cached u ≡ usage_of s u
  unfolding usage_of quota used_bytes
  usage_of-cached_other u other = rw (lookup-insert_other tenant u q s.quotas other) refl

module _ {F : Fjall} (json : Json) (st : StorageBackend F) (s : QuotaStore) (tenant : Bytes) where
  -- The storage has the record, and the cache the quota.
  abbrev pub IsStored : Quota → StorageBackend F × QuotaStore → Type 0
  IsStored q (st', s') =
      (key : Bytes) × (body : Bytes) × (encode tenant metadata quota_key ≡ ok key)
      × (json.to_vec q ≡ value body)
      × (Storage.put st key (Value.encode body none) ≡ (ok tt, st'))
      × (s' ≡ cached s tenant q)

  pub set_quota-IsStored :
      (q : Quota) (after : StorageBackend F × QuotaStore)
      → set_quota json st s tenant q ≡ (ok tt, after)
      → IsStored q after
  unfolding set_quota encoded_quota cache_quota set_quota_at
  set_quota-IsStored q after h = by_key (encode tenant metadata quota_key) refl h
    where
      by_put :
          (key body : Bytes) (r : Result (Unit {0}) × StorageBackend F)
          → encode tenant metadata quota_key ≡ ok key
          → json.to_vec q ≡ value body
          → Storage.put st key (Value.encode body none) ≡ r
          → cache_quota s tenant q r ≡ (ok tt, after)
          → IsStored q after
      by_put key body (ok u, st2) k b p h =
          let same : (st2, record s { quotas = insert tenant q s.quotas }) ≡ after =
            ap (λ r. r.1) h in
          subst (IsStored q) same (key, body, k, b, p, refl)
      by_put key body (err e, st2) k b p h = absurd (err_not_ok e tt (ap (λ r. r.0) h))

      by_body :
          (key : Bytes) (f : Fallible Bytes)
          → encode tenant metadata quota_key ≡ ok key
          → json.to_vec q ≡ f
          → set_quota_at st s tenant q (Error.◌>>=◌ (encoded_quota tenant f) λ body. ok (key, body))
            ≡ (ok tt, after)
          → IsStored q after
      by_body key (value body) k b h = by_put key body _ k b refl h
      by_body key (fault e) k b h = absurd (err_not_ok _ tt (ap (λ r. r.0) h))

      by_key :
          (r : Result Bytes)
          → encode tenant metadata quota_key ≡ r
          → set_quota_at st s tenant q (
              Error.◌>>=◌ r
                λ key. Error.◌>>=◌ (encoded_quota tenant (json.to_vec q)) λ body. ok (key, body))
            ≡ (ok tt, after)
          → IsStored q after
      by_key (err e) k h = absurd (err_not_ok e tt (ap (λ r. r.0) h))
      by_key (ok key) k h = by_body key (json.to_vec q) k refl h
