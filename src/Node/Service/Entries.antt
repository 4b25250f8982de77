-- ===== src/Node/Service/Entries.antt =====
-- service.rs: what the stored entries count for a tenant, and how a write to storage changes it.
use ferriskv.Prelude.{
  ℕ, ◌+◌, ◌≡◌, inl, inr, refl, ap, Option, none, some, arith, if◌then◌else◌, length,
}
use ferriskv.Prelude.Bytes.{Bytes, bytes_eq}
use ferriskv.Prelude.Assoc.{Map, lookup, Distinct, total, weight}
use ferriskv.Prelude.Totals.{total_ext, total_put, total_delete}
use ferriskv.Core.Error.{Result, ok, err, Result-cases}
use ferriskv.Core.Key.{Subspace, metadata, data_space, index, stats, decode, encode}
use ferriskv.Core.Key.RoundTrip.{decode-encode_subspace}
use ferriskv.Core.Value
use ferriskv.Core.Value.Agreement.{payload_len-encode}
use ferriskv.Core.Storage
use ferriskv.Core.Storage.{StorageBackend}
use ferriskv.Core.Storage.FjallStorage.{Fjall}
use ferriskv.Core.Storage.Laws.{FjallLaws, IsSame, IsWritten, IsRemoved, entries, backend-IsMap}
use ferriskv.Node.Quota
use ferriskv.Node.Quota.{entry_bytes}

-- What one entry counts for a tenant: the bytes of its payload and its value, if its key is data
-- of that tenant and its value can be read, and nothing otherwise.
abbrev pub share : Bytes → Result (Bytes × Subspace × Bytes) → Result ℕ → ℕ
share t (err e) n = 0
share t (ok (u, data_space, p)) (ok n) = if bytes_eq u t then entry_bytes (length p) n else 0
share t (ok (u, data_space, p)) (err e) = 0
share t (ok (u, other, p)) n = 0

unfoldable pub tenant_bytes : Bytes → Bytes → Bytes → ℕ
tenant_bytes t key raw = share t (decode key) (Value.payload_len raw)

pub tenant_bytes-encode :
    (t key v : Bytes) (exp : Option ℕ)
    → tenant_bytes t key (Value.encode v exp) ≡ share t (decode key) (ok (length v))
unfolding tenant_bytes
tenant_bytes-encode t key v exp = ap (share t (decode key)) (payload_len-encode v exp)

-- A key that is not tenant data counts for nothing.
abbrev pub IsOther : Result (Bytes × Subspace × Bytes) → Type 0
IsOther (err e) = Unit
IsOther (ok (u, data_space, p)) = ⊥
IsOther (ok (u, other, p)) = Unit

pub share-IsOther :
    (t : Bytes) (d : Result (Bytes × Subspace × Bytes)) (n : Result ℕ) → IsOther d → share t d n ≡ 0
share-IsOther t (err e) n h = refl
share-IsOther t (ok (u, data_space, p)) n h = absurd h
share-IsOther t (ok (u, metadata, p)) n h = refl
share-IsOther t (ok (u, index, p)) n h = refl
share-IsOther t (ok (u, stats, p)) n h = refl

pub weight-IsOther :
    (t key : Bytes) (o : Option Bytes) → IsOther (decode key) → weight (tenant_bytes t) key o ≡ 0
unfolding tenant_bytes
weight-IsOther t key none h = refl
weight-IsOther t key (some raw) h = share-IsOther t (decode key) (Value.payload_len raw) h

module _ {F : Fjall} (view : F.Keyspace → Map Bytes) (laws : FjallLaws F view)
    (f : Bytes → Bytes → ℕ) (st : StorageBackend F) (d : Distinct (entries view st)) where
  pub total-written :
      (k v : Bytes)
      → IsWritten k v (entries view st) (entries view (Storage.put st k v).1)
      → total f (entries view (Storage.put st k v).1) + weight f k (lookup k (entries view st))
        ≡ total f (entries view st) + f k v
  total-written k v h =
      total_put f k v (entries view st) _ d ((backend-IsMap view laws st d).put_distinct k v) h

  total-same :
      (m : Map Bytes)
      → Distinct m
      → IsSame (entries view st) m
      → total f m ≡ total f (entries view st)
  total-same m dm h = total_ext f m (entries view st) dm d h

  pub total-put_same :
      (k v : Bytes)
      → IsSame (entries view st) (entries view (Storage.put st k v).1)
      → total f (entries view (Storage.put st k v).1) ≡ total f (entries view st)
  total-put_same k v h = total-same _ ((backend-IsMap view laws st d).put_distinct k v) h

  pub total-removed :
      (k : Bytes)
      → IsRemoved k (entries view st) (entries view (Storage.delete st k).1)
      → total f (entries view (Storage.delete st k).1) + weight f k (lookup k (entries view st))
        ≡ total f (entries view st)
  total-removed k h =
      total_delete f k (entries view st) _ d ((backend-IsMap view laws st d).delete_distinct k) h

  pub total-delete_same :
      (k : Bytes)
      → IsSame (entries view st) (entries view (Storage.delete st k).1)
      → total f (entries view (Storage.delete st k).1) ≡ total f (entries view st)
  total-delete_same k h = total-same _ ((backend-IsMap view laws st d).delete_distinct k) h

  -- Where a write leaves a key that counts for nothing, the total stays, whatever its outcome.
  pub total-put_other :
      (k v : Bytes)
      → weight f k (lookup k (entries view st)) ≡ 0
      → f k v ≡ 0
      → total f (entries view (Storage.put st k v).1) ≡ total f (entries view st)
  total-put_other k v old new =
      let m = backend-IsMap view laws st d in
      elim (Result-cases (Storage.put st k v).0) [
        | inl (u, h) ↦ omega (arith, total-written k v (m.put_ok k v h), old, new)
        | inr (e, h) ↦ elim (m.put_failed k v e h) [
          | inl same ↦ total-put_same k v same
          | inr written ↦ omega (arith, total-written k v written, old, new)
        ]
      ]

-- The key under which a tenant's usage is stored is not data.
pub usage_key-IsOther :
    (u key : Bytes) → encode u stats Quota.usage_key ≡ ok key → IsOther (decode key)
usage_key-IsOther u key h = by_result (decode key) refl
  where
    stats_not_data : ¬ (stats ≡ data_space)
    stats_not_data = ground arith

    by_result : (r : Result (Bytes × Subspace × Bytes)) → decode key ≡ r → IsOther r
    by_result (err e) k = tt
    by_result (ok (t, metadata, p)) k = tt
    by_result (ok (t, data_space, p)) k =
        absurd
          (stats_not_data (decode-encode_subspace u stats Quota.usage_key key t data_space p h k))
    by_result (ok (t, index, p)) k = tt
    by_result (ok (t, stats, p)) k = tt
