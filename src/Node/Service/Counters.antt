-- ===== src/Node/Service/Counters.antt =====
-- service.rs: what a planned accounting does to a tenant's counter. `plan_accounting` and
-- `plan_delete_accounting` are compared with the share that the stored entries have.
use ferriskv.Prelude.{
  ℕ, ◌+◌, ◌^◌, ◌≤◌, ◌<◌, ◌≡◌, refl, ◌∙◌, Option, none, some, arith, if◌then◌else◌, length,
  Bool-cases, inl, inr,
}
use ferriskv.Prelude.Bytes.{Bytes, bytes_eq}
use ferriskv.Prelude.Assoc.{Map, lookup, Distinct, total, weight, total-remove}
use ferriskv.Prelude.Int.{sub_i64}
use ferriskv.Core.Error as Error
use ferriskv.Core.Error.{Result, ok, err}
use ferriskv.Core.Key.{Subspace, data_space, decode}
use ferriskv.Core.Key.RoundTrip.{length-decode}
use ferriskv.Core.Value
use ferriskv.Core.Storage
use ferriskv.Core.Storage.{StorageBackend}
use ferriskv.Core.Storage.FjallStorage.{Fjall}
use ferriskv.Core.Storage.Laws.{FjallLaws, entries, backend-IsMap}
use ferriskv.Node.Quota
use ferriskv.Node.Quota.{QuotaStore, entry_bytes, apply_delta, used_bytes}
use ferriskv.Node.Quota.Applied.{apply_storage, apply_delta-sub_i64}
use ferriskv.Node.Watch.{Broadcast}
use ferriskv.Node.Throttle.{Governor}
use ferriskv.Node.Service.{
  Accounting, NodeService, plan_accounting, plan_delete_accounting, previous_bytes, freed,
  plan_data, plan_delete,
}
use ferriskv.Node.Service.Entries.{
  share, tenant_bytes, total-put_other, share-IsOther, usage_key-IsOther, weight-IsOther, IsOther,
}

-- A tenant's counter after an accounting.
abbrev pub charged : Option Accounting → Bytes → ℕ → ℕ
charged none t c = c
charged (some plan) t c = if bytes_eq plan.tenant t then apply_delta c plan.delta else c

-- `Quota.apply` moves the tenant's counter alone, and leaves what the entries count for.
module _ {F : Fjall} (view : F.Keyspace → Map Bytes) (laws : FjallLaws F view)
    (st : StorageBackend F) (q : QuotaStore) (plan : Accounting) where
  abbrev pub applied : Result (Unit {0}) × (StorageBackend F × QuotaStore)
  applied = Quota.apply st q plan.tenant plan.delta

  pub total-apply :
      (t : Bytes)
      → Distinct (entries view st)
      → total (tenant_bytes t) (entries view applied.1.0) ≡ total (tenant_bytes t) (entries view st)
  total-apply t d = elim (apply_storage st q plan.tenant plan.delta) [
    | inl same ↦ rw same refl
    | inr (key, v, usage, put) ↦
        let other = usage_key-IsOther plan.tenant key usage in
        rw put (
          total-put_other view laws (tenant_bytes t) st d key v
            (weight-IsOther t key (lookup key (entries view st)) other)
            (weight-IsOther t key (some v) other))
  ]

  pub apply-Distinct : Distinct (entries view st) → Distinct (entries view applied.1.0)
  apply-Distinct d = elim (apply_storage st q plan.tenant plan.delta) [
    | inl same ↦ rw same d
    | inr (key, v, usage, put) ↦ rw put ((backend-IsMap view laws st d).put_distinct key v)
  ]

-- What the stored bytes of one key of data count for.
module _ (t u p key : Bytes) where
  abbrev pub counted : Option Bytes → ℕ
  counted o =
      weight (λ (k raw : Bytes). share t (ok (u, data_space, p)) (Value.payload_len raw)) key o

  abbrev pub planned : ℕ → ℕ → Option Accounting
  planned a b = some (record { tenant = u; delta = sub_i64 a b })

  charged-planned :
      (a b c : ℕ)
      → (if bytes_eq u t then b else 0) ≤ c
      → c + a < 2 ^ 63
      → charged (planned a b) t c + (if bytes_eq u t then b else 0)
        ≡ c + (if bytes_eq u t then a else 0)
  charged-planned a b c h room = elim (Bool-cases (bytes_eq u t)) [
    | inl same ↦ rw same (apply_delta-sub_i64 c a b (rw same at h) room)
    | inr other ↦ rw other refl
  ]

  entry_bytes-exact : (m n : ℕ) → m + n < 2 ^ 63 → entry_bytes m n ≡ m + n
  unfolding entry_bytes
  entry_bytes-exact m n h = omega arith

  charged-planned_new :
      (a c : ℕ) → c + a < 2 ^ 63 → charged (planned a 0) t c ≡ c + (if bytes_eq u t then a else 0)
  charged-planned_new a c room = elim (Bool-cases (bytes_eq u t)) [
    | inl same ↦ rw same (omega (arith, apply_delta-sub_i64 c a 0 (omega arith) room))
    | inr other ↦ rw other (omega arith)
  ]

  replaced_read :
      (n c : ℕ) (r : Result ℕ) (acc : Option Accounting)
      → Error.◌>>=◌
          (Error.◌>>=◌ r (λ m. ok (entry_bytes (length p) m)))
          (λ previous. ok (planned (entry_bytes (length p) n) previous))
        ≡ ok acc
      → share t (ok (u, data_space, p)) r ≤ c
      → c + (length p + n) < 2 ^ 63
      → charged acc t c + share t (ok (u, data_space, p)) r
        ≡ c + share t (ok (u, data_space, p)) (ok n)
  replaced_read n c (err e) acc h k room = cc
  replaced_read n c (ok m) acc h k room =
      let size = entry_bytes-exact (length p) n (omega arith) in
      let same : acc ≡ planned (entry_bytes (length p) n) (entry_bytes (length p) m) = cc in
      rw same
        (charged-planned (entry_bytes (length p) n) (entry_bytes (length p) m) c k (omega arith))

  pub replaced :
      (n c : ℕ) (o : Option Bytes) (acc : Option Accounting)
      → Error.◌>>=◌
          (previous_bytes p o)
          (λ previous. ok (planned (entry_bytes (length p) n) previous))
        ≡ ok acc
      → counted o ≤ c
      → c + (length p + n) < 2 ^ 63
      → charged acc t c + counted o ≡ c + share t (ok (u, data_space, p)) (ok n)
  replaced n c none acc h k room =
      let size = entry_bytes-exact (length p) n (omega arith) in
      let same : acc ≡ planned (entry_bytes (length p) n) 0 = cc in
      rw same (omega (arith, charged-planned_new (entry_bytes (length p) n) c (omega arith)))
  replaced n c (some raw) acc h k room = replaced_read n c (Value.payload_len raw) acc h k room

  dropped_read :
      (c : ℕ) (r : Result ℕ) (acc : Option Accounting)
      → Error.◌>>=◌ r (λ m. ok (planned 0 (entry_bytes (length p) m))) ≡ ok acc
      → share t (ok (u, data_space, p)) r ≤ c
      → c < 2 ^ 63
      → charged acc t c + share t (ok (u, data_space, p)) r ≡ c
  dropped_read c (err e) acc h k room = cc
  dropped_read c (ok m) acc h k room =
      let same : acc ≡ planned 0 (entry_bytes (length p) m) = cc in
      let moved = charged-planned 0 (entry_bytes (length p) m) c k (omega arith) in
      rw same (moved ∙ nothing)
    where
      nothing : c + (if bytes_eq u t then 0 else 0) ≡ c
      nothing = elim (Bool-cases (bytes_eq u t)) [
        | inl here ↦ rw here (omega arith)
        | inr there ↦ rw there (omega arith)
      ]

  pub dropped :
      (c : ℕ) (o : Option Bytes) (acc : Option Accounting)
      → freed u p o ≡ ok acc
      → counted o ≤ c
      → c < 2 ^ 63
      → charged acc t c + counted o ≡ c
  unfolding freed
  dropped c none acc h k room = let same : acc ≡ none = cc in rw same (omega arith)
  dropped c (some raw) acc h k room = dropped_read c (Value.payload_len raw) acc h k room

-- The same by what the key decodes to.
abbrev pub by_key : Bytes → Result (Bytes × Subspace × Bytes) → Bytes → Option Bytes → ℕ
by_key t r key o = weight (λ (k raw : Bytes). share t r (Value.payload_len raw)) key o

pub weight-tenant_bytes :
    (t key : Bytes) (o : Option Bytes) → weight (tenant_bytes t) key o ≡ by_key t (decode key) key o
unfolding tenant_bytes
weight-tenant_bytes t key none = refl
weight-tenant_bytes t key (some raw) = refl

unplanned :
    (t key : Bytes) (r : Result (Bytes × Subspace × Bytes)) (o : Option Bytes) (c : ℕ)
    (acc : Option Accounting)
    → IsOther r
    → ok none ≡ ok acc
    → charged acc t c + by_key t r key o ≡ c
unplanned t key r none c acc other h = let same : acc ≡ none = cc in rw same (omega arith)
unplanned t key r (some raw) c acc other h =
    let same : acc ≡ none = cc in
    rw same (omega (arith, share-IsOther t r (Value.payload_len raw) other))

module _ {F : Fjall} {B : Broadcast} {G : Governor} (view : F.Keyspace → Map Bytes)
    (laws : FjallLaws F view) (svc : NodeService F B G)
    (d : Distinct (entries view svc.storage)) where
  pub weight-le-total :
      (t key : Bytes)
      → weight (tenant_bytes t) key (lookup key (entries view svc.storage))
        ≤ total (tenant_bytes t) (entries view svc.storage)
  weight-le-total t key =
      omega (arith, total-remove (tenant_bytes t) key (entries view svc.storage))

  -- The planned change turns what the old entry counts for into what the new one will.

  module _ (key t : Bytes) (c : ℕ) (acc : Option Accounting) where
    found : Option Bytes
    found = lookup key (entries view svc.storage)

    plan_data_charge :
        (n : ℕ) (r : Result (Bytes × Subspace × Bytes))
        → decode key ≡ r
        → plan_data svc key n r ≡ ok acc
        → by_key t r key found ≤ c
        → c + (length key + n) < 2 ^ 63
        → charged acc t c + by_key t r key found ≡ c + share t r (ok n)
    unfolding plan_data found
    plan_data_charge n (err e) eq h k room = unplanned t key (err e) found c acc tt h ∙ omega arith
    plan_data_charge n (ok (u, data_space, p)) eq h k room =
        by_get (Storage.get svc.storage key) refl h
      where
        by_get :
            (g : Result (Option Bytes))
            → Storage.get svc.storage key ≡ g
            → Error.◌>>=◌ g (λ o.
              Error.◌>>=◌
                (previous_bytes p o)
                (λ previous. ok (planned t u p key (entry_bytes (length p) n) previous)))
              ≡ ok acc
            → charged acc t c + by_key t (ok (u, data_space, p)) key found
              ≡ c + share t (ok (u, data_space, p)) (ok n)
        by_get (err e) read planned = cc
        by_get (ok o) read planned =
            let same = (backend-IsMap view laws svc.storage d).get_ok key o read in
            let short = length-decode key u data_space p eq in
            replaced t u p key n c found acc (rw same at planned) k (omega arith)
    plan_data_charge n (ok (u, other, p)) eq h k room =
        unplanned t key (ok (u, other, p)) found c acc tt h ∙ omega arith

    plan_delete_charge :
        (r : Result (Bytes × Subspace × Bytes))
        → plan_delete svc key r ≡ ok acc
        → by_key t r key found ≤ c
        → c < 2 ^ 63
        → charged acc t c + by_key t r key found ≡ c
    unfolding plan_delete found
    plan_delete_charge (err e) h k room = unplanned t key (err e) found c acc tt h
    plan_delete_charge (ok (u, data_space, p)) h k room =
        by_get (Storage.get svc.storage key) refl h
      where
        by_get :
            (g : Result (Option Bytes))
            → Storage.get svc.storage key ≡ g
            → Error.◌>>=◌ g (freed u p) ≡ ok acc
            → charged acc t c + by_key t (ok (u, data_space, p)) key found ≡ c
        by_get (err e) read planned = cc
        by_get (ok o) read planned =
            let same = (backend-IsMap view laws svc.storage d).get_ok key o read in
            dropped t u p key c found acc (rw same at planned) k room
    plan_delete_charge (ok (u, other, p)) h k room =
        unplanned t key (ok (u, other, p)) found c acc tt h

    -- The planned change turns what the old entry counts for into what the new one will.
    pub plan_accounting_charge :
        (n : ℕ)
        → plan_accounting key n svc ≡ ok acc
        → weight (tenant_bytes t) key (lookup key (entries view svc.storage)) ≤ c
        → c + (length key + n) < 2 ^ 63
        → charged acc t c + weight (tenant_bytes t) key (lookup key (entries view svc.storage))
          ≡ c + share t (decode key) (ok n)
    unfolding plan_accounting found
    plan_accounting_charge n h k room =
        let by = weight-tenant_bytes t key found in
        rw by (plan_data_charge n (decode key) refl h (rw by at k) room)

    pub plan_delete_accounting_charge :
        plan_delete_accounting key svc ≡ ok acc
        → weight (tenant_bytes t) key (lookup key (entries view svc.storage)) ≤ c
        → c < 2 ^ 63
        → charged acc t c + weight (tenant_bytes t) key (lookup key (entries view svc.storage)) ≡ c
    unfolding plan_delete_accounting found
    plan_delete_accounting_charge h k room =
        let by = weight-tenant_bytes t key found in
        rw by (plan_delete_charge (decode key) h (rw by at k) room)
