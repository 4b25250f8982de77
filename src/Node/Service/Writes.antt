-- ===== src/Node/Service/Writes.antt =====
-- service.rs: what a `put` that succeeds leaves in storage and in the counters.
use ferriskv.Prelude.{
  ℕ, ◌≡◌, inl, inr, refl, ◌∙◌, ap, false, Option, none, some, if◌then◌else◌, length, Bool-cases,
}
use ferriskv.Prelude.Bytes.{Bytes, bytes_eq, bytes_eq_iff}
use ferriskv.Prelude.Assoc.{Map, lookup, Distinct}
use ferriskv.Prelude.Int.{ℤ}
use ferriskv.Core.Error.{Result, ok, err, Result-cases, err_not_ok, ◌>>=◌}
use ferriskv.Core.Key.{Subspace, data_space, stats, decode, encode}
use ferriskv.Core.Value
use ferriskv.Core.Storage
use ferriskv.Core.Storage.{StorageBackend}
use ferriskv.Core.Storage.FjallStorage.{Fjall}
use ferriskv.Core.Storage.Laws.{FjallLaws, entries, backend-IsMap, put-other}
use ferriskv.Node.Wal as Wal
use ferriskv.Node.Wal.Segment as Segment
use ferriskv.Node.Quota
use ferriskv.Node.Quota.{QuotaStore, used_bytes, apply_delta}
use ferriskv.Node.Quota.Applied.{apply_storage}
use ferriskv.Node.Watch.{Broadcast, ChangeKind}
use ferriskv.Node.Watch as Watch
use ferriskv.Node.Throttle.{Governor}
use ferriskv.Node.Service.{
  Accounting, NodeService, Disk, plan_accounting, plan_data, previous_bytes, commit_accounting,
  check_quota, publish_change, rotate_wal_if_needed, log, logged, store, stored, schedule_expiry,
  expiry, put_with_ttl,
}
use ferriskv.Node.Service.Entries.{usage_key-IsOther}
use ferriskv.Node.Service.Counters.{apply-Distinct}
use ferriskv.Node.Service.Ended.{ended-keeps}

-- The key under which the node keeps the usage of the tenant that `key` is data of.
abbrev pub IsUsageOf : Bytes → Bytes → Type 0
IsUsageOf key j =
    (t : Bytes) × (p : Bytes) × (decode key ≡ ok (t, data_space, p))
    × (encode t stats Quota.usage_key ≡ ok j)

pub not_its_usage : (key : Bytes) → ¬ IsUsageOf key key
not_its_usage key (t, p, held, usage) = rw held at (usage_key-IsOther t key usage)

tenant_of_plan :
    (r : Result ℕ) (t : Bytes) (f : ℕ → ℤ) (plan : Accounting)
    → (r >>= λ n. ok (some (record { tenant = t; delta = f n }))) ≡ ok (some plan)
    → t ≡ plan.tenant
tenant_of_plan (ok n) t f plan h = cc
tenant_of_plan (err e) t f plan h = cc

tenant_of_found :
    (r : Result (Option Bytes)) (p t : Bytes) (f : ℕ → ℤ) (plan : Accounting)
    → (r >>= λ found.
        previous_bytes p found >>= λ n. ok (some (record { tenant = t; delta = f n })))
      ≡ ok (some plan)
    → t ≡ plan.tenant
tenant_of_found (ok found) p t f plan h = tenant_of_plan (previous_bytes p found) t f plan h
tenant_of_found (err e) p t f plan h = cc

module _ {F : Fjall} {B : Broadcast} {G : Governor} where
  -- An accounting is planned for the tenant that the key is data of.
  pub planned_tenant :
      (svc : NodeService F B G) (key : Bytes) (n : ℕ) (plan : Accounting)
      → plan_accounting key n svc ≡ ok (some plan)
      → (p : Bytes) × (decode key ≡ ok (plan.tenant, data_space, p))
  unfolding plan_accounting plan_data
  planned_tenant svc key n plan h = by_key (decode key) refl h
    where
      by_key :
          (r : Result (Bytes × Subspace × Bytes))
          → decode key ≡ r
          → plan_data svc key n r ≡ ok (some plan)
          → (p : Bytes) × (decode key ≡ ok (plan.tenant, data_space, p))
      by_key (err e) eq h = cc
      by_key (ok (t, data_space, p)) eq h =
          let same = tenant_of_found (Storage.get svc.storage key) p t _ plan h in
          (p, rw (← same) eq)
      by_key (ok (t, other, p)) eq h = cc

pub not_there : (k j : Bytes) → ¬ (k ≡ j) → bytes_eq k j ≡ false
not_there k j h = elim (Bool-cases (bytes_eq k j)) [
  | inl same ↦ absurd (h ((bytes_eq_iff k j).0 same))
  | inr other ↦ other
]

module _ {F : Fjall} {B : Broadcast} {G : Governor} (view : F.Keyspace → Map Bytes)
    (laws : FjallLaws F view) where
  commit-lookup :
      (svc : NodeService F B G) (acc : Option Accounting) (j : Bytes)
      → Distinct (entries view svc.storage)
      → ((plan : Accounting)
          → acc ≡ some plan
          → ¬ (encode plan.tenant stats Quota.usage_key ≡ ok j))
      → lookup j (entries view (commit_accounting acc svc).storage)
        ≡ lookup j (entries view svc.storage)
  unfolding commit_accounting
  commit-lookup svc none j d h = refl
  commit-lookup svc (some plan) j d h =
      elim (apply_storage svc.storage svc.quotas plan.tenant plan.delta) [
        | inl same ↦ ap (λ (s : StorageBackend F). lookup j (entries view s)) same
        | inr (k, v, usage, put) ↦
            let m = backend-IsMap view laws svc.storage d in
            let elsewhere = not_there k j (λ same. h plan refl (usage ∙ ap ok same)) in
            ap (λ (s : StorageBackend F). lookup j (entries view s)) put
            ∙ put-other view svc.storage k v j m elsewhere
      ]

  pub commit-Distinct :
      (svc : NodeService F B G) (acc : Option Accounting)
      → Distinct (entries view svc.storage)
      → Distinct (entries view (commit_accounting acc svc).storage)
  unfolding commit_accounting
  commit-Distinct svc none d = d
  commit-Distinct svc (some plan) d = apply-Distinct view laws svc.storage svc.quotas plan d

  module _ (d : Disk) (key value : Bytes) (kind : ChangeKind) (acc : Option Accounting) (j : Bytes)
      (h : (plan : Accounting)
        → acc ≡ some plan
        → ¬ (encode plan.tenant stats Quota.usage_key ≡ ok j)) where
    pub committed-lookup :
        (svc : NodeService F B G)
        → Distinct (entries view svc.storage)
        → lookup j (
            entries view
              (rotate_wal_if_needed d
                (publish_change key kind value (commit_accounting acc svc))).storage)
          ≡ lookup j (entries view svc.storage)
    committed-lookup svc distinct =
        let (same, q) =
          ended-keeps view laws d key value kind (commit_accounting acc svc)
            (commit-Distinct svc acc distinct) in
        ap (lookup j) same ∙ commit-lookup svc acc j distinct h

    -- The entries once the storage has the new value, behind the remaining steps.
    pub finished-lookup :
        (exp : Option ℕ) (svc : NodeService F B G)
        → Distinct (entries view svc.storage)
        → lookup j (
            entries view
              (rotate_wal_if_needed d (
                publish_change key kind value
                  (commit_accounting acc (schedule_expiry key exp svc)))).storage)
          ≡ lookup j (entries view svc.storage)
    finished-lookup none svc distinct = committed-lookup svc distinct
    finished-lookup (some exp) svc distinct =
        committed-lookup (schedule_expiry key (some exp) svc) distinct

  module _ (crc32 : Bytes → ℕ) (d : Disk) (svc : NodeService F B G)
      (distinct : Distinct (entries view svc.storage)) where
    -- After a put that succeeds the storage holds under its key the value with its expiry, and under
    -- every other key what it held, the record of the usage of the key's tenant excepted.
    pub put_with_ttl-lookup :
        (now : ℕ) (key value : Bytes) (ttl_ms : ℕ) (j : Bytes)
        → ¬ IsUsageOf key j
        → (put_with_ttl crc32 d now key value ttl_ms svc).0 ≡ ok tt
        → lookup j (entries view (put_with_ttl crc32 d now key value ttl_ms svc).1.storage) ≡ (
            if bytes_eq key j
            then some (Value.encode value (expiry now ttl_ms))
            else lookup j (entries view svc.storage))
    unfolding put_with_ttl log logged store stored
    put_with_ttl-lookup now key value ttl_ms j other h =
        let exp = expiry now ttl_ms in
        let raw = Value.encode value exp in
        let m = backend-IsMap view laws svc.storage distinct in
        elim (Result-cases (plan_accounting key (length value) svc)) [
          | inr (e, g) ↦ absurd (err_not_ok e tt (rw g at h))
          | inl (acc, g) ↦ rw g (elim (Result-cases (check_quota acc svc)) [
            | inr (e, k) ↦ absurd (err_not_ok e tt (rw (g, k) at h))
            | inl (u, k) ↦
                rw k
                  (elim (Result-cases
                    (Segment.append crc32 d.append_write d.append_flush Wal.put key raw
                      svc.wal).0) [
                        | inr (e, l) ↦ absurd (err_not_ok e tt (rw (g, k, l) at h))
                        | inl (seq, l) ↦
                            rw l (elim (Result-cases (Storage.put svc.storage key raw).0) [
                              | inr (e, s) ↦ absurd (err_not_ok e tt (rw (g, k, l, s) at h))
                              | inl (v, s) ↦ rw s (
                                  finished-lookup d key value Watch.put acc j
                                    (λ plan eq usage.
                                      let (p, held) =
                                        planned_tenant svc key (length value) plan (g ∙ ap ok eq) in
                                      other (plan.tenant, p, held, usage))
                                    exp _ (m.put_distinct key raw)
                                  ∙ m.put_ok key raw s j)
                            ])
                      ])
          ])
        ]
