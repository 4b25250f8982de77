-- ===== src/Node/Service/Usage.antt =====
-- service.rs: the counters of used bytes agree with what is stored, after every outcome of `put`
-- and `delete`.
use ferriskv.Prelude.{
  ℕ, ◌+◌, ◌^◌, ◌≤◌, ◌<◌, ◌≡◌, inl, inr, ◌⊎◌, refl, sym, ◌∙◌, ap, Option, none, some, [], arith,
  if◌then◌else◌, length, Bool-cases,
}
use ferriskv.Prelude.Bytes.{Bytes, bytes_eq, bytes_eq_iff}
use ferriskv.Prelude.Assoc.{Map, lookup, Distinct, total, weight}
use ferriskv.Core.Error.{ok, Result-cases}
use ferriskv.Core.Value
use ferriskv.Core.Storage
use ferriskv.Core.Storage.{StorageBackend}
use ferriskv.Core.Storage.FjallStorage.{Fjall}
use ferriskv.Core.Storage.Laws.{FjallLaws, IsWritten, IsRemoved, entries, backend-IsMap}
use ferriskv.Node.Wal.{WalOp}
use ferriskv.Node.Wal as Wal
use ferriskv.Node.Wal.Segment as Segment
use ferriskv.Node.Quota.{QuotaStore, used_bytes, apply_delta}
use ferriskv.Node.Quota.Applied.{used_bytes-apply}
use ferriskv.Node.Watch.{Broadcast, ChangeKind}
use ferriskv.Node.Watch as Watch
use ferriskv.Node.Throttle.{Governor}
use ferriskv.Node.Service.{
  Accounting, NodeService, Disk, plan_accounting, plan_delete_accounting, commit_accounting,
  check_quota, publish_change, rotate_wal_if_needed, log, logged, store, stored, unstore,
  schedule_expiry, expiry, put_with_ttl, delete,
}
use ferriskv.Node.Service.Unfinished.{IsHalfPut, IsHalfDelete}
use ferriskv.Node.Service.Ended.{ended-keeps}
use ferriskv.Node.Service.Entries.{
  tenant_bytes, tenant_bytes-encode, total-written, total-put_same, total-removed,
  total-delete_same,
}
use ferriskv.Node.Service.Counters.{
  charged, total-apply, apply-Distinct, weight-le-total, plan_accounting_charge,
  plan_delete_accounting_charge,
}

charged_same :
    (q : QuotaStore) (plan : Accounting) (t : Bytes)
    → (if bytes_eq plan.tenant t
        then apply_delta (used_bytes q plan.tenant) plan.delta
        else used_bytes q t)
      ≡ charged (some plan) t (used_bytes q t)
charged_same q plan t = elim (Bool-cases (bytes_eq plan.tenant t)) [
  | inl same ↦ rw same (
      ap (λ (u : Bytes). apply_delta (used_bytes q u) plan.delta)
        ((bytes_eq_iff plan.tenant t).0 same))
  | inr other ↦ rw other refl
]

-- Every counter is what the tenant's entries count for.
abbrev pub Agrees : Map Bytes → QuotaStore → Type 0
Agrees m q = Distinct m × ((t : Bytes) → used_bytes q t ≡ total (tenant_bytes t) m)

module _ {F : Fjall} {B : Broadcast} {G : Governor} (view : F.Keyspace → Map Bytes) where
  unfoldable pub Exact : NodeService F B G → Type 0
  Exact svc = Agrees (entries view svc.storage) svc.quotas

  by_parts :
      (svc next : NodeService F B G)
      → entries view next.storage ≡ entries view svc.storage
      → next.quotas ≡ svc.quotas
      → Exact svc
      → Exact next
  unfolding Exact
  by_parts svc next same_entries same_quotas exact = rw (same_entries, same_quotas) exact

  pub Exact-Distinct : (svc : NodeService F B G) → Exact svc → Distinct (entries view svc.storage)
  unfolding Exact
  Exact-Distinct svc exact = exact.0

  with_wal :
      (svc : NodeService F B G) → Exact svc → (wal : Segment.Wal) → Exact (record svc { wal = wal })
  unfolding Exact
  with_wal svc exact wal = exact

  -- A storage in which the totals are the same.
  with_storage :
      (svc : NodeService F B G)
      → Exact svc
      → (next : NodeService F B G) → Distinct (entries view next.storage)
      → ((t : Bytes)
          → total (tenant_bytes t) (entries view next.storage)
            ≡ total (tenant_bytes t) (entries view svc.storage))
      → next.quotas ≡ svc.quotas
      → Exact next
  unfolding Exact
  with_storage svc exact next d same quotas = rw quotas (d, λ t. exact.1 t ∙ sym (same t))

  module _ (laws : FjallLaws F view) where
    ended-Exact :
        (d : Disk) (key value : Bytes) (kind : ChangeKind) (svc : NodeService F B G)
        → Exact svc
        → Exact (rotate_wal_if_needed d (publish_change key kind value svc))
    ended-Exact d key value kind svc exact =
        let (s, q) = ended-keeps view laws d key value kind svc (Exact-Distinct svc exact) in
        by_parts svc _ s q exact

    -- Committing a planned accounting restores the agreement that a change of the entries broke.
    commit_accounting-Exact :
        (acc : Option Accounting) (svc : NodeService F B G)
        → Distinct (entries view svc.storage)
        → ((t : Bytes) → used_bytes svc.quotas t < 2 ^ 64)
        → ((t : Bytes)
            → charged acc t (used_bytes svc.quotas t)
              ≡ total (tenant_bytes t) (entries view svc.storage))
        → Exact (commit_accounting acc svc)
    unfolding commit_accounting Exact
    commit_accounting-Exact none svc d bound h = (d, h)
    commit_accounting-Exact (some plan) svc d bound h = (
      apply-Distinct view laws svc.storage svc.quotas plan d,
      λ t.
          used_bytes-apply svc.storage svc.quotas plan.tenant t plan.delta (bound plan.tenant)
          ∙ charged_same svc.quotas plan t
          ∙ h t
          ∙ sym (total-apply view laws svc.storage svc.quotas plan t d),
    )

    -- The steps of both operations behind the change of the storage.
    finished :
        (d : Disk) (key value : Bytes) (kind : ChangeKind) (exp : Option ℕ)
        (acc : Option Accounting) (svc : NodeService F B G)
        → Distinct (entries view svc.storage)
        → ((t : Bytes) → used_bytes svc.quotas t < 2 ^ 64)
        → ((t : Bytes)
            → charged acc t (used_bytes svc.quotas t)
              ≡ total (tenant_bytes t) (entries view svc.storage))
        → Exact (
            rotate_wal_if_needed d
              (publish_change key kind value (commit_accounting acc (schedule_expiry key exp svc))))
    finished d key value kind none acc svc distinct bound h =
        ended-Exact d key value kind _ (commit_accounting-Exact acc svc distinct bound h)
    finished d key value kind (some exp) acc svc distinct bound h =
        ended-Exact d key value kind _
          (commit_accounting-Exact acc (schedule_expiry key (some exp) svc) distinct bound h)

    -- A change of the storage that succeeded, followed by these steps.
    module _ (svc : NodeService F B G) (exact : Exact svc) (key value : Bytes) where
      put_moves :
          (acc : Option Accounting) (exp : Option ℕ) (t : Bytes)
          → used_bytes svc.quotas t + (length key + length value) < 2 ^ 63
          → plan_accounting key (length value) svc ≡ ok acc
          → IsWritten key
              (Value.encode value exp)
              (entries view svc.storage)
              (entries view (Storage.put svc.storage key (Value.encode value exp)).1)
          → charged acc t (used_bytes svc.quotas t)
            ≡ total
                (tenant_bytes t)
                (entries view (Storage.put svc.storage key (Value.encode value exp)).1)
      unfolding Exact
      put_moves acc exp t room plan done =
          let (d, agrees) = exact in
          let held : weight (tenant_bytes t) key (lookup key (entries view svc.storage))
              ≤ used_bytes svc.quotas t =
            rw (agrees t) (weight-le-total view laws svc d t key) in
          let charge =
            plan_accounting_charge view laws svc d key t (used_bytes svc.quotas t) acc
              (length value) plan held room in
          let total =
            total-written view laws (tenant_bytes t) svc.storage d key (Value.encode value exp)
              done in
          omega (arith, charge, total, agrees t, tenant_bytes-encode t key value exp)

      delete_moves :
          (acc : Option Accounting) (t : Bytes)
          → used_bytes svc.quotas t < 2 ^ 63
          → plan_delete_accounting key svc ≡ ok acc
          → IsRemoved key
              (entries view svc.storage)
              (entries view (Storage.delete svc.storage key).1)
          → charged acc t (used_bytes svc.quotas t)
            ≡ total (tenant_bytes t) (entries view (Storage.delete svc.storage key).1)
      unfolding Exact
      delete_moves acc t room plan done =
          let (d, agrees) = exact in
          let held : weight (tenant_bytes t) key (lookup key (entries view svc.storage))
              ≤ used_bytes svc.quotas t =
            rw (agrees t) (weight-le-total view laws svc d t key) in
          let charge =
            plan_delete_accounting_charge view laws svc d key t (used_bytes svc.quotas t) acc plan
              held room in
          let total = total-removed view laws (tenant_bytes t) svc.storage d key done in
          omega (arith, charge, total, agrees t)

    module _ (crc32 : Bytes → ℕ) (d : Disk) (svc : NodeService F B G) (exact : Exact svc) where
      -- After a put, whatever its outcome, the counter of each tenant is what its entries count for,
      -- if that held before and no counter with the put's key and value added leaves the range of i64;
      -- the one exception is a put that the storage fails although it has applied it: then the counters
      -- are those of before, beside the key's new value.
      pub put_with_ttl-Exact :
          (now : ℕ) (key value : Bytes) (ttl_ms : ℕ)
          → ((t : Bytes) → used_bytes svc.quotas t + (length key + length value) < 2 ^ 63)
          → let call = put_with_ttl crc32 d now key value ttl_ms svc in
            Exact call.1 ⊎ IsHalfPut view svc key (Value.encode value (expiry now ttl_ms)) call
      unfolding put_with_ttl log logged store stored
      put_with_ttl-Exact now key value ttl_ms room =
          let exp = expiry now ttl_ms in
          let raw = Value.encode value exp in
          let m = backend-IsMap view laws svc.storage (Exact-Distinct svc exact) in
          elim (Result-cases (plan_accounting key (length value) svc)) [
            | inr (e, h) ↦ rw h (inl exact)
            | inl (acc, h) ↦ rw h (elim (Result-cases (check_quota acc svc)) [
              | inr (e, k) ↦ rw k (inl exact)
              | inl (u, k) ↦
                  rw k
                    (elim (Result-cases
                      (Segment.append crc32 d.append_write d.append_flush Wal.put key raw
                        svc.wal).0) [
                          | inr (e, l) ↦ rw l (inl (with_wal svc exact _))
                          | inl (seq, l) ↦
                              rw l (elim (Result-cases (Storage.put svc.storage key raw).0) [
                                | inr (e, s) ↦ elim (m.put_failed key raw e s) [
                                  | inl same ↦ rw s (
                                      inl (
                                        with_storage svc exact _ (m.put_distinct key raw)
                                          (λ t.
                                            total-put_same view laws (tenant_bytes t) svc.storage
                                              (Exact-Distinct svc exact) key raw same)
                                          refl))
                                  | inr written ↦ rw s (inr (e, refl, refl, written, refl, refl))
                                ]
                                | inl (v, s) ↦ rw s (
                                    inl (
                                      finished d key value Watch.put exp acc _
                                        (m.put_distinct key raw) (λ t. omega (arith, room t))
                                        (λ t.
                                          put_moves svc exact key value acc exp t (room t) h
                                            (m.put_ok key raw s))))
                              ])
                        ])
            ])
          ]

      -- After a delete, whatever its outcome, the counter of each tenant is what its entries count
      -- for, if that held before and every counter is in the range of i64; the one exception is a
      -- delete that the storage fails although it has applied it: then the counters are those of
      -- before, and the key is gone.
      pub delete-Exact :
          (key : Bytes)
          → ((t : Bytes) → used_bytes svc.quotas t < 2 ^ 63)
          → let call = delete crc32 d key svc in Exact call.1 ⊎ IsHalfDelete view svc key call
      unfolding delete log logged unstore stored
      delete-Exact key room =
          let m = backend-IsMap view laws svc.storage (Exact-Distinct svc exact) in
          elim (Result-cases (plan_delete_accounting key svc)) [
            | inr (e, h) ↦ rw h (inl exact)
            | inl (acc, h) ↦
                rw h
                  (elim (Result-cases
                    (Segment.append crc32 d.append_write d.append_flush Wal.delete key []
                      svc.wal).0) [
                        | inr (e, l) ↦ rw l (inl (with_wal svc exact _))
                        | inl (seq, l) ↦
                            rw l (elim (Result-cases (Storage.delete svc.storage key).0) [
                              | inr (e, s) ↦ elim (m.delete_failed key e s) [
                                | inl same ↦ rw s (
                                    inl (
                                      with_storage svc exact _ (m.delete_distinct key)
                                        (λ t.
                                          total-delete_same view laws (tenant_bytes t) svc.storage
                                            (Exact-Distinct svc exact) key same)
                                        refl))
                                | inr removed ↦ rw s (inr (e, refl, refl, removed, refl, refl))
                              ]
                              | inl (v, s) ↦ rw s (
                                  inl (
                                    finished d key [] Watch.delete none acc _
                                      (m.delete_distinct key) (λ t. omega (arith, room t))
                                      (λ t.
                                        delete_moves svc exact key [] acc t (room t) h
                                          (m.delete_ok key s))))
                            ])
                      ])
          ]
