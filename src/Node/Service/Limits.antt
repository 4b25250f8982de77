-- ===== src/Node/Service/Limits.antt =====
-- service.rs and quota.rs: a put keeps every tenant within its quota.
use ferriskv.Prelude.{
  ℕ, ◌^◌, ◌<◌, ◌≡◌, inl, inr, refl, subst, Option, none, some, arith, length, Bool-cases,
}
use ferriskv.Prelude.Bytes.{Bytes, bytes_eq, bytes_eq_iff}
use ferriskv.Prelude.Assoc.{Map, Distinct}
use ferriskv.Core.Error.{ok, Result-cases}
use ferriskv.Core.Value
use ferriskv.Core.Storage
use ferriskv.Core.Storage.FjallStorage.{Fjall}
use ferriskv.Core.Storage.Laws.{FjallLaws, entries, backend-IsMap}
use ferriskv.Node.Wal as Wal
use ferriskv.Node.Wal.Segment as Segment
use ferriskv.Node.Quota
use ferriskv.Node.Quota.{QuotaStore, quota, used_bytes, apply_delta}
use ferriskv.Node.Quota.Applied.{used_bytes-apply}
use ferriskv.Node.Quota.Enforced.{IsAllowed, check_write-IsAllowed}
use ferriskv.Node.Watch.{Broadcast, ChangeKind}
use ferriskv.Node.Watch as Watch
use ferriskv.Node.Throttle.{Governor}
use ferriskv.Node.Service.{
  Accounting, NodeService, Disk, plan_accounting, commit_accounting, check_quota, publish_change,
  rotate_wal_if_needed, log, logged, store, stored, schedule_expiry, expiry, put_with_ttl,
}
use ferriskv.Node.Service.Ended.{ended-keeps}
use ferriskv.Node.Service.Writes.{commit-Distinct}

-- Every counter is one that the tenant's limit allows after the counters of `before`.
abbrev pub AreAllowed : QuotaStore → QuotaStore → Type 0
AreAllowed before now =
    (t : Bytes) → IsAllowed (quota before t).max_bytes (used_bytes before t) (used_bytes now t)

-- `check_write` has accepted the planned change.
abbrev IsChecked : Option Accounting → QuotaStore → Type 0
IsChecked acc q =
    (plan : Accounting) → acc ≡ some plan → Quota.check_write q plan.tenant plan.delta ≡ ok tt

module _ {F : Fjall} {B : Broadcast} {G : Governor} where
  commit-AreAllowed :
      (svc : NodeService F B G) (acc : Option Accounting)
      → ((t : Bytes) → used_bytes svc.quotas t < 2 ^ 64)
      → IsChecked acc svc.quotas
      → AreAllowed svc.quotas (commit_accounting acc svc).quotas
  unfolding commit_accounting
  commit-AreAllowed svc none bound h t = inr (inr (omega arith))
  commit-AreAllowed svc (some plan) bound h t =
      let applied =
        used_bytes-apply svc.storage svc.quotas plan.tenant t plan.delta (bound plan.tenant) in
      elim (Bool-cases (bytes_eq plan.tenant t)) [
        | inl same ↦
            let allowed =
              check_write-IsAllowed svc.quotas plan.tenant plan.delta (bound plan.tenant)
                (h plan refl) in
            let here = (bytes_eq_iff plan.tenant t).0 same in
            rw (applied, same)
              (subst
                (λ (u : Bytes).
                  IsAllowed (quota svc.quotas u).max_bytes (used_bytes svc.quotas u)
                    (apply_delta (used_bytes svc.quotas plan.tenant) plan.delta))
                here allowed)
        | inr other ↦ rw (applied, other) (inr (inr (omega arith)))
      ]

  module _ (view : F.Keyspace → Map Bytes) (laws : FjallLaws F view) where
    committed-AreAllowed :
        (d : Disk) (key value : Bytes) (kind : ChangeKind) (acc : Option Accounting)
        (svc : NodeService F B G)
        → Distinct (entries view svc.storage)
        → ((t : Bytes) → used_bytes svc.quotas t < 2 ^ 64)
        → IsChecked acc svc.quotas
        → AreAllowed svc.quotas
            (rotate_wal_if_needed d
              (publish_change key kind value (commit_accounting acc svc))).quotas
    committed-AreAllowed d key value kind acc svc distinct bound h =
        let (s, q) =
          ended-keeps view laws d key value kind (commit_accounting acc svc)
            (commit-Distinct view laws svc acc distinct) in
        rw q (commit-AreAllowed svc acc bound h)

    finished-AreAllowed :
        (d : Disk) (key value : Bytes) (kind : ChangeKind) (acc : Option Accounting)
        (exp : Option ℕ) (svc : NodeService F B G)
        → Distinct (entries view svc.storage)
        → ((t : Bytes) → used_bytes svc.quotas t < 2 ^ 64)
        → IsChecked acc svc.quotas
        → AreAllowed svc.quotas
            (rotate_wal_if_needed d (
              publish_change key kind value
                (commit_accounting acc (schedule_expiry key exp svc)))).quotas
    finished-AreAllowed d key value kind acc none svc distinct bound h =
        committed-AreAllowed d key value kind acc svc distinct bound h
    finished-AreAllowed d key value kind acc (some exp) svc distinct bound h =
        committed-AreAllowed d key value kind acc (schedule_expiry key (some exp) svc) distinct
          bound h

    module _ (crc32 : Bytes → ℕ) (d : Disk) (svc : NodeService F B G) where
      -- After a put, whatever its outcome, the counter of each tenant is within the tenant's limit,
      -- or has not grown, or the tenant has no limit, if the counters were in the range of u64.
      pub put_with_ttl-AreAllowed :
          (now : ℕ) (key value : Bytes) (ttl_ms : ℕ)
          → Distinct (entries view svc.storage)
          → ((t : Bytes) → used_bytes svc.quotas t < 2 ^ 64)
          → AreAllowed svc.quotas (put_with_ttl crc32 d now key value ttl_ms svc).1.quotas
      unfolding put_with_ttl log logged store stored
      put_with_ttl-AreAllowed now key value ttl_ms distinct bound =
          let exp = expiry now ttl_ms in
          let raw = Value.encode value exp in
          let m = backend-IsMap view laws svc.storage distinct in
          let same : AreAllowed svc.quotas svc.quotas = λ t. inr (inr (omega arith)) in
          elim (Result-cases (plan_accounting key (length value) svc)) [
            | inr (e, h) ↦ rw h same
            | inl (acc, h) ↦ rw h (elim (Result-cases (check_quota acc svc)) [
              | inr (e, k) ↦ rw k same
              | inl (u, k) ↦
                  rw k
                    (elim (Result-cases
                      (Segment.append crc32 d.append_write d.append_flush Wal.put key raw
                        svc.wal).0) [
                          | inr (e, l) ↦ rw l same
                          | inl (seq, l) ↦
                              rw l (elim (Result-cases (Storage.put svc.storage key raw).0) [
                                | inr (e, s) ↦ rw s same
                                | inl (v, s) ↦ rw s (
                                    finished-AreAllowed d key value Watch.put acc exp _
                                      (m.put_distinct key raw) bound (λ plan eq. rw eq at k))
                              ])
                        ])
            ])
          ]
