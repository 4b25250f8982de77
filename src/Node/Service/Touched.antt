-- ===== src/Node/Service/Touched.antt =====
-- service.rs: a put, whatever its outcome, touches its key and its tenant's usage record alone; a
-- request that is admitted or not touches the limiters alone.
use ferriskv.Prelude.{ℕ, ◌≡◌, inl, inr, refl, ◌∙◌, ap, Option, none, some, length}
use ferriskv.Prelude.Bytes.{Bytes}
use ferriskv.Prelude.Assoc.{Map, lookup, Distinct}
use ferriskv.Core.Error.{ok, Result-cases}
use ferriskv.Core.Value
use ferriskv.Core.Storage
use ferriskv.Core.Storage.FjallStorage.{Fjall}
use ferriskv.Core.Storage.Laws.{FjallLaws, entries, backend-IsMap, put-other}
use ferriskv.Node.Wal as Wal
use ferriskv.Node.Wal.Segment as Segment
use ferriskv.Node.Quota
use ferriskv.Node.Watch.{Broadcast, ChangeKind}
use ferriskv.Node.Watch as Watch
use ferriskv.Node.Throttle
use ferriskv.Node.Throttle.{Governor}
use ferriskv.Node.Service.{
  Accounting, NodeService, Disk, plan_accounting, commit_accounting, check_quota, publish_change,
  rotate_wal_if_needed, log, logged, store, stored, schedule_expiry, expiry, put_with_ttl, admit,
  admitted,
}
use ferriskv.Node.Service.Writes.{
  IsUsageOf, not_there, planned_tenant, finished-lookup, commit-Distinct,
}
use ferriskv.Node.Service.Ended.{ended-keeps}

module _ {F : Fjall} {B : Broadcast} {G : Governor} where
  pub admit_lem :
      (now : ℕ) (tenant : Bytes) (cost : ℕ) (svc : NodeService F B G)
      → let checked =
          Throttle.check svc.throttle now tenant
            (Quota.quota svc.quotas tenant).max_ops_per_sec
            cost in
        admit now tenant cost svc ≡ (checked.0, record svc { throttle = checked.1 })
  unfolding admit admitted
  admit_lem now tenant cost svc = refl

module _ {F : Fjall} {B : Broadcast} {G : Governor} (view : F.Keyspace → Map Bytes)
    (laws : FjallLaws F view) where
  finished-Distinct :
      (d : Disk) (key value : Bytes) (kind : ChangeKind) (acc : Option Accounting) (exp : Option ℕ)
      (svc : NodeService F B G)
      → Distinct (entries view svc.storage)
      → Distinct (
          entries view
            (rotate_wal_if_needed d (
              publish_change key kind value
                (commit_accounting acc (schedule_expiry key exp svc)))).storage)
  finished-Distinct d key value kind acc none svc distinct =
      let kept = commit-Distinct view laws svc acc distinct in
      rw ((ended-keeps view laws d key value kind (commit_accounting acc svc) kept).0) kept
  finished-Distinct d key value kind acc (some exp) svc distinct =
      let svc' = schedule_expiry key (some exp) svc in
      let kept = commit-Distinct view laws svc' acc distinct in
      rw ((ended-keeps view laws d key value kind (commit_accounting acc svc') kept).0) kept

  module _ (crc32 : Bytes → ℕ) (d : Disk) (svc : NodeService F B G)
      (distinct : Distinct (entries view svc.storage)) (now : ℕ) (key value : Bytes)
      (ttl_ms : ℕ) where
    pub put_with_ttl-Distinct :
        Distinct (entries view (put_with_ttl crc32 d now key value ttl_ms svc).1.storage)
    unfolding put_with_ttl log logged store stored
    put_with_ttl-Distinct =
        let raw = Value.encode value (expiry now ttl_ms) in
        let m = backend-IsMap view laws svc.storage distinct in
        elim (Result-cases (plan_accounting key (length value) svc)) [
          | inr (e, g) ↦ rw g distinct
          | inl (acc, g) ↦ rw g (elim (Result-cases (check_quota acc svc)) [
            | inr (e, k) ↦ rw k distinct
            | inl (u, k) ↦
                rw k
                  (elim (Result-cases
                    (Segment.append crc32 d.append_write d.append_flush Wal.put key raw
                      svc.wal).0) [
                        | inr (e, l) ↦ rw l distinct
                        | inl (seq, l) ↦
                            rw l (elim (Result-cases (Storage.put svc.storage key raw).0) [
                              | inr (e, s) ↦ rw s (m.put_distinct key raw)
                              | inl (v, s) ↦ rw s (
                                  finished-Distinct d key value Watch.put acc (expiry now ttl_ms) _
                                    (m.put_distinct key raw))
                            ])
                      ])
          ])
        ]

    pub put_elsewhere :
        (j : Bytes)
        → ¬ (key ≡ j)
        → ¬ IsUsageOf key j
        → lookup j (entries view (put_with_ttl crc32 d now key value ttl_ms svc).1.storage)
          ≡ lookup j (entries view svc.storage)
    unfolding put_with_ttl log logged store stored
    put_elsewhere j other unused =
        let raw = Value.encode value (expiry now ttl_ms) in
        let m = backend-IsMap view laws svc.storage distinct in
        elim (Result-cases (plan_accounting key (length value) svc)) [
          | inr (e, g) ↦ rw g refl
          | inl (acc, g) ↦ rw g (elim (Result-cases (check_quota acc svc)) [
            | inr (e, k) ↦ rw k refl
            | inl (u, k) ↦
                rw k
                  (elim (Result-cases
                    (Segment.append crc32 d.append_write d.append_flush Wal.put key raw
                      svc.wal).0) [
                        | inr (e, l) ↦ rw l refl
                        | inl (seq, l) ↦
                            rw l (elim (Result-cases (Storage.put svc.storage key raw).0) [
                              | inr (e, s) ↦
                                  rw s
                                    (put-other view svc.storage key raw j m (not_there key j other))
                              | inl (v, s) ↦ rw s (
                                  finished-lookup view laws d key value Watch.put acc j
                                    (λ plan eq usage.
                                      let (p, held) =
                                        planned_tenant svc key (length value) plan (g ∙ ap ok eq) in
                                      unused (plan.tenant, p, held, usage))
                                    (expiry now ttl_ms) _ (m.put_distinct key raw)
                                  ∙ put-other view svc.storage key raw j m (not_there key j other))
                            ])
                      ])
          ])
        ]
