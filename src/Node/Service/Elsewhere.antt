-- ===== src/Node/Service/Elsewhere.antt =====
-- service.rs: a `delete`, whatever its outcome, touches its key and its tenant's usage record alone.
use ferriskv.Prelude.{ℕ, ◌≡◌, inl, inr, refl, ◌∙◌, ap, Option, none, some, [], length}
use ferriskv.Prelude.Bytes.{Bytes}
use ferriskv.Prelude.Assoc.{Map, lookup, Distinct}
use ferriskv.Prelude.Int.{neg_i64}
use ferriskv.Core.Error.{Result, ok, err, Result-cases, ◌>>=◌}
use ferriskv.Core.Key.{Subspace, data_space, decode}
use ferriskv.Core.Value
use ferriskv.Core.Storage
use ferriskv.Core.Storage.FjallStorage.{Fjall}
use ferriskv.Core.Storage.Laws.{FjallLaws, entries, backend-IsMap, delete-other}
use ferriskv.Node.Wal as Wal
use ferriskv.Node.Wal.Segment as Segment
use ferriskv.Node.Quota
use ferriskv.Node.Watch.{Broadcast, ChangeKind}
use ferriskv.Node.Watch as Watch
use ferriskv.Node.Throttle.{Governor}
use ferriskv.Node.Service.{
  Accounting, NodeService, Disk, plan_delete, plan_delete_accounting, commit_accounting, freed,
  publish_change, rotate_wal_if_needed, log, logged, unstore, stored, delete,
}
use ferriskv.Node.Service.Writes.{IsUsageOf, not_there, committed-lookup, commit-Distinct}
use ferriskv.Node.Service.Ended.{ended-keeps}

tenant_of_freed :
    (r : Result (Option Bytes)) (t p : Bytes) (plan : Accounting)
    → (r >>= freed t p) ≡ ok (some plan)
    → t ≡ plan.tenant
unfolding freed
tenant_of_freed (err e) t p plan h = cc
tenant_of_freed (ok none) t p plan h = cc
tenant_of_freed (ok (some raw)) t p plan h = by_length (Value.payload_len raw) h
  where
    by_length :
        (r : Result ℕ)
        → (r >>= λ n.
            ok (some (record { tenant = t; delta = neg_i64 (Quota.entry_bytes (length p) n) })))
          ≡ ok (some plan)
        → t ≡ plan.tenant
    by_length (ok n) h = cc
    by_length (err e) h = cc

module _ {F : Fjall} {B : Broadcast} {G : Governor} where
  freed_tenant :
      (svc : NodeService F B G) (key : Bytes) (plan : Accounting)
      → plan_delete_accounting key svc ≡ ok (some plan)
      → (p : Bytes) × (decode key ≡ ok (plan.tenant, data_space, p))
  unfolding plan_delete_accounting plan_delete
  freed_tenant svc key plan h = by_key (decode key) refl h
    where
      by_key :
          (r : Result (Bytes × Subspace × Bytes))
          → decode key ≡ r
          → plan_delete svc key r ≡ ok (some plan)
          → (p : Bytes) × (decode key ≡ ok (plan.tenant, data_space, p))
      by_key (err e) eq h = cc
      by_key (ok (t, data_space, p)) eq h =
          let same = tenant_of_freed (Storage.get svc.storage key) t p plan h in (p, rw (← same) eq)
      by_key (ok (t, other, p)) eq h = cc

committed-Distinct :
    {F : Fjall} {B : Broadcast} {G : Governor} (view : F.Keyspace → Map Bytes)
    (laws : FjallLaws F view) (d : Disk) (key value : Bytes) (kind : ChangeKind)
    (acc : Option Accounting) (svc : NodeService F B G)
    → Distinct (entries view svc.storage)
    → Distinct (
        entries view
          (rotate_wal_if_needed d
            (publish_change key kind value (commit_accounting acc svc))).storage)
committed-Distinct view laws d key value kind acc svc distinct =
    let kept = commit-Distinct view laws svc acc distinct in
    rw ((ended-keeps view laws d key value kind (commit_accounting acc svc) kept).0) kept

module _ {F : Fjall} {B : Broadcast} {G : Governor} (view : F.Keyspace → Map Bytes)
    (laws : FjallLaws F view) (crc32 : Bytes → ℕ) (d : Disk) (svc : NodeService F B G)
    (distinct : Distinct (entries view svc.storage)) (key : Bytes) where
  pub delete-Distinct : Distinct (entries view (delete crc32 d key svc).1.storage)
  unfolding delete log logged unstore stored
  delete-Distinct =
      let m = backend-IsMap view laws svc.storage distinct in
      elim (Result-cases (plan_delete_accounting key svc)) [
        | inr (e, h) ↦ rw h distinct
        | inl (acc, h) ↦
            rw h
              (elim (Result-cases
                (Segment.append crc32 d.append_write d.append_flush Wal.delete key [] svc.wal).0) [
                  | inr (e, l) ↦ rw l distinct
                  | inl (seq, l) ↦ rw l (elim (Result-cases (Storage.delete svc.storage key).0) [
                    | inr (e, s) ↦ rw s (m.delete_distinct key)
                    | inl (v, s) ↦ rw s (
                        committed-Distinct view laws d key [] Watch.delete acc _
                          (m.delete_distinct key))
                  ])
                ])
      ]

  pub delete_elsewhere :
      (j : Bytes)
      → ¬ (key ≡ j)
      → ¬ IsUsageOf key j
      → lookup j (entries view (delete crc32 d key svc).1.storage)
        ≡ lookup j (entries view svc.storage)
  unfolding delete log logged unstore stored
  delete_elsewhere j other unused =
      let m = backend-IsMap view laws svc.storage distinct in
      elim (Result-cases (plan_delete_accounting key svc)) [
        | inr (e, h) ↦ rw h refl
        | inl (acc, h) ↦
            rw h
              (elim (Result-cases
                (Segment.append crc32 d.append_write d.append_flush Wal.delete key [] svc.wal).0) [
                  | inr (e, l) ↦ rw l refl
                  | inl (seq, l) ↦ rw l (elim (Result-cases (Storage.delete svc.storage key).0) [
                    | inr (e, s) ↦
                        rw s (delete-other view svc.storage key j m (not_there key j other))
                    | inl (v, s) ↦ rw s (
                        committed-lookup view laws d key [] Watch.delete acc j
                          (λ plan eq usage.
                            let (p, held) = freed_tenant svc key plan (h ∙ ap ok eq) in
                            unused (plan.tenant, p, held, usage))
                          _ (m.delete_distinct key)
                        ∙ delete-other view svc.storage key j m (not_there key j other))
                  ])
                ])
      ]
