-- ===== src/Node/Service/Ended.antt =====
-- service.rs: what `publish_change` and `rotate_wal_if_needed`, the last steps of `put` and `delete`, keep.
use ferriskv.Prelude.{◌≡◌, refl, ◌∙◌, ap, inl, inr, Bool-cases, arith, ltb}
use ferriskv.Prelude.Bytes.{Bytes}
use ferriskv.Prelude.Assoc.{Map, Distinct}
use ferriskv.Core.Error.{Result, ok, err}
use ferriskv.Core.Key.{Subspace, decode}
use ferriskv.Core.Storage
use ferriskv.Core.Storage.{StorageBackend}
use ferriskv.Core.Storage.FjallStorage.{Fjall}
use ferriskv.Core.Storage.Laws.{FjallLaws, entries, backend-IsMap}
use ferriskv.Node.Watch.{Broadcast, ChangeKind}
use ferriskv.Node.Throttle.{Governor}
use ferriskv.Node.Service.{
  NodeService, Disk, publish_change, publish_data, rotate_wal_if_needed, rotate_flushed,
}

module _ {F : Fjall} {B : Broadcast} {G : Governor} where
  publish_data-keeps :
      (svc : NodeService F B G) (kind : ChangeKind) (value : Bytes)
      (r : Result (Bytes × Subspace × Bytes))
      → ((publish_data svc kind value r).storage ≡ svc.storage)
        × ((publish_data svc kind value r).quotas ≡ svc.quotas)
  unfolding publish_data
  publish_data-keeps svc kind value r = ground arith

  rotate_flushed-keeps :
      (d : Disk) (svc : NodeService F B G) (r : Result (Unit {0}) × StorageBackend F)
      → ((rotate_flushed d svc r).storage ≡ r.1) × ((rotate_flushed d svc r).quotas ≡ svc.quotas)
  unfolding rotate_flushed
  rotate_flushed-keeps d svc (ok u, st) = (refl, refl)
  rotate_flushed-keeps d svc (err e, st) = (refl, refl)

  module _ (view : F.Keyspace → Map Bytes) (laws : FjallLaws F view) where
    rotate-keeps :
        (d : Disk) (svc : NodeService F B G)
        → Distinct (entries view svc.storage)
        → (entries view (rotate_wal_if_needed d svc).storage ≡ entries view svc.storage)
          × ((rotate_wal_if_needed d svc).quotas ≡ svc.quotas)
    unfolding rotate_wal_if_needed
    rotate-keeps d svc distinct = elim (Bool-cases (Storage.is_durable svc.storage)) [
      | inr h ↦ rw h (refl, refl)
      | inl h ↦ rw h (elim (Bool-cases (ltb svc.wal.segment_bytes svc.wal_rotate_bytes)) [
        | inl short ↦ rw short (refl, refl)
        | inr long ↦
            let (s, q) = rotate_flushed-keeps d svc (Storage.flush svc.storage) in
            let flushed = (backend-IsMap view laws svc.storage distinct).flush_keeps in
            rw long (ap (entries view) s ∙ flushed, q)
      ])
    ]

    -- They change no entry and no counter.
    pub ended-keeps :
        (d : Disk) (key value : Bytes) (kind : ChangeKind) (svc : NodeService F B G)
        → Distinct (entries view svc.storage)
        → (entries view (rotate_wal_if_needed d (publish_change key kind value svc)).storage
            ≡ entries view svc.storage)
          × ((rotate_wal_if_needed d (publish_change key kind value svc)).quotas ≡ svc.quotas)
    unfolding publish_change
    ended-keeps d key value kind svc distinct =
        let (s, q) = publish_data-keeps svc kind value (decode key) in
        let (s2, q2) = rotate-keeps d (publish_data svc kind value (decode key)) (rw s distinct) in
        (s2 ∙ ap (entries view) s, q2 ∙ q)

module _ {F : Fjall} {B : Broadcast} {G : Governor} where
  ttl_index-publish_data :
      (svc : NodeService F B G) (kind : ChangeKind) (value : Bytes)
      (r : Result (Bytes × Subspace × Bytes))
      → (publish_data svc kind value r).ttl_index ≡ svc.ttl_index
  unfolding publish_data
  ttl_index-publish_data svc kind value r = ground arith

  ttl_index-rotate_flushed :
      (d : Disk) (svc : NodeService F B G) (r : Result (Unit {0}) × StorageBackend F)
      → (rotate_flushed d svc r).ttl_index ≡ svc.ttl_index
  unfolding rotate_flushed
  ttl_index-rotate_flushed d svc (ok u, st) = refl
  ttl_index-rotate_flushed d svc (err e, st) = refl

  ttl_index-rotate :
      (d : Disk) (svc : NodeService F B G) → (rotate_wal_if_needed d svc).ttl_index ≡ svc.ttl_index
  unfolding rotate_wal_if_needed
  ttl_index-rotate d svc = elim (Bool-cases (Storage.is_durable svc.storage)) [
    | inr h ↦ rw h refl
    | inl h ↦ rw h (elim (Bool-cases (ltb svc.wal.segment_bytes svc.wal_rotate_bytes)) [
      | inl short ↦ rw short refl
      | inr long ↦ rw long (ttl_index-rotate_flushed d svc (Storage.flush svc.storage))
    ])
  ]

  -- Nor do they change the index.
  pub ttl_index-ended :
      (d : Disk) (key value : Bytes) (kind : ChangeKind) (svc : NodeService F B G)
      → (rotate_wal_if_needed d (publish_change key kind value svc)).ttl_index ≡ svc.ttl_index
  unfolding publish_change
  ttl_index-ended d key value kind svc =
      ttl_index-rotate d (publish_data svc kind value (decode key))
      ∙ ttl_index-publish_data svc kind value (decode key)
