-- ===== src/Node/Service/Covered/Written.antt =====
-- service.rs: a `put` and a `delete` keep every stored expiry registered, whatever their outcome,
-- save for a put that the storage fails although it has applied it.
use ferriskv.Prelude.{◌⊎◌, refl, ℕ, inl, inr, [], length}
use ferriskv.Prelude.Bytes.{Bytes}
use ferriskv.Prelude.Assoc.{Map}
use ferriskv.Core.Error.{Result-cases}
use ferriskv.Core.Value as Value
use ferriskv.Core.Storage as Storage
use ferriskv.Core.Storage.FjallStorage.{Fjall}
use ferriskv.Core.Storage.Laws.{FjallLaws, backend-IsMap}
use ferriskv.Node.Wal as Wal
use ferriskv.Node.Wal.Segment as Segment
use ferriskv.Node.Watch.{Broadcast}
use ferriskv.Node.Watch as Watch
use ferriskv.Node.Throttle.{Governor}
use ferriskv.Node.Service.{
  NodeService, Disk, plan_accounting, plan_delete_accounting, check_quota, log, logged, store,
  stored, unstore, expiry, put_with_ttl, delete,
}
use ferriskv.Node.Service.Unfinished.{IsHalfPut}
use ferriskv.Node.Service.ReadBack.{expiry-FitsU64}
use ferriskv.Node.Service.Covered.{
  IsCovered, unchanged-IsCovered, finished-IsCovered, ended-IsCovered, delete-Covers,
}

module _ {F : Fjall} {B : Broadcast} {G : Governor} (view : F.Keyspace → Map Bytes)
    (laws : FjallLaws F view) (crc32 : Bytes → ℕ) (d : Disk) (svc : NodeService F B G)
    (covered : IsCovered view laws svc) where
  -- After a put, whatever its outcome, every key that the storage holds with an expiry is registered
  -- in the index at that expiry, if that held before, the keys of the storage are distinct and the
  -- index is valid; the one exception is a put that the storage fails although it has applied it: then
  -- the index is that of before, beside the key's new value.
  pub put_with_ttl-IsCovered :
      (now : ℕ) (key value : Bytes) (ttl_ms : ℕ)
      → let call = put_with_ttl crc32 d now key value ttl_ms svc in
        IsCovered view laws call.1
        ⊎ IsHalfPut view svc key (Value.encode value (expiry now ttl_ms)) call
  unfolding put_with_ttl log logged store stored
  put_with_ttl-IsCovered now key value ttl_ms =
      let raw = Value.encode value (expiry now ttl_ms) in
      let m = backend-IsMap view laws svc.storage covered.0 in
      elim (Result-cases (plan_accounting key (length value) svc)) [
        | inr (e, g) ↦ rw g (inl covered)
        | inl (acc, g) ↦ rw g (elim (Result-cases (check_quota acc svc)) [
          | inr (e, k) ↦ rw k (inl covered)
          | inl (u, k) ↦
              rw k
                (elim (Result-cases
                  (Segment.append crc32 d.append_write d.append_flush Wal.put key raw svc.wal).0) [
                    | inr (e, l) ↦ rw l (inl covered)
                    | inl (seq, l) ↦ rw l (elim (Result-cases (Storage.put svc.storage key raw).0) [
                      | inr (e, s) ↦ elim (m.put_failed key raw e s) [
                        | inl same ↦
                            rw s (inl (unchanged-IsCovered view laws svc key raw same covered))
                        | inr written ↦ rw s (inr (e, refl, refl, written, refl, refl))
                      ]
                      | inl (v, s) ↦ rw s (
                          inl (
                            finished-IsCovered view laws d key value (expiry now ttl_ms) acc _
                              (expiry-FitsU64 now ttl_ms) s covered))
                    ])
                  ])
        ])
      ]

  -- The same of a delete, without exception: a key that is gone has no expiry.
  pub delete-IsCovered : (key : Bytes) → IsCovered view laws (delete crc32 d key svc).1
  unfolding delete log logged unstore stored
  delete-IsCovered key =
      let gone = delete-Covers view laws svc.storage svc.ttl_index key covered in
      elim (Result-cases (plan_delete_accounting key svc)) [
        | inr (e, h) ↦ rw h covered
        | inl (acc, h) ↦
            rw h
              (elim (Result-cases
                (Segment.append crc32 d.append_write d.append_flush Wal.delete key [] svc.wal).0) [
                  | inr (e, l) ↦ rw l covered
                  | inl (seq, l) ↦ rw l (elim (Result-cases (Storage.delete svc.storage key).0) [
                    | inr (e, s) ↦ rw s gone
                    | inl (v, s) ↦ rw s (ended-IsCovered view laws d key [] Watch.delete acc _ gone)
                  ])
                ])
      ]
