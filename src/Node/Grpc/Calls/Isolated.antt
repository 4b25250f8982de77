-- ===== src/Node/Grpc/Calls/Isolated.antt =====
-- grpc.rs: no call of the server changes an entry that its principal was not granted.
use ferriskv.Prelude.{ℕ, ◌≡◌, refl, ◌⊎◌, inl, Option}
use ferriskv.Prelude.Bytes.{Bytes}
use ferriskv.Prelude.Assoc.{Map, lookup, Distinct}
use ferriskv.Core.Storage.FjallStorage.{Fjall}
use ferriskv.Core.Storage.Laws.{FjallLaws, entries}
use ferriskv.Node.Watch.{Broadcast}
use ferriskv.Node.Throttle.{Governor}
use ferriskv.Node.Service
use ferriskv.Node.Service.{Disk}
use ferriskv.Node.Grpc.{encode_data_key, encode_data_scan_bounds}
use ferriskv.Node.Grpc.Checks.{perm_read, perm_watch, enforce_key_size, map_err}
use ferriskv.Node.Grpc.Handlers.{Request, GetRequest, ScanRequest, GrpcApi, get_impl, scan_impl}
use ferriskv.Node.Grpc.WatchStream.{WatchRequest, watch_impl}
use ferriskv.Node.Grpc.Rules.{after_check}
use ferriskv.Node.Grpc.Confined.{Owned, after_allowed}
use ferriskv.Node.Grpc.Isolation.{Holds, admit-Holds, put_impl-Holds, delete_impl-Holds}
use ferriskv.Node.Grpc.Calls.{
  Call, gets, puts, deletes, scans, watches, batches, tenant_of, MayChange, serve,
}
use ferriskv.Node.Grpc.Calls.Batched.{batch_impl-Holds}

module _ {F : Fjall} {B : Broadcast} {G : Governor} (view : F.Keyspace → Map Bytes)
    (laws : FjallLaws F view) (j : Bytes) (o : Option Bytes) (X : Type 0) where
  module _ (at now : ℕ) (api : GrpcApi F B G) (h : Holds view laws j o X api) where
    get_impl-Holds : (req : Request GetRequest) → Holds view laws j o X (get_impl at now req api).1
    unfolding get_impl
    get_impl-Holds req =
        let r = req.body in
        let P = Holds view laws j o X in
        after_allowed P req.principal r.tenant perm_read _ api h λ granted.
          admit-Holds view laws j o X at r.tenant 1 _ api h λ api1 h1.
            after_check P (λ s. enforce_key_size s.limits r.key) _ api1 h1
              λ u e.
                after_check P (λ s. map_err (encode_data_key r.tenant r.key)) _ api1 h1
                  λ k e1.
                    after_check P (λ s. map_err (Service.Reads.get now k s.inner)) _ api1 h1
                      λ v e2. h1

    scan_impl-Holds :
        (req : Request ScanRequest) → Holds view laws j o X (scan_impl at now req api).1
    unfolding scan_impl
    scan_impl-Holds req =
        let r = req.body in
        let P = Holds view laws j o X in
        after_allowed P req.principal r.tenant perm_read _ api h λ granted.
          admit-Holds view laws j o X at r.tenant 1 _ api h λ api1 h1.
            after_check P (λ s. map_err (encode_data_scan_bounds r.tenant r.prefix)) _ api1 h1
              λ b e.
                after_check P (λ s. map_err (Service.Reads.scan_range now b.start b.end s.inner)) _
                  api1 h1 (λ items e1. h1)

    watch_impl-Holds :
        (req : Request WatchRequest) → Holds view laws j o X (watch_impl at now req api).1
    unfolding watch_impl
    watch_impl-Holds req =
        let r = req.body in
        let P = Holds view laws j o X in
        after_allowed P req.principal r.tenant perm_watch _ api h λ granted.
          admit-Holds view laws j o X at r.tenant 1 _ api h
            λ api1 h1. after_check P (λ s. enforce_key_size s.limits r.prefix) _ api1 h1 (λ u e. h1)

  serve-Holds :
      (crc32 : Bytes → ℕ) (blake3 : Bytes → Bytes) (disk : ℕ → Disk) (at now : ℕ) (c : Call)
      (api : GrpcApi F B G)
      → (MayChange c → Owned (tenant_of c) j → X)
      → Holds view laws j o X api
      → Holds view laws j o X (serve crc32 blake3 disk at now c api)
  unfolding serve
  serve-Holds crc32 blake3 disk at now (gets r) api owns h = get_impl-Holds at now api h r
  serve-Holds crc32 blake3 disk at now (puts r) api owns h =
      put_impl-Holds view laws j o X crc32 blake3 (disk 0) at now r api owns h
  serve-Holds crc32 blake3 disk at now (deletes r) api owns h =
      delete_impl-Holds view laws j o X crc32 blake3 (disk 0) at now r api owns h
  serve-Holds crc32 blake3 disk at now (scans r) api owns h = scan_impl-Holds at now api h r
  serve-Holds crc32 blake3 disk at now (watches r) api owns h = watch_impl-Holds at now api h r
  serve-Holds crc32 blake3 disk at now (batches r) api owns h =
      batch_impl-Holds view laws j o X crc32 blake3 now disk at r api owns h

module _ {F : Fjall} {B : Broadcast} {G : Governor} (view : F.Keyspace → Map Bytes)
    (laws : FjallLaws F view) where
  -- A call of the server, whatever its outcome, leaves an entry of the storage as it was, unless it is
  -- a put, a delete or a batch that has one, its principal was granted to write or to delete for the
  -- tenant that the call names, and the entry is one of that tenant's data entries or the record of
  -- its usage. A read or a watch leaves every entry.
  pub serve_isolates :
      (crc32 : Bytes → ℕ) (blake3 : Bytes → Bytes) (disk : ℕ → Disk) (at now : ℕ) (c : Call)
      (api : GrpcApi F B G) (j : Bytes)
      → Distinct (entries view api.inner.storage)
      → (lookup j (entries view (serve crc32 blake3 disk at now c api).inner.storage)
          ≡ lookup j (entries view api.inner.storage))
        ⊎ (MayChange c × Owned (tenant_of c) j)
  serve_isolates crc32 blake3 disk at now c api j distinct =
      let X = MayChange c × Owned (tenant_of c) j in
      (serve-Holds view laws j (lookup j (entries view api.inner.storage)) X crc32 blake3 disk at
        now c api (λ may owned. (may, owned)) (distinct, inl refl)).1
