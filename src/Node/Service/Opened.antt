-- ===== src/Node/Service/Opened.antt =====
-- service.rs: a node that opens has exact counters and an index that covers its storage.
use ferriskv.Prelude.{ℕ, ◌^◌, ◌<◌, ◌≡◌, inl, inr, refl, subst, ap, Option, Bool-cases}
use ferriskv.Prelude.Bytes.{Bytes}
use ferriskv.Prelude.Assoc.{Map, Distinct, total}
use ferriskv.Core.Error.{Result, ok, err, ◌>>=◌}
use ferriskv.Core.Storage
use ferriskv.Core.Storage.{StorageBackend}
use ferriskv.Core.Storage.FjallStorage.{Fjall}
use ferriskv.Core.Storage.Laws.{FjallLaws, entries, backend-IsMap}
use ferriskv.Node.Wal.Segment as Segment
use ferriskv.Node.Ttl
use ferriskv.Node.Ttl.{TtlIndex}
use ferriskv.Node.Quota
use ferriskv.Node.Quota.{QuotaStore, Json}
use ferriskv.Node.Watch.{Broadcast}
use ferriskv.Node.Throttle.{Governor}
use ferriskv.Node.Service.{NodeService, Disk}
use ferriskv.Node.Config.{NodeConfig}
use ferriskv.Node.Ttl.Index.{IsValid}
use ferriskv.Node.Service.Covered.{IsCovered}
use ferriskv.Node.Service.Covered.Started.{bootstrap_from_storage-Covers}
use ferriskv.Node.Service.Boot.{
  Bootstrap, default_quota, kept, replay, drop_segment, bootstrap_from_storage, open_with_clock,
}
use ferriskv.Node.Service.Entries.{tenant_bytes}
use ferriskv.Node.Service.Usage.{Exact}
use ferriskv.Node.Service.Rebuilt.{bootstrap_from_storage-Agrees}
use ferriskv.Node.Service.Replayed.{replay-Distinct}

-- What a chain that succeeds has gone through.
bind-eq_ok :
    {A B : Type 0} (r : Result A) (f : A → Result B) (b : B)
    → (r >>= f) ≡ ok b
    → (a : A) × (r ≡ ok a) × (f a ≡ ok b)
bind-eq_ok (ok a) f b h = (a, refl, h)
bind-eq_ok (err e) f b h = cc

kept-eq_ok :
    {A S : Type 0} (p : Result A × S) (s : S) → kept p ≡ ok s → (a : A) × (p.0 ≡ ok a) × (p.1 ≡ s)
kept-eq_ok (ok a, t) s h = (a, refl, cc)
kept-eq_ok (err e, t) s h = cc

ok_injective : {A : Type 0} {a b : A} → ok a ≡ ok b → a ≡ b
ok_injective h = cc

first : {A C : Type 0} {p q : A × C} → p ≡ q → p.0 ≡ q.0
first h = ap (λ r. r.0) h

empty-IsValid : IsValid Ttl.empty
empty-IsValid = record { ascend = tt; counted = refl }

module _ {F : Fjall} (view : F.Keyspace → Map Bytes) (laws : FjallLaws F view) where
  drop_segment-Distinct :
      (d : Disk) (st next : StorageBackend F) (wal wal' : Segment.Wal)
      → Distinct (entries view st)
      → drop_segment d st wal ≡ ok (next, wal')
      → Distinct (entries view next)
  unfolding drop_segment
  drop_segment-Distinct d st next wal wal' distinct h = elim (Bool-cases (Storage.is_durable st)) [
    | inr volatile ↦ rw (← first (ok_injective (rw volatile at h))) distinct
    | inl durable ↦
        let (st', flushed, h1) =
          bind-eq_ok (kept (Storage.flush st)) _ (next, wal') (rw durable at h) in
        let (u, done, same) = kept-eq_ok (Storage.flush st) st' flushed in
        let (wal2, rotated, h2) =
          bind-eq_ok (kept (Segment.rotate d.rotate_flush d.rotate_header wal)) _ (next, wal') h1 in
        let keeps = (backend-IsMap view laws st distinct).flush_keeps in
        rw (← first (ok_injective h2), ← same, keeps) distinct
  ]

  module _ {B : Broadcast} {G : Governor} (crc32 : Bytes → ℕ) (json : Json) (d : Disk) where
    -- A node that opens has bootstrapped over the storage that it has.
    abbrev pub IsBootstrapped : NodeService F B G → Type 0
    IsBootstrapped svc =
        (quotas : QuotaStore) × (b : Bootstrap) × Distinct (entries view svc.storage)
        × ((bootstrap_from_storage svc.storage Ttl.empty quotas).0 ≡ ok b)
        × ((bootstrap_from_storage svc.storage Ttl.empty quotas).1 ≡ (svc.ttl_index, svc.quotas))

    pub open_with_clock-IsBootstrapped :
        (config : NodeConfig) (st : StorageBackend F) (file : Option Bytes)
        (svc : NodeService F B G)
        → Distinct (entries view st)
        → open_with_clock crc32 json d config st file ≡ ok svc
        → IsBootstrapped svc
    unfolding open_with_clock
    open_with_clock-IsBootstrapped config st file svc distinct h =
        let ((wal, recovery), opened, h1) = bind-eq_ok (Segment.open_file crc32 file) _ svc h in
        let (st1, replayed, h2) = bind-eq_ok (kept (replay recovery.records st)) _ svc h1 in
        let ((st2, wal2), dropped, h3) = bind-eq_ok (drop_segment d st1 wal) _ svc h2 in
        let (quotas, loaded, h4) =
          bind-eq_ok (kept (Quota.load_quotas json st2 (Quota.new (default_quota config)))) _ svc
            h3 in
        let (rebuilt, bootstrapped, h5) =
          bind-eq_ok (kept (bootstrap_from_storage st2 Ttl.empty quotas)) _ svc h4 in
        let (n, replay_done, same1) = kept-eq_ok (replay recovery.records st) st1 replayed in
        let (b, bootstrap_done, same2) =
          kept-eq_ok (bootstrap_from_storage st2 Ttl.empty quotas) rebuilt bootstrapped in
        let distinct1 : Distinct (entries view st1) =
          rw (← same1) (replay-Distinct view laws recovery.records st n distinct replay_done) in
        let distinct2 = drop_segment-Distinct d st1 st2 wal wal2 distinct1 dropped in
        subst IsBootstrapped (ok_injective h5) (quotas, b, distinct2, bootstrap_done, same2)

    -- A node that opens over a storage with distinct keys has, for each tenant, the counter that its
    -- stored entries count for, if no tenant's entries exceed the range of u64.
    pub open_with_clock-Exact :
        (config : NodeConfig) (st : StorageBackend F) (file : Option Bytes)
        (svc : NodeService F B G)
        → Distinct (entries view st)
        → open_with_clock crc32 json d config st file ≡ ok svc
        → ((t : Bytes) → total (tenant_bytes t) (entries view svc.storage) < 2 ^ 64)
        → Exact view svc
    unfolding Exact
    open_with_clock-Exact config st file svc distinct h room =
        let (quotas, b, d2, done, same) =
          open_with_clock-IsBootstrapped config st file svc distinct h in
        let agrees =
          bootstrap_from_storage-Agrees view laws svc.storage Ttl.empty quotas b d2 room done in
        rw same at agrees

    -- A node that opens over a storage with distinct keys registers in its index, which is valid,
    -- every key that its storage holds with an expiry, at that expiry.
    pub open_with_clock-IsCovered :
        (config : NodeConfig) (st : StorageBackend F) (file : Option Bytes)
        (svc : NodeService F B G)
        → Distinct (entries view st)
        → open_with_clock crc32 json d config st file ≡ ok svc
        → IsCovered view laws svc
    open_with_clock-IsCovered config st file svc distinct h =
        let (quotas, b, d2, done, same) =
          open_with_clock-IsBootstrapped config st file svc distinct h in
        let covers =
          bootstrap_from_storage-Covers view laws svc.storage Ttl.empty quotas b d2 empty-IsValid
            done in
        rw same at covers
