-- ===== src/Node/Service/Covered.antt =====
-- service.rs: the expiries that the storage holds and those that the index registers.
pub mod Written
pub mod Started
mod Examples
use ferriskv.Prelude.{
  ℕ, ◌≡◌, inl, inr, refl, sym, ◌∙◌, ap, subst, true, false, Option, none, some, [], arith, length,
  ◌==◌, ltb, ◌||◌, ◌&&◌, Bool-cases, if◌then◌else◌,
}
use ferriskv.Prelude.Bytes.{Bytes, bytes_eq, bytes_eq_iff}
use ferriskv.Prelude.Assoc.{Map, lookup, Distinct}
use ferriskv.Core.Error.{Error, Result, ok, err, Result-cases}
use ferriskv.Core.Key.{Subspace, decode}
use ferriskv.Core.Value as Value
use ferriskv.Core.Value.{StoredValue}
use ferriskv.Core.Value.RoundTrip.{decode-encode, FitsU64}
use ferriskv.Core.Storage as Storage
use ferriskv.Core.Storage.{StorageBackend}
use ferriskv.Core.Storage.FjallStorage.{Fjall}
use ferriskv.Core.Storage.Laws.{FjallLaws, IsSame, entries, backend-IsMap}
use ferriskv.Node.Ttl as Ttl
use ferriskv.Node.Ttl.{TtlIndex}
use ferriskv.Node.Ttl.Index.{IsValid, scheduled, schedule_lem}
use ferriskv.Node.Quota as Quota
use ferriskv.Node.Quota.Applied.{apply_stores}
use ferriskv.Node.Watch as Watch
use ferriskv.Node.Watch.{Broadcast, ChangeKind}
use ferriskv.Node.Throttle.{Governor}
use ferriskv.Node.Service.{
  Accounting, NodeService, Disk, commit_accounting, publish_change, publish_data,
  rotate_wal_if_needed, rotate_flushed, schedule_expiry,
}
use ferriskv.Node.Service.Ended.{ended-keeps, ttl_index-ended}
use ferriskv.Node.Service.Writes.{commit-Distinct}

-- What is stored has an expiry.
abbrev pub Expires : Option Bytes → ℕ → Type 0
Expires none exp = ⊥
Expires (some raw) exp =
    (v : StoredValue) × (Value.decode raw ≡ ok v) × (v.expires_at_ms ≡ some exp)

pub Expires-none : (value : Bytes) (exp : ℕ) → ¬ Expires (some (Value.encode value none)) exp
Expires-none value exp (v, held, has) =
    let same : v ≡ record { expires_at_ms = none; value = value } =
      ok_same (sym held ∙ decode-encode value none tt) in
    none_some (ap (λ v. v.expires_at_ms) (sym same) ∙ has)
  where
    ok_same : {a b : StoredValue} → ok a ≡ ok b → a ≡ b
    ok_same h = cc

    none_some : ¬ (none ≡ some exp)
    none_some h = cc

pub Expires-some :
    (value : Bytes) (exp e : ℕ)
    → FitsU64 (some exp)
    → Expires (some (Value.encode value (some exp))) e
    → exp ≡ e
Expires-some value exp e fits (v, held, has) = cc (decode-encode value (some exp) fits)

-- The keys of the map are distinct, the index is valid, and each key with an expiry is registered
-- at it.
abbrev pub Covers : Map Bytes → TtlIndex → Type 0
Covers m idx =
    Distinct m
    × IsValid idx
    × ((j : Bytes) (e : ℕ) → Expires (lookup j m) e → scheduled idx e j ≡ true)

-- A map that has no further expiry.
Covers-fewer :
    (m m' : Map Bytes) (idx : TtlIndex)
    → Distinct m'
    → ((j : Bytes) (e : ℕ) → Expires (lookup j m') e → Expires (lookup j m) e)
    → Covers m idx
    → Covers m' idx
Covers-fewer m m' idx d fewer (distinct, valid, covers) =
    (d, valid, λ j e h. covers j e (fewer j e h))

-- An entry that is replaced by one whose expiry is scheduled.
Covers-schedule :
    (m m' : Map Bytes) (idx : TtlIndex) (key value : Bytes) (exp : ℕ)
    → Distinct m'
    → FitsU64 (some exp)
    → ((j : Bytes)
        → lookup j m'
          ≡ (if bytes_eq key j then some (Value.encode value (some exp)) else lookup j m))
    → Covers m idx
    → Covers m' (Ttl.schedule key exp idx)
Covers-schedule m m' idx key value exp d fits put (distinct, valid, covers) =
    let (valid', registers, permit) = schedule_lem key exp idx valid in
    (d, valid', λ j e h. registers e j ∙ registered j e (subst (λ o. Expires o e) (put j) h))
  where
    registered :
        (j : Bytes) (e : ℕ)
        → Expires (if bytes_eq key j then some (Value.encode value (some exp)) else lookup j m) e
        → (((exp == e) && bytes_eq key j) || scheduled idx e j) ≡ true
    registered j e h = elim (Bool-cases (bytes_eq key j)) [
      | inl same ↦ let at : exp ≡ e = Expires-some value exp e fits (rw same at h) in ground arith
      | inr other ↦
          let before : scheduled idx e j ≡ true = covers j e (rw other at h) in ground arith
    ]

module _ {F : Fjall} (view : F.Keyspace → Map Bytes) (laws : FjallLaws F view) where
  -- A put of a value without expiry.
  put-Covers :
      (st : StorageBackend F) (idx : TtlIndex) (k value : Bytes)
      → Covers (entries view st) idx
      → Covers (entries view (Storage.put st k (Value.encode value none)).1) idx
  put-Covers st idx k value c =
      let m = backend-IsMap view laws st c.0 in
      Covers-fewer (entries view st) _ idx (m.put_distinct k _)
        (λ j e h. elim (Result-cases (Storage.put st k (Value.encode value none)).0) [
          | inl (u, done) ↦ fewer j e (subst (λ o. Expires o e) (m.put_ok k _ done j) h)
          | inr (x, failed) ↦ elim (m.put_failed k _ x failed) [
            | inl same ↦ subst (λ o. Expires o e) (same j) h
            | inr written ↦ fewer j e (subst (λ o. Expires o e) (written j) h)
          ]
        ])
        c
    where
      fewer :
          (j : Bytes) (e : ℕ)
          → Expires
              (if bytes_eq k j then some (Value.encode value none) else lookup j (entries view st))
              e
          → Expires (lookup j (entries view st)) e
      fewer j e h = elim (Bool-cases (bytes_eq k j)) [
        | inl same ↦ absurd (Expires-none value e (rw same at h))
        | inr other ↦ rw other at h
      ]

  delete-Covers :
      (st : StorageBackend F) (idx : TtlIndex) (k : Bytes)
      → Covers (entries view st) idx
      → Covers (entries view (Storage.delete st k).1) idx
  delete-Covers st idx k c =
      let m = backend-IsMap view laws st c.0 in
      Covers-fewer (entries view st) _ idx (m.delete_distinct k)
        (λ j e h. elim (Result-cases (Storage.delete st k).0) [
          | inl (u, done) ↦ fewer j e (subst (λ o. Expires o e) (m.delete_ok k done j) h)
          | inr (x, failed) ↦ elim (m.delete_failed k x failed) [
            | inl same ↦ subst (λ o. Expires o e) (same j) h
            | inr removed ↦ fewer j e (subst (λ o. Expires o e) (removed j) h)
          ]
        ])
        c
    where
      fewer :
          (j : Bytes) (e : ℕ)
          → Expires (if bytes_eq k j then none else lookup j (entries view st)) e
          → Expires (lookup j (entries view st)) e
      fewer j e h = elim (Bool-cases (bytes_eq k j)) [
        | inl same ↦ absurd (rw same at h)
        | inr other ↦ rw other at h
      ]

  commit_accounting-Covers :
      {B : Broadcast} {G : Governor} (svc : NodeService F B G) (acc : Option Accounting)
      → Covers (entries view svc.storage) svc.ttl_index
      → Covers
          (entries view (commit_accounting acc svc).storage)
          (commit_accounting acc svc).ttl_index
  unfolding commit_accounting
  commit_accounting-Covers svc none c = c
  commit_accounting-Covers svc (some plan) c =
      elim (apply_stores svc.storage svc.quotas plan.tenant plan.delta) [
        | inl same ↦ rw same c
        | inr (k, count, put) ↦ rw put (put-Covers svc.storage svc.ttl_index k count c)
      ]

module _ {F : Fjall} {B : Broadcast} {G : Governor} (view : F.Keyspace → Map Bytes)
    (laws : FjallLaws F view) where
  abbrev pub IsCovered : NodeService F B G → Type 0
  IsCovered svc = Covers (entries view svc.storage) svc.ttl_index

  -- The steps of both operations behind the change of the storage and of the index.
  ended-IsCovered :
      (d : Disk) (key value : Bytes) (kind : ChangeKind) (acc : Option Accounting)
      (svc : NodeService F B G)
      → IsCovered svc
      → IsCovered
          (rotate_wal_if_needed d (publish_change key kind value (commit_accounting acc svc)))
  ended-IsCovered d key value kind acc svc c =
      let c' = commit_accounting-Covers view laws svc acc c in
      let (same, q) = ended-keeps view laws d key value kind (commit_accounting acc svc) c'.0 in
      rw (same, ttl_index-ended d key value kind (commit_accounting acc svc)) c'

  -- A put of the storage that changed no entry.
  unchanged-IsCovered :
      (svc : NodeService F B G) (key raw : Bytes)
      → IsSame (entries view svc.storage) (entries view (Storage.put svc.storage key raw).1)
      → IsCovered svc
      → IsCovered (record svc { storage = (Storage.put svc.storage key raw).1 })
  unchanged-IsCovered svc key raw same c =
      let m = backend-IsMap view laws svc.storage c.0 in
      Covers-fewer (entries view svc.storage) _ svc.ttl_index (m.put_distinct key raw)
        (λ j x h. subst (λ o. Expires o x) (same j) h) c

  -- A put of the storage that succeeded, behind the remaining steps.
  finished-IsCovered :
      (d : Disk) (key value : Bytes) (exp : Option ℕ) (acc : Option Accounting)
      (svc : NodeService F B G)
      → FitsU64 exp
      → (Storage.put svc.storage key (Value.encode value exp)).0 ≡ ok tt
      → IsCovered svc
      → IsCovered (
          rotate_wal_if_needed d (
            publish_change key Watch.put value (
              commit_accounting acc (
                schedule_expiry key exp (record svc {
                  storage = (Storage.put svc.storage key (Value.encode value exp)).1;
                })))))
  finished-IsCovered d key value none acc svc fits done c =
      ended-IsCovered d key value Watch.put acc _
        (put-Covers view laws svc.storage svc.ttl_index key value c)
  finished-IsCovered d key value (some exp) acc svc fits done c =
      let m = backend-IsMap view laws svc.storage c.0 in
      ended-IsCovered d key value Watch.put acc _ (
        Covers-schedule (entries view svc.storage) _ svc.ttl_index key value exp
          (m.put_distinct key (Value.encode value (some exp))) fits
          (m.put_ok key (Value.encode value (some exp)) done) c)
