-- ===== src/Core/Storage/Laws.antt =====
-- storage.rs: the calls of `StorageBackend` over the finite map that a backend holds. What is assumed
-- of `fjall` is its documented behaviour, `FjallLaws`: nothing is assumed of whether a write that
-- fails has been applied.
pub mod Engine
pub mod Faulty
mod Examples
use ferriskv.Prelude.{
  ◌≡◌, refl, ap, sym, Bool, true, false, not, ◌&&◌, Option, none, some, [], ◌∷◌, arith,
  if◌then◌else◌, String, ◌⊎◌, inl, inr,
}
use ferriskv.Prelude.Bytes.{Bytes, bytes_eq, starts_with, bytes_lt}
use ferriskv.Prelude.Assoc.{
  Map, lookup, insert, remove, Distinct, lookup-insert, lookup-remove, insert-Distinct,
  remove-Distinct,
}
use ferriskv.Core.Error.{Error, Result, ok, err, Result-cases}
use ferriskv.Core.Storage.MemStorage
use ferriskv.Core.Storage.MemStorage.Scan.{Lists, scan-Lists, scan_range-Lists}
use ferriskv.Core.Storage.FjallStorage
use ferriskv.Core.Storage.FjallStorage.{Fjall, Fallible, value, fault, from_fjall, collect}
use ferriskv.Core.Storage.{StorageBackend, memory, fjall, get, put, delete, scan, scan_range, flush}

abbrev pub IsSame : Map Bytes → Map Bytes → Type 0
IsSame m m' = (j : Bytes) → lookup j m' ≡ lookup j m

-- The second map is the first with a value at one key, or without that key.
abbrev pub IsWritten : Bytes → Bytes → Map Bytes → Map Bytes → Type 0
IsWritten k v m m' = (j : Bytes) → lookup j m' ≡ (if bytes_eq k j then some v else lookup j m)

abbrev pub IsRemoved : Bytes → Map Bytes → Map Bytes → Type 0
IsRemoved k m m' = (j : Bytes) → lookup j m' ≡ (if bytes_eq k j then none else lookup j m)

-- A keyspace holds a finite map: a read returns what the map has, a write or a removal that succeeds
-- changes it at its key alone, one that fails may have been applied or not, a scan lists it by
-- ascending key, and `persist` keeps it.
pub record FjallLaws (F : Fjall) (view : F.Keyspace → Map Bytes) : Type 0 where
  pub distinct : (ks : F.Keyspace) → Distinct (view ks)
  pub get :
      (ks : F.Keyspace) (k : Bytes) (o : Option Bytes)
      → F.get ks k ≡ value o
      → o ≡ lookup k (view ks)
  pub insert :
      (ks : F.Keyspace) (k v : Bytes)
      → (F.insert ks k v).0 ≡ value tt
      → IsWritten k v (view ks) (view (F.insert ks k v).1)
  pub remove :
      (ks : F.Keyspace) (k : Bytes)
      → (F.remove ks k).0 ≡ value tt
      → IsRemoved k (view ks) (view (F.remove ks k).1)
  pub insert_failed :
      (ks : F.Keyspace) (k v : Bytes) (e : String)
      → (F.insert ks k v).0 ≡ fault e
      → IsSame (view ks) (view (F.insert ks k v).1)
        ⊎ IsWritten k v (view ks) (view (F.insert ks k v).1)
  pub remove_failed :
      (ks : F.Keyspace) (k : Bytes) (e : String)
      → (F.remove ks k).0 ≡ fault e
      → IsSame (view ks) (view (F.remove ks k).1) ⊎ IsRemoved k (view ks) (view (F.remove ks k).1)
  pub prefix :
      (ks : F.Keyspace) (p : Bytes) (items : Map Bytes)
      → collect (F.prefix ks p) ≡ ok items
      → Lists (λ k. starts_with k p) (view ks) items
  pub range :
      (ks : F.Keyspace) (start end : Bytes) (items : Map Bytes)
      → collect (F.range ks start end) ≡ ok items
      → Lists (λ k. not (bytes_lt k start) && bytes_lt k end) (view ks) items
  pub persist : (ks : F.Keyspace) → view (F.persist ks).1 ≡ view ks

from_fjall-eq_ok : {A : Type 0} (r : Fallible A) (a : A) → from_fjall r ≡ ok a → r ≡ value a
from_fjall-eq_ok r a h = ground arith

from_fjall-eq_err :
    {A : Type 0} (r : Fallible A) (e : Error) → from_fjall r ≡ err e → (x : String) × (r ≡ fault x)
from_fjall-eq_err (value a) e h = cc
from_fjall-eq_err (fault x) e h = (x, refl)

module _ {F : Fjall} (view : F.Keyspace → Map Bytes) where
  abbrev pub entries : StorageBackend F → Map Bytes
  entries (memory m) = m
  entries (fjall ks) = view ks

  -- What each call of the trait does to the entries.
  pub record IsMap (st : StorageBackend F) : Type 0 where
    pub get_ok : (k : Bytes) (o : Option Bytes) → get st k ≡ ok o → o ≡ lookup k (entries st)
    pub put_ok :
        (k v : Bytes) → (put st k v).0 ≡ ok tt → IsWritten k v (entries st) (entries (put st k v).1)
    pub put_failed :
        (k v : Bytes) (e : Error)
        → (put st k v).0 ≡ err e
        → IsSame (entries st) (entries (put st k v).1)
          ⊎ IsWritten k v (entries st) (entries (put st k v).1)
    pub put_distinct : (k v : Bytes) → Distinct (entries (put st k v).1)
    pub delete_ok :
        (k : Bytes) → (delete st k).0 ≡ ok tt → IsRemoved k (entries st) (entries (delete st k).1)
    pub delete_failed :
        (k : Bytes) (e : Error)
        → (delete st k).0 ≡ err e
        → IsSame (entries st) (entries (delete st k).1)
          ⊎ IsRemoved k (entries st) (entries (delete st k).1)
    pub delete_distinct : (k : Bytes) → Distinct (entries (delete st k).1)
    pub scan_ok :
        (p : Bytes) (items : Map Bytes)
        → scan st p ≡ ok items
        → Lists (λ k. starts_with k p) (entries st) items
    pub scan_range_ok :
        (start end : Bytes) (items : Map Bytes)
        → scan_range st start end ≡ ok items
        → Lists (λ k. not (bytes_lt k start) && bytes_lt k end) (entries st) items
    pub flush_keeps : entries (flush st).1 ≡ entries st

  -- Over an engine with these laws each backend whose keys are distinct is a map.
  pub backend-IsMap : FjallLaws F view → (st : StorageBackend F) → Distinct (entries st) → IsMap st
  unfolding get put delete scan scan_range flush
  backend-IsMap laws (memory m) d = record {
    get_ok = λ k o h. cc;
    put_ok = λ k v h j. lookup-insert k j v m;
    put_failed = λ k v e h. cc;
    put_distinct = λ k v. insert-Distinct k v m d;
    delete_ok = λ k h j. lookup-remove k j m d;
    delete_failed = λ k e h. cc;
    delete_distinct = λ k. remove-Distinct k m d;
    scan_ok = λ p items h. scan-Lists m p items d h;
    scan_range_ok = λ start end items h. scan_range-Lists m start end items d h;
    flush_keeps = refl;
  }
  backend-IsMap laws (fjall ks) d = record {
    get_ok = λ k o h. laws.get ks k o (from_fjall-eq_ok (F.get ks k) o h);
    put_ok = λ k v h. laws.insert ks k v (from_fjall-eq_ok (F.insert ks k v).0 tt h);
    put_failed = λ k v e h.
        let (x, failed) = from_fjall-eq_err (F.insert ks k v).0 e h in
        laws.insert_failed ks k v x failed;
    put_distinct = λ k v. laws.distinct (F.insert ks k v).1;
    delete_ok = λ k h. laws.remove ks k (from_fjall-eq_ok (F.remove ks k).0 tt h);
    delete_failed = λ k e h.
        let (x, failed) = from_fjall-eq_err (F.remove ks k).0 e h in
        laws.remove_failed ks k x failed;
    delete_distinct = λ k. laws.distinct (F.remove ks k).1;
    scan_ok = λ p items h. laws.prefix ks p items h;
    scan_range_ok = λ start end items h. laws.range ks start end items h;
    flush_keeps = laws.persist ks;
  }

  -- Whatever its outcome, a put or a delete leaves every other key as it was.
  pub put-other :
      (st : StorageBackend F) (k v j : Bytes)
      → IsMap st
      → bytes_eq k j ≡ false
      → lookup j (entries (put st k v).1) ≡ lookup j (entries st)
  put-other st k v j m other = elim (Result-cases (put st k v).0) [
    | inl (u, done) ↦ rw other at (m.put_ok k v done j)
    | inr (e, failed) ↦ elim (m.put_failed k v e failed) [
      | inl same ↦ same j
      | inr written ↦ rw other at (written j)
    ]
  ]

  pub delete-other :
      (st : StorageBackend F) (k j : Bytes)
      → IsMap st
      → bytes_eq k j ≡ false
      → lookup j (entries (delete st k).1) ≡ lookup j (entries st)
  delete-other st k j m other = elim (Result-cases (delete st k).0) [
    | inl (u, done) ↦ rw other at (m.delete_ok k done j)
    | inr (e, failed) ↦ elim (m.delete_failed k e failed) [
      | inl same ↦ same j
      | inr removed ↦ rw other at (removed j)
    ]
  ]
