-- ===== src/Core/Storage/Laws/Engine.antt =====
-- storage.rs with a concrete engine: a keyspace is an association list, and no call fails.
use ferriskv.Prelude.{◌≡◌, refl, Bool, not, ◌&&◌, [], ◌∷◌, map}
use ferriskv.Prelude.Bytes.{Bytes, starts_with, bytes_lt}
use ferriskv.Prelude.Assoc.{
  Map, lookup, insert, remove, Distinct, lookup-insert, lookup-remove, insert-Distinct,
  remove-Distinct,
}
use ferriskv.Core.Error.{ok}
use ferriskv.Core.Storage.MemStorage
use ferriskv.Core.Storage.MemStorage.Scan.{scan-Lists, scan_range-Lists}
use ferriskv.Core.Storage.FjallStorage.{Fjall, value, collect}
use ferriskv.Core.Storage.Laws.{FjallLaws}

abbrev pub Keyspace : Type 0
Keyspace = (m : Map Bytes) × Distinct m

abbrev pub select : (Bytes → Bool) → Keyspace → Map Bytes
select test ks = MemStorage.sort (MemStorage.select test ks.0)

abbrev pub engine : Fjall
engine = record {
  Keyspace = Keyspace;
  get = λ ks k. value (lookup k ks.0);
  insert = λ ks k v. (value tt, (insert k v ks.0, insert-Distinct k v ks.0 ks.1));
  remove = λ ks k. (value tt, (remove k ks.0, remove-Distinct k ks.0 ks.1));
  prefix = λ ks p. map value (select (λ k. starts_with k p) ks);
  range = λ ks start end. map value (select (λ k. not (bytes_lt k start) && bytes_lt k end) ks);
  persist = λ ks. (value tt, ks);
}

collect-map : (items : Map Bytes) → collect (map value items) ≡ ok items
unfolding collect
collect-map [] = refl
collect-map (p ∷ items) = rw (collect-map items)

pub engine-FjallLaws : FjallLaws engine (λ ks. ks.0)
unfolding MemStorage.scan MemStorage.scan_range
engine-FjallLaws = record {
  distinct = λ ks. ks.1;
  get = λ ks k o h. cc;
  insert = λ ks k v h j. lookup-insert k j v ks.0;
  remove = λ ks k h j. lookup-remove k j ks.0 ks.1;
  insert_failed = λ ks k v e h. cc;
  remove_failed = λ ks k e h. cc;
  prefix = λ ks p items h. scan-Lists ks.0 p items ks.1 (rw collect-map at h);
  range = λ ks start end items h. scan_range-Lists ks.0 start end items ks.1 (rw collect-map at h);
  persist = λ ks. refl;
}

-- What it holds.
abbrev pub contents : engine.Keyspace → Map Bytes
contents ks = ks.0
