-- ===== src/Core/Storage/MemStorage/Scan.antt =====
-- storage.rs: what `MemStorage::scan` and `scan_range` return.
use ferriskv.Prelude.{◌≡◌, ◌∙◌, Bool, not, ◌&&◌, none, if◌then◌else◌}
use ferriskv.Prelude.Bytes.{Bytes, starts_with, bytes_lt}
use ferriskv.Prelude.Assoc.{Map, lookup, Distinct}
use ferriskv.Core.Error.{ok}
use ferriskv.Core.Storage.MemStorage.{select, sort, scan, scan_range}
use ferriskv.Core.Storage.MemStorage.Sorted.{
  Ascending, lookup-select, select-Distinct, lookup-sort, sort-Ascending,
}

-- `items` lists, by ascending key, the entries of `m` whose key passes the test, and no other.
pub record Lists (test : Bytes → Bool) (m items : Map Bytes) : Type 0 where
  pub ascending : Ascending items
  pub entries : (k : Bytes) → lookup k items ≡ (if test k then lookup k m else none)

sort-select-Lists :
    (test : Bytes → Bool) (m : Map Bytes) → Distinct m → Lists test m (sort (select test m))
sort-select-Lists test m d = record {
  ascending = sort-Ascending (select test m) (select-Distinct test m d);
  entries = λ k. lookup-sort k (select test m) (select-Distinct test m d) ∙ lookup-select test k m;
}

pub scan-Lists :
    (m : Map Bytes) (prefix : Bytes) (items : Map Bytes)
    → Distinct m
    → scan m prefix ≡ ok items
    → Lists (λ k. starts_with k prefix) m items
unfolding scan
scan-Lists m prefix items d h =
    let e : sort (select (λ k. starts_with k prefix) m) ≡ items = cc in
    rw e at (sort-select-Lists (λ k. starts_with k prefix) m d)

pub scan_range-Lists :
    (m : Map Bytes) (start end : Bytes) (items : Map Bytes)
    → Distinct m
    → scan_range m start end ≡ ok items
    → Lists (λ k. not (bytes_lt k start) && bytes_lt k end) m items
unfolding scan_range
scan_range-Lists m start end items d h =
    let e : sort (select (λ k. not (bytes_lt k start) && bytes_lt k end) m) ≡ items = cc in
    rw e at (sort-select-Lists (λ k. not (bytes_lt k start) && bytes_lt k end) m d)
