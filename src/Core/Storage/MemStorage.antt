-- ===== src/Core/Storage/MemStorage.antt =====
-- storage.rs: `MemStorage`. A `DashMap` is an association list, whose order `scan` hides.
pub mod Sorted
pub mod Scan
use ferriskv.Prelude.{Bool, not, ◌&&◌, Option, [], ◌∷◌, if◌then◌else◌}
use ferriskv.Prelude.Bytes.{Bytes, starts_with, bytes_lt}
use ferriskv.Prelude.Assoc.{Map, lookup, insert, remove}
use ferriskv.Core.Error.{Result, ok}

-- `for entry in self.inner.iter()` with a test.
unfoldable pub select : (Bytes → Bool) → Map Bytes → Map Bytes
select test [] = []
select test ((k, v) ∷ m) = let rest = select test m in if test k then (k, v) ∷ rest else rest

-- `out.sort_unstable_by(|a, b| a.0.cmp(&b.0))`; the keys differ, so the order is determined.
unfoldable pub insert_sorted : Bytes → Bytes → Map Bytes → Map Bytes
insert_sorted k v [] = (k, v) ∷ []
insert_sorted k v ((j, w) ∷ m) =
    if bytes_lt j k then (j, w) ∷ insert_sorted k v m else (k, v) ∷ (j, w) ∷ m

unfoldable pub sort : Map Bytes → Map Bytes
sort [] = []
sort ((k, v) ∷ m) = insert_sorted k v (sort m)

unfoldable pub get : Map Bytes → Bytes → Result (Option Bytes)
get m key = ok (lookup key m)

unfoldable pub put : Map Bytes → Bytes → Bytes → Result (Unit {0}) × Map Bytes
put m key v = (ok tt, insert key v m)

unfoldable pub delete : Map Bytes → Bytes → Result (Unit {0}) × Map Bytes
delete m key = (ok tt, remove key m)

unfoldable pub scan : Map Bytes → Bytes → Result (Map Bytes)
scan m prefix = ok (sort (select (λ k. starts_with k prefix) m))

unfoldable pub scan_range : Map Bytes → Bytes → Bytes → Result (Map Bytes)
scan_range m start end = ok (sort (select (λ k. not (bytes_lt k start) && bytes_lt k end) m))

unfoldable pub flush : Map Bytes → Result (Unit {0}) × Map Bytes
flush m = (ok tt, m)
