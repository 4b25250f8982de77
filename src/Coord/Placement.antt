-- ===== src/Coord/Placement.antt =====
-- crates/ferriskv-coord/src/placement.rs: `RangeMap`. The vector behind the lock is a list.
pub mod Owner
pub mod Inserted
mod Examples
use ferriskv.Prelude.{
  ℕ, zero, suc, ◌-◌, Bool, true, false, not, Option, none, some, List, [], ◌∷◌, ◌++◌, take, drop,
  length, ◌==◌, if◌then◌else◌,
}
use ferriskv.Prelude.Bytes.{Bytes, bytes_lt}

pub record RangeEntry : Type 0 where
  pub shard_id : ℕ
  pub start : Bytes
  pub end : Option Bytes
  pub primary : Bytes
  pub replicas : List Bytes

abbrev pub is_below : Bytes → Option Bytes → Bool
is_below key none = true
is_below key (some end) = bytes_lt key end

unfoldable pub contains : RangeEntry → Bytes → Bool
contains e key = if bytes_lt key e.start then false else is_below key e.end

abbrev pub RangeMap : Type 0
RangeMap = List RangeEntry

-- `partition_point`: how many entries in front pass the test.
unfoldable pub partition_point : (RangeEntry → Bool) → RangeMap → ℕ
partition_point test [] = 0
partition_point test (e ∷ m) = if test e then suc (partition_point test m) else 0

-- `&g[i]`, `none` out of range.
unfoldable pub at_index : ℕ → RangeMap → Option RangeEntry
at_index n [] = none
at_index zero (e ∷ m) = some e
at_index (suc n) (e ∷ m) = at_index n m

unfoldable pub insert : RangeEntry → RangeMap → RangeMap
unfolding partition_point
insert entry m =
    let pos = partition_point (λ e. not (bytes_lt entry.start e.start)) m in
    take pos m ++ (entry ∷ drop pos m)

abbrev pub if_contains : Bytes → Option RangeEntry → Option RangeEntry
if_contains key none = none
if_contains key (some candidate) = if contains candidate key then some candidate else none

abbrev pub starts_before : Bytes → RangeEntry → Bool
starts_before key e = not (bytes_lt key e.start)

unfoldable pub lookup : Bytes → RangeMap → Option RangeEntry
lookup key m =
    let idx = partition_point (starts_before key) m in
    if idx == 0 then none else if_contains key (at_index (idx - 1) m)

pub all : RangeMap → List RangeEntry
all m = m

pub len : RangeMap → ℕ
len m = length m

pub is_empty : RangeMap → Bool
is_empty [] = true
is_empty (e ∷ m) = false
