-- ===== src/Coord/Placement/Examples.antt =====
-- placement.rs: two ranges that share a border, "m".
use ferriskv.Prelude.{◌≡◌, ◌⊎◌, ◌↔◌, refl, true, none, some, [], ◌∷◌, inl, inr}
use ferriskv.Prelude.Bytes.{Bytes, bytes_lt}
use ferriskv.Coord.Placement.{RangeEntry, RangeMap, contains, insert, lookup}
use ferriskv.Coord.Placement.Owner.{Has, Precedes, Disjoint, lookup_iff_contains}
use ferriskv.Coord.Placement.Inserted.{insert-lookup}

abbrev low : RangeEntry
low = record {
  shard_id = 1;
  start = [];
  end = some (b'm' ∷ []);
  primary = b'n' ∷ [];
  replicas = (b'n' ∷ []) ∷ [];
}

abbrev high : RangeEntry
high = record {
  shard_id = 2;
  start = b'm' ∷ [];
  end = none;
  primary = b'n' ∷ [];
  replicas = (b'n' ∷ []) ∷ [];
}

abbrev ranges : RangeMap
ranges = low ∷ high ∷ []

low-Precedes-high : Precedes low high
unfolding bytes_lt
low-Precedes-high = (refl, b'm' ∷ [], refl, refl)

ranges-Disjoint : Disjoint ranges
ranges-Disjoint = (
  λ f there. elim there [
    | inl same ↦ rw (← same) low-Precedes-high
    | inr none_there ↦ absurd none_there
  ],
  (λ f there. absurd there, tt),
)

lookup_iff_contains_example :
    (lookup (b'm' ∷ []) ranges ≡ some high) ↔ (Has ranges high × (contains high (b'm' ∷ []) ≡ true))
lookup_iff_contains_example = lookup_iff_contains (b'm' ∷ []) ranges high ranges-Disjoint

abbrev only_low : RangeMap
only_low = low ∷ []

insert-lookup_example :
    Disjoint (insert high only_low)
    × ((key : Bytes) (f : RangeEntry)
        → (lookup key (insert high only_low) ≡ some f)
          ↔ (((high ≡ f) × (contains f key ≡ true)) ⊎ (lookup key only_low ≡ some f)))
insert-lookup_example =
    insert-lookup high only_low (λ x h. absurd (endless x h)) ((λ f there. absurd there), tt)
      (λ f there. elim there [
        | inl same ↦ inr (rw (← same) low-Precedes-high)
        | inr none_there ↦ absurd none_there
      ])
  where
    endless : (x : Bytes) → ¬ (none ≡ some x)
    endless x h = cc
