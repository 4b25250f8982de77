-- ===== src/Coord/Placement/Inserted.antt =====
-- placement.rs: `insert` keeps the ranges in order, and `lookup` finds the new one beside the others.
use ferriskv.Prelude.{
  ◌≡◌, ◌↔◌, ◌⊎◌, inl, inr, refl, sym, ◌∙◌, ap, Bool, true, false, some, [], ◌∷◌, Bool-cases,
  if◌then◌else◌, subst,
}
use ferriskv.Prelude.Bytes.{Bytes, bytes_lt, bytes_lt_le_trans}
use ferriskv.Coord.Placement.{RangeEntry, RangeMap, contains, partition_point, insert, lookup}
use ferriskv.Coord.Placement.Owner.{Has, Precedes, Disjoint, lookup_iff_contains}

-- A range holds its start.
abbrev pub IsInhabited : RangeEntry → Type 0
IsInhabited e = (x : Bytes) → e.end ≡ some x → bytes_lt e.start x ≡ true

-- The range is beside each range of the map.
abbrev pub Fits : RangeEntry → RangeMap → Type 0
Fits e m = (f : RangeEntry) → Has m f → Precedes e f ⊎ Precedes f e

insert_cons :
    (entry e : RangeEntry) (m : RangeMap)
    → insert entry (e ∷ m)
      ≡ (if bytes_lt entry.start e.start then entry ∷ e ∷ m else e ∷ insert entry m)
unfolding insert partition_point
insert_cons entry e m = elim (Bool-cases (bytes_lt entry.start e.start)) [
  | inl before ↦ rw before refl
  | inr behind ↦ rw behind refl
]

-- Where it precedes, an inhabited range starts below.
starts_below : (e f : RangeEntry) → IsInhabited e → Precedes e f → bytes_lt e.start f.start ≡ true
starts_below e f inhabited (start, x, ends, after) =
    bytes_lt_le_trans e.start x f.start (inhabited x ends) after

Has-insert :
    (entry : RangeEntry) (m : RangeMap) (f : RangeEntry)
    → Has (insert entry m) f ↔ ((entry ≡ f) ⊎ Has m f)
Has-insert entry [] f = unfold insert partition_point in ((λ h. h), λ h. h)
Has-insert entry (e ∷ m) f = elim (Bool-cases (bytes_lt entry.start e.start)) [
  | inl before ↦ rw (insert_cons entry e m, before) ((λ h. h), λ h. h)
  | inr behind ↦
      let (to, from) = Has-insert entry m f in
      rw (insert_cons entry e m, behind)
        (
          λ h. elim h [
            | inl here ↦ inr (inl here)
            | inr rest ↦ elim (to rest) [ inl new ↦ inl new | inr old ↦ inr (inr old) ]
          ],
          λ h. elim h [
            | inl new ↦ inr (from (inl new))
            | inr old ↦ elim old [ inl here ↦ inl here | inr rest ↦ inr (from (inr rest)) ]
          ],
        )
]

Fits-rest : (entry e : RangeEntry) (m : RangeMap) → Fits entry (e ∷ m) → Fits entry m
Fits-rest entry e m fits f there = fits f (inr there)

both_ways : (b : Bool) → b ≡ true → b ≡ false → ⊥
both_ways b h k = cc

-- A range that fits and starts below the first one of a map precedes them all.
Precedes-all :
    (entry e : RangeEntry) (m : RangeMap)
    → Disjoint (e ∷ m)
    → Fits entry (e ∷ m)
    → bytes_lt entry.start e.start ≡ true
    → (f : RangeEntry) → Has (e ∷ m) f
    → Precedes entry f
Precedes-all entry e m (before, d) fits below f there = elim (fits f there) [
  | inl precedes ↦ precedes
  | inr behind ↦ absurd (both_ways (bytes_lt entry.start f.start) (above f there) (behind.0))
]
  where
    above : (f : RangeEntry) → Has (e ∷ m) f → bytes_lt entry.start f.start ≡ true
    above f (inl same) = ap (λ r. bytes_lt entry.start r.start) (sym same) ∙ below
    above f (inr rest) = bytes_lt_le_trans entry.start e.start f.start below ((before f rest).0)

insert-Disjoint :
    (entry : RangeEntry) (m : RangeMap)
    → IsInhabited entry
    → Disjoint m
    → Fits entry m
    → Disjoint (insert entry m)
insert-Disjoint entry [] inhabited d fits =
    unfold insert partition_point in ((λ f there. absurd there), tt)
insert-Disjoint entry (e ∷ m) inhabited (before, d) fits =
    elim (Bool-cases (bytes_lt entry.start e.start)) [
      | inl below ↦
          rw (insert_cons entry e m, below)
            (Precedes-all entry e m (before, d) fits below, (before, d))
      | inr behind ↦
          rw (insert_cons entry e m, behind)
            (in_front behind, insert-Disjoint entry m inhabited d (Fits-rest entry e m fits))
    ]
  where
    first : bytes_lt entry.start e.start ≡ false → Precedes e entry
    first behind = elim (fits e (inl refl)) [
      | inr precedes ↦ precedes
      | inl precedes ↦ absurd (
          both_ways (bytes_lt entry.start e.start) (starts_below entry e inhabited precedes) behind)
    ]

    in_front :
        bytes_lt entry.start e.start ≡ false
        → (f : RangeEntry) → Has (insert entry m) f
        → Precedes e f
    in_front behind f there = elim ((Has-insert entry m f).0 there) [
      | inl new ↦ subst (Precedes e) new (first behind)
      | inr old ↦ before f old
    ]

-- Where the ranges are disjoint and in ascending order, an inhabited range that lies before or behind
-- each of them can be inserted: the ranges stay disjoint and in order, and `lookup` then returns the
-- new entry for exactly the keys that it contains, and else what it returned before.
pub insert-lookup :
    (entry : RangeEntry) (m : RangeMap)
    → IsInhabited entry
    → Disjoint m
    → Fits entry m
    → Disjoint (insert entry m)
      × ((key : Bytes) (f : RangeEntry)
          → (lookup key (insert entry m) ≡ some f)
            ↔ (((entry ≡ f) × (contains f key ≡ true)) ⊎ (lookup key m ≡ some f)))
insert-lookup entry m inhabited d fits =
    let d' = insert-Disjoint entry m inhabited d fits in
    (
      d',
      λ key f.
          found key f (lookup_iff_contains key (insert entry m) f d')
            (lookup_iff_contains key m f d),
    )
  where
    found :
        (key : Bytes) (f : RangeEntry)
        → (lookup key (insert entry m) ≡ some f)
          ↔ (Has (insert entry m) f × (contains f key ≡ true))
        → (lookup key m ≡ some f) ↔ (Has m f × (contains f key ≡ true))
        → (lookup key (insert entry m) ≡ some f)
          ↔ (((entry ≡ f) × (contains f key ≡ true)) ⊎ (lookup key m ≡ some f))
    found key f after before = (
      λ h.
          let (there, within) = after.0 h in
          elim ((Has-insert entry m f).0 there) [
            | inl new ↦ inl (new, within)
            | inr old ↦ inr (before.1 (old, within))
          ],
      λ h. elim h [
        | inl new ↦ after.1 ((Has-insert entry m f).1 (inl new.0), new.1)
        | inr old ↦
            let (there, within) = before.0 old in
            after.1 ((Has-insert entry m f).1 (inr there), within)
      ],
    )
