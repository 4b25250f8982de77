-- ===== src/Coord/Placement/Owner.antt =====
-- placement.rs: `lookup` finds the range that a key lies in.
use ferriskv.Prelude.{
  ℕ, zero, suc, ◌-◌, ◌≡◌, ◌↔◌, ◌⊎◌, inl, inr, refl, sym, ◌∙◌, ap, Bool, true, false, Option, none,
  some, [], ◌∷◌, ◌==◌, if◌then◌else◌, Bool-cases, arith,
}
use ferriskv.Prelude.Bytes.{Bytes, bytes_lt, bytes_lt_le_trans, bytes_le_trans}
use ferriskv.Coord.Placement.{
  RangeEntry, RangeMap, contains, partition_point, at_index, if_contains, starts_before, lookup,
}

-- The entries of a map.
abbrev pub Has : RangeMap → RangeEntry → Type 0
Has [] e = ⊥
Has (f ∷ m) e = (f ≡ e) ⊎ Has m e

-- One range ends where the other starts, or before.
abbrev pub Precedes : RangeEntry → RangeEntry → Type 0
Precedes e f =
    (bytes_lt f.start e.start ≡ false)
    × (x : Bytes) × (e.end ≡ some x)
    × (bytes_lt f.start x ≡ false)

-- Each range precedes those behind it.
abbrev pub Disjoint : RangeMap → Type 0
Disjoint [] = Unit
Disjoint (e ∷ m) = ((f : RangeEntry) → Has m f → Precedes e f) × Disjoint m

-- The last entry of those in front that pass the test.
last : (RangeEntry → Bool) → RangeMap → Option RangeEntry → Option RangeEntry
last test [] found = found
last test (e ∷ m) found = if test e then last test m (some e) else found

pick : Option RangeEntry → ℕ → RangeMap → Option RangeEntry
pick found zero m = found
pick found (suc n) m = at_index n m

pick-partition_point :
    (test : RangeEntry → Bool) (m : RangeMap) (found : Option RangeEntry)
    → pick found (partition_point test m) m ≡ last test m found
unfolding pick last partition_point at_index
pick-partition_point test [] found = refl
pick-partition_point test (e ∷ m) found = elim (Bool-cases (test e)) [
  | inr h ↦ rw h refl
  | inl h ↦ rw h (next (partition_point test m) ∙ pick-partition_point test m (some e))
]
  where
    next : (n : ℕ) → at_index n (e ∷ m) ≡ pick (some e) n m
    next zero = refl
    next (suc n) = refl

lookup-last :
    (key : Bytes) (m : RangeMap) → lookup key m ≡ if_contains key (last (starts_before key) m none)
unfolding lookup pick
lookup-last key m =
    by_index (partition_point (starts_before key) m)
      (pick-partition_point (starts_before key) m none)
  where
    by_index :
        (n : ℕ)
        → pick none n m ≡ last (starts_before key) m none
        → (if n == 0 then none else if_contains key (at_index (n - 1) m))
          ≡ if_contains key (last (starts_before key) m none)
    by_index zero h = ap (if_contains key) h
    by_index (suc n) h =
        let positive : (suc n == 0) ≡ false = ground arith in
        let before : suc n - 1 ≡ n = omega arith in rw (positive, before) (ap (if_contains key) h)

-- What is found is an entry, or what was found before.
last-Has :
    (test : RangeEntry → Bool) (m : RangeMap) (found : Option RangeEntry) (e : RangeEntry)
    → last test m found ≡ some e
    → Has m e ⊎ (found ≡ some e)
unfolding last
last-Has test [] found e h = inr h
last-Has test (f ∷ m) found e h = elim (Bool-cases (test f)) [
  | inr k ↦ inr (rw k at h)
  | inl k ↦ elim (last-Has test m (some f) e (rw k at h)) [
    | inl there ↦ inl (inr there)
    | inr here ↦ inl (inl (some_same here))
  ]
]
  where
    some_same : some f ≡ some e → f ≡ e
    some_same h = cc

-- A key in a range is not below its start, and is below the start of each range behind it.
starts_before-contains :
    (key : Bytes) (e : RangeEntry) → contains e key ≡ true → starts_before key e ≡ true
unfolding contains
starts_before-contains key e h = ground arith

starts_before-Precedes :
    (key : Bytes) (e f : RangeEntry)
    → contains e key ≡ true
    → Precedes e f
    → starts_before key f ≡ false
unfolding contains
starts_before-Precedes key e f h (start, x, ends, after) =
    let below : bytes_lt key x ≡ true = below_end (rw ends at h) in
    let above = bytes_lt_le_trans key x f.start below after in rw above refl
  where
    below_end :
        (if bytes_lt key e.start then false else bytes_lt key x) ≡ true → bytes_lt key x ≡ true
    below_end h = ground arith

stops :
    (key : Bytes) (m : RangeMap) (e : RangeEntry)
    → contains e key ≡ true
    → ((f : RangeEntry) → Has m f → Precedes e f)
    → last (starts_before key) m (some e) ≡ some e
unfolding last
stops key [] e h before = refl
stops key (f ∷ m) e h before = rw (starts_before-Precedes key e f h (before f (inl refl))) refl

last-contains :
    (key : Bytes) (m : RangeMap) (e : RangeEntry) (found : Option RangeEntry)
    → Disjoint m
    → Has m e
    → contains e key ≡ true
    → last (starts_before key) m found ≡ some e
unfolding last
last-contains key [] e found d there h = absurd there
last-contains key (f ∷ m) e found (before, d) (inl same) h =
    let inside : contains f key ≡ true = rw same h in
    let first = starts_before-contains key f inside in
    rw first (stops key m f inside before ∙ ap some same)
last-contains key (f ∷ m) e found (before, d) (inr there) h =
    let (start, x, ends, after) = before e there in
    let low =
      bytes_le_trans f.start e.start key start (above_start (starts_before-contains key e h)) in
    rw low (last-contains key m e (some f) d there h)
  where
    above_start : starts_before key e ≡ true → bytes_lt key e.start ≡ false
    above_start h = ground arith

none_not_some : (e : RangeEntry) → ¬ (none ≡ some e)
none_not_some e h = cc

inside :
    (key : Bytes) (c e : RangeEntry)
    → some c ≡ some e
    → contains c key ≡ true
    → contains e key ≡ true
inside key c e h k = let same : c ≡ e = cc in rw same at k

-- In a map of disjoint ranges in ascending order, `lookup` returns exactly the entry whose range
-- the key lies in, and none where there is no such entry.
pub lookup_iff_contains :
    (key : Bytes) (m : RangeMap) (e : RangeEntry)
    → Disjoint m
    → (lookup key m ≡ some e) ↔ (Has m e × (contains e key ≡ true))
lookup_iff_contains key m e d = (to, from)
  where
    chosen :
        (o : Option RangeEntry)
        → if_contains key o ≡ some e
        → (o ≡ some e) × (contains e key ≡ true)
    chosen none h = cc
    chosen (some c) h = elim (Bool-cases (contains c key)) [
      | inl k ↦ let same : some c ≡ some e = rw k at h in (same, inside key c e same k)
      | inr k ↦ absurd (none_not_some e (rw k at h))
    ]

    to : lookup key m ≡ some e → Has m e × (contains e key ≡ true)
    to h =
        let (found, within) =
          chosen (last (starts_before key) m none) (sym (lookup-last key m) ∙ h) in
        elim (last-Has (starts_before key) m none e found) [
          | inl there ↦ (there, within)
          | inr here ↦ absurd (none_not_some e here)
        ]

    from : Has m e × (contains e key ≡ true) → lookup key m ≡ some e
    from (there, within) =
        lookup-last key m
        ∙ ap (if_contains key) (last-contains key m e none d there within)
        ∙ rw within refl
