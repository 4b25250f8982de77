-- ===== src/Core/Storage/MemStorage/Sorted.antt =====
-- storage.rs: sorting by key, and the selection that `scan` and `scan_range` sort.
use ferriskv.Prelude.{
  ◌≡◌, refl, ◌∙◌, Bool, true, none, some, [], ◌∷◌, arith, All, if◌then◌else◌, Bool-cases, inl, inr,
}
use ferriskv.Prelude.Bytes.{
  Bytes, bytes_eq, bytes_lt, bytes_eq_iff, bytes_lt_irrefl, bytes_lt_trans, bytes_lt_total,
}
use ferriskv.Prelude.Assoc.{Map, lookup, Distinct}
use ferriskv.Core.Storage.MemStorage.{select, insert_sorted, sort}

-- Every key of the map lies above `k`.
abbrev pub Above : Bytes → Map Bytes → Type 0
Above k = All (λ p. bytes_lt k p.0 ≡ true)

-- The keys ascend strictly.
abbrev pub Ascending : Map Bytes → Type 0
Ascending [] = Unit
Ascending (p ∷ m) = Above p.0 m × Ascending m

pub lookup-select :
    (test : Bytes → Bool) (j : Bytes) (m : Map Bytes)
    → lookup j (select test m) ≡ (if test j then lookup j m else none)
unfolding lookup select
lookup-select test j [] = ground arith
lookup-select test j ((k, v) ∷ m) = ground (arith, bytes_eq_iff k j, lookup-select test j m)

pub select-Distinct : (test : Bytes → Bool) (m : Map Bytes) → Distinct m → Distinct (select test m)
unfolding select
select-Distinct test [] d = tt
select-Distinct test ((k, v) ∷ m) d = ground (arith, lookup-select test k m, select-Distinct test m)

lookup-insert_sorted :
    (k v j : Bytes) (m : Map Bytes)
    → lookup k m ≡ none
    → lookup j (insert_sorted k v m) ≡ (if bytes_eq k j then some v else lookup j m)
unfolding lookup insert_sorted
lookup-insert_sorted k v j [] h = refl
lookup-insert_sorted k v j ((i, w) ∷ m) h =
    ground
      (arith, bytes_eq_iff i k, bytes_eq_iff k j, bytes_eq_iff i j, lookup-insert_sorted k v j m)

pub lookup-sort : (j : Bytes) (m : Map Bytes) → Distinct m → lookup j (sort m) ≡ lookup j m
unfolding lookup sort
lookup-sort j [] d = refl
lookup-sort j ((k, v) ∷ m) d =
    ground (arith, lookup-sort k m, lookup-sort j m, lookup-insert_sorted k v j (sort m))

Above-trans : (a b : Bytes) (m : Map Bytes) → bytes_lt a b ≡ true → Above b m → Above a m
Above-trans a b [] h u = tt
Above-trans a b ((k, v) ∷ m) h u = (bytes_lt_trans a b k h u.0, Above-trans a b m h u.1)

Above-insert_sorted :
    (a k v : Bytes) (m : Map Bytes)
    → bytes_lt a k ≡ true
    → Above a m
    → Above a (insert_sorted k v m)
unfolding insert_sorted
Above-insert_sorted a k v [] h u = (h, tt)
Above-insert_sorted a k v ((j, w) ∷ m) h u = elim (Bool-cases (bytes_lt j k)) [
  | inl low ↦ rw low (u.0, Above-insert_sorted a k v m h u.1)
  | inr high ↦ rw high (h, u)
]

insert_sorted-Ascending :
    (k v : Bytes) (m : Map Bytes)
    → lookup k m ≡ none
    → Ascending m
    → Ascending (insert_sorted k v m)
unfolding insert_sorted lookup
insert_sorted-Ascending k v [] h a = (tt, tt)
insert_sorted-Ascending k v ((j, w) ∷ m) h a = elim (Bool-cases (bytes_lt j k)) [
  | inl low ↦
      rw low (Above-insert_sorted j k v m low a.0, insert_sorted-Ascending k v m (ground arith) a.1)
  | inr high ↦
      let above : bytes_lt k j ≡ true = bytes_lt_total j k high (ground arith) in
      rw high ((above, Above-trans k j m above a.0), a)
]

pub sort-Ascending : (m : Map Bytes) → Distinct m → Ascending (sort m)
unfolding sort
sort-Ascending [] d = tt
sort-Ascending ((k, v) ∷ m) d =
    insert_sorted-Ascending k v (sort m) (lookup-sort k m d.1 ∙ d.0) (sort-Ascending m d.1)

Above-lookup : (k : Bytes) (m : Map Bytes) → Above k m → lookup k m ≡ none
unfolding lookup
Above-lookup k [] u = refl
Above-lookup k ((j, w) ∷ m) u =
    ground (arith, bytes_eq_iff j k, bytes_lt_irrefl k, Above-lookup k m)

pub Ascending-Distinct : (m : Map Bytes) → Ascending m → Distinct m
Ascending-Distinct [] a = tt
Ascending-Distinct (p ∷ m) a = (Above-lookup p.0 m a.0, Ascending-Distinct m a.1)
