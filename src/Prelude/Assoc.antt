-- ===== src/Prelude/Assoc.antt =====
-- Maps keyed by byte strings (`DashMap`, `HashMap`): association lists that hold a key once. The
-- order in which a map is iterated is the list's, which the code never relies on.
use ferriskv.Prelude.Tests.{if◌then◌else◌, Bool-cases}
use ferriskv.Prelude.Bytes.{Bytes, bytes_eq, bytes_eq_iff}
use Prim.Native.Nat.{ℕ, ◌+◌}
use mathlib.Core.Path.{◌≡◌, refl}
use mathlib.Core.Logic.{inl, inr}
use mathlib.Core.Bool.{true, false}
use mathlib.Core.Option.{Option, none, some}
use mathlib.Core.List.{List, [], ◌∷◌}
use native.Mathlib.Omega.{arith}

abbrev pub Map {ℓ} : Type ℓ → Type ℓ
Map V = List (Bytes × V)

module _ {ℓ} {V : Type ℓ} where
  unfoldable pub lookup : Bytes → Map V → Option V
  lookup k [] = none
  lookup k ((j, v) ∷ m) = if bytes_eq j k then some v else lookup k m

  unfoldable pub insert : Bytes → V → Map V → Map V
  insert k v [] = (k, v) ∷ []
  insert k v ((j, w) ∷ m) = if bytes_eq j k then (k, v) ∷ m else (j, w) ∷ insert k v m

  unfoldable pub remove : Bytes → Map V → Map V
  remove k [] = []
  remove k ((j, w) ∷ m) = if bytes_eq j k then m else (j, w) ∷ remove k m

  -- Each key stands in the map once.
  abbrev pub Distinct : Map V → Type ℓ
  Distinct [] = Unit
  Distinct ((j, w) ∷ m) = (lookup j m ≡ none) × Distinct m

  pub lookup-insert :
      (k j : Bytes) (v : V) (m : Map V)
      → lookup j (insert k v m) ≡ (if bytes_eq k j then some v else lookup j m)
  unfolding lookup insert
  lookup-insert k j v [] = refl
  lookup-insert k j v ((i, w) ∷ m) =
      ground (arith, bytes_eq_iff k j, bytes_eq_iff i k, bytes_eq_iff i j, lookup-insert k j v m)

  pub lookup-insert_here :
      (k j : Bytes) (v : V) (m : Map V) → bytes_eq k j ≡ true → lookup j (insert k v m) ≡ some v
  lookup-insert_here k j v m h = rw h at (lookup-insert k j v m)

  pub lookup-insert_other :
      (k j : Bytes) (v : V) (m : Map V)
      → bytes_eq k j ≡ false
      → lookup j (insert k v m) ≡ lookup j m
  lookup-insert_other k j v m h = rw h at (lookup-insert k j v m)

  pub lookup-remove :
      (k j : Bytes) (m : Map V)
      → Distinct m
      → lookup j (remove k m) ≡ (if bytes_eq k j then none else lookup j m)
  unfolding lookup remove
  lookup-remove k j [] d = ground arith
  lookup-remove k j ((i, w) ∷ m) d =
      ground (arith, bytes_eq_iff k j, bytes_eq_iff i k, bytes_eq_iff i j, lookup-remove k j m)

  pub insert-Distinct : (k : Bytes) (v : V) (m : Map V) → Distinct m → Distinct (insert k v m)
  unfolding lookup insert
  insert-Distinct k v [] d = (refl, tt)
  insert-Distinct k v ((i, w) ∷ m) d =
      ground
        (arith, bytes_eq_iff i k, bytes_eq_iff k i, lookup-insert k i v m, insert-Distinct k v m)

  pub remove-Distinct : (k : Bytes) (m : Map V) → Distinct m → Distinct (remove k m)
  unfolding lookup remove
  remove-Distinct k [] d = tt
  remove-Distinct k ((i, w) ∷ m) d =
      ground (arith, bytes_eq_iff k i, lookup-remove k i m, remove-Distinct k m)

  -- Summing a weight over the entries.
  unfoldable pub total : (Bytes → V → ℕ) → Map V → ℕ
  total f [] = 0
  total f ((j, w) ∷ m) = f j w + total f m

  -- What one key contributes.
  abbrev pub weight : (Bytes → V → ℕ) → Bytes → Option V → ℕ
  weight f k none = 0
  weight f k (some v) = f k v

  pub total-insert :
      (f : Bytes → V → ℕ) (k : Bytes) (v : V) (m : Map V)
      → total f (insert k v m) + weight f k (lookup k m) ≡ total f m + f k v
  unfolding lookup insert total
  total-insert f k v [] = ground arith
  total-insert f k v ((i, w) ∷ m) = elim (Bool-cases (bytes_eq i k)) [
    | inl same ↦ ground (arith, (bytes_eq_iff i k).0 same)
    | inr other ↦ rw other (ground (arith, total-insert f k v m))
  ]

  pub total-remove :
      (f : Bytes → V → ℕ) (k : Bytes) (m : Map V)
      → total f (remove k m) + weight f k (lookup k m) ≡ total f m
  unfolding lookup remove total
  total-remove f k [] = ground arith
  total-remove f k ((i, w) ∷ m) = elim (Bool-cases (bytes_eq i k)) [
    | inl same ↦ ground (arith, (bytes_eq_iff i k).0 same)
    | inr other ↦ rw other (ground (arith, total-remove f k m))
  ]
