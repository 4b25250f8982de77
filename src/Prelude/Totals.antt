-- ===== src/Prelude/Totals.antt =====
-- The total weight of a map depends on what its lookups answer alone.
use Prim.Native.Nat.{ℕ, ◌+◌}
use mathlib.Core.Path.{◌≡◌, refl, sym, ◌∙◌}
use mathlib.Core.Option.{none, some}
use mathlib.Core.List.{[], ◌∷◌}
use native.Mathlib.Omega.{arith}
use ferriskv.Prelude.Tests.{if◌then◌else◌}
use ferriskv.Prelude.Bytes.{Bytes, bytes_eq, bytes_eq_iff, bytes_eq_refl}
use ferriskv.Prelude.Assoc.{
  Map, lookup, insert, remove, Distinct, total, weight, lookup-insert, lookup-remove,
  insert-Distinct, remove-Distinct, total-insert, total-remove,
}

module _ {ℓ} {V : Type ℓ} (f : Bytes → V → ℕ) where
  lookup-head : (j : Bytes) (w : V) (m : Map V) → lookup j ((j, w) ∷ m) ≡ some w
  unfolding lookup
  lookup-head j w m = rw (bytes_eq_refl j)

  total-cons : (j : Bytes) (w : V) (m : Map V) → total f ((j, w) ∷ m) ≡ f j w + total f m
  unfolding total
  total-cons j w m = refl

  tail_agrees :
      (j : Bytes) (w : V) (m n : Map V)
      → Distinct ((j, w) ∷ m)
      → Distinct n
      → ((k : Bytes) → lookup k ((j, w) ∷ m) ≡ lookup k n)
      → (k : Bytes) → lookup k m ≡ lookup k (remove j n)
  unfolding lookup
  tail_agrees j w m n d e h k = ground (arith, lookup-remove j k n e, h k, d.0, bytes_eq_iff j k)

  pub total_ext :
      (m n : Map V)
      → Distinct m
      → Distinct n
      → ((k : Bytes) → lookup k m ≡ lookup k n)
      → total f m ≡ total f n
  total_ext [] [] d e h = refl
  total_ext [] ((j, w) ∷ n) d e h =
      let none_there : lookup {V = V} j [] ≡ none = unfold lookup in refl in
      cc (h j, lookup-head j w n, none_there)
  total_ext ((j, w) ∷ m) n d e h =
      let here : lookup j n ≡ some w = sym (h j) ∙ lookup-head j w m in
      let rest : total f m ≡ total f (remove j n) =
        total_ext m (remove j n) d.1 (remove-Distinct j n e) (tail_agrees j w m n d e h) in
      omega (arith, total-cons j w m, rest, rw here at (total-remove f j n))

  pub total_put :
      (k : Bytes) (v : V) (m n : Map V)
      → Distinct m
      → Distinct n
      → ((j : Bytes) → lookup j n ≡ (if bytes_eq k j then some v else lookup j m))
      → total f n + weight f k (lookup k m) ≡ total f m + f k v
  total_put k v m n d e h =
      let same =
        total_ext n (insert k v m) e (insert-Distinct k v m d)
          (λ j. h j ∙ sym (lookup-insert k j v m)) in
      rw same (total-insert f k v m)

  pub total_delete :
      (k : Bytes) (m n : Map V)
      → Distinct m
      → Distinct n
      → ((j : Bytes) → lookup j n ≡ (if bytes_eq k j then none else lookup j m))
      → total f n + weight f k (lookup k m) ≡ total f m
  total_delete k m n d e h =
      let same =
        total_ext n (remove k m) e (remove-Distinct k m d)
          (λ j. h j ∙ sym (lookup-remove k j m d)) in
      rw same (total-remove f k m)
