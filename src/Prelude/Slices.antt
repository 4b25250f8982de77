-- ===== src/Prelude/Slices.antt =====
-- Slices of a concatenation, and slices that meet.
use Prim.Native.Nat.{ℕ, zero, suc, ◌+◌, ◌-◌, ◌≤◌, ◌<◌}
use mathlib.Core.Path.{◌≡◌, refl, ap}
use mathlib.Core.List.{List, [], ◌∷◌, ◌++◌}
use native.Mathlib.Omega.{arith}
use ferriskv.Prelude.Lists.{
  length, get_or, take, drop, slice, drop-drop, length-drop, get_or-cons-drop,
}

module _ {ℓ} {A : Type ℓ} where
  pub take-append : (n : ℕ) (xs ys : List A) → n ≤ length xs → take n (xs ++ ys) ≡ take n xs
  take-append zero xs ys h = refl
  take-append (suc n) [] ys h = absurd (omega arith)
  take-append (suc n) (x ∷ xs) ys h = ap (λ (t : List A). x ∷ t) (take-append n xs ys (omega arith))

  pub drop-append : (n : ℕ) (xs ys : List A) → n ≤ length xs → drop n (xs ++ ys) ≡ drop n xs ++ ys
  drop-append zero xs ys h = refl
  drop-append (suc n) [] ys h = absurd (omega arith)
  drop-append (suc n) (x ∷ xs) ys h = drop-append n xs ys (omega arith)

  pub get_or-append :
      (i : ℕ) (xs ys : List A) (d : A) → i < length xs → get_or (xs ++ ys) i d ≡ get_or xs i d
  get_or-append zero [] ys d h = absurd (omega arith)
  get_or-append zero (x ∷ xs) ys d h = refl
  get_or-append (suc i) [] ys d h = absurd (omega arith)
  get_or-append (suc i) (x ∷ xs) ys d h = get_or-append i xs ys d (omega arith)

  pub take_all : (n : ℕ) (xs : List A) → length xs ≤ n → take n xs ≡ xs
  take_all zero [] h = refl
  take_all zero (x ∷ xs) h = absurd (omega arith)
  take_all (suc n) [] h = refl
  take_all (suc n) (x ∷ xs) h = ap (λ (t : List A). x ∷ t) (take_all n xs (omega arith))

  take_add : (n m : ℕ) (xs : List A) → take n xs ++ take m (drop n xs) ≡ take (n + m) xs
  take_add zero m xs = let e : zero + m ≡ m = omega arith in rw e
  take_add (suc n) zero [] = let e : suc n + 0 ≡ suc n = omega arith in rw e
  take_add (suc n) (suc m) [] = let e : suc n + suc m ≡ suc (n + suc m) = omega arith in rw e
  take_add (suc n) m (x ∷ xs) =
      let e : suc n + m ≡ suc (n + m) = omega arith in
      rw e (ap (λ (t : List A). x ∷ t) (take_add n m xs))

  pub slice-append :
      (a b : ℕ) (xs ys : List A) → a ≤ b → b ≤ length xs → slice a b (xs ++ ys) ≡ slice a b xs
  unfolding slice
  slice-append a b xs ys h k =
      rw (drop-append a xs ys (omega arith))
        (take-append (b - a) (drop a xs) ys (omega (arith, length-drop a xs)))

  pub slice-append-slice :
      (a b c : ℕ) (xs : List A) → a ≤ b → b ≤ c → slice a b xs ++ slice b c xs ≡ slice a c xs
  unfolding slice
  slice-append-slice a b c xs h k =
      let e : b ≡ a + (b - a) = omega arith in
      let f : (b - a) + (c - b) ≡ c - a = omega arith in
      let d : drop b xs ≡ drop (b - a) (drop a xs) = rw (drop-drop a (b - a) xs, ← e) in
      rw (d, take_add (b - a) (c - b) (drop a xs), f)

  pub get_or-cons-slice :
      (a c : ℕ) (xs : List A) (d : A)
      → a < c
      → c ≤ length xs
      → get_or xs a d ∷ slice (suc a) c xs ≡ slice a c xs
  unfolding slice
  get_or-cons-slice a c xs d h k =
      let e : c - a ≡ suc (c - suc a) = omega arith in rw (e, get_or-cons-drop a xs d (omega arith))

  pub slice_from_zero : (n : ℕ) (xs : List A) → slice 0 n xs ≡ take n xs
  unfolding slice
  slice_from_zero n xs = let e : n - 0 ≡ n = omega arith in rw e
