-- ===== src/Prelude/Bytes.antt =====
-- Byte slices (`&[u8]`, `Bytes`): equality, the lexicographic order of `Ord for [u8]`, prefixes.
use Prim.Native.Nat.{ℕ, ◌<◌}
use mathlib.Core.Path.{◌≡◌, refl}
use mathlib.Core.Logic.{◌↔◌, inl, inr}
use mathlib.Core.Bool.{Bool, true, false, ◌&&◌, ◌||◌}
use mathlib.Core.Option.{Option, none, some}
use mathlib.Core.List.{List, [], ◌∷◌, ◌++◌}
use native.Mathlib.Omega.{arith}
use ferriskv.Prelude.Tests.{ltb, ◌==◌, if◌then◌else◌, Bool-cases}
use ferriskv.Prelude.Lists.{All}

abbrev pub Bytes : Type 0
Bytes = List ℕ

abbrev pub IsByte : ℕ → Type 0
IsByte b = b < 256

abbrev pub AreBytes : Bytes → Type 0
AreBytes = All IsByte

abbrev pub is_empty : Bytes → Bool
is_empty [] = true
is_empty (b ∷ bs) = false

-- `a == b` on slices.
unfoldable pub bytes_eq : Bytes → Bytes → Bool
bytes_eq [] [] = true
bytes_eq [] (b ∷ bs) = false
bytes_eq (a ∷ as_) [] = false
bytes_eq (a ∷ as_) (b ∷ bs) = (a == b) && bytes_eq as_ bs

-- `a < b` on slices.
unfoldable pub bytes_lt : Bytes → Bytes → Bool
bytes_lt xs [] = false
bytes_lt [] (b ∷ bs) = true
bytes_lt (a ∷ as_) (b ∷ bs) = ltb a b || ((a == b) && bytes_lt as_ bs)

-- `key.starts_with(prefix)`.
unfoldable pub starts_with : Bytes → Bytes → Bool
starts_with xs [] = true
starts_with [] (p ∷ ps) = false
starts_with (x ∷ xs) (p ∷ ps) = (x == p) && starts_with xs ps

-- `key.strip_prefix(prefix)`.
unfoldable pub strip_prefix : Bytes → Bytes → Option Bytes
strip_prefix xs [] = some xs
strip_prefix [] (p ∷ ps) = none
strip_prefix (x ∷ xs) (p ∷ ps) = if x == p then strip_prefix xs ps else none

pub bytes_eq_iff : (a b : Bytes) → (bytes_eq a b ≡ true) ↔ (a ≡ b)
unfolding bytes_eq
bytes_eq_iff [] [] = ground arith
bytes_eq_iff [] (b ∷ bs) = ground arith
bytes_eq_iff (a ∷ as_) [] = ground arith
bytes_eq_iff (a ∷ as_) (b ∷ bs) = ground (arith, bytes_eq_iff as_ bs)

pub bytes_eq_refl : (a : Bytes) → bytes_eq a a ≡ true
bytes_eq_refl a = (bytes_eq_iff a a).1 refl

pub starts_with-append : (p xs : Bytes) → starts_with (p ++ xs) p ≡ true
unfolding starts_with
starts_with-append [] [] = refl
starts_with-append [] (x ∷ xs) = refl
starts_with-append (p ∷ ps) xs = ground (arith, starts_with-append ps xs)

pub strip_prefix-eq_some : (xs p r : Bytes) → (strip_prefix xs p ≡ some r) ↔ (xs ≡ p ++ r)
unfolding strip_prefix
strip_prefix-eq_some [] [] r = ground arith
strip_prefix-eq_some (x ∷ xs) [] r = ground arith
strip_prefix-eq_some [] (p ∷ ps) r = ground arith
strip_prefix-eq_some (x ∷ xs) (p ∷ ps) r = ground (arith, strip_prefix-eq_some xs ps r)

-- The order is strict and total.
pub bytes_lt_irrefl : (a : Bytes) → bytes_lt a a ≡ false
unfolding bytes_lt
bytes_lt_irrefl [] = refl
bytes_lt_irrefl (a ∷ as_) = ground (arith, bytes_lt_irrefl as_)

pub bytes_lt_trans :
    (a b c : Bytes) → bytes_lt a b ≡ true → bytes_lt b c ≡ true → bytes_lt a c ≡ true
unfolding bytes_lt
bytes_lt_trans [] [] c h k = ground arith
bytes_lt_trans [] (b ∷ bs) [] h k = ground arith
bytes_lt_trans [] (b ∷ bs) (c ∷ cs) h k = refl
bytes_lt_trans (a ∷ as_) [] c h k = ground arith
bytes_lt_trans (a ∷ as_) (b ∷ bs) [] h k = ground arith
bytes_lt_trans (a ∷ as_) (b ∷ bs) (c ∷ cs) h k = ground (arith, bytes_lt_trans as_ bs cs)

pub bytes_lt_total :
    (a b : Bytes) → bytes_lt a b ≡ false → bytes_eq a b ≡ false → bytes_lt b a ≡ true
unfolding bytes_lt bytes_eq
bytes_lt_total [] [] h k = ground arith
bytes_lt_total [] (b ∷ bs) h k = ground arith
bytes_lt_total (a ∷ as_) [] h k = refl
bytes_lt_total (a ∷ as_) (b ∷ bs) h k = ground (arith, bytes_lt_total as_ bs)

-- Below something that is not above.
pub bytes_lt_le_trans :
    (a b c : Bytes) → bytes_lt a b ≡ true → bytes_lt c b ≡ false → bytes_lt a c ≡ true
bytes_lt_le_trans a b c h k = elim (Bool-cases (bytes_eq c b)) [
  | inl same ↦ rw ((bytes_eq_iff c b).0 same) h
  | inr other ↦ bytes_lt_trans a b c h (bytes_lt_total c b k other)
]

pub bytes_le_trans :
    (a b c : Bytes) → bytes_lt b a ≡ false → bytes_lt c b ≡ false → bytes_lt c a ≡ false
bytes_le_trans a b c h k = elim (Bool-cases (bytes_lt c a)) [
  | inr below ↦ below
  | inl above ↦ ground (arith, bytes_lt_le_trans c a b above h, k)
]
