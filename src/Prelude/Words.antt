-- ===== src/Prelude/Words.antt =====
-- Machine integers as bytes: `to_le_bytes`, `from_le_bytes` and their big-endian forms, at every
-- width, with the saturating addition of `u64`.
use Prim.Native.Nat.{ℕ, zero, suc, ◌+◌, ◌*◌, ◌/◌, ◌%◌, ◌^◌, ◌<◌, ◌-◌, min}
use mathlib.Core.Path.{◌≡◌, refl, ap, ◌∙◌}
use mathlib.Core.List.{[], ◌∷◌, reverse, reverse-append, reverse-reverse}
use native.Mathlib.Omega.{arith}
use ferriskv.Prelude.Lists.{length, All-append, length-reverse}
use ferriskv.Prelude.Bytes.{Bytes, IsByte, AreBytes}

abbrev pub u64_max : ℕ
u64_max = 2 ^ 64 - 1

abbrev pub IsU64 : ℕ → Type 0
IsU64 x = x < 2 ^ 64

abbrev pub IsU32 : ℕ → Type 0
IsU32 x = x < 2 ^ 32

-- `a.saturating_add(b)` on `u64`.
abbrev pub saturating_add : ℕ → ℕ → ℕ
saturating_add a b = min (a + b) u64_max

unfoldable pub to_le_bytes : ℕ → ℕ → Bytes
to_le_bytes zero x = []
to_le_bytes (suc w) x = x % 256 ∷ to_le_bytes w (x / 256)

unfoldable pub from_le_bytes : Bytes → ℕ
from_le_bytes [] = 0
from_le_bytes (b ∷ bs) = b + 256 * from_le_bytes bs

unfoldable pub to_be_bytes : ℕ → ℕ → Bytes
unfolding to_le_bytes
to_be_bytes w x = reverse (to_le_bytes w x)

unfoldable pub from_be_bytes : Bytes → ℕ
unfolding from_le_bytes
from_be_bytes bs = from_le_bytes (reverse bs)

pub length-to_le_bytes : (w x : ℕ) → length (to_le_bytes w x) ≡ w
unfolding to_le_bytes
length-to_le_bytes zero x = refl
length-to_le_bytes (suc w) x = ap suc (length-to_le_bytes w (x / 256))

pub from_le_bytes-to_le_bytes : (w x : ℕ) → x < 256 ^ w → from_le_bytes (to_le_bytes w x) ≡ x
unfolding to_le_bytes from_le_bytes
from_le_bytes-to_le_bytes zero x h = omega arith
from_le_bytes-to_le_bytes (suc w) x h =
    omega (arith, from_le_bytes-to_le_bytes w (x / 256) (omega arith))

pub to_le_bytes-from_le_bytes :
    (w : ℕ) (bs : Bytes) → AreBytes bs → length bs ≡ w → to_le_bytes w (from_le_bytes bs) ≡ bs
unfolding to_le_bytes from_le_bytes
to_le_bytes-from_le_bytes zero [] h e = refl
to_le_bytes-from_le_bytes zero (b ∷ bs) h e = absurd (omega arith)
to_le_bytes-from_le_bytes (suc w) [] h e = absurd (omega arith)
to_le_bytes-from_le_bytes (suc w) (b ∷ bs) h e =
    let low : (b + 256 * from_le_bytes bs) % 256 ≡ b = omega arith in
    let high : (b + 256 * from_le_bytes bs) / 256 ≡ from_le_bytes bs = omega arith in
    rw (low, high) (ap (λ (t : Bytes). b ∷ t) (to_le_bytes-from_le_bytes w bs h.1 (omega arith)))

pub AreBytes-to_le_bytes : (w x : ℕ) → AreBytes (to_le_bytes w x)
unfolding to_le_bytes
AreBytes-to_le_bytes zero x = tt
AreBytes-to_le_bytes (suc w) x = (omega arith, AreBytes-to_le_bytes w (x / 256))

pub from_le_bytes-lt :
    (w : ℕ) (bs : Bytes) → AreBytes bs → length bs ≡ w → from_le_bytes bs < 256 ^ w
unfolding from_le_bytes
from_le_bytes-lt zero [] h e = omega arith
from_le_bytes-lt zero (b ∷ bs) h e = absurd (omega arith)
from_le_bytes-lt (suc w) [] h e = absurd (omega arith)
from_le_bytes-lt (suc w) (b ∷ bs) h e = omega (arith, from_le_bytes-lt w bs h.1 (omega arith))

AreBytes-reverse : (bs : Bytes) → AreBytes bs → AreBytes (reverse bs)
AreBytes-reverse [] h = tt
AreBytes-reverse (b ∷ bs) h =
    rw (reverse-append (b ∷ []) bs)
      (All-append IsByte (reverse bs) (b ∷ []) (AreBytes-reverse bs h.1) (h.0, tt))

pub length-to_be_bytes : (w x : ℕ) → length (to_be_bytes w x) ≡ w
unfolding to_be_bytes
length-to_be_bytes w x = length-reverse (to_le_bytes w x) ∙ length-to_le_bytes w x

pub from_be_bytes-to_be_bytes : (w x : ℕ) → x < 256 ^ w → from_be_bytes (to_be_bytes w x) ≡ x
unfolding to_be_bytes from_be_bytes
from_be_bytes-to_be_bytes w x h = rw reverse-reverse (from_le_bytes-to_le_bytes w x h)

pub to_be_bytes-from_be_bytes :
    (w : ℕ) (bs : Bytes) → AreBytes bs → length bs ≡ w → to_be_bytes w (from_be_bytes bs) ≡ bs
unfolding to_be_bytes from_be_bytes
to_be_bytes-from_be_bytes w bs h e =
    rw (to_le_bytes-from_le_bytes w (reverse bs) (AreBytes-reverse bs h) (length-reverse bs ∙ e))
      (reverse-reverse bs)

pub AreBytes-to_be_bytes : (w x : ℕ) → AreBytes (to_be_bytes w x)
unfolding to_be_bytes
AreBytes-to_be_bytes w x = AreBytes-reverse (to_le_bytes w x) (AreBytes-to_le_bytes w x)

pub from_be_bytes-lt :
    (w : ℕ) (bs : Bytes) → AreBytes bs → length bs ≡ w → from_be_bytes bs < 256 ^ w
unfolding from_be_bytes
from_be_bytes-lt w bs h e =
    from_le_bytes-lt w (reverse bs) (AreBytes-reverse bs h) (length-reverse bs ∙ e)
