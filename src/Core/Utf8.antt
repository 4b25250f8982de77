-- ===== src/Core/Utf8.antt =====
-- `std::str::from_utf8`: which byte strings are UTF-8, by the table of well-formed sequences of
-- the Unicode standard. A `&str` is a byte string that passes.
use ferriskv.Prelude.{ℕ, zero, suc, ◌≡◌, refl, Bool, true, false, ◌&&◌, ◌||◌, [], ◌∷◌, leb, ◌==◌}
use ferriskv.Prelude.{if◌then◌else◌, length}
use ferriskv.Prelude.Bytes.{Bytes}

abbrev within : ℕ → ℕ → ℕ → Bool
within lo hi b = leb lo b && leb b hi

abbrev is_tail : ℕ → Bool
is_tail = within 0x80 0xbf

two_bytes : ℕ → ℕ → Bool
two_bytes a b = within 0xc2 0xdf a && is_tail b

three_bytes : ℕ → ℕ → ℕ → Bool
three_bytes a b c =
    ((a == 0xe0) && within 0xa0 0xbf b && is_tail c)
    || (within 0xe1 0xec a && is_tail b && is_tail c)
    || ((a == 0xed) && within 0x80 0x9f b && is_tail c)
    || (within 0xee 0xef a && is_tail b && is_tail c)

four_bytes : ℕ → ℕ → ℕ → ℕ → Bool
four_bytes a b c d =
    ((a == 0xf0) && within 0x90 0xbf b && is_tail c && is_tail d)
    || (within 0xf1 0xf3 a && is_tail b && is_tail c && is_tail d)
    || ((a == 0xf4) && within 0x80 0x8f b && is_tail c && is_tail d)

-- One character takes one byte at least, so `length bs` rounds are enough.
utf8_loop : ℕ → Bytes → Bool
utf8_loop n [] = true
utf8_loop zero (a ∷ r) = false
utf8_loop (suc n) (a ∷ []) = leb a 0x7f
utf8_loop (suc n) (a ∷ b ∷ []) =
    let after = utf8_loop n (b ∷ []) in if leb a 0x7f then after else two_bytes a b
utf8_loop (suc n) (a ∷ b ∷ c ∷ []) =
    let one = utf8_loop n (b ∷ c ∷ []) in
    let two = utf8_loop n (c ∷ []) in
    if leb a 0x7f then one else if two_bytes a b then two else three_bytes a b c
utf8_loop (suc n) (a ∷ b ∷ c ∷ d ∷ r) =
    let one = utf8_loop n (b ∷ c ∷ d ∷ r) in
    let two = utf8_loop n (c ∷ d ∷ r) in
    let three = utf8_loop n (d ∷ r) in
    let four = utf8_loop n r in
    if leb a 0x7f
    then one
    else if two_bytes a b
    then two
    else if three_bytes a b c
    then three
    else four_bytes a b c d && four

unfoldable pub is_utf8 : Bytes → Bool
unfolding utf8_loop two_bytes three_bytes four_bytes
is_utf8 bs = utf8_loop (length bs) bs

-- "héllo€𐍈" passes; an overlong form, a surrogate and a cut character do not.
accepts : is_utf8 (0x68 ∷ 0xc3 ∷ 0xa9 ∷ 0xe2 ∷ 0x82 ∷ 0xac ∷ 0xf0 ∷ 0x90 ∷ 0x8d ∷ 0x88 ∷ []) ≡ true
unfolding is_utf8
accepts = refl

refuses :
    (is_utf8 (0xc0 ∷ 0xaf ∷ []) ≡ false)
    × (is_utf8 (0xed ∷ 0xa0 ∷ 0x80 ∷ []) ≡ false)
    × (is_utf8 (0x61 ∷ 0xe2 ∷ 0x82 ∷ []) ≡ false)
unfolding is_utf8
refuses = (refl, refl, refl)
