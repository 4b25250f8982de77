-- ===== src/Auth/Rbac/Tables.antt =====
-- rbac.rs: the bit operations over the values that a role's bits can have, by evaluation.
use Prim.Native.Nat.{bit_and, bit_or}
use ferriskv.Prelude.{
  ℕ, suc, zero, ◌<◌, ◌≡◌, refl, Bool, true, false, not, ◌&&◌, ◌||◌, ltb, ltb→lt, ◌==◌,
  if◌then◌else◌, arith,
}
use ferriskv.Auth.Rbac.{Permission, read, write, delete, admin, watch, to_u8}

-- Whether each set of bits under the bound passes.
each_bits : (ℕ → Bool) → ℕ → Bool
each_bits test zero = true
each_bits test (suc bound) = if test bound then each_bits test bound else false

each_bits_lem :
    (test : ℕ → Bool) (bound bits : ℕ)
    → each_bits test bound ≡ true
    → bits < bound
    → test bits ≡ true
unfolding each_bits
each_bits_lem test zero bits passes under = absurd (omega arith)
each_bits_lem test (suc bound) bits passes under = ground (arith, each_bits_lem test bound bits)

abbrev pub bit_set : ℕ → Permission → Bool
bit_set bits p = not (bit_and bits (to_u8 p) == 0)

abbrev pub same : Permission → Permission → Bool
same p q = to_u8 p == to_u8 q

-- Both sides are the same Boolean.
abbrev agrees : Bool → Bool → Bool
agrees a b = (a && b) || (not a && not b)

agrees-eq : (a b : Bool) → agrees a b ≡ true → a ≡ b
agrees-eq a b h = ground arith

-- Adding a permission sets its bit and no other, and stays within five bits.
abbrev adds : Permission → Permission → ℕ → Bool
adds q p bits =
    agrees (bit_set (bit_or bits (to_u8 q)) p) (bit_set bits p || same q p)
    && ltb (bit_or bits (to_u8 q)) 32

table : (q p : Permission) → each_bits (adds q p) 32 ≡ true
unfolding each_bits
table read read = refl
table read write = refl
table read delete = refl
table read admin = refl
table read watch = refl
table write read = refl
table write write = refl
table write delete = refl
table write admin = refl
table write watch = refl
table delete read = refl
table delete write = refl
table delete delete = refl
table delete admin = refl
table delete watch = refl
table admin read = refl
table admin write = refl
table admin delete = refl
table admin admin = refl
table admin watch = refl
table watch read = refl
table watch write = refl
table watch delete = refl
table watch admin = refl
table watch watch = refl

and_true : (a b : Bool) → (a && b) ≡ true → (a ≡ true) × (b ≡ true)
and_true a b h = ground arith

pub bit_set-bit_or :
    (bits : ℕ) (q p : Permission)
    → bits < 32
    → (bit_set (bit_or bits (to_u8 q)) p ≡ (bit_set bits p || same q p))
      × (bit_or bits (to_u8 q) < 32)
bit_set-bit_or bits q p h =
    let (set, small) = and_true _ _ (each_bits_lem (adds q p) 32 bits (table q p) h) in
    (agrees-eq _ _ set, ltb→lt _ _ small)
