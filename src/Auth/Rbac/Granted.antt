-- ===== src/Auth/Rbac/Granted.antt =====
-- rbac.rs: what a role made of permissions, and a set of such roles, allows.
use Prim.Native.Nat.{bit_or}
use ferriskv.Prelude.{ℕ, ◌<◌, ◌≡◌, sym, ◌∙◌, ap, Bool, false, ◌||◌, List, [], ◌∷◌, arith}
use ferriskv.Prelude.Bytes.{Bytes}
use ferriskv.Auth.Rbac.{
  Permission, read, write, delete, admin, watch, Role, RoleSet, or_bits, new, role_allows,
  set_allows, add, to_u8,
}
use ferriskv.Auth.Rbac.Tables.{bit_set, same, bit_set-bit_or}

-- The permission is one of the list.
unfoldable pub among : Permission → List Permission → Bool
among p [] = false
among p (q ∷ perms) = same q p || among p perms

or_assoc : (a b c : Bool) → ((a || b) || c) ≡ (a || (b || c))
or_assoc a b c = ground arith

or_bits-among :
    (bits : ℕ) (perms : List Permission) (p : Permission)
    → bits < 32
    → bit_set (or_bits bits perms) p ≡ (bit_set bits p || among p perms)
unfolding or_bits among
or_bits-among bits [] p h = ground arith
or_bits-among bits (q ∷ perms) p h =
    let (set, small) = bit_set-bit_or bits q p h in
    or_bits-among (bit_or bits (to_u8 q)) perms p small
    ∙ ap (λ (b : Bool). b || among p perms) set
    ∙ or_assoc (bit_set bits p) (same q p) (among p perms)

-- A role allows exactly the permissions that it was made of.
pub role_allows-new :
    (name : Bytes) (perms : List Permission) (p : Permission)
    → role_allows (new name perms) p ≡ among p perms
unfolding role_allows new
role_allows-new name perms read = or_bits-among 0 perms read (omega arith)
role_allows-new name perms write = or_bits-among 0 perms write (omega arith)
role_allows-new name perms delete = or_bits-among 0 perms delete (omega arith)
role_allows-new name perms admin = or_bits-among 0 perms admin (omega arith)
role_allows-new name perms watch = or_bits-among 0 perms watch (omega arith)

-- Adding a role grants what that role allows and takes nothing away.
pub set_allows-add :
    (role : Role) (roles : RoleSet) (p : Permission)
    → set_allows (add role roles) p ≡ (set_allows roles p || role_allows role p)
unfolding set_allows add
set_allows-add role [] p = ground arith
set_allows-add role (r ∷ roles) p =
    ap (λ (b : Bool). role_allows r p || b) (set_allows-add role roles p)
    ∙ sym (or_assoc (role_allows r p) (set_allows roles p) (role_allows role p))
