-- ===== src/Auth/Rbac.antt =====
-- rbac.rs: permissions as bits of a `u8`, roles and role sets.
mod Tables
pub mod Granted
use Prim.Native.Nat.{bit_and, bit_or}
use ferriskv.Prelude.{ℕ, Bool, true, false, not, ◌||◌, List, [], ◌∷◌, ◌++◌, ◌==◌}
use ferriskv.Prelude.Bytes.{Bytes}

pub data Permission : Type 0 where
  read write delete admin watch : Permission

-- `p as u8`.
abbrev pub to_u8 : Permission → ℕ
to_u8 read = 1
to_u8 write = 2
to_u8 delete = 4
to_u8 admin = 8
to_u8 watch = 16

pub record Role : Type 0 where
  pub name : Bytes
  pub permissions : ℕ

-- The loop of `Role::new`.
unfoldable pub or_bits : ℕ → List Permission → ℕ
or_bits bits [] = bits
or_bits bits (p ∷ perms) = or_bits (bit_or bits (to_u8 p)) perms

unfoldable pub new : Bytes → List Permission → Role
unfolding or_bits
new name perms = record { name = name; permissions = or_bits 0 perms }

unfoldable pub role_allows : Role → Permission → Bool
role_allows r p = not (bit_and r.permissions (to_u8 p) == 0)

abbrev pub RoleSet : Type 0
RoleSet = List Role

unfoldable pub set_allows : RoleSet → Permission → Bool
unfolding role_allows
set_allows [] p = false
set_allows (r ∷ roles) p = role_allows r p || set_allows roles p

unfoldable pub add : Role → RoleSet → RoleSet
add role roles = roles ++ (role ∷ [])
