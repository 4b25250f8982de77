-- ===== src/Prelude.antt =====
-- Names that every module shares: numbers, lists and tests, passed on from the libraries and from
-- two children; `Bytes` and `Words` model what the code uses of byte slices and machine integers.
mod Tests
mod Lists
mod Slices
pub mod Bytes
pub mod Words
pub mod Assoc
pub mod Totals
pub mod Int
pub use Tests.*
pub use Lists.*
pub use Slices.*
unfoldable pub use Lists.{slice}
pub use Prim.Native.Nat.{ℕ, zero, suc, ◌+◌, ◌-◌, ◌*◌, ◌/◌, ◌%◌, ◌^◌, ◌≤◌, ◌<◌, min, max}
pub use Prim.Native.String.{String}
pub use mathlib.Core.Path.{◌≡◌, refl, sym, ap, ◌∙◌, subst}
pub use mathlib.Core.Logic.{◌≢◌, ◌↔◌, ◌⊎◌, inl, inr}
pub use mathlib.Core.Bool.{Bool, true, false, not, ◌&&◌, ◌||◌}
pub use mathlib.Core.Option.{Option, none, some}
pub use mathlib.Core.List.{List, [], ◌∷◌, ◌++◌, map, append_assoc, append-nil}
pub use native.Mathlib.Omega.{arith}
