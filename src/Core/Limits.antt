-- ===== src/Core/Limits.antt =====
-- crates/ferriskv-core/src/limits.rs: `Limits`.
use ferriskv.Prelude.Bytes.{Bytes}
use ferriskv.Prelude.{Bool, true, false, ℕ, ◌*◌, ◌<◌, ◌≡◌, ◌↔◌, String, ◌==◌, if◌then◌else◌, arith}

pub record Limits : Type 0 where
  pub max_key_size : ℕ
  pub max_value_size : ℕ
  pub max_batch_ops : ℕ
  pub max_scan_limit : ℕ

-- `Result<(), String>`; a message that ends in a path keeps the path beside its text.
pub data Validity : Type 0 where
  valid : Validity
  invalid : String → Validity
  invalid_path : String → Bytes → Validity

-- The `?` operator.
abbrev pub also : Validity → Validity → Validity
also valid next = next
also (invalid e) next = invalid e
also (invalid_path e path) next = invalid_path e path

abbrev pub require : Bool → String → Validity
require true e = valid
require false e = invalid e

abbrev pub default : Limits
default = record {
  max_key_size = 4 * 1024;
  max_value_size = 10 * 1024 * 1024;
  max_batch_ops = 1000;
  max_scan_limit = 10000;
}

unfoldable pub validate : Limits → Validity
validate l =
    if l.max_key_size == 0
    then invalid "limits.max_key_size must be > 0"
    else if l.max_value_size == 0
    then invalid "limits.max_value_size must be > 0"
    else if l.max_batch_ops == 0
    then invalid "limits.max_batch_ops must be > 0"
    else if l.max_scan_limit == 0
    then invalid "limits.max_scan_limit must be > 0"
    else valid

abbrev pub ArePositive : Limits → Type 0
ArePositive l =
    (0 < l.max_key_size) × (0 < l.max_value_size) × (0 < l.max_batch_ops) × (0 < l.max_scan_limit)

pub validate_iff_positive : (l : Limits) → (validate l ≡ valid) ↔ ArePositive l
unfolding validate
validate_iff_positive l = ground arith
