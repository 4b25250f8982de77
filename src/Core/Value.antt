-- ===== src/Core/Value.antt =====
-- crates/ferriskv-core/src/value.rs: `StoredValue` and `ValueCodec`.
pub mod RoundTrip
pub mod Agreement
mod Examples
use ferriskv.Prelude.{ℕ, ◌-◌, Bool, false, Option, none, some, [], ◌∷◌, ◌++◌, ltb, leb, ◌==◌}
use ferriskv.Prelude.{if◌then◌else◌, length, get_or, drop, slice}
use ferriskv.Prelude.Bytes.{Bytes, is_empty}
use ferriskv.Prelude.Words.{to_be_bytes, from_be_bytes}
use ferriskv.Core.Error.{Result, ok, err, corrupt}

abbrev pub version_no_ttl : ℕ
version_no_ttl = 0

abbrev pub version_with_ttl : ℕ
version_with_ttl = 1

pub record StoredValue : Type 0 where
  pub expires_at_ms : Option ℕ
  pub value : Bytes

unfoldable pub encode : Bytes → Option ℕ → Bytes
encode value none = version_no_ttl ∷ value
encode value (some exp) = version_with_ttl ∷ (to_be_bytes 8 exp ++ value)

unfoldable pub decode : Bytes → Result StoredValue
decode raw =
    if is_empty raw
    then err (corrupt "empty value")
    else if get_or raw 0 0 == version_no_ttl
    then ok (record { expires_at_ms = none; value = drop 1 raw })
    else if get_or raw 0 0 == version_with_ttl
    then if ltb (length raw) 9
      then err (corrupt "ttl value too short")
      else ok (record { expires_at_ms = some (from_be_bytes (slice 1 9 raw)); value = drop 9 raw })
    else err (corrupt "unknown value version")

unfoldable pub payload_len : Bytes → Result ℕ
payload_len raw =
    if is_empty raw
    then err (corrupt "empty value")
    else if get_or raw 0 0 == version_no_ttl
    then ok (length raw - 1)
    else if get_or raw 0 0 == version_with_ttl
    then if ltb (length raw) 9 then err (corrupt "ttl value too short") else ok (length raw - 9)
    else err (corrupt "unknown value version")

unfoldable pub is_expired : Bytes → ℕ → Result Bool
is_expired raw now_ms =
    if is_empty raw
    then err (corrupt "empty value")
    else if get_or raw 0 0 == version_no_ttl
    then ok false
    else if get_or raw 0 0 == version_with_ttl
    then if ltb (length raw) 9
      then err (corrupt "ttl value too short")
      else ok (leb (from_be_bytes (slice 1 9 raw)) now_ms)
    else err (corrupt "unknown value version")
