-- ===== src/Core/Key.antt =====
-- crates/ferriskv-core/src/key.rs: `Subspace` and `KeyCodec`. A tenant name (`&str`) is a byte
-- string for which `is_utf8` holds.
pub mod RoundTrip
pub mod Prefix
mod Examples
use ferriskv.Prelude.{ℕ, zero, suc, ◌+◌, ◌%◌, Bool, true, false, Option, none, some, [], ◌∷◌, ◌++◌}
use ferriskv.Prelude.{ltb, ◌==◌, if◌then◌else◌, length, get_or, drop, slice}
use ferriskv.Prelude.Bytes
use ferriskv.Prelude.Bytes.{Bytes, is_empty}
use ferriskv.Core.Error.{Result, ok, err, corrupt, config, empty_tenant, tenant_too_long, ok_or}
use ferriskv.Core.Error.{◌>>=◌}
use ferriskv.Core.Utf8.{is_utf8}

pub data Subspace : Type 0 where
  metadata data_space index stats : Subspace

-- `self as u8`.
abbrev pub to_u8 : Subspace → ℕ
to_u8 metadata = 0
to_u8 data_space = 1
to_u8 index = 2
to_u8 stats = 3

abbrev pub from_u8 : ℕ → Option Subspace
from_u8 b =
    if b == 0
    then some metadata
    else if b == 1
    then some data_space
    else if b == 2
    then some index
    else if b == 3
    then some stats
    else none

abbrev pub max_tenant_len : ℕ
max_tenant_len = 255

write_tenant : Bytes → Bytes
write_tenant tenant = length tenant % 256 ∷ tenant

unfoldable pub encode : Bytes → Subspace → Bytes → Result Bytes
unfolding write_tenant
encode tenant subspace payload =
    if is_empty tenant
    then err (config empty_tenant)
    else if ltb max_tenant_len (length tenant)
    then err (config (tenant_too_long (length tenant) max_tenant_len))
    else ok (write_tenant tenant ++ (to_u8 subspace ∷ payload))

unfoldable pub encode_subspace_prefix : Bytes → Subspace → Result Bytes
unfolding encode
encode_subspace_prefix tenant subspace = encode tenant subspace []

pub encode_tenant_prefix : Bytes → Result Bytes
unfolding write_tenant
encode_tenant_prefix tenant =
    if is_empty tenant
    then err (config empty_tenant)
    else if ltb max_tenant_len (length tenant)
    then err (config (tenant_too_long (length tenant) max_tenant_len))
    else ok (write_tenant tenant)

-- `std::str::from_utf8(..).map_err(|_| Error::Corrupt("tenant utf8"))`.
abbrev pub tenant_of : Bytes → Result Bytes
tenant_of bs = if is_utf8 bs then ok bs else err (corrupt "tenant utf8")

-- An index in range is `get_or` with a default that is not read.
unfoldable pub decode : Bytes → Result (Bytes × Subspace × Bytes)
decode key =
    let tlen = get_or key 0 0 in
    if is_empty key
    then err (corrupt "empty key")
    else if tlen == 0
    then err (corrupt "empty tenant")
    else if ltb (length key) (1 + tlen + 1)
    then err (corrupt "truncated key")
    else do
      tenant ← tenant_of (slice 1 (1 + tlen) key)
      sub ← ok_or (from_u8 (get_or key (1 + tlen) 0)) (corrupt "subspace byte")
      ok (tenant, sub, drop (2 + tlen) key)

pub strip_prefix : Bytes → Bytes → Option Bytes
unfolding Bytes.strip_prefix
strip_prefix key prefix = Bytes.strip_prefix key prefix
