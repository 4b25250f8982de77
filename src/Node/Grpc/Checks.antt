-- ===== src/Node/Grpc/Checks.antt =====
-- grpc.rs: what a handler refuses before it reaches the service. The transport puts the principal
-- that the interceptor returned among the request's extensions.
use ferriskv.Prelude.{ℕ, not, ◌||◌, Option, none, some, [], ◌∷◌, length, ltb, ◌==◌, if◌then◌else◌}
use ferriskv.Prelude.Bytes.{Bytes, bytes_eq, is_empty}
use ferriskv.Core.Error.{
  Error, Result, ok, err, not_found, storage, not_leader, unknown_tenant, not_owner, corrupt, io,
  config, quota_exceeded, rate_limited,
}
use ferriskv.Core.Limits.{Limits}
use ferriskv.Node.Status.{
  Status, Reply, reply, refuse, deny, then_reply, Code, invalid_argument, permission_denied,
  resource_exhausted, failed_precondition, internal, unauthenticated, key_size, value_size,
  batch_size, of_error, empty_tenant, long_tenant, auth_layer_missing, not_authorized_tenant,
  permission_required,
}
use ferriskv.Node.AuthLayer.{Principal, tenant_of, allows}

abbrev pub perm_read : Bytes
perm_read = b'r' ∷ b'e' ∷ b'a' ∷ b'd' ∷ []

abbrev pub perm_write : Bytes
perm_write = b'w' ∷ b'r' ∷ b'i' ∷ b't' ∷ b'e' ∷ []

abbrev pub perm_delete : Bytes
perm_delete = b'd' ∷ b'e' ∷ b'l' ∷ b'e' ∷ b't' ∷ b'e' ∷ []

abbrev pub perm_watch : Bytes
perm_watch = b'w' ∷ b'a' ∷ b't' ∷ b'c' ∷ b'h' ∷ []

abbrev pub passed : Reply (Unit {0})
passed = reply tt

unfoldable pub enforce_key_size : Limits → Bytes → Reply (Unit {0})
enforce_key_size l key =
    if ltb l.max_key_size (length key)
    then deny invalid_argument (key_size (length key) l.max_key_size)
    else passed

unfoldable pub enforce_value_size : Limits → Bytes → Reply (Unit {0})
enforce_value_size l value =
    if ltb l.max_value_size (length value)
    then deny resource_exhausted (value_size (length value) l.max_value_size)
    else passed

unfoldable pub enforce_batch_size : Limits → ℕ → Reply (Unit {0})
enforce_batch_size l n =
    if ltb l.max_batch_ops n then deny invalid_argument (batch_size n l.max_batch_ops) else passed

unfoldable pub cap_scan_limit : Limits → ℕ → ℕ
cap_scan_limit l requested =
    if (requested == 0) || ltb l.max_scan_limit requested then l.max_scan_limit else requested

abbrev pub code_of : Error → Code
code_of (not_found key) = Code.not_found
code_of (not_leader node) = failed_precondition
code_of (unknown_tenant t) = unauthenticated
code_of (not_owner shard) = failed_precondition
code_of (quota_exceeded t used limit) = resource_exhausted
code_of (rate_limited t limit) = resource_exhausted
code_of (config reason) = invalid_argument
code_of (corrupt m) = internal
code_of (storage m) = internal
code_of (io m) = internal

abbrev pub to_status : Error → Status
to_status e = record { code = code_of e; message = of_error e }

-- `.map_err(to_status)`.
abbrev pub map_err {ℓ} : {A : Type ℓ} → Result A → Reply A
map_err (ok a) = reply a
map_err (err e) = refuse (to_status e)

unfoldable pub check_tenant : Bytes → Reply (Unit {0})
check_tenant t =
    if is_empty t
    then deny invalid_argument empty_tenant
    else if ltb 255 (length t)
    then deny invalid_argument long_tenant
    else passed

-- `authorize`, at the principal among the request's extensions.
abbrev pub authorize_tenant : Option Bytes → Bytes → Reply (Unit {0})
authorize_tenant none tenant = passed
authorize_tenant (some claim_tenant) tenant =
    if not (bytes_eq claim_tenant tenant)
    then deny permission_denied (not_authorized_tenant tenant)
    else passed

unfoldable pub authorize : Option Principal → Bytes → Bytes → Reply (Unit {0})
authorize none tenant perm = deny internal auth_layer_missing
authorize (some p) tenant perm =
    then_reply (authorize_tenant (tenant_of p) tenant)
      λ u. if not (allows p perm) then deny permission_denied (permission_required perm) else passed
