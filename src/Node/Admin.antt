-- ===== src/Node/Admin.antt =====
-- crates/ferriskv-node/src/admin.rs: the routes for quotas and health. `axum` matches the routes and
-- `serde` reads a body; the rendering of metrics and the version's text are left out.
pub mod Quotas
mod Examples
use ferriskv.Prelude.{
  ℕ, Bool, true, false, ◌||◌, Option, none, some, String, List, [], ◌∷◌, ◌++◌, length, ltb,
  if◌then◌else◌,
}
use ferriskv.Prelude.Bytes.{Bytes, bytes_lt, is_empty}
use ferriskv.Prelude.Assoc.{Map, lookup}
use ferriskv.Core.Error.{Error, Result, ok, err}
use ferriskv.Core.Storage as Storage
use ferriskv.Core.Storage.{StorageBackend}
use ferriskv.Core.Storage.FjallStorage.{Fjall}
use ferriskv.Node.Quota as Quota
use ferriskv.Node.Quota.{Quota, QuotaStore, TenantUsage, Json, usage_of, unwrap_or}
use ferriskv.Node.Watch.{Broadcast}
use ferriskv.Node.Throttle.{Governor}
use ferriskv.Node.Service.{NodeService}

pub data StatusCode : Type 0 where
  ok_200 bad_request_400 internal_server_error_500 service_unavailable_503 : StatusCode

pub data ErrorResponse : Type 0 where
  tenant_length : ErrorResponse
  of_error : Error → ErrorResponse

-- `Result<Json<T>, (StatusCode, Json<ErrorResponse>)>`.
pub data Response {ℓ} (A : Type ℓ) : Type ℓ where
  answer : A → Response A
  error : StatusCode → ErrorResponse → Response A

pub record QuotaEntry : Type 0 where
  pub tenant : Bytes
  pub usage : TenantUsage

pub record SetQuotaRequest : Type 0 where
  pub max_bytes : Option ℕ
  pub max_ops_per_sec : Option ℕ

abbrev pub entry_of : QuotaStore → Bytes → QuotaEntry
entry_of quotas tenant = record { tenant = tenant; usage = usage_of quotas tenant }

unfoldable pub validate_tenant : Bytes → Response (Unit {0})
validate_tenant tenant =
    if is_empty tenant || ltb 255 (length tenant)
    then error bad_request_400 tenant_length
    else answer tt

abbrev pub internal {ℓ} : {A : Type ℓ} → Error → Response A
internal e = error internal_server_error_500 (of_error e)

-- The `?` operator in front of what changes a state.
abbrev pub then_answer {ℓ κ} :
    {A B : Type ℓ} {S : Type κ} → Response A → (A → S → Response B × S) → S → Response B × S
then_answer (answer a) f s = f a s
then_answer (error code e) f s = (error code e, s)

-- `QuotaStore::list`: tenants with usage, then tenants with a quota alone, in order of their names.
unfoldable pub used_entries : QuotaStore → Map ℕ → List QuotaEntry
used_entries s [] = []
used_entries s ((tenant, n) ∷ rest) = entry_of s tenant ∷ used_entries s rest

unfoldable pub quota_entries : QuotaStore → Map Quota → List QuotaEntry
quota_entries s [] = []
quota_entries s ((tenant, q) ∷ rest) =
    let more = quota_entries s rest in
    elim (lookup tenant s.usage) [ none ↦ entry_of s tenant ∷ more | some n ↦ more ]

unfoldable pub insert_entry : QuotaEntry → List QuotaEntry → List QuotaEntry
insert_entry e [] = e ∷ []
insert_entry e (f ∷ rest) =
    if bytes_lt f.tenant e.tenant then f ∷ insert_entry e rest else e ∷ f ∷ rest

unfoldable pub sort_entries : List QuotaEntry → List QuotaEntry
sort_entries [] = []
sort_entries (e ∷ rest) = insert_entry e (sort_entries rest)

unfoldable pub list : QuotaStore → List QuotaEntry
unfolding used_entries quota_entries sort_entries
list s = sort_entries (used_entries s s.usage ++ quota_entries s s.quotas)

abbrev pub updated : SetQuotaRequest → Quota → Quota
updated body current = record {
  max_bytes = unwrap_or body.max_bytes current.max_bytes;
  max_ops_per_sec = unwrap_or body.max_ops_per_sec current.max_ops_per_sec;
}

-- "__ferriskv_internal_probe__"
abbrev pub readyz_probe_key : Bytes
readyz_probe_key =
    b'_' ∷ b'_' ∷ b'f' ∷ b'e' ∷ b'r' ∷ b'r' ∷ b'i' ∷ b's' ∷ b'k' ∷ b'v' ∷ b'_' ∷ b'i' ∷ b'n' ∷ b't'
    ∷ b'e' ∷ b'r' ∷ b'n' ∷ b'a' ∷ b'l' ∷ b'_' ∷ b'p' ∷ b'r' ∷ b'o' ∷ b'b' ∷ b'e' ∷ b'_' ∷ b'_' ∷ []

pub data Check : Type 0 where
  storage_ok : Check
  storage_failed : Error → Check

-- The code, the status and the check of storage.
abbrev pub readiness : Result (Option Bytes) → StatusCode × String × Check
readiness (ok v) = (ok_200, "ready", storage_ok)
readiness (err e) = (service_unavailable_503, "unready", storage_failed e)

module _ {F : Fjall} {B : Broadcast} {G : Governor} where
  unfoldable pub list_quotas : NodeService F B G → List QuotaEntry
  list_quotas svc = list svc.quotas

  unfoldable pub get_quota : Bytes → NodeService F B G → Response QuotaEntry × NodeService F B G
  get_quota tenant svc =
      then_answer (validate_tenant tenant) (λ u s. (answer (entry_of s.quotas tenant), s)) svc

  -- What a handler answers, and the service, once the store has changed the quotas.
  abbrev pub changed :
      Bytes
      → NodeService F B G
      → Result (Unit {0}) × (StorageBackend F × QuotaStore)
      → Response QuotaEntry × NodeService F B G
  changed tenant svc (ok u, (st, quotas)) =
      (answer (entry_of quotas tenant), record svc { storage = st; quotas = quotas })
  changed tenant svc (err e, (st, quotas)) =
      (internal e, record svc { storage = st; quotas = quotas })

  unfoldable pub set_quota :
      Json → Bytes → SetQuotaRequest → NodeService F B G → Response QuotaEntry × NodeService F B G
  set_quota json tenant body svc =
      then_answer (validate_tenant tenant)
        (λ u s. changed tenant s (
          Quota.set_quota json s.storage s.quotas tenant
            (updated body (Quota.quota s.quotas tenant))))
        svc

  unfoldable pub clear_quota : Bytes → NodeService F B G → Response QuotaEntry × NodeService F B G
  clear_quota tenant svc =
      then_answer (validate_tenant tenant)
        (λ u s. changed tenant s (Quota.clear_quota s.storage s.quotas tenant)) svc

  unfoldable pub ready : NodeService F B G → StatusCode × String × Check
  ready svc = readiness (Storage.get svc.storage readyz_probe_key)
