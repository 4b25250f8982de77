-- ===== src/Node/Admin/Examples.antt =====
-- admin.rs: a node in memory whose quotas are two bytes in storage.
use ferriskv.Prelude.{◌≡◌, refl, ap, Option, none, some, [], ◌∷◌, slice}
use ferriskv.Prelude.Bytes.{Bytes, bytes_eq, starts_with}
use ferriskv.Prelude.Assoc.{lookup, insert}
use ferriskv.Core.Key.{encode, decode}
use ferriskv.Core.Utf8.{is_utf8}
use ferriskv.Core.Value as Value
use ferriskv.Core.Storage as Storage
use ferriskv.Core.Storage.{StorageBackend, memory}
use ferriskv.Core.Storage.FjallStorage.{value}
use ferriskv.Core.Storage.MemStorage.{sort, select, insert_sorted}
use ferriskv.Core.Storage.Laws.Engine.{engine, engine-FjallLaws, contents}
use ferriskv.Node.Quota as Quota
use ferriskv.Node.Quota.{Quota, QuotaStore, Json, quota, usage_of, used_bytes, load_quotas}
use ferriskv.Node.Quota.Reloaded.{load_quotas-set_quota}
use ferriskv.Node.Ttl as Ttl
use ferriskv.Node.Watch as Watch
use ferriskv.Node.Watch.Channel.{broadcast}
use ferriskv.Node.Throttle as Throttle
use ferriskv.Node.Throttle.Window.{governor}
use ferriskv.Node.Service.{NodeService}
use ferriskv.Node.Admin.{
  error, SetQuotaRequest, QuotaEntry, validate_tenant, set_quota, bad_request_400, tenant_length,
}
use ferriskv.Node.Admin.Quotas.{IsReported, get_quota-set_quota}

abbrev parsed : Bytes → Option Quota
parsed (a ∷ b ∷ []) = some (record { max_bytes = a; max_ops_per_sec = b })
parsed other = none

abbrev json : Json
json = record { to_vec = λ q. value (q.max_bytes ∷ q.max_ops_per_sec ∷ []); from_slice = parsed }

abbrev tenant : Bytes
tenant = b'a' ∷ []

abbrev store : QuotaStore
store = Quota.new (record { max_bytes = 9; max_ops_per_sec = 4 })

abbrev storage : StorageBackend engine
storage = memory []

abbrev node : NodeService engine broadcast governor
node = record {
  wal_rotate_bytes = 4096;
  storage = storage;
  wal = record { writer = record { file = []; buffer = [] }; next_seq = 0; segment_bytes = 14 };
  ttl_index = Ttl.empty;
  watch = Watch.new 16;
  quotas = store;
  throttle = Throttle.new 0;
}

-- The byte cap alone.
abbrev request : SetQuotaRequest
request = record { max_bytes = some 7; max_ops_per_sec = none }

abbrev limits : Quota
limits = record { max_bytes = 7; max_ops_per_sec = 4 }

abbrev stored : StorageBackend engine
stored = memory ((1 ∷ b'a' ∷ 0 ∷ b'q' ∷ b'u' ∷ b'o' ∷ b't' ∷ b'a' ∷ [], 0 ∷ 7 ∷ 4 ∷ []) ∷ [])

abbrev cached : QuotaStore
cached = record store { quotas = (tenant, limits) ∷ [] }

abbrev entry : QuotaEntry
entry = record {
  tenant = tenant;
  usage = record { used_bytes = 0; max_bytes = 7; max_ops_per_sec = 4 };
}

no_name : validate_tenant [] ≡ error bad_request_400 tenant_length
unfolding validate_tenant
no_name = refl

fallible_same : {a b : Bytes} → value a ≡ value b → b ≡ a
fallible_same h = cc

get_quota-set_quota_example :
    IsReported json tenant request node (record node { storage = stored; quotas = cached }) entry
unfolding set_quota Quota.set_quota validate_tenant encode Storage.put insert usage_of used_bytes
    quota lookup bytes_eq Value.encode
get_quota-set_quota_example = get_quota-set_quota json tenant request node _ entry refl

load_quotas-set_quota_example : quota cached tenant ≡ limits
unfolding load_quotas Quota.set_quota encode Storage.put insert is_utf8 decode Value.decode
    Value.encode bytes_eq lookup Storage.scan sort select starts_with insert_sorted slice
load_quotas-set_quota_example =
    load_quotas-set_quota contents engine-FjallLaws json storage stored store cached store cached 1
      tenant limits tt refl (λ body h. ap parsed (fallible_same h)) refl refl
