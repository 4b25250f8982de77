-- ===== src/Node/Grpc/Handlers.antt =====
-- grpc.rs: the unary handlers and `scan`. Each takes what the limiter's clock reads, `at`, and what
-- the service's clock reads, `now`. Metrics are left out, and the reserved `version` of a reply.
use ferriskv.Prelude.{
  ℕ, Bool, true, false, Option, none, some, List, [], ◌∷◌, ◌++◌, length, take, drop, leb,
  if◌then◌else◌,
}
use ferriskv.Prelude.Bytes.{Bytes}
use ferriskv.Prelude.Assoc.{Map}
use ferriskv.Core.Error.{Result}
use ferriskv.Core.Limits.{Limits}
use ferriskv.Core.Storage.FjallStorage.{Fjall}
use ferriskv.Node.Audit as Audit
use ferriskv.Node.AuthLayer.{Principal, anonymous}
use ferriskv.Node.Watch.{Broadcast}
use ferriskv.Node.Throttle.{Governor}
use ferriskv.Node.Service
use ferriskv.Node.Service.{NodeService, Disk, Exec}
use ferriskv.Node.Service.Reads
use ferriskv.Node.Status.{Reply, Rpc, ◌>>=◌, ◌>>◌, check, change, give}
use ferriskv.Node.Grpc.{encode_data_key, encode_data_scan_bounds}
use ferriskv.Node.Grpc.Checks.{
  perm_read, perm_write, perm_delete, enforce_key_size, enforce_value_size, cap_scan_limit, map_err,
  check_tenant, authorize,
}

-- A request with what the transport put among its extensions.
pub record Request (A : Type 0) : Type 0 where
  pub principal : Option Principal
  pub body : A

pub record GetRequest : Type 0 where
  pub tenant : Bytes
  pub key : Bytes

pub record GetResponse : Type 0 where
  pub found : Bool
  pub value : Bytes

pub record PutRequest : Type 0 where
  pub tenant : Bytes
  pub key : Bytes
  pub value : Bytes
  pub ttl_ms : ℕ

pub record DeleteRequest : Type 0 where
  pub tenant : Bytes
  pub key : Bytes

pub record ScanRequest : Type 0 where
  pub tenant : Bytes
  pub prefix : Bytes
  pub limit : ℕ

-- The service with the part of its configuration that the handlers read, and what was audited so
-- far, the last event first.
module _ (F : Fjall) (B : Broadcast) (G : Governor) where
  pub record GrpcApi : Type 0 where
    pub limits : Limits
    pub watch_heartbeat_secs : ℕ
    pub inner : NodeService F B G
    pub audited : List Audit.Event

abbrev pub principal_of : Option Principal → Principal
principal_of none = anonymous
principal_of (some p) = p

abbrev pub get_response : Option Bytes → GetResponse
get_response none = record { found = false; value = [] }
get_response (some v) = record { found = true; value = v }

abbrev pub is_some : Option Bytes → Bool
is_some none = false
is_some (some v) = true

abbrev pub chunk_size : ℕ
chunk_size = 256

abbrev pub emit : Bool → Map Bytes → List (Map Bytes) → List (Map Bytes)
emit true chunk chunks = chunk ∷ chunks
emit false chunk chunks = chunks

abbrev pub last_chunk : Map Bytes → List (Map Bytes)
last_chunk [] = []
last_chunk (e ∷ current) = (e ∷ current) ∷ []

-- The loop of `scan_impl` over the entries within the limit, `current` being the open chunk.
unfoldable pub chunk_loop : ℕ → Map Bytes → Map Bytes → List (Map Bytes)
chunk_loop strip_len current [] = last_chunk current
chunk_loop strip_len current ((k, v) ∷ items) =
    let grown = current ++ ((drop strip_len k, v) ∷ []) in
    let full = leb chunk_size (length grown) in
    emit full grown (chunk_loop strip_len (if full then [] else grown) items)

module _ {F : Fjall} {B : Broadcast} {G : Governor} where
  -- A call of the service that changes it.
  abbrev pub returned :
      {A : Type 0} → GrpcApi F B G → Result A × NodeService F B G → Reply A × GrpcApi F B G
  returned api (r, svc) = (map_err r, record api { inner = svc })

  abbrev pub calls : {A : Type 0} → Exec (NodeService F B G) A → Rpc (GrpcApi F B G) A
  calls m api = returned api (m api.inner)

  -- A call of the service that reads it.
  abbrev pub reads : {A : Type 0} → (NodeService F B G → Result A) → Rpc (GrpcApi F B G) A
  reads f = check (λ api. map_err (f api.inner))

  unfoldable pub admit : ℕ → Bytes → ℕ → Rpc (GrpcApi F B G) (Unit {0})
  admit at tenant cost = calls (Service.admit at tenant cost)

  unfoldable pub audit_write : Audit.Event → GrpcApi F B G → GrpcApi F B G
  audit_write event api = record api { audited = event ∷ api.audited }

  -- What the handlers check first.
  abbrev pub allowed : Option Principal → Bytes → Bytes → Rpc (GrpcApi F B G) (Unit {0})
  allowed principal tenant perm = do
    check (λ api. check_tenant tenant)
    check (λ api. authorize principal tenant perm)

  unfoldable pub get_impl : ℕ → ℕ → Request GetRequest → Rpc (GrpcApi F B G) GetResponse
  unfolding admit
  get_impl at now req = do
    allowed req.principal req.body.tenant perm_read
    admit at req.body.tenant 1
    check (λ api. enforce_key_size api.limits req.body.key)
    k ← check (λ api. map_err (encode_data_key req.body.tenant req.body.key))
    value ← reads (Reads.get now k)
    give (get_response value)

  unfoldable pub scan_impl : ℕ → ℕ → Request ScanRequest → Rpc (GrpcApi F B G) (List (Map Bytes))
  unfolding admit chunk_loop
  scan_impl at now req = do
    allowed req.principal req.body.tenant perm_read
    admit at req.body.tenant 1
    bounds ← check (λ api. map_err (encode_data_scan_bounds req.body.tenant req.body.prefix))
    items ← reads (Reads.scan_range now bounds.start bounds.end)
    check (λ api.
        Reply.reply
          (chunk_loop bounds.strip_len [] (take (cap_scan_limit api.limits req.body.limit) items)))

module _ {F : Fjall} {B : Broadcast} {G : Governor} (crc32 : Bytes → ℕ) (blake3 : Bytes → Bytes)
    (d : Disk) where
  unfoldable pub put_impl : ℕ → ℕ → Request PutRequest → Rpc (GrpcApi F B G) (Unit {0})
  unfolding admit
  put_impl at now req =
      let r = req.body in
      do
        allowed req.principal r.tenant perm_write
        admit at r.tenant 1
        check (λ api. enforce_key_size api.limits r.key)
        check (λ api. enforce_value_size api.limits r.value)
        k ← check (λ api. map_err (encode_data_key r.tenant r.key))
        calls (Service.put_with_ttl crc32 d now k r.value r.ttl_ms)
        change (
            audit_write (
              Audit.event blake3 (principal_of req.principal) r.tenant "put" r.key
                (length r.value)))

  -- Whether the key was found.
  unfoldable pub delete_impl : ℕ → ℕ → Request DeleteRequest → Rpc (GrpcApi F B G) Bool
  unfolding admit
  delete_impl at now req =
      let r = req.body in
      do
        allowed req.principal r.tenant perm_delete
        admit at r.tenant 1
        check (λ api. enforce_key_size api.limits r.key)
        k ← check (λ api. map_err (encode_data_key r.tenant r.key))
        value ← reads (Reads.get now k)
        calls (Service.delete crc32 d k)
        change (
            audit_write (Audit.event blake3 (principal_of req.principal) r.tenant "delete" r.key 0))
        give (is_some value)
