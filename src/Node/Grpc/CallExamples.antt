-- ===== src/Node/Grpc/CallExamples.antt =====
-- grpc.rs at the node of the service's fixture.
use ferriskv.Prelude.{
  ◌≡◌, refl, ◌⊎◌, Option, some, none, false, List, [], ◌∷◌, if◌then◌else◌, arith, slice, inl, inr,
  take, Bool-cases,
}
use ferriskv.Prelude.Bytes.{Bytes, AreBytes, bytes_eq, bytes_eq_iff, bytes_lt, starts_with}
use ferriskv.Prelude.Assoc.{Map, lookup, insert}
use ferriskv.Prelude.Words.{to_le_bytes, to_be_bytes, from_be_bytes}
use ferriskv.Core.Error.{ok}
use ferriskv.Core.Key.{decode, encode, encode_subspace_prefix, data_space}
use ferriskv.Core.Limits.{Limits}
use ferriskv.Core.Utf8.{is_utf8}
use ferriskv.Core.Value
use ferriskv.Core.Value.Agreement.{is_gone}
use ferriskv.Core.Storage
use ferriskv.Core.Storage.MemStorage.{sort, select, insert_sorted}
use ferriskv.Core.Storage.MemStorage.Sorted.{Ascending}
use ferriskv.Core.Storage.Laws.{entries}
use ferriskv.Core.Storage.Laws.Engine.{engine, engine-FjallLaws, contents}
use ferriskv.Auth.Jwt as Jwt
use ferriskv.Node.AuthLayer.{Principal, authenticated}
use ferriskv.Node.Wal.{frame}
use ferriskv.Node.Wal.Writer.{write_all}
use ferriskv.Node.Wal.Segment as Segment
use ferriskv.Node.Quota
use ferriskv.Node.Quota.{used_bytes, entry_bytes}
use ferriskv.Node.Watch
use ferriskv.Node.Watch.Channel.{broadcast}
use ferriskv.Node.Throttle
use ferriskv.Node.Throttle.Window.{governor}
use ferriskv.Node.Service
use ferriskv.Node.Service.{
  Disk, put_with_ttl, expiry, plan_accounting, log, store, commit_accounting, publish_change,
  rotate_wal_if_needed,
}
use ferriskv.Node.Service.Fixture.{no_crc, disk, tenant, key, node, distinct}
use ferriskv.Node.Status.{reply}
use ferriskv.Node.Grpc.{encode_data_key, encode_data_scan_bounds}
use ferriskv.Node.Grpc.Checks.{
  enforce_key_size, enforce_value_size, enforce_batch_size, cap_scan_limit, check_tenant, authorize,
}
use ferriskv.Node.Grpc.Handlers.{
  Request, GrpcApi, PutRequest, ScanRequest, admit, put_impl, get_impl, get_response, scan_impl,
  audit_write,
}
use ferriskv.Node.Grpc.Batch.{BatchOp, BatchRequest, any_op, batch_impl, cost_of}
use ferriskv.Node.Grpc.Batch.Unknown.{batch_impl_unknown}
use ferriskv.Node.Grpc.Calls.{puts, tenant_of, MayChange, serve}
use ferriskv.Node.Grpc.Calls.Isolated.{serve_isolates}
use ferriskv.Node.Grpc.Confined.{Owned}
use ferriskv.Node.Grpc.Chunks.{concat, Chunked}
use ferriskv.Node.Grpc.Listing.Answered.{scan_impl_lem}
use ferriskv.Node.Grpc.ReadBack.{get_impl-put_impl}

abbrev limits : Limits
limits = record { max_key_size = 4; max_value_size = 8; max_batch_ops = 3; max_scan_limit = 10 }

abbrev api : GrpcApi engine broadcast governor
api = record { limits = limits; watch_heartbeat_secs = 30; inner = node; audited = [] }

abbrev hash : Bytes → Bytes
hash bs = 1 ∷ 2 ∷ 3 ∷ 4 ∷ 5 ∷ 6 ∷ 7 ∷ 8 ∷ 9 ∷ []

-- A client that may do everything for the tenant, and one for another tenant.
abbrev client : Bytes → Option Principal
client t = some (
    authenticated (record {
      sub = b'u' ∷ [];
      tenant = t;
      roles = [];
      perms = Jwt.admin_perm ∷ [];
      exp = 0;
      iss = none;
    }))

abbrev put_request : Request PutRequest
put_request = record {
  principal = client tenant;
  body = record { tenant = tenant; key = b'k' ∷ []; value = b'w' ∷ []; ttl_ms = 10 };
}

serve_isolates_example :
    (lookup key
        (entries contents (serve no_crc hash (λ n. disk) 0 50 (puts put_request) api).inner.storage)
      ≡ lookup key (entries contents api.inner.storage))
    ⊎ (MayChange (puts put_request) × Owned (tenant_of (puts put_request)) key)
serve_isolates_example =
    serve_isolates contents engine-FjallLaws no_crc hash (λ n. disk) 0 50 (puts put_request) api key
      distinct

abbrev worker : Principal
worker =
    authenticated
      (record { sub = []; tenant = tenant; roles = []; perms = []; exp = 0; iss = none })

abbrev ops : List BatchOp
ops =
    record { op = 1; key = b'k' ∷ []; value = b'w' ∷ [] }
    ∷ record { op = 2; key = b'k' ∷ []; value = [] }
    ∷ record { op = 9; key = b'k' ∷ []; value = [] }
    ∷ []

put_done : (put_impl no_crc hash disk 0 50 put_request api).0 ≡ reply tt
unfolding put_impl check_tenant authorize admit bytes_eq Jwt.allows Service.admit Throttle.check
    Quota.quota lookup enforce_key_size enforce_value_size encode_data_key encode put_with_ttl
    plan_accounting decode is_utf8 slice Storage.get Value.payload_len Quota.check_write entry_bytes
    log Segment.append write_all frame to_le_bytes to_be_bytes Value.encode store Storage.put
put_done = refl

abbrev api_after : GrpcApi engine broadcast governor
api_after = (put_impl no_crc hash disk 0 50 put_request api).1

get_done :
    (get_impl 0 60
      (record { principal = client tenant; body = record { tenant = tenant; key = b'k' ∷ [] } })
      (put_impl no_crc hash disk 0 50 put_request api).1).0
    ≡ reply (get_response none)
unfolding put_impl check_tenant authorize admit bytes_eq Jwt.allows Service.admit Throttle.check
    Quota.quota lookup enforce_key_size enforce_value_size encode_data_key encode put_with_ttl
    plan_accounting decode is_utf8 slice Storage.get Value.payload_len Quota.check_write entry_bytes
    log Segment.append write_all frame to_le_bytes to_be_bytes Value.encode store Storage.put
    commit_accounting publish_change rotate_wal_if_needed insert Quota.apply Value.is_expired
    Value.decode Storage.is_durable Watch.is_watched from_be_bytes audit_write get_impl
    Service.Reads.get
get_done = refl

get_impl-put_impl_example :
    get_response none ≡ get_response (if is_gone (expiry 50 10) 60 then none else some (b'w' ∷ []))
get_impl-put_impl_example =
    get_impl-put_impl contents engine-FjallLaws no_crc hash disk 0 50 0 60 put_request
      (client tenant) api (get_response none) distinct put_done get_done

abbrev scan_request : Request ScanRequest
scan_request = record {
  principal = client tenant;
  body = record { tenant = tenant; prefix = []; limit = 0 };
}

abbrev chunks : List (Map Bytes)
chunks = ((b'k' ∷ [], b'v' ∷ []) ∷ []) ∷ []

scan_done : (scan_impl 0 0 scan_request api).0 ≡ reply chunks
unfolding scan_impl check_tenant authorize admit bytes_eq Jwt.allows Service.admit Throttle.check
    Quota.quota lookup encode_data_scan_bounds encode_subspace_prefix encode
    Service.Reads.scan_range Storage.scan_range Service.Reads.filter_scan Value.is_expired
    Value.decode sort select bytes_lt insert_sorted cap_scan_limit
scan_done = refl

stored_bytes : (k : Bytes) → ¬ (lookup k (entries contents node.storage) ≡ none) → AreBytes k
unfolding lookup
stored_bytes k there = elim (Bool-cases (bytes_eq key k)) [
  | inl same ↦ rw (← ((bytes_eq_iff key k).0 same)) (omega arith)
  | inr other ↦ absurd (there (rw other refl))
]

scan_impl_lem_example :
    Chunked chunks
    × (listing : Map Bytes) × (concat chunks ≡ take (cap_scan_limit limits 0) listing)
    × Ascending listing
    × ((k enc : Bytes) (o : Option Bytes)
        → AreBytes k
        → encode tenant data_space k ≡ ok enc
        → Service.Reads.get 0 enc node ≡ ok o
        → lookup k listing ≡ (if starts_with k [] then o else none))
scan_impl_lem_example =
    scan_impl_lem contents engine-FjallLaws 0 0 scan_request api chunks distinct stored_bytes
      (omega arith) tt scan_done

abbrev junk : BatchRequest
junk = record {
  tenant = tenant;
  ops = record { op = 9; key = []; value = [] } ∷ record { op = 9; key = []; value = [] } ∷ [];
}

-- A node that allows a tenant five operations per second.
abbrev limited : GrpcApi engine broadcast governor
limited = record api { inner = record node { throttle = Throttle.new 5 } }

junk_done :
    (any_op 1 junk.ops ≡ false)
    × (any_op 2 junk.ops ≡ false)
    × (check_tenant tenant ≡ reply tt)
    × (enforce_batch_size limits 2 ≡ reply tt)
unfolding any_op check_tenant enforce_batch_size
junk_done = (refl, refl, refl, refl)

batch_impl_unknown_example :
    (batch_impl no_crc hash 0
      (λ n. disk)
      0
      (record { principal = client (b'b' ∷ []); body = junk })
      limited).1
    ≡ record limited { inner = (Service.admit 0 tenant (cost_of 2) (limited.inner)).1 }
batch_impl_unknown_example =
    batch_impl_unknown no_crc hash 0 (λ n. disk) 0 (client (b'b' ∷ [])) junk limited (junk_done.0)
      (junk_done.1) (junk_done.2) (junk_done.3)

-- The tenant is left with three of its five operations.
junk_charged :
    lookup tenant (Service.admit 0 tenant (cost_of 2) (limited.inner)).1.throttle.limiters
    ≡ some (record { ops_per_sec = 5; limiter = (5, 3) })
unfolding Service.admit Throttle.check Quota.quota lookup bytes_eq insert
junk_charged = refl
