-- ===== src/Node/Grpc/Calls.antt =====
-- grpc.rs: the calls of the server, as one type.
pub mod Batched
pub mod Isolated
use ferriskv.Prelude.{
  ℕ, ◌+◌, ◌≡◌, refl, ◌⊎◌, inl, inr, Bool, true, false, ◌||◌, Option, List, [], ◌∷◌, length, ◌==◌,
  Bool-cases, if◌then◌else◌, arith,
}
use ferriskv.Prelude.Bytes.{Bytes}
use ferriskv.Prelude.Assoc.{Map, lookup, Distinct}
use ferriskv.Core.Storage.FjallStorage.{Fjall}
use ferriskv.Core.Storage.Laws.{FjallLaws, entries}
use ferriskv.Node.Watch.{Broadcast}
use ferriskv.Node.Watch as Watch
use ferriskv.Node.Throttle.{Governor}
use ferriskv.Node.Service
use ferriskv.Node.Service.{Disk}
use ferriskv.Node.Status.{Reply, reply, refuse, proceed, ◌>>=◌, check, give}
use ferriskv.Node.Grpc.{encode_data_key, encode_data_scan_bounds}
use ferriskv.Node.Grpc.Checks.{
  perm_read, perm_write, perm_delete, perm_watch, passed, enforce_key_size, enforce_value_size,
  enforce_batch_size, map_err, check_tenant, authorize,
}
use ferriskv.Node.Grpc.Handlers.{
  Request, GetRequest, PutRequest, DeleteRequest, ScanRequest, GrpcApi, get_impl, put_impl,
  delete_impl, scan_impl, audit_write, principal_of,
}
use ferriskv.Node.Grpc.Batch.{
  BatchOp, BatchRequest, any_op, op_put, op_delete, cost_of, apply_op, batch_op, batch_loop,
  batch_impl,
}
use ferriskv.Node.Grpc.WatchStream.{WatchRequest, watch_impl}
use ferriskv.Node.Grpc.Rules.{after_check, after_calls, after_step}
use ferriskv.Node.Grpc.Confined.{Granted, Owned, after_allowed, authorize-Granted}
use ferriskv.Node.Grpc.Isolation.{
  Holds, encoded, put-Held, delete-Held, admit-Holds, put_impl-Holds, delete_impl-Holds,
}

pub data Call : Type 0 where
  gets : Request GetRequest → Call
  puts : Request PutRequest → Call
  deletes : Request DeleteRequest → Call
  scans : Request ScanRequest → Call
  watches : Request WatchRequest → Call
  batches : Request BatchRequest → Call

abbrev pub tenant_of : Call → Bytes
tenant_of (gets r) = r.body.tenant
tenant_of (puts r) = r.body.tenant
tenant_of (deletes r) = r.body.tenant
tenant_of (scans r) = r.body.tenant
tenant_of (watches r) = r.body.tenant
tenant_of (batches r) = r.body.tenant

-- The call is one that changes data, and its principal is granted the permission that this needs.
abbrev pub MayChange : Call → Type 0
MayChange (gets r) = ⊥
MayChange (puts r) = Granted r.principal r.body.tenant perm_write
MayChange (deletes r) = Granted r.principal r.body.tenant perm_delete
MayChange (scans r) = ⊥
MayChange (watches r) = ⊥
MayChange (batches r) =
    ((any_op op_put r.body.ops ≡ true) × Granted r.principal r.body.tenant perm_write)
    ⊎ ((any_op op_delete r.body.ops ≡ true) × Granted r.principal r.body.tenant perm_delete)

module _ {F : Fjall} {B : Broadcast} {G : Governor} (crc32 : Bytes → ℕ) (blake3 : Bytes → Bytes)
    (disk : ℕ → Disk) (at now : ℕ) where
  -- The server behind the call.
  unfoldable pub serve : Call → GrpcApi F B G → GrpcApi F B G
  serve (gets r) api = (get_impl at now r api).1
  serve (puts r) api = (put_impl crc32 blake3 (disk 0) at now r api).1
  serve (deletes r) api = (delete_impl crc32 blake3 (disk 0) at now r api).1
  serve (scans r) api = (scan_impl at now r api).1
  serve (watches r) api = (watch_impl at now r api).1
  serve (batches r) api = (batch_impl crc32 blake3 now disk at r api).1
