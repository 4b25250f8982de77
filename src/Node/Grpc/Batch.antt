-- ===== src/Node/Grpc/Batch.antt =====
-- grpc.rs: `batch_impl`. What the disk accepts in the n-th operation is `disk n`.
pub mod Prefix
pub mod Unknown
use ferriskv.Prelude.{
  ℕ, ◌+◌, ◌-◌, ◌^◌, Bool, false, ◌||◌, String, List, [], ◌∷◌, length, min, ◌==◌, if◌then◌else◌,
}
use ferriskv.Prelude.Bytes.{Bytes}
use ferriskv.Core.Storage.FjallStorage.{Fjall}
use ferriskv.Node.Audit as Audit
use ferriskv.Node.AuthLayer.{Principal}
use ferriskv.Node.Watch.{Broadcast}
use ferriskv.Node.Throttle.{Governor}
use ferriskv.Node.Service
use ferriskv.Node.Service.{Disk}
use ferriskv.Node.Status.{
  Rpc, ◌>>=◌, ◌>>◌, check, change, give, deny, invalid_argument, unknown_op_code,
}
use ferriskv.Node.Grpc.{encode_data_key}
use ferriskv.Node.Grpc.Checks.{
  perm_write, perm_delete, passed, enforce_key_size, enforce_value_size, enforce_batch_size,
  map_err, check_tenant, authorize,
}
use ferriskv.Node.Grpc.Handlers.{Request, GrpcApi, calls, admit, audit_write, principal_of}

abbrev pub op_put : ℕ
op_put = 1

abbrev pub op_delete : ℕ
op_delete = 2

pub record BatchOp : Type 0 where
  pub op : ℕ
  pub key : Bytes
  pub value : Bytes

pub record BatchRequest : Type 0 where
  pub tenant : Bytes
  pub ops : List BatchOp

-- `ops.iter().any(|o| o.op == code)`.
unfoldable pub any_op : ℕ → List BatchOp → Bool
any_op code [] = false
any_op code (o ∷ ops) = (o.op == code) || any_op code ops

-- `u32::try_from(n).unwrap_or(u32::MAX)`.
abbrev pub cost_of : ℕ → ℕ
cost_of n = min n (2 ^ 32 - 1)

module _ {F : Fjall} {B : Broadcast} {G : Governor} (crc32 : Bytes → ℕ) (blake3 : Bytes → Bytes)
    (now : ℕ) where
  -- The `match` on the operation's code.
  unfoldable pub apply_op : Disk → Bytes → BatchOp → Rpc (GrpcApi F B G) String
  apply_op d k o =
      if o.op == op_put
      then calls (Service.put_with_ttl crc32 d now k o.value 0) >> give "put"
      else if o.op == op_delete
      then calls (Service.delete crc32 d k) >> give "delete"
      else check (λ api. deny invalid_argument (unknown_op_code o.op))

  -- One round of the loop.
  unfoldable pub batch_op : Disk → Principal → Bytes → BatchOp → Rpc (GrpcApi F B G) (Unit {0})
  unfolding apply_op
  batch_op d principal tenant o = do
    check (λ api. enforce_key_size api.limits o.key)
    check (λ api. if o.op == op_put then enforce_value_size api.limits o.value else passed)
    k ← check (λ api. map_err (encode_data_key tenant o.key))
    op_name ← apply_op d k o
    change (audit_write (Audit.event blake3 principal tenant op_name o.key (length o.value)))

  unfoldable pub batch_loop :
      (ℕ → Disk) → Principal → Bytes → List BatchOp → Rpc (GrpcApi F B G) (Unit {0})
  batch_loop disk principal tenant [] = give tt
  batch_loop disk principal tenant (o ∷ ops) =
      batch_op (disk 0) principal tenant o >> batch_loop (λ n. disk (n + 1)) principal tenant ops

  unfoldable pub batch_impl : (ℕ → Disk) → ℕ → Request BatchRequest → Rpc (GrpcApi F B G) (Unit {0})
  unfolding admit batch_loop
  batch_impl disk at req =
      let r = req.body in
      do
        check (λ api. check_tenant r.tenant)
        check (λ api.
            if any_op op_put r.ops then authorize req.principal r.tenant perm_write else passed)
        check (λ api.
            if any_op op_delete r.ops then authorize req.principal r.tenant perm_delete else passed)
        check (λ api. enforce_batch_size api.limits (length r.ops))
        admit at r.tenant (cost_of (length r.ops))
        batch_loop disk (principal_of req.principal) r.tenant r.ops
