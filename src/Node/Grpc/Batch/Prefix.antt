-- ===== src/Node/Grpc/Batch/Prefix.antt =====
-- grpc.rs: a batch is its operations one after another, up to the first that is refused.
use ferriskv.Prelude.{
  ℕ, suc, ◌+◌, ◌≤◌, ◌<◌, ◌≡◌, ◌↔◌, ◌⊎◌, String, List, [], ◌∷◌, length, take, ◌==◌, if◌then◌else◌,
}
use ferriskv.Prelude.Bytes.{Bytes}
use ferriskv.Core.Error.{Result, ok, err}
use ferriskv.Core.Storage.FjallStorage.{Fjall}
use ferriskv.Node.Audit as Audit
use ferriskv.Node.AuthLayer.{Principal}
use ferriskv.Node.Watch.{Broadcast}
use ferriskv.Node.Throttle.{Governor}
use ferriskv.Node.Service
use ferriskv.Node.Service.{NodeService, Disk}
use ferriskv.Node.Status.{Status, Reply, reply, refuse}
use ferriskv.Node.Grpc.{encode_data_key}
use ferriskv.Node.Grpc.Handlers.{GrpcApi}
use ferriskv.Node.Grpc.Batch.{BatchOp, op_put, op_delete}

module _ {F : Fjall} {B : Broadcast} {G : Governor} (crc32 : Bytes → ℕ) (now : ℕ) (t : Bytes) where
  abbrev pub run_encoded : Disk → BatchOp → NodeService F B G → Result Bytes → NodeService F B G
  run_encoded d o svc (err e) = svc
  run_encoded d o svc (ok k) =
      if o.op == op_put
      then (Service.put_with_ttl crc32 d now k o.value 0 svc).1
      else if o.op == op_delete
      then (Service.delete crc32 d k svc).1
      else svc

  -- What the service makes of one operation, without any of the checks.
  unfoldable pub run_op : Disk → BatchOp → NodeService F B G → NodeService F B G
  run_op d o svc = run_encoded d o svc (encode_data_key t o.key)

  unfoldable pub run_ops : (ℕ → Disk) → List BatchOp → NodeService F B G → NodeService F B G
  unfolding run_op
  run_ops disk [] svc = svc
  run_ops disk (o ∷ ops) svc = run_ops (λ n. disk (n + 1)) ops (run_op (disk 0) o svc)

abbrev pub op_name : ℕ → String
op_name code = if code == op_put then "put" else "delete"

-- The events of operations, the last first, before those that there were.
unfoldable pub audited_ops :
    (Bytes → Bytes) → Principal → Bytes → List BatchOp → List Audit.Event → List Audit.Event
audited_ops blake3 p t [] events = events
audited_ops blake3 p t (o ∷ ops) events =
    audited_ops blake3 p t ops
      (Audit.event blake3 p t (op_name o.op) o.key (length o.value) ∷ events)

module _ {F : Fjall} {B : Broadcast} {G : Governor} (crc32 : Bytes → ℕ) (blake3 : Bytes → Bytes)
    (now : ℕ) (p : Principal) (t : Bytes) where
  -- One operation: it succeeds, has run and is audited, or is refused, is not audited, and has run or
  -- not.
  abbrev pub OneOp : Disk → BatchOp → GrpcApi F B G → Reply (Unit {0}) × GrpcApi F B G → Type 0
  OneOp d o api out =
      ((out.0 ≡ reply tt)
        × (out.1 ≡ record api {
          inner = run_op crc32 now t d o (api.inner);
          audited = Audit.event blake3 p t (op_name o.op) o.key (length o.value) ∷ api.audited;
        }))
      ⊎ ((s : Status) × (out.0 ≡ refuse s)
          × (out.1.audited ≡ api.audited)
          × ((out.1.inner ≡ api.inner) ⊎ (out.1.inner ≡ run_op crc32 now t d o (api.inner))))

  -- The first `n` operations have run and are audited, and the one behind them, if there is one, was
  -- refused, and has run or not.
  abbrev pub RanFirst :
      ℕ → (ℕ → Disk) → List BatchOp → GrpcApi F B G → Reply (Unit {0}) × GrpcApi F B G → Type 0
  RanFirst n disk ops api out =
      (n ≤ length ops)
      × ((out.0 ≡ reply tt) ↔ (n ≡ length ops))
      × (out.1.audited ≡ audited_ops blake3 p t (take n ops) (api.audited))
      × ((out.1.inner ≡ run_ops crc32 now t disk (take n ops) (api.inner))
          ⊎ ((n < length ops)
              × (out.1.inner ≡ run_ops crc32 now t disk (take (suc n) ops) (api.inner))))
