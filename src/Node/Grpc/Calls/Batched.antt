-- ===== src/Node/Grpc/Calls/Batched.antt =====
-- grpc.rs: what a batch can change.
use ferriskv.Prelude.{
  ℕ, ◌+◌, ◌≡◌, ◌⊎◌, inl, inr, Bool, true, ◌||◌, Option, List, [], ◌∷◌, length, ◌==◌, Bool-cases,
  if◌then◌else◌, arith,
}
use ferriskv.Prelude.Bytes.{Bytes}
use ferriskv.Prelude.Assoc.{Map}
use ferriskv.Core.Storage.FjallStorage.{Fjall}
use ferriskv.Core.Storage.Laws.{FjallLaws}
use ferriskv.Node.AuthLayer.{Principal}
use ferriskv.Node.Watch.{Broadcast}
use ferriskv.Node.Throttle.{Governor}
use ferriskv.Node.Service
use ferriskv.Node.Service.{Disk}
use ferriskv.Node.Status.{reply}
use ferriskv.Node.Grpc.{encode_data_key}
use ferriskv.Node.Grpc.Checks.{
  perm_write, perm_delete, passed, enforce_key_size, enforce_value_size, enforce_batch_size,
  map_err, check_tenant, authorize,
}
use ferriskv.Node.Grpc.Handlers.{Request, GrpcApi, audit_write, principal_of}
use ferriskv.Node.Grpc.Batch.{
  BatchOp, BatchRequest, any_op, op_put, op_delete, cost_of, apply_op, batch_op, batch_loop,
  batch_impl,
}
use ferriskv.Node.Grpc.Rules.{after_check, after_calls, after_step}
use ferriskv.Node.Grpc.Confined.{Granted, Owned, authorize-Granted}
use ferriskv.Node.Grpc.Isolation.{Holds, encoded, put-Held, delete-Held, admit-Holds}
use ferriskv.Core.Error.{ok}
use ferriskv.Core.Key.{data_space, encode}

or_left : (a b : Bool) → a ≡ true → (a || b) ≡ true
or_left a b h = ground arith

or_right : (a b : Bool) → b ≡ true → (a || b) ≡ true
or_right a b h = ground arith

authorize_if-Granted :
    (principal : Option Principal) (t perm : Bytes) (b : Bool) (u : Unit {0})
    → (if b then authorize principal t perm else passed) ≡ reply u
    → b ≡ true
    → Granted principal t perm
authorize_if-Granted principal t perm b u h is = authorize-Granted principal t perm u (rw is at h)

module _ {F : Fjall} {B : Broadcast} {G : Governor} (view : F.Keyspace → Map Bytes)
    (laws : FjallLaws F view) (j : Bytes) (o : Option Bytes) (X : Type 0) where
  module _ (crc32 : Bytes → ℕ) (blake3 : Bytes → Bytes) (now : ℕ) where
    module _ (p : Principal) (t : Bytes) where
      apply_op-Holds :
          (d : Disk) (op : BatchOp) (k : Bytes) (api : GrpcApi F B G)
          → encode t data_space op.key ≡ ok k
          → ((op.op == op_put) ≡ true → Owned t j → X)
          → ((op.op == op_delete) ≡ true → Owned t j → X)
          → Holds view laws j o X api
          → Holds view laws j o X (apply_op crc32 blake3 now d k op api).1
      unfolding apply_op
      apply_op-Holds d op k api eq puts' deletes' h =
          let P = Holds view laws j o X in
          elim (Bool-cases (op.op == op_put)) [
            | inl is_put ↦ rw is_put (
                after_calls P (Service.put_with_ttl crc32 d now k op.value 0) _ api
                  (put-Held view laws j o X crc32 d t op.key k eq (puts' is_put) now op.value 0
                    (api.inner) h)
                  (λ u e held. held))
            | inr no_put ↦ rw no_put (elim (Bool-cases (op.op == op_delete)) [
              | inl is_delete ↦ rw is_delete (
                  after_calls P (Service.delete crc32 d k) _ api
                    (delete-Held view laws j o X crc32 d t op.key k eq (deletes' is_delete)
                      (api.inner) h)
                    (λ u e held. held))
              | inr other ↦ rw other h
            ])
          ]

      batch_op-Holds :
          (d : Disk) (op : BatchOp) (api : GrpcApi F B G)
          → ((op.op == op_put) ≡ true → Owned t j → X)
          → ((op.op == op_delete) ≡ true → Owned t j → X)
          → Holds view laws j o X api
          → Holds view laws j o X (batch_op crc32 blake3 now d p t op api).1
      unfolding batch_op audit_write
      batch_op-Holds d op api puts' deletes' h =
          let P = Holds view laws j o X in
          after_check P (λ s. enforce_key_size s.limits op.key) _ api h
            λ u1 e1.
              after_check P
                (λ s. if op.op == op_put then enforce_value_size s.limits op.value else passed) _
                api h
                λ u2 e2.
                  after_check P (λ s. map_err (encode_data_key t op.key)) _ api h
                    λ k e3.
                      after_step P (apply_op crc32 blake3 now d k op) _ api
                        (apply_op-Holds d op k api (encoded t op.key k e3) puts' deletes' h)
                        (λ name s' held. held)

      batch_loop-Holds :
          (disk : ℕ → Disk) (ops : List BatchOp) (api : GrpcApi F B G)
          → (any_op op_put ops ≡ true → Owned t j → X)
          → (any_op op_delete ops ≡ true → Owned t j → X)
          → Holds view laws j o X api
          → Holds view laws j o X (batch_loop crc32 blake3 now disk p t ops api).1
      unfolding batch_loop any_op
      batch_loop-Holds disk [] api puts' deletes' h = h
      batch_loop-Holds disk (op ∷ ops) api puts' deletes' h =
          after_step (Holds view laws j o X) (batch_op crc32 blake3 now (disk 0) p t op) _ api
            (batch_op-Holds (disk 0) op api (λ is. puts' (or_left _ _ is))
              (λ is. deletes' (or_left _ _ is)) h)
            (λ u s' held.
              batch_loop-Holds (λ n. disk (n + 1)) ops s' (λ is. puts' (or_right _ _ is))
                (λ is. deletes' (or_right _ _ is)) held)

    pub batch_impl-Holds :
        (disk : ℕ → Disk) (at : ℕ) (req : Request BatchRequest) (api : GrpcApi F B G)
        → (((any_op op_put req.body.ops ≡ true) × Granted req.principal req.body.tenant perm_write)
              ⊎ ((any_op op_delete req.body.ops ≡ true)
                  × Granted req.principal req.body.tenant perm_delete)
            → Owned req.body.tenant j
            → X)
        → Holds view laws j o X api
        → Holds view laws j o X (batch_impl crc32 blake3 now disk at req api).1
    unfolding batch_impl
    batch_impl-Holds disk at req api owns h =
        let r = req.body in
        let P = Holds view laws j o X in
        let w = any_op op_put r.ops in
        let e = any_op op_delete r.ops in
        after_check P (λ s. check_tenant r.tenant) _ api h
          λ u0 e0.
            after_check P (λ s. if w then authorize req.principal r.tenant perm_write else passed) _
              api h
              λ u1 e1.
                after_check P
                  (λ s. if e then authorize req.principal r.tenant perm_delete else passed) _ api h
                  λ u2 e2.
                    after_check P (λ s. enforce_batch_size s.limits (length r.ops)) _ api h
                      λ u3 e3.
                        admit-Holds view laws j o X at r.tenant (cost_of (length r.ops)) _ api h
                          λ api1 h1.
                            batch_loop-Holds (principal_of req.principal) r.tenant disk r.ops api1
                              (λ is. owns (
                                inl (
                                  is,
                                  authorize_if-Granted req.principal r.tenant perm_write w u1 e1 is,
                                )))
                              (λ is. owns (
                                inr (
                                  is,
                                  authorize_if-Granted req.principal r.tenant perm_delete e u2 e2
                                      is,
                                )))
                              h1
