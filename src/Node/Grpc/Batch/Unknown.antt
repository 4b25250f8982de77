-- ===== src/Node/Grpc/Batch/Unknown.antt =====
-- grpc.rs: a batch that has no operation of a known code.
use ferriskv.Prelude.{
  ℕ, ◌+◌, ◌≡◌, refl, Bool, false, ◌||◌, Option, List, [], ◌∷◌, length, ◌==◌, if◌then◌else◌, arith,
}
use ferriskv.Prelude.Bytes.{Bytes}
use ferriskv.Core.Storage.FjallStorage.{Fjall}
use ferriskv.Node.AuthLayer.{Principal}
use ferriskv.Node.Watch.{Broadcast}
use ferriskv.Node.Throttle.{Governor}
use ferriskv.Node.Service
use ferriskv.Node.Service.{Disk}
use ferriskv.Node.Status.{reply}
use ferriskv.Node.Grpc.{encode_data_key}
use ferriskv.Node.Grpc.Checks.{
  enforce_key_size, enforce_value_size, enforce_batch_size, check_tenant, map_err, passed,
}
use ferriskv.Node.Grpc.Handlers.{GrpcApi, admit, principal_of}
use ferriskv.Node.Grpc.Batch.{
  BatchOp, BatchRequest, any_op, op_put, op_delete, cost_of, apply_op, batch_op, batch_loop,
  batch_impl,
}
use ferriskv.Node.Grpc.Rules.{after_check, after_calls, after_step}

or_false : (a b : Bool) → (a || b) ≡ false → (a ≡ false) × (b ≡ false)
or_false a b h = ground arith

module _ {F : Fjall} {B : Broadcast} {G : Governor} (crc32 : Bytes → ℕ) (blake3 : Bytes → Bytes)
    (now : ℕ) where
  unknown_op :
      (d : Disk) (p : Principal) (t : Bytes) (o : BatchOp) (api s : GrpcApi F B G)
      → (o.op == op_put) ≡ false
      → (o.op == op_delete) ≡ false
      → s ≡ api
      → (batch_op crc32 blake3 now d p t o s).1 ≡ api
  unfolding batch_op apply_op
  unknown_op d p t o api s no_put no_delete h =
      let P = λ (s' : GrpcApi F B G). s' ≡ api in
      after_check P (λ s'. enforce_key_size s'.limits o.key) _ s h
        λ u1 e1.
          after_check P
            (λ s'. if o.op == op_put then enforce_value_size s'.limits o.value else passed) _ s h
            λ u2 e2.
              after_check P (λ s'. map_err (encode_data_key t o.key)) _ s h
                λ k e3. rw (no_put, no_delete) h

  unknown_loop :
      (disk : ℕ → Disk) (p : Principal) (t : Bytes) (ops : List BatchOp) (api s : GrpcApi F B G)
      → any_op op_put ops ≡ false
      → any_op op_delete ops ≡ false
      → s ≡ api
      → (batch_loop crc32 blake3 now disk p t ops s).1 ≡ api
  unfolding batch_loop any_op
  unknown_loop disk p t [] api s no_put no_delete h = h
  unknown_loop disk p t (o ∷ ops) api s no_put no_delete h =
      let (put_here, put_later) = or_false _ _ no_put in
      let (delete_here, delete_later) = or_false _ _ no_delete in
      after_step (λ s'. s' ≡ api) (batch_op crc32 blake3 now (disk 0) p t o) _ s
        (unknown_op (disk 0) p t o api s put_here delete_here h)
        (λ u s' same. unknown_loop (λ n. disk (n + 1)) p t ops api s' put_later delete_later same)

  -- A batch that holds neither a put nor a delete, for a valid tenant and within the size limit, is
  -- charged to the tenant that it names, one operation for each of its own, whoever sends it: no
  -- permission for the tenant is asked for. Nothing else of the server changes.
  pub batch_impl_unknown :
      (disk : ℕ → Disk) (at : ℕ) (principal : Option Principal) (r : BatchRequest)
      (api : GrpcApi F B G)
      → any_op op_put r.ops ≡ false
      → any_op op_delete r.ops ≡ false
      → check_tenant r.tenant ≡ reply tt
      → enforce_batch_size api.limits (length r.ops) ≡ reply tt
      → (batch_impl crc32 blake3 now disk at (record { principal = principal; body = r }) api).1
        ≡ record api { inner = (Service.admit at r.tenant (cost_of (length r.ops)) (api.inner)).1 }
  unfolding batch_impl admit
  batch_impl_unknown disk at principal r api no_put no_delete valid small =
      let charged = (Service.admit at r.tenant (cost_of (length r.ops)) (api.inner)).1 in
      let after = record api { inner = charged } in
      rw (valid, no_put, no_delete, small)
        (after_calls (λ s. s ≡ after) (Service.admit at r.tenant (cost_of (length r.ops))) _ api
          refl
          (λ u e same.
            unknown_loop disk (principal_of principal) r.tenant r.ops after after no_put no_delete
              refl))
