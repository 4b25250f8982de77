-- ===== src/Node/Grpc/Isolation.antt =====
-- grpc.rs: no handler changes an entry of a tenant that its principal was not granted.
use ferriskv.Prelude.{ℕ, ◌≡◌, ◌∙◌, ◌⊎◌, inl, inr, Option}
use ferriskv.Prelude.Bytes.{Bytes}
use ferriskv.Prelude.Assoc.{Map, lookup, Distinct}
use ferriskv.Core.Error.{Result, ok, err}
use ferriskv.Core.Key.{data_space, encode}
use ferriskv.Core.Storage.FjallStorage.{Fjall}
use ferriskv.Core.Storage.Laws.{FjallLaws, entries}
use ferriskv.Node.Watch.{Broadcast}
use ferriskv.Node.Throttle.{Governor}
use ferriskv.Node.Service
use ferriskv.Node.Service.{NodeService, Disk}
use ferriskv.Node.Service.Elsewhere.{delete-Distinct, delete_elsewhere}
use ferriskv.Node.Service.Touched.{put_with_ttl-Distinct, put_elsewhere, admit_lem}
use ferriskv.Node.Status.{reply, Rpc, ◌>>=◌}
use ferriskv.Node.Grpc.{encode_data_key}
use ferriskv.Node.Grpc.Checks.{
  perm_write, perm_delete, enforce_key_size, enforce_value_size, map_err,
}
use ferriskv.Node.Grpc.Handlers.{
  Request, PutRequest, DeleteRequest, GrpcApi, admit, put_impl, delete_impl, audit_write,
}
use ferriskv.Node.Grpc.Rules.{after_check, after_calls}
use ferriskv.Node.Grpc.Confined.{Granted, Owned, Owned-cases, after_allowed}

pub map_err-eq : {A : Type 0} (r : Result A) (a : A) → map_err r ≡ reply a → r ≡ ok a
map_err-eq (ok b) a h = cc
map_err-eq (err e) a h = cc

pub encoded :
    (t p k : Bytes) → map_err (encode_data_key t p) ≡ reply k → encode t data_space p ≡ ok k
unfolding encode_data_key
encoded t p k h = map_err-eq (encode t data_space p) k h

-- The keys are distinct, and the entry at `j` is `o` unless `X`.
module _ {F : Fjall} {B : Broadcast} {G : Governor} (view : F.Keyspace → Map Bytes)
    (laws : FjallLaws F view) (j : Bytes) (o : Option Bytes) (X : Type 0) where
  abbrev pub Held : NodeService F B G → Type 0
  Held svc = Distinct (entries view svc.storage) × ((lookup j (entries view svc.storage) ≡ o) ⊎ X)

  abbrev pub Holds : GrpcApi F B G → Type 0
  Holds api = Held api.inner

  module _ (crc32 : Bytes → ℕ) (d : Disk) (t p k : Bytes) (eq : encode t data_space p ≡ ok k)
      (owns : Owned t j → X) where
    pub put-Held :
        (now : ℕ) (value : Bytes) (ttl_ms : ℕ) (svc : NodeService F B G)
        → Held svc
        → Held (Service.put_with_ttl crc32 d now k value ttl_ms svc).1
    put-Held now value ttl_ms svc (distinct, held) = (
      put_with_ttl-Distinct view laws crc32 d svc distinct now k value ttl_ms,
      elim (Owned-cases t p k j eq) [
        | inl owned ↦ inr (owns owned)
        | inr (other, unused) ↦ elim held [
          | inr x ↦ inr x
          | inl same ↦ inl (
              put_elsewhere view laws crc32 d svc distinct now k value ttl_ms j other unused ∙ same)
        ]
      ],
    )

    pub delete-Held : (svc : NodeService F B G) → Held svc → Held (Service.delete crc32 d k svc).1
    delete-Held svc (distinct, held) = (
      delete-Distinct view laws crc32 d svc distinct k,
      elim (Owned-cases t p k j eq) [
        | inl owned ↦ inr (owns owned)
        | inr (other, unused) ↦ elim held [
          | inr x ↦ inr x
          | inl same ↦ inl (delete_elsewhere view laws crc32 d svc distinct k j other unused ∙ same)
        ]
      ],
    )

  pub admit-Holds :
      {A : Type 0} (at : ℕ) (t : Bytes) (cost : ℕ) (g : Unit {0} → Rpc (GrpcApi F B G) A)
      (api : GrpcApi F B G)
      → Holds api
      → ((api' : GrpcApi F B G) → Holds api' → Holds (g tt api').1)
      → Holds ((admit at t cost >>= g) api).1
  unfolding admit
  admit-Holds at t cost g api h k =
      let kept : Held (Service.admit at t cost (api.inner)).1 =
        rw (admit_lem at t cost (api.inner)) h in
      after_calls Holds (Service.admit at t cost) g api kept (λ u eq held. k _ held)

  module _ (crc32 : Bytes → ℕ) (blake3 : Bytes → Bytes) (d : Disk) (at now : ℕ) where
    pub put_impl-Holds :
        (req : Request PutRequest) (api : GrpcApi F B G)
        → (Granted req.principal req.body.tenant perm_write → Owned req.body.tenant j → X)
        → Holds api
        → Holds (put_impl crc32 blake3 d at now req api).1
    unfolding put_impl audit_write
    put_impl-Holds req api owns h =
        let r = req.body in
        after_allowed Holds req.principal r.tenant perm_write _ api h λ granted.
          admit-Holds at r.tenant 1 _ api h λ api1 h1.
            after_check Holds (λ s. enforce_key_size s.limits r.key) _ api1 h1
              λ u1 e1.
                after_check Holds (λ s. enforce_value_size s.limits r.value) _ api1 h1
                  λ u2 e2.
                    after_check Holds (λ s. map_err (encode_data_key r.tenant r.key)) _ api1 h1
                      λ k e3.
                        let put =
                          put-Held crc32 d r.tenant r.key k (encoded r.tenant r.key k e3)
                            (owns granted) now r.value r.ttl_ms (api1.inner) h1 in
                        after_calls Holds (Service.put_with_ttl crc32 d now k r.value r.ttl_ms) _
                          api1 put (λ u3 e4 held. held)

    pub delete_impl-Holds :
        (req : Request DeleteRequest) (api : GrpcApi F B G)
        → (Granted req.principal req.body.tenant perm_delete → Owned req.body.tenant j → X)
        → Holds api
        → Holds (delete_impl crc32 blake3 d at now req api).1
    unfolding delete_impl audit_write
    delete_impl-Holds req api owns h =
        let r = req.body in
        after_allowed Holds req.principal r.tenant perm_delete _ api h λ granted.
          admit-Holds at r.tenant 1 _ api h λ api1 h1.
            after_check Holds (λ s. enforce_key_size s.limits r.key) _ api1 h1
              λ u1 e1.
                after_check Holds (λ s. map_err (encode_data_key r.tenant r.key)) _ api1 h1
                  λ k e3.
                    after_check Holds (λ s. map_err (Service.Reads.get now k s.inner)) _ api1 h1
                      λ v e4.
                        let deleted =
                          delete-Held crc32 d r.tenant r.key k (encoded r.tenant r.key k e3)
                            (owns granted) (api1.inner) h1 in
                        after_calls Holds (Service.delete crc32 d k) _ api1 deleted
                          (λ u3 e5 held. held)
