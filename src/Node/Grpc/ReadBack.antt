-- ===== src/Node/Grpc/ReadBack.antt =====
-- grpc.rs: what a `Get` returns of the value that a `Put` has written.
use ferriskv.Prelude.{ℕ, ◌≡◌, refl, sym, ◌∙◌, ap, Option, none, some, if◌then◌else◌}
use ferriskv.Prelude.Bytes.{Bytes}
use ferriskv.Prelude.Assoc.{Map, Distinct}
use ferriskv.Core.Error.{Result, ok}
use ferriskv.Core.Key.{data_space, encode}
use ferriskv.Core.Value.Agreement.{is_gone}
use ferriskv.Core.Storage.FjallStorage.{Fjall}
use ferriskv.Core.Storage.Laws.{FjallLaws, entries}
use ferriskv.Node.AuthLayer.{Principal}
use ferriskv.Node.Watch.{Broadcast}
use ferriskv.Node.Throttle as Throttle
use ferriskv.Node.Throttle.{Governor}
use ferriskv.Node.Service
use ferriskv.Node.Service.{NodeService, Disk, expiry, Exec}
use ferriskv.Node.Service.Touched.{admit_lem}
use ferriskv.Node.Service.ReadBack.{get-put_with_ttl}
use ferriskv.Node.Status.{Reply, reply, refuse, proceed, Rpc, ◌>>=◌, ◌>>◌, check}
use ferriskv.Node.Grpc.{encode_data_key}
use ferriskv.Node.Grpc.Checks.{
  perm_read, perm_write, enforce_key_size, enforce_value_size, map_err, check_tenant, authorize,
}
use ferriskv.Node.Grpc.Handlers.{
  GrpcApi, Request, PutRequest, GetRequest, GetResponse, allowed, admit, calls, reads, returned,
  put_impl, get_impl, get_response, audit_write,
}
use ferriskv.Node.Grpc.Isolation.{encoded, map_err-eq}
use ferriskv.Node.Grpc.Rules.{step-eq-reply}

module _ {F : Fjall} {B : Broadcast} {G : Governor} where
  allowed_state :
      (principal : Option Principal) (t perm : Bytes) (api : GrpcApi F B G)
      → (allowed principal t perm api).1 ≡ api
  allowed_state principal t perm api = by_answer (check_tenant t)
    where
      by_answer :
          (r : Reply (Unit {0}))
          → (proceed
              (r, api)
              (λ (u : Unit {0}) (s : GrpcApi F B G). (authorize principal t perm, s))).1
            ≡ api
      by_answer (reply u) = refl
      by_answer (refuse e) = refl

  returned-eq-reply :
      {A : Type 0} (api : GrpcApi F B G) (out : Result A × NodeService F B G) (a : A)
      → (returned api out).0 ≡ reply a
      → (out.0 ≡ ok a) × ((returned api out).1 ≡ record api { inner = out.1 })
  returned-eq-reply api (r, svc) a h = (map_err-eq r a h, refl)

  -- The two services differ in their limiters at most.
  abbrev pub SameData : NodeService F B G → NodeService F B G → Type 0
  SameData svc svc' = (t : Throttle.Throttle G) × (svc' ≡ record svc { throttle = t })

  -- Behind the checks that each call starts with, a call that replies has replied from a server with
  -- the same data.
  pub opened :
      {A : Type 0} (principal : Option Principal) (t perm : Bytes) (at cost : ℕ)
      (g : Unit {0} → Rpc (GrpcApi F B G) A) (api : GrpcApi F B G) (b : A)
      → ((allowed principal t perm >> (admit at t cost >>= g)) api).0 ≡ reply b
      → (svc : NodeService F B G) × SameData api.inner svc
        × ((g tt (record api { inner = svc })).0 ≡ reply b)
        × (((allowed principal t perm >> (admit at t cost >>= g)) api).1
            ≡ (g tt (record api { inner = svc })).1)
  unfolding admit
  opened principal t perm at cost g api b h =
      let (u0, _, h1, e1) =
        step-eq-reply (allowed principal t perm) (λ u. admit at t cost >>= g) api b h in
      let here = allowed_state principal t perm api in
      let (u, _, h2, e2) = step-eq-reply (admit at t cost) g api b (rw here at h1) in
      (
        (Service.admit at t cost (api.inner)).1,
        (
          _,
          ap (λ (r : Result (Unit {0}) × NodeService F B G). r.1) (admit_lem at t cost (api.inner)),
        ),
        h2,
        e1 ∙ ap (λ (a : GrpcApi F B G). ((admit at t cost >>= g) a).1) here ∙ e2,
      )

  -- A put that replies has run on a service with the same data, under the key of its tenant.
  put_impl-ok :
      (crc32 : Bytes → ℕ) (blake3 : Bytes → Bytes) (d : Disk) (at now : ℕ)
      (req : Request PutRequest) (api : GrpcApi F B G)
      → (put_impl crc32 blake3 d at now req api).0 ≡ reply tt
      → (k : Bytes) × (svc : NodeService F B G) × (encode req.body.tenant data_space req.body.key
          ≡ ok k)
        × SameData api.inner svc
        × ((Service.put_with_ttl crc32 d now k req.body.value req.body.ttl_ms svc).0 ≡ ok tt)
        × ((put_impl crc32 blake3 d at now req api).1.inner
            ≡ (Service.put_with_ttl crc32 d now k req.body.value req.body.ttl_ms svc).1)
  unfolding put_impl admit audit_write
  put_impl-ok crc32 blake3 d at now req api h =
      let r = req.body in
      let (svc, same, h1, e1) = opened req.principal r.tenant perm_write at 1 _ api tt h in
      let api1 = record api { inner = svc } in
      let (u1, _, h2, e2) =
        step-eq-reply (check (λ s. enforce_key_size s.limits r.key)) _ api1 tt h1 in
      let (u2, _, h3, e3) =
        step-eq-reply (check (λ s. enforce_value_size s.limits r.value)) _ api1 tt h2 in
      let (k, k_eq, h4, e4) =
        step-eq-reply (check (λ s. map_err (encode_data_key r.tenant r.key))) _ api1 tt h3 in
      let (u5, put_eq, h5, e5) =
        step-eq-reply (calls (Service.put_with_ttl crc32 d now k r.value r.ttl_ms)) _ api1 tt h4 in
      let put = Service.put_with_ttl crc32 d now k r.value r.ttl_ms svc in
      (
        k,
        svc,
        encoded r.tenant r.key k k_eq,
        same,
        map_err-eq put.0 tt put_eq,
        ap (λ (a : GrpcApi F B G). a.inner) (e1 ∙ e2 ∙ e3 ∙ e4 ∙ e5),
      )

  get_throttle :
      (now : ℕ) (k : Bytes) (svc : NodeService F B G) (t : Throttle.Throttle G)
      → Service.Reads.get now k (record svc { throttle = t }) ≡ Service.Reads.get now k svc
  unfolding Service.Reads.get
  get_throttle now k svc t = refl

  get_impl-ok :
      (at now : ℕ) (req : Request GetRequest) (api : GrpcApi F B G) (res : GetResponse)
      → (get_impl at now req api).0 ≡ reply res
      → (k : Bytes) × (o : Option Bytes) × (encode req.body.tenant data_space req.body.key ≡ ok k)
        × (Service.Reads.get now k api.inner ≡ ok o)
        × (res ≡ get_response o)
  unfolding get_impl admit
  get_impl-ok at now req api res h =
      let r = req.body in
      let (svc, (t, same), h1, e1) = opened req.principal r.tenant perm_read at 1 _ api res h in
      let api1 = record api { inner = svc } in
      let (u1, _, h2, e2) =
        step-eq-reply (check (λ s. enforce_key_size s.limits r.key)) _ api1 res h1 in
      let (k, k_eq, h3, e3) =
        step-eq-reply (check (λ s. map_err (encode_data_key r.tenant r.key))) _ api1 res h2 in
      let (o, got, h4, e4) = step-eq-reply (reads (Service.Reads.get now k)) _ api1 res h3 in
      (
        k,
        o,
        encoded r.tenant r.key k k_eq,
        sym (get_throttle now k api.inner t)
            ∙ sym (ap (Service.Reads.get now k) same)
            ∙ map_err-eq (Service.Reads.get now k svc) o got,
        reply-inj h4,
      )
    where
      reply-inj : {a b : GetResponse} → reply a ≡ reply b → b ≡ a
      reply-inj h = cc

module _ {F : Fjall} {B : Broadcast} {G : Governor} (view : F.Keyspace → Map Bytes)
    (laws : FjallLaws F view) where
  Distinct-SameData :
      (svc svc' : NodeService F B G)
      → SameData svc svc'
      → Distinct (entries view svc.storage)
      → Distinct (entries view svc'.storage)
  Distinct-SameData svc svc' (t, same) distinct = rw same distinct

  -- A `Get` that replies, on the server that a `Put` of the same tenant and key left with a reply,
  -- finds the value that was put, unless it was put with a time to live and the clock of the `Get`
  -- has reached its end: then it finds nothing. It needs that the keys of the entries are distinct.
  pub get_impl-put_impl :
      (crc32 : Bytes → ℕ) (blake3 : Bytes → Bytes) (d : Disk) (at now at' later : ℕ)
      (req : Request PutRequest) (reader : Option Principal) (api : GrpcApi F B G)
      (res : GetResponse)
      → Distinct (entries view api.inner.storage)
      → (put_impl crc32 blake3 d at now req api).0 ≡ reply tt
      → (get_impl at' later
          (record {
            principal = reader;
            body = record { tenant = req.body.tenant; key = req.body.key };
          })
          (put_impl crc32 blake3 d at now req api).1).0
        ≡ reply res
      → res
        ≡ get_response
            (if is_gone (expiry now req.body.ttl_ms) later then none else some req.body.value)
  get_impl-put_impl crc32 blake3 d at now at' later req reader api res distinct done_ read =
      let r = req.body in
      let (k, svc, k_eq, same, put, left) = put_impl-ok crc32 blake3 d at now req api done_ in
      let (k', o, k_eq', got, res_eq) = get_impl-ok at' later _ _ res read in
      let one : k' ≡ k = ok_inj (sym k_eq' ∙ k_eq) in
      let found =
        get-put_with_ttl view laws crc32 d svc now later k r.value r.ttl_ms o
          (Distinct-SameData (api.inner) svc same distinct) put
          (ap (Service.Reads.get later k) (sym left)
            ∙ ap
                (λ (x : Bytes).
                  Service.Reads.get later x (put_impl crc32 blake3 d at now req api).1.inner)
                (sym one)
            ∙ got) in
      res_eq ∙ ap get_response found
    where
      ok_inj : {a b : Bytes} → ok a ≡ ok b → a ≡ b
      ok_inj h = cc
