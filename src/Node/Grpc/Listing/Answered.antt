-- ===== src/Node/Grpc/Listing/Answered.antt =====
-- grpc.rs: a `Scan` answers as a `Get` of each key does.
use ferriskv.Prelude.{
  ℕ, ◌≡◌, refl, sym, ◌∙◌, ap, Bool, true, Option, none, List, [], ◌∷◌, ◌++◌, length, take,
  if◌then◌else◌, append_assoc, All-append, arith,
}
use ferriskv.Prelude.Bytes.{Bytes, IsByte, AreBytes, starts_with}
use ferriskv.Prelude.Assoc.{Map, lookup, Distinct}
use ferriskv.Core.Error.{ok}
use ferriskv.Core.Key.{data_space, encode, encode_subspace_prefix}
use ferriskv.Core.Key.RoundTrip.{encode_lem}
use ferriskv.Core.Storage.FjallStorage.{Fjall}
use ferriskv.Core.Storage.Laws.{FjallLaws, entries}
use ferriskv.Core.Storage.MemStorage.Sorted.{Ascending}
use ferriskv.Node.Watch.{Broadcast}
use ferriskv.Node.Throttle as Throttle
use ferriskv.Node.Throttle.{Governor}
use ferriskv.Node.Service
use ferriskv.Node.Service.{NodeService}
use ferriskv.Node.Service.Reads.{scan_range_answers_get}
use ferriskv.Node.Status.{reply, check}
use ferriskv.Node.Grpc.{ScanBounds, encode_data_scan_bounds}
use ferriskv.Node.Grpc.Bounds.{bounds_select}
use ferriskv.Node.Grpc.Bounds.Selected.{bounds_lem}
use ferriskv.Node.Grpc.Checks.{perm_read, cap_scan_limit, map_err}
use ferriskv.Node.Grpc.Handlers.{GrpcApi, Request, ScanRequest, reads, chunk_loop, scan_impl}
use ferriskv.Node.Grpc.Chunks.{concat, strip, Chunked, concat-chunk_loop, chunk_loop-Chunked}
use ferriskv.Node.Grpc.Isolation.{map_err-eq}
use ferriskv.Node.Grpc.ReadBack.{opened}
use ferriskv.Node.Grpc.Rules.{step-eq-reply}
use ferriskv.Node.Grpc.Listing.{
  starts_with-append_same, lookup-strip, Ascending-strip, strip-take, lookup-Under,
}

starts_with-prefix : (k sub u : Bytes) → starts_with k (sub ++ u) ≡ true → starts_with k sub ≡ true
unfolding starts_with
starts_with-prefix k [] u h = refl
starts_with-prefix [] (p ∷ sub) u h = cc
starts_with-prefix (a ∷ k) (p ∷ sub) u h = ground (arith, starts_with-prefix k sub u)

-- A data key of the tenant is the prefix and the key.
data_key :
    (t key sub enc : Bytes)
    → AreBytes t
    → AreBytes key
    → encode_subspace_prefix t data_space ≡ ok sub
    → encode t data_space key ≡ ok enc
    → (enc ≡ sub ++ key) × AreBytes enc
unfolding encode_subspace_prefix
data_key t key sub enc ht hk pre h =
    let (same, pos, short) = encode_lem t data_space key enc h in
    let (same', _, _) = encode_lem t data_space [] sub pre in
    (
      same ∙ sym (ap (λ (x : Bytes). x ++ key) same' ∙ append_assoc (length t ∷ t) (1 ∷ []) key),
      rw same (All-append IsByte (length t ∷ t) (1 ∷ key) (omega arith, ht) (omega arith, hk)),
    )

module _ {F : Fjall} {B : Broadcast} {G : Governor} where
  scan_throttle :
      (now : ℕ) (start end : Bytes) (svc : NodeService F B G) (t : Throttle.Throttle G)
      → Service.Reads.scan_range now start end (record svc { throttle = t })
        ≡ Service.Reads.scan_range now start end svc
  unfolding Service.Reads.scan_range
  scan_throttle now start end svc t = refl

  -- What a scan that replies has listed.
  scan_impl-ok :
      (at now : ℕ) (req : Request ScanRequest) (api : GrpcApi F B G) (chunks : List (Map Bytes))
      → (scan_impl at now req api).0 ≡ reply chunks
      → (b : ScanBounds) × (items : Map Bytes) × (encode_data_scan_bounds req.body.tenant
            req.body.prefix
          ≡ ok b)
        × (Service.Reads.scan_range now b.start b.end api.inner ≡ ok items)
        × (chunks
            ≡ chunk_loop b.strip_len [] (take (cap_scan_limit api.limits req.body.limit) items))
  unfolding scan_impl
  scan_impl-ok at now req api chunks h =
      let r = req.body in
      let (svc, (t, same), h1, e1) = opened req.principal r.tenant perm_read at 1 _ api chunks h in
      let api1 = record api { inner = svc } in
      let (b, b_eq, h2, e2) =
        step-eq-reply (check (λ s. map_err (encode_data_scan_bounds r.tenant r.prefix))) _ api1
          chunks h1 in
      let (items, got, h3, e3) =
        step-eq-reply (reads (Service.Reads.scan_range now b.start b.end)) _ api1 chunks h2 in
      (
        b,
        items,
        map_err-eq (encode_data_scan_bounds r.tenant r.prefix) b b_eq,
        sym (scan_throttle now b.start b.end (api.inner) t)
            ∙ sym (ap (Service.Reads.scan_range now b.start b.end) same)
            ∙ map_err-eq (Service.Reads.scan_range now b.start b.end svc) items got,
        reply-inj h3,
      )
    where
      reply-inj : {a c : List (Map Bytes)} → reply a ≡ reply c → c ≡ a
      reply-inj h = cc

module _ {F : Fjall} {B : Broadcast} {G : Governor} (view : F.Keyspace → Map Bytes)
    (laws : FjallLaws F view) where
  -- A `Scan` that replies cuts a listing at its limit, into chunks of which none is empty and all but
  -- the last hold 256 entries. The listing is in ascending order, and at one time of the clock it
  -- answers as a `get` that succeeds does: a key under the prefix that was asked for is listed exactly
  -- if the `get` finds it, with the value that the `get` returns, and no other key is.
  pub scan_impl_lem :
      (at now : ℕ) (req : Request ScanRequest) (api : GrpcApi F B G) (chunks : List (Map Bytes))
      → Distinct (entries view api.inner.storage)
      → ((k : Bytes) → ¬ (lookup k (entries view api.inner.storage) ≡ none) → AreBytes k)
      → AreBytes req.body.tenant
      → AreBytes req.body.prefix
      → (scan_impl at now req api).0 ≡ reply chunks
      → Chunked chunks
        × (listing : Map Bytes) × (concat chunks
            ≡ take (cap_scan_limit api.limits req.body.limit) listing)
        × Ascending listing
        × ((key enc : Bytes) (o : Option Bytes)
            → AreBytes key
            → encode req.body.tenant data_space key ≡ ok enc
            → Service.Reads.get now enc api.inner ≡ ok o
            → lookup key listing ≡ (if starts_with key req.body.prefix then o else none))
  scan_impl_lem at now req api chunks distinct bytes ht hp h =
      let r = req.body in
      let (b, items, b_eq, listed, cut) = scan_impl-ok at now req api chunks h in
      let (sub, sub_eq, start_eq, len_eq) = bounds_lem r.tenant r.prefix b b_eq in
      let lim = cap_scan_limit api.limits r.limit in
      let (ascending, answers, selected) =
        scan_range_answers_get view laws (api.inner) distinct now b.start b.end items listed in
      let under = lookup-Under sub items (λ k there.
        let (inside, kept) = selected k there in
        starts_with-prefix k sub r.prefix (
          ap (starts_with k) (sym start_eq)
          ∙ bounds_select r.tenant r.prefix k b ht hp (bytes k kept) b_eq
          ∙ inside)) in
      (
        rw cut (chunk_loop-Chunked b.strip_len [] (take lim items) (omega arith)),
        strip (length sub) items,
        ap concat cut
            ∙ concat-chunk_loop b.strip_len [] (take lim items)
            ∙ ap (λ n. strip n (take lim items)) len_eq
            ∙ strip-take (length sub) lim items,
        Ascending-strip sub items under ascending,
        λ key enc o hk enc_eq got.
            let (split, hb) = data_key r.tenant key sub enc ht hk sub_eq enc_eq in
            lookup-strip sub key items under
            ∙ ap (λ (k : Bytes). lookup k items) (sym split)
            ∙ answers enc o got
            ∙ ap (λ (c : Bool). if c then o else none)
                (sym (bounds_select r.tenant r.prefix enc b ht hp hb b_eq)
                  ∙ ap (starts_with enc) start_eq
                  ∙ ap (λ (k : Bytes). starts_with k (sub ++ r.prefix)) split
                  ∙ starts_with-append_same sub key r.prefix),
      )
