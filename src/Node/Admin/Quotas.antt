-- ===== src/Node/Admin/Quotas.antt =====
-- admin.rs: a quota that a request sets is what the next request reads.
use ferriskv.Prelude.{◌≡◌, refl, sym, ◌∙◌, ap, false}
use ferriskv.Prelude.Bytes.{Bytes, bytes_eq}
use ferriskv.Core.Error.{Result, ok, err}
use ferriskv.Core.Storage.{StorageBackend}
use ferriskv.Core.Storage.FjallStorage.{Fjall}
use ferriskv.Node.Quota as Quota
use ferriskv.Node.Quota.{Quota, QuotaStore, Json, usage_of, unwrap_or}
use ferriskv.Node.Quota.Stored.{cached, quota-cached, usage_of-cached_other, set_quota-IsStored}
use ferriskv.Node.Watch.{Broadcast}
use ferriskv.Node.Throttle.{Governor}
use ferriskv.Node.Service.{NodeService}
use ferriskv.Node.Admin.{
  Response, answer, error, QuotaEntry, SetQuotaRequest, entry_of, validate_tenant, changed,
  then_answer, updated, get_quota, set_quota,
}

answer_same : {a b : QuotaEntry} → answer a ≡ answer b → a ≡ b
answer_same h = cc

-- A report depends on the tenant's usage alone.
get_quota-usage :
    {F : Fjall} {B : Broadcast} {G : Governor} (u : Bytes) (a b : NodeService F B G)
    → usage_of a.quotas u ≡ usage_of b.quotas u
    → (get_quota u a).0 ≡ (get_quota u b).0
unfolding get_quota
get_quota-usage {F} {B} {G} u a b h = by_valid (validate_tenant u)
  where
    report : Unit {0} → NodeService F B G → Response QuotaEntry × NodeService F B G
    report x s = (answer (entry_of s.quotas u), s)

    by_valid : (v : Response (Unit {0})) → (then_answer v report a).0 ≡ (then_answer v report b).0
    by_valid (answer x) = ap (λ us. answer (record { tenant = u; usage = us })) h
    by_valid (error code e) = refl

module _ {F : Fjall} {B : Broadcast} {G : Governor} (json : Json) (t : Bytes)
    (body : SetQuotaRequest) (svc after : NodeService F B G) (e : QuotaEntry) where
  -- What the request answers is what is asked for, and what it leaves.
  abbrev pub IsReported : Type 0
  IsReported =
      (e.usage.max_bytes ≡ unwrap_or body.max_bytes (Quota.quota svc.quotas t).max_bytes)
      × (e.usage.max_ops_per_sec
          ≡ unwrap_or body.max_ops_per_sec (Quota.quota svc.quotas t).max_ops_per_sec)
      × ((get_quota t after).0 ≡ answer e)
      × ((u : Bytes) → bytes_eq t u ≡ false → (get_quota u after).0 ≡ (get_quota u svc).0)

  -- So it is where the tenant's quota in the cache has become the updated one.
  IsReported-cached :
      (st : StorageBackend F) (quotas : QuotaStore)
      → quotas ≡ cached svc.quotas t (updated body (Quota.quota svc.quotas t))
      → validate_tenant t ≡ answer tt
      → entry_of quotas t ≡ e
      → record svc { storage = st; quotas = quotas } ≡ after
      → IsReported
  unfolding usage_of get_quota
  IsReported-cached st quotas same valid entry left =
      let q = updated body (Quota.quota svc.quotas t) in
      let stored : Quota.quota quotas t ≡ q = rw same (quota-cached svc.quotas t q) in
      let kept : after.quotas ≡ quotas = ap (λ r. r.quotas) (sym left) in
      (
        ap (λ r. r.usage.max_bytes) (sym entry) ∙ ap (λ r. r.max_bytes) stored,
        ap (λ r. r.usage.max_ops_per_sec) (sym entry) ∙ ap (λ r. r.max_ops_per_sec) stored,
        rw (valid, kept) (ap answer entry),
        λ u other.
            get_quota-usage u after svc (
              ap (λ qs. usage_of qs u) (kept ∙ same)
              ∙ usage_of-cached_other svc.quotas t q u other),
      )

  -- A request that sets a quota and is answered leaves a service that reports for the tenant what
  -- was answered: each limit that the request names, and the one before where it names none. It
  -- reports for any other tenant what it did.
  pub get_quota-set_quota : set_quota json t body svc ≡ (answer e, after) → IsReported
  unfolding set_quota
  get_quota-set_quota h = by_valid (validate_tenant t) refl h
    where
      q : Quota
      q = updated body (Quota.quota svc.quotas t)

      by_set :
          (r : Result (Unit {0}) × (StorageBackend F × QuotaStore))
          → Quota.set_quota json svc.storage svc.quotas t q ≡ r
          → validate_tenant t ≡ answer tt
          → changed t svc r ≡ (answer e, after)
          → IsReported
      by_set (ok u, (st, quotas)) set valid h =
          let (_, _, _, _, _, same) =
            set_quota-IsStored json svc.storage svc.quotas t q (st, quotas) set in
          IsReported-cached st quotas same valid (answer_same (ap (λ r. r.0) h)) (ap (λ r. r.1) h)
      by_set (err x, (st, quotas)) set valid h = cc

      by_valid :
          (v : Response (Unit {0}))
          → validate_tenant t ≡ v
          → then_answer v
              (λ u s.
                changed t s (
                  Quota.set_quota json s.storage s.quotas t
                    (updated body (Quota.quota s.quotas t))))
              svc
            ≡ (answer e, after)
          → IsReported
      by_valid (answer u) valid h = by_set _ refl valid h
      by_valid (error code x) valid h = cc
