-- ===== src/Node/Grpc/Confined.antt =====
-- grpc.rs: which entries of the storage a handler can change.
use ferriskv.Prelude.{
  ◌≡◌, refl, ◌∙◌, sym, ap, ◌⊎◌, inl, inr, true, false, not, Option, none, some, Bool-cases,
  if◌then◌else◌,
}
use ferriskv.Prelude.Bytes.{Bytes, bytes_eq, bytes_eq_iff}
use ferriskv.Core.Error.{ok, Result-cases}
use ferriskv.Core.Key.{data_space, stats, encode}
use ferriskv.Core.Key.RoundTrip.{decode-encode_tenant}
use ferriskv.Core.Storage.FjallStorage.{Fjall}
use ferriskv.Node.AuthLayer.{Principal, anonymous, authenticated, allows}
use ferriskv.Node.Watch.{Broadcast}
use ferriskv.Node.Throttle.{Governor}
use ferriskv.Node.Quota as Quota
use ferriskv.Node.Service.Writes.{IsUsageOf}
use ferriskv.Node.Status.{
  Reply, reply, refuse, deny, permission_denied, permission_required, Rpc, ◌>>=◌, proceed,
}
use ferriskv.Node.Grpc.Checks.{check_tenant, authorize, passed}
use ferriskv.Node.Grpc.Handlers.{GrpcApi, allowed}

-- The principal may act for the tenant: an anonymous one for any, another for its claims' alone.
abbrev pub ActsFor : Principal → Bytes → Type 0
ActsFor anonymous t = Unit
ActsFor (authenticated c) t = c.tenant ≡ t

abbrev pub Granted : Option Principal → Bytes → Bytes → Type 0
Granted principal t perm =
    (p : Principal) × (principal ≡ some p) × ActsFor p t × (allows p perm ≡ true)

-- The key of one of the tenant's data entries, or the key that the node keeps its usage under.
abbrev pub Owned : Bytes → Bytes → Type 0
Owned t j = ((p : Bytes) × (encode t data_space p ≡ ok j)) ⊎ (encode t stats Quota.usage_key ≡ ok j)

granted_perm :
    (p : Principal) (perm : Bytes) (u : Unit {0})
    → (if not (allows p perm) then deny permission_denied (permission_required perm) else passed)
      ≡ reply u
    → allows p perm ≡ true
granted_perm p perm u h = elim (Bool-cases (allows p perm)) [
  | inl has ↦ has
  | inr lacks ↦ cc (rw lacks at h)
]

pub authorize-Granted :
    (principal : Option Principal) (t perm : Bytes) (u : Unit {0})
    → authorize principal t perm ≡ reply u
    → Granted principal t perm
unfolding authorize
authorize-Granted none t perm u h = cc
authorize-Granted (some anonymous) t perm u h = (anonymous, refl, tt, refl)
authorize-Granted (some (authenticated c)) t perm u h = elim (Bool-cases (bytes_eq c.tenant t)) [
  | inl same ↦ (
    authenticated c,
    refl,
    (bytes_eq_iff c.tenant t).0 same,
    granted_perm (authenticated c) perm u (rw same at h),
  )
  | inr other ↦ cc (rw other at h)
]

-- A data key of the tenant has no other tenant's usage record.
usage_of_key :
    (t p k j : Bytes)
    → encode t data_space p ≡ ok k
    → IsUsageOf k j
    → encode t stats Quota.usage_key ≡ ok j
usage_of_key t p k j eq (t', p', held, usage) =
    rw (decode-encode_tenant t data_space p k t' data_space p' eq held) usage

pub Owned-cases :
    (t p k j : Bytes) → encode t data_space p ≡ ok k → Owned t j ⊎ (¬ (k ≡ j) × ¬ IsUsageOf k j)
Owned-cases t p k j eq = elim (Bool-cases (bytes_eq k j)) [
  | inl same ↦ inl (inl (p, eq ∙ ap ok ((bytes_eq_iff k j).0 same)))
  | inr other ↦
      let apart = λ (e : k ≡ j). distinct_bytes other e in
      elim (Result-cases (encode t stats Quota.usage_key)) [
        | inr (e, failed) ↦ inr (apart, λ u. cc (failed, usage_of_key t p k j eq u))
        | inl (u, usage) ↦ elim (Bool-cases (bytes_eq u j)) [
          | inl same ↦ inl (inr (usage ∙ ap ok ((bytes_eq_iff u j).0 same)))
          | inr differs ↦
              inr (
                apart,
                λ w. distinct_bytes differs (ok_inj (sym usage ∙ usage_of_key t p k j eq w)),
              )
        ]
      ]
]
  where
    distinct_bytes : {a b : Bytes} → bytes_eq a b ≡ false → ¬ (a ≡ b)
    distinct_bytes {a} {b} h e = cc ((bytes_eq_iff a b).1 e)

    ok_inj : {a b : Bytes} → ok a ≡ ok b → a ≡ b
    ok_inj h = cc

module _ {ℓ} {F : Fjall} {B : Broadcast} {G : Governor} {A : Type 0}
    (P : GrpcApi F B G → Type ℓ) where
  -- The rest runs where the principal is granted the permission.
  pub after_allowed :
      (principal : Option Principal) (t perm : Bytes) (g : Unit {0} → Rpc (GrpcApi F B G) A)
      (api : GrpcApi F B G)
      → P api
      → (Granted principal t perm → P ((g tt api).1))
      → P ((allowed principal t perm >>= g) api).1
  after_allowed principal t perm g api h k =
      by_answers (check_tenant t) (authorize principal t perm) refl
    where
      by_answers :
          (r q : Reply (Unit {0}))
          → authorize principal t perm ≡ q
          → P (proceed (proceed (r, api) (λ u s. (q, s))) g).1
      by_answers (refuse e) q eq = h
      by_answers (reply u) (refuse e) eq = h
      by_answers (reply u) (reply v) eq = k (authorize-Granted principal t perm v eq)
