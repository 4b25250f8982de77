-- ===== src/Node/Throttle/Admission.antt =====
-- throttle.rs: what a tenant is answered over a sequence of calls.
use ferriskv.Prelude.{
  ℕ, ◌≡◌, refl, sym, subst, ◌∙◌, ap, false, some, List, [], ◌∷◌, if◌then◌else◌, inl, inr,
  Bool-cases, ◌==◌, ltb,
}
use ferriskv.Prelude.Bytes.{Bytes, bytes_eq, bytes_eq_iff, bytes_eq_refl}
use ferriskv.Prelude.Assoc.{lookup, lookup-insert_here, lookup-insert_other}
use ferriskv.Core.Error.{Result}
use ferriskv.Node.Throttle.{
  Governor, Throttle, Entry, entry, limit_of, charge, check, check_limit, entry_at, answer,
}

pub record Request : Type 0 where
  pub now : ℕ
  pub tenant : Bytes
  pub ops_per_sec : ℕ
  pub cost : ℕ

-- The requests of one tenant.
abbrev pub only : Bytes → List Request → List Request
only t [] = []
only t (r ∷ requests) = if bytes_eq r.tenant t then r ∷ only t requests else only t requests

module _ {G : Governor} where
  abbrev pub checked : Throttle G → Request → Result (Unit {0}) × Throttle G
  checked th r = check th r.now r.tenant r.ops_per_sec r.cost

  unfoldable pub run : List Request → Throttle G → Throttle G
  run [] th = th
  run (r ∷ requests) th = run requests (checked th r).1

  -- What a check depends on: the default rate and the limiter of the tenant.
  abbrev Same : Bytes → Throttle G → Throttle G → Type 0
  Same t a b =
      (a.default_ops_per_sec ≡ b.default_ops_per_sec) × (lookup t a.limiters ≡ lookup t b.limiters)

  check_limit_other :
      (th : Throttle G) (r : Request) (limit : ℕ) (t : Bytes)
      → bytes_eq r.tenant t ≡ false
      → Same t (check_limit th r.now r.tenant limit r.cost).1 th
  unfolding check_limit charge
  check_limit_other th r limit t h = elim (Bool-cases (limit == 0)) [
    | inl k ↦ rw k (refl, refl)
    | inr k ↦ rw k (elim (Bool-cases (r.cost == 0)) [
      | inl l ↦ rw l (refl, refl)
      | inr l ↦ rw l (refl, lookup-insert_other r.tenant t _ th.limiters h)
    ])
  ]

  check_other :
      (th : Throttle G) (r : Request) (t : Bytes)
      → bytes_eq r.tenant t ≡ false
      → Same t (checked th r).1 th
  unfolding check
  check_other th r t h = check_limit_other th r (limit_of th r.ops_per_sec) t h

  entry-Same :
      (a b : Throttle G) (now : ℕ) (t : Bytes) (rate : ℕ)
      → Same t a b
      → entry a now t rate ≡ entry b now t rate
  unfolding entry
  entry-Same a b now t rate same = ap (entry_at now rate) same.1

  charge-Same :
      (a b : Throttle G) (r : Request) (limit : ℕ)
      → Same r.tenant a b
      → ((charge a r.now r.tenant limit r.cost).0 ≡ (charge b r.now r.tenant limit r.cost).0)
        × Same r.tenant
            (charge a r.now r.tenant limit r.cost).1
            (charge b r.now r.tenant limit r.cost).1
  unfolding charge
  charge-Same a b r limit same =
      let e = entry-Same a b r.now r.tenant limit same in
      let here = bytes_eq_refl r.tenant in
      (
        ap (λ (x : Entry G). answer r.tenant limit r.cost (G.check_n x.limiter r.now r.cost).0) e,
        (
          same.0,
          lookup-insert_here r.tenant r.tenant _ a.limiters here
              ∙ ap
                  (λ (x : Entry G).
                    some (record x { limiter = (G.check_n x.limiter r.now r.cost).1 }))
                  e
              ∙ sym (lookup-insert_here r.tenant r.tenant _ b.limiters here),
        ),
      )

  check_limit-Same :
      (a b : Throttle G) (r : Request) (limit : ℕ)
      → Same r.tenant a b
      → ((check_limit a r.now r.tenant limit r.cost).0
          ≡ (check_limit b r.now r.tenant limit r.cost).0)
        × Same r.tenant
            (check_limit a r.now r.tenant limit r.cost).1
            (check_limit b r.now r.tenant limit r.cost).1
  unfolding check_limit
  check_limit-Same a b r limit same = elim (Bool-cases (limit == 0)) [
    | inl k ↦ rw k (refl, same)
    | inr k ↦ rw k (elim (Bool-cases (r.cost == 0)) [
      | inl l ↦ rw l (refl, same)
      | inr l ↦ rw l (charge-Same a b r limit same)
    ])
  ]

  check-Same :
      (a b : Throttle G) (r : Request)
      → Same r.tenant a b
      → ((checked a r).0 ≡ (checked b r).0) × Same r.tenant (checked a r).1 (checked b r).1
  unfolding check
  check-Same a b r same =
      let limit = limit_of a r.ops_per_sec in
      subst
        (λ (l : ℕ).
          ((check_limit a r.now r.tenant limit r.cost).0
            ≡ (check_limit b r.now r.tenant l r.cost).0)
          × Same r.tenant (check_limit a r.now r.tenant limit r.cost).1
              (check_limit b r.now r.tenant l r.cost).1)
        (ap (λ (n : ℕ). if ltb 0 r.ops_per_sec then r.ops_per_sec else n) same.0)
        (check_limit-Same a b r limit same)

  after-Same :
      (t : Bytes) (requests : List Request) (a b : Throttle G)
      → Same t a b
      → Same t (run requests a) (run (only t requests) b)
  unfolding run
  after-Same t [] a b same = same
  after-Same t (r ∷ requests) a b same = elim (Bool-cases (bytes_eq r.tenant t)) [
    | inr other ↦
        let unchanged = check_other a r t other in
        rw other
          (after-Same t requests (checked a r).1 b (unchanged.0 ∙ same.0, unchanged.1 ∙ same.1))
    | inl here ↦
        let e = (bytes_eq_iff r.tenant t).0 here in
        rw here (
          after-Same t requests (checked a r).1 (checked b r).1 (
            subst (λ (u : Bytes). Same u a b → Same u (checked a r).1 (checked b r).1) e
              (λ s. (check-Same a b r s).1) same))
  ]

  -- What a request is answered, after any sequence of requests, is what it would be after those of
  -- its own tenant alone: no tenant spends from the allowance of another.
  pub check_isolated :
      (requests : List Request) (th : Throttle G) (r : Request)
      → (checked (run requests th) r).0 ≡ (checked (run (only r.tenant requests) th) r).0
  check_isolated requests th r =
      (check-Same _ _ r (after-Same r.tenant requests th th (refl, refl))).0
