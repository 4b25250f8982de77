-- ===== src/Node/Grpc/Rules.antt =====
-- grpc.rs: rules for what a handler leaves behind, one for each kind of step.
use ferriskv.Prelude.{◌≡◌, refl}
use ferriskv.Core.Error.{Result, ok, err}
use ferriskv.Core.Storage.FjallStorage.{Fjall}
use ferriskv.Node.Watch.{Broadcast}
use ferriskv.Node.Throttle.{Governor}
use ferriskv.Node.Service.{NodeService, Exec}
use ferriskv.Node.Status.{Reply, reply, refuse, Rpc, ◌>>=◌, proceed, check, refuse_not_reply}
use ferriskv.Node.Grpc.Handlers.{GrpcApi, calls, returned}

module _ {ℓ} {S A B : Type 0} (P : S → Type ℓ) where
  -- A check leaves the state, and the rest runs where it passed.
  pub after_check :
      (f : S → Reply A) (g : A → Rpc S B) (s : S)
      → P s
      → ((a : A) → f s ≡ reply a → P ((g a s).1))
      → P ((check f >>= g) s).1
  after_check f g s h k = by_answer (f s) refl
    where
      by_answer : (r : Reply A) → f s ≡ r → P (proceed (r, s) g).1
      by_answer (reply a) eq = k a eq
      by_answer (refuse e) eq = h

  -- Any step, where the rest keeps what holds behind it.
  pub after_step :
      (m : Rpc S A) (g : A → Rpc S B) (s : S)
      → P (m s).1
      → ((a : A) (s' : S) → P s' → P ((g a s').1))
      → P ((m >>= g) s).1
  after_step m g s h k = by_result (m s) h
    where
      by_result : (r : Reply A × S) → P r.1 → P (proceed r g).1
      by_result (reply a, s') h = k a s' h
      by_result (refuse e, s') h = h

-- A chain that replies: its first step replied, and the rest replied from there.
pub step-eq-reply :
    {S A B : Type 0} (m : Rpc S A) (g : A → Rpc S B) (s : S) (b : B)
    → ((m >>= g) s).0 ≡ reply b
    → (a : A) × ((m s).0 ≡ reply a)
      × ((g a (m s).1).0 ≡ reply b)
      × (((m >>= g) s).1 ≡ (g a (m s).1).1)
step-eq-reply {S} {A} {B} m g s b h = by_result (m s) h
  where
    by_result :
        (r : Reply A × S)
        → (proceed r g).0 ≡ reply b
        → (a : A) × (r.0 ≡ reply a) × ((g a r.1).0 ≡ reply b) × ((proceed r g).1 ≡ (g a r.1).1)
    by_result (reply a, s') h = (a, refl, h, refl)
    by_result (refuse e, s') h = absurd (refuse_not_reply e b h)

module _ {ℓ} {F : Fjall} {B : Broadcast} {G : Governor} {A C : Type 0}
    (P : GrpcApi F B G → Type ℓ) where
  -- A call of the service leaves what it made of the service, and the rest runs where it succeeded.
  pub after_calls :
      (m : Exec (NodeService F B G) A) (g : A → Rpc (GrpcApi F B G) C) (api : GrpcApi F B G)
      → P (record api { inner = (m (api.inner)).1 })
      → ((a : A)
          → (m (api.inner)).0 ≡ ok a
          → P (record api { inner = (m (api.inner)).1 })
          → P ((g a (record api { inner = (m (api.inner)).1 })).1))
      → P ((calls m >>= g) api).1
  after_calls m g api h k = by_result (m api.inner) refl h k
    where
      by_result :
          (r : Result A × NodeService F B G)
          → m (api.inner) ≡ r
          → P (record api { inner = r.1 })
          → ((a : A)
              → r.0 ≡ ok a
              → P (record api { inner = r.1 })
              → P ((g a (record api { inner = r.1 })).1))
          → P (proceed (returned api r) g).1
      by_result (ok a, svc) eq h k = k a refl h
      by_result (err e, svc) eq h k = h
