-- ===== src/Node/Status.antt =====
-- `tonic::Status` and a gRPC handler's result, as crates/ferriskv-node/src/grpc.rs and auth_layer.rs
-- use them. A message that the code formats is kept as what it is formatted from.
use ferriskv.Prelude.{ℕ, ◌≡◌, refl, ◌⊎◌, inl, inr}
use ferriskv.Prelude.Bytes.{Bytes}
use ferriskv.Core.Error.{Error}
use ferriskv.Auth.Error.{AuthError}

pub data Code : Type 0 where
  invalid_argument not_found permission_denied resource_exhausted failed_precondition : Code
  internal data_loss unauthenticated : Code

pub data Message : Type 0 where
  key_size value_size : ℕ → ℕ → Message
  batch_size : ℕ → ℕ → Message
  of_error : Error → Message
  empty_tenant long_tenant : Message
  auth_layer_missing : Message
  not_authorized_tenant : Bytes → Message
  permission_required : Bytes → Message
  unknown_op_code : ℕ → Message
  fell_behind : ℕ → Message
  no_verifier missing_header not_ascii not_bearer : Message
  token_refused : AuthError → Message

pub record Status : Type 0 where
  pub code : Code
  pub message : Message

-- `Result<T, Status>`.
pub data Reply {ℓ} (A : Type ℓ) : Type ℓ where
  reply : A → Reply A
  refuse : Status → Reply A

abbrev pub deny {ℓ} : {A : Type ℓ} → Code → Message → Reply A
deny code message = refuse (record { code = code; message = message })

-- The `?` operator on a `Reply`.
abbrev pub then_reply {ℓ κ} : {A : Type ℓ} {B : Type κ} → Reply A → (A → Reply B) → Reply B
then_reply (reply a) f = f a
then_reply (refuse s) f = refuse s

-- A handler that changes a state: what it changed before an early return stays changed.
abbrev pub Rpc {ℓ κ} : Type ℓ → Type κ → Type (ℓ ⊔ κ)
Rpc S A = S → Reply A × S

module _ {ℓ} {S : Type ℓ} where
  abbrev pub proceed {κ} : {A B : Type κ} → Reply A × S → (A → Rpc S B) → Reply B × S
  proceed (reply a, s) f = f a s
  proceed (refuse e, s) f = (refuse e, s)

  infixl 5 ◌>>=◌ ◌>>◌
  abbrev pub ◌>>=◌ {κ} : {A B : Type κ} → Rpc S A → (A → Rpc S B) → Rpc S B
  ◌>>=◌ m f s = proceed (m s) f

  abbrev pub ◌>>◌ {κ} : {A B : Type κ} → Rpc S A → Rpc S B → Rpc S B
  m >> n = m >>= λ _. n

  -- A check that reads the state.
  abbrev pub check {κ} : {A : Type κ} → (S → Reply A) → Rpc S A
  check f s = (f s, s)

  -- A step that cannot fail.
  abbrev pub change : (S → S) → Rpc S (Unit {0})
  change f s = (reply tt, f s)

  abbrev pub give {κ} : {A : Type κ} → A → Rpc S A
  give a s = (reply a, s)

pub Reply-cases {ℓ} :
    {A : Type ℓ} (r : Reply A) → ((a : A) × (r ≡ reply a)) ⊎ ((s : Status) × (r ≡ refuse s))
Reply-cases (reply a) = inl (a, refl)
Reply-cases (refuse s) = inr (s, refl)

pub refuse_not_reply {ℓ} : {A : Type ℓ} (s : Status) (a : A) → ¬ (refuse s ≡ reply a)
refuse_not_reply s a h = cc
