-- ===== src/Core/Error.antt =====
-- crates/ferriskv-core/src/error.rs. A `fjall::Error` and an `std::io::Error` are kept as the text
-- that they display; the formatted message of `Error::Config` is kept as what it is formatted from.
use ferriskv.Prelude.{◌≡◌, refl, ◌⊎◌, inl, inr, ℕ, String, Bool, true, false, Option, none, some}
use ferriskv.Prelude.Bytes.{Bytes}

pub data ConfigReason : Type 0 where
  empty_tenant : ConfigReason
  tenant_too_long : ℕ → ℕ → ConfigReason
  encoding_quota : Bytes → String → ConfigReason
  request_too_costly : ℕ → ℕ → Bytes → ConfigReason

pub data Error : Type 0 where
  not_found : Bytes → Error
  storage : String → Error
  not_leader : Bytes → Error
  unknown_tenant : Bytes → Error
  not_owner : ℕ → Error
  corrupt : String → Error
  io : String → Error
  config : ConfigReason → Error
  quota_exceeded : Bytes → ℕ → ℕ → Error
  rate_limited : Bytes → ℕ → Error

pub data Result {ℓ} (A : Type ℓ) : Type ℓ where
  ok : A → Result A
  err : Error → Result A

-- The `?` operator.
infixl 5 ◌>>=◌ ◌>>◌
abbrev pub ◌>>=◌ {ℓ κ} : {A : Type ℓ} {B : Type κ} → Result A → (A → Result B) → Result B
ok a >>= f = f a
err e >>= f = err e

abbrev pub ◌>>◌ {ℓ κ} : {A : Type ℓ} {B : Type κ} → Result A → Result B → Result B
m >> k = m >>= λ _. k

abbrev pub guard : Bool → Error → Result (Unit {0})
guard true e = ok tt
guard false e = err e

-- `option.ok_or(e)`.
abbrev pub ok_or {ℓ} : {A : Type ℓ} → Option A → Error → Result A
ok_or none e = err e
ok_or (some a) e = ok a

-- To split on a computed result and keep the equation.
pub Result-cases {ℓ} :
    {A : Type ℓ} (r : Result A) → ((a : A) × (r ≡ ok a)) ⊎ ((e : Error) × (r ≡ err e))
Result-cases (ok a) = inl (a, refl)
Result-cases (err e) = inr (e, refl)

pub err_not_ok {ℓ} : {A : Type ℓ} (e : Error) (a : A) → ¬ (err e ≡ ok a)
err_not_ok e a h = cc
