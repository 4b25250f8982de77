-- ===== src/Auth/Error.antt =====
-- lib.rs: `AuthError` and its `Result`.
use ferriskv.Prelude.{String}
use ferriskv.Auth.Rbac.{Permission}

pub data AuthError : Type 0 where
  invalid_token : String → AuthError
  expired : AuthError
  forbidden : Permission → AuthError
  unknown_api_key : AuthError
  jwt : String → AuthError

pub data Result {ℓ} (A : Type ℓ) : Type ℓ where
  ok : A → Result A
  err : AuthError → Result A
