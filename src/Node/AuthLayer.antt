-- ===== src/Node/AuthLayer.antt =====
-- crates/ferriskv-node/src/auth_layer.rs: `Principal` and `AuthInterceptor`. The metadata of a
-- request answers for its authorization header; the request's extension is what `call` returns.
pub mod Bearer
mod Examples
use ferriskv.Prelude.{Bool, true, false, Option, none, some, [], ◌∷◌, if◌then◌else◌}
use ferriskv.Prelude.Bytes.{Bytes, strip_prefix}
use ferriskv.Auth.Error.{Result, ok, err}
use ferriskv.Auth.Jwt
use ferriskv.Auth.Jwt.{Claims, Jsonwebtoken, JwtVerifier}
use ferriskv.Node.Status.{
  Reply, reply, deny, internal, unauthenticated, no_verifier, missing_header, not_ascii, not_bearer,
  token_refused, then_reply,
}

pub data Principal : Type 0 where
  anonymous : Principal
  authenticated : Claims → Principal

abbrev pub tenant_of : Principal → Option Bytes
tenant_of anonymous = none
tenant_of (authenticated c) = some c.tenant

abbrev pub allows : Principal → Bytes → Bool
allows anonymous perm = true
allows (authenticated c) perm = Jwt.allows c perm

-- `metadata().get("authorization")`, and what `to_str` makes of it.
pub data Header : Type 0 where
  absent no_text : Header
  text : Bytes → Header

abbrev pub bearer_upper : Bytes
bearer_upper = b'B' ∷ b'e' ∷ b'a' ∷ b'r' ∷ b'e' ∷ b'r' ∷ b' ' ∷ []

abbrev bearer_lower : Bytes
bearer_lower = b'b' ∷ b'e' ∷ b'a' ∷ b'r' ∷ b'e' ∷ b'r' ∷ b' ' ∷ []

abbrev pub or_else : Option Bytes → Option Bytes → Option Bytes
or_else none o = o
or_else (some t) o = some t

unfoldable pub token_of : Bytes → Option Bytes
token_of raw = or_else (strip_prefix raw bearer_upper) (strip_prefix raw bearer_lower)

abbrev pub header_text : Header → Reply Bytes
header_text absent = deny unauthenticated missing_header
header_text no_text = deny unauthenticated not_ascii
header_text (text raw) = reply raw

abbrev pub bearer_token : Option Bytes → Reply Bytes
bearer_token none = deny unauthenticated not_bearer
bearer_token (some token) = reply token

abbrev pub verified : Result Claims → Reply Principal
verified (ok c) = reply (authenticated c)
verified (err e) = deny unauthenticated (token_refused e)

module _ (J : Jsonwebtoken) where
  pub record AuthInterceptor : Type 0 where
    pub verifier : Option (JwtVerifier J)
    pub insecure : Bool

module _ {J : Jsonwebtoken} where
  abbrev pub insecure_interceptor : AuthInterceptor J
  insecure_interceptor = record { verifier = none; insecure = true }

  abbrev pub with_verifier : JwtVerifier J → AuthInterceptor J
  with_verifier v = record { verifier = some v; insecure = false }

  abbrev pub some_verifier : Option (JwtVerifier J) → Reply (JwtVerifier J)
  some_verifier none = deny internal no_verifier
  some_verifier (some v) = reply v

  unfoldable pub call : AuthInterceptor J → Header → Reply Principal
  unfolding token_of
  call int header =
      if int.insecure
      then reply anonymous
      else then_reply (some_verifier int.verifier) λ v.
        then_reply (header_text header)
          λ raw. then_reply (bearer_token (token_of raw)) λ token. verified (Jwt.verify v token)
