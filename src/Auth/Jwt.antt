-- ===== src/Auth/Jwt.antt =====
-- jwt.rs: claims, and the verifier. `jsonwebtoken`, with its key and its clock, is a parameter.
use ferriskv.Prelude.{ℕ, Bool, false, ◌||◌, String, Option, none, some, List, [], ◌∷◌}
use ferriskv.Prelude.Bytes.{Bytes, bytes_eq}
use ferriskv.Auth.Error.{Result, ok, err, invalid_token, expired, jwt}

pub record Claims : Type 0 where
  pub sub : Bytes
  pub tenant : Bytes
  pub roles : List Bytes
  pub perms : List Bytes
  pub exp : ℕ
  pub iss : Option Bytes

abbrev pub admin_perm : Bytes
admin_perm = b'a' ∷ b'd' ∷ b'm' ∷ b'i' ∷ b'n' ∷ []

-- `perms.iter().any(..)`.
unfoldable pub any_allows : List Bytes → Bytes → Bool
any_allows [] perm = false
any_allows (p ∷ perms) perm = (bytes_eq p admin_perm || bytes_eq p perm) || any_allows perms perm

unfoldable pub allows : Claims → Bytes → Bool
unfolding any_allows
allows c perm = any_allows c.perms perm

-- What `decode` of the library answers for a token.
pub data Decoded : Type 0 where
  claims : Claims → Decoded
  expired_signature : Decoded
  other_error : String → Decoded

-- What `verify` makes of it.
abbrev pub as_claims : Decoded → Result Claims
as_claims (claims c) = ok c
as_claims expired_signature = err expired
as_claims (other_error e) = err (invalid_token e)

pub data Algorithm : Type 0 where
  hs256 rs256 : Algorithm

pub record Jsonwebtoken : Type 1 where
  pub DecodingKey : Type 0
  pub from_secret : Bytes → DecodingKey
  pub from_rsa_pem : Bytes → Option DecodingKey
  pub pem_error : Bytes → String
  pub decode : DecodingKey → Algorithm → Bytes → Decoded

module _ (J : Jsonwebtoken) where
  pub record JwtVerifier : Type 0 where
    pub key : J.DecodingKey
    pub validation : Algorithm

module _ {J : Jsonwebtoken} where
  pub new_hs256 : Bytes → JwtVerifier J
  new_hs256 secret = record { key = J.from_secret secret; validation = hs256 }

  unfoldable pub new_rs256 : Bytes → Result (JwtVerifier J)
  new_rs256 pem = elim (J.from_rsa_pem pem) [
    | none ↦ err (jwt (J.pem_error pem))
    | some key ↦ ok (record { key = key; validation = rs256 })
  ]

  unfoldable pub verify : JwtVerifier J → Bytes → Result Claims
  verify v token = as_claims (J.decode v.key v.validation token)
