-- ===== src/Node/AuthLayer/Bearer.antt =====
-- auth_layer.rs: whom an interceptor with a verifier lets through.
use ferriskv.Prelude.{◌≡◌, refl, ◌↔◌, ◌⊎◌, inl, inr, Option, none, some, ◌++◌}
use ferriskv.Prelude.Bytes.{Bytes, strip_prefix, strip_prefix-eq_some}
use ferriskv.Auth.Error.{Result, ok, err}
use ferriskv.Auth.Jwt
use ferriskv.Auth.Jwt.{Claims, Jsonwebtoken, JwtVerifier}
use ferriskv.Node.Status as Status
use ferriskv.Node.Status.{reply}
use ferriskv.Node.AuthLayer.{
  Principal, authenticated, Header, absent, no_text, text, bearer_upper, bearer_lower, token_of,
  or_else, verified, bearer_token, with_verifier, call,
}

-- The header is a bearer token.
abbrev pub Bears : Bytes → Bytes → Type 0
Bears raw token = (raw ≡ bearer_upper ++ token) ⊎ (raw ≡ bearer_lower ++ token)

verified-eq :
    (r : Result Claims) (p : Principal)
    → verified r ≡ reply p
    → (c : Claims) × (p ≡ authenticated c) × (r ≡ ok c)
verified-eq (ok c) p h = (c, cc, refl)
verified-eq (err e) p h = cc

token_of-Bears : (raw token : Bytes) → token_of raw ≡ some token → Bears raw token
unfolding token_of
token_of-Bears raw token h = by_upper (strip_prefix raw bearer_upper) refl h
  where
    by_upper :
        (o : Option Bytes)
        → strip_prefix raw bearer_upper ≡ o
        → or_else o (strip_prefix raw bearer_lower) ≡ some token
        → Bears raw token
    by_upper (some t) eq h = inl ((strip_prefix-eq_some raw bearer_upper token).0 (cc))
    by_upper none eq h = inr ((strip_prefix-eq_some raw bearer_lower token).0 h)

Bears-token_of : (raw token : Bytes) → Bears raw token → token_of raw ≡ some token
unfolding token_of strip_prefix
Bears-token_of raw token (inl h) = rw ((strip_prefix-eq_some raw bearer_upper token).1 h) refl
Bears-token_of raw token (inr h) = rw h refl

module _ {J : Jsonwebtoken} where
  -- The header is a bearer token that the verifier accepts with the principal's claims.
  abbrev pub Presents : JwtVerifier J → Header → Principal → Type 0
  Presents v header p =
      (raw : Bytes) × (token : Bytes) × (c : Claims) × (header ≡ text raw)
      × Bears raw token
      × (Jwt.verify v token ≡ ok c)
      × (p ≡ authenticated c)

  call-Bears :
      (v : JwtVerifier J) (header : Header) (p : Principal)
      → call (with_verifier v) header ≡ reply p
      → Presents v header p
  unfolding call
  call-Bears v absent p h = cc
  call-Bears v no_text p h = cc
  call-Bears v (text raw) p h = by_token (token_of raw) refl h
    where
      by_token :
          (o : Option Bytes)
          → token_of raw ≡ o
          → Status.then_reply (bearer_token o) (λ token. verified (Jwt.verify v token)) ≡ reply p
          → Presents v (text raw) p
      by_token none eq h = cc
      by_token (some token) eq h =
          let (c, same, valid) = verified-eq (Jwt.verify v token) p h in
          (raw, token, c, refl, token_of-Bears raw token eq, valid, same)

  Presents-call :
      (v : JwtVerifier J) (header : Header) (p : Principal)
      → Presents v header p
      → call (with_verifier v) header ≡ reply p
  unfolding call
  Presents-call v header p (raw, token, c, is_text, bears, valid, same) =
      rw (is_text, same, Bears-token_of raw token bears, valid) refl

  -- Where there is a verifier, a request gets a principal exactly if its header is `Bearer ` or
  -- `bearer ` and a token that the verifier accepts, and then the principal is the token's claims:
  -- it is never anonymous.
  pub call_iff_Presents :
      (v : JwtVerifier J) (header : Header) (p : Principal)
      → (call (with_verifier v) header ≡ reply p) ↔ Presents v header p
  call_iff_Presents v header p = (call-Bears v header p, Presents-call v header p)
