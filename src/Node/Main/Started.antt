-- ===== src/Node/Main/Started.antt =====
-- main.rs: what holds of a process that has started.
use ferriskv.Prelude.{
  ◌≡◌, refl, ◌↔◌, ◌⊎◌, inl, inr, true, false, Option, none, some, Bool-cases, subst,
}
use ferriskv.Prelude.Bytes.{Bytes}
use ferriskv.Core.Storage.FjallStorage.{Fallible, value, fault}
use ferriskv.Auth.Error as Auth
use ferriskv.Auth.Jwt as Jwt
use ferriskv.Auth.Jwt.{Jsonwebtoken, JwtVerifier}
use ferriskv.Node.Status.{reply}
use ferriskv.Node.AuthLayer.{
  Principal, anonymous, Header, AuthInterceptor, insecure_interceptor, with_verifier, call,
}
use ferriskv.Node.AuthLayer.Bearer.{Presents, call_iff_Presents}
use ferriskv.Node.Config.{
  FileSystem, AuthConfig, loaded, then_load, as_loaded, load_key, load_public_key,
  public_key_unread,
}
use ferriskv.Node.Main.{with_verified, verifier_of, build_auth_interceptor}

module _ (J : Jsonwebtoken) (fs : FileSystem) where
  -- The verifier of the public key that the file of the configuration holds.
  abbrev pub Verifies : AuthConfig → JwtVerifier J → Type 0
  Verifies auth v =
      (path : Bytes) × (pem : Bytes) × (auth.public_key_path ≡ some path)
      × (fs.read path ≡ value pem)
      × (Jwt.new_rs256 pem ≡ Auth.ok v)

  -- Whom the node lets through, as which principal.
  abbrev pub Admits : AuthConfig → Header → Principal → Type 0
  Admits auth header p =
      ((auth.insecure ≡ true) × (p ≡ anonymous))
      ⊎ ((auth.insecure ≡ false) × ((v : JwtVerifier J) × (Verifies auth v × Presents v header p)))

  verifier_of-Verifies :
      (auth : AuthConfig) (int : AuthInterceptor J)
      → then_load (load_public_key fs auth) (verifier_of J) ≡ loaded int
      → (v : JwtVerifier J) × (Verifies auth v × (int ≡ with_verifier v))
  unfolding load_public_key
  verifier_of-Verifies auth int h = by_path auth.public_key_path refl h
    where
      by_key :
          (path pem : Bytes) (r : Auth.Result (JwtVerifier J))
          → auth.public_key_path ≡ some path
          → fs.read path ≡ value pem
          → Jwt.new_rs256 pem ≡ r
          → with_verified J r ≡ loaded int
          → (v : JwtVerifier J) × (Verifies auth v × (int ≡ with_verifier v))
      by_key path pem (Auth.ok v) p r eq h = (v, ((path, pem, p, r, eq), cc))
      by_key path pem (Auth.err e) p r eq h = cc

      by_file :
          (path : Bytes) (f : Fallible Bytes)
          → auth.public_key_path ≡ some path
          → fs.read path ≡ f
          → then_load
              (then_load (as_loaded (public_key_unread path) f) (λ bytes. loaded (some bytes)))
              (verifier_of J)
            ≡ loaded int
          → (v : JwtVerifier J) × (Verifies auth v × (int ≡ with_verifier v))
      by_file path (value pem) p r h = by_key path pem (Jwt.new_rs256 pem) p r refl h
      by_file path (fault e) p r h = cc

      by_path :
          (o : Option Bytes)
          → auth.public_key_path ≡ o
          → then_load (load_key fs o) (verifier_of J) ≡ loaded int
          → (v : JwtVerifier J) × (Verifies auth v × (int ≡ with_verifier v))
      by_path none p h = cc
      by_path (some path) p h = by_file path (fs.read path) p refl h

  -- The configuration has one verifier at most.
  Verifies-unique :
      (auth : AuthConfig) (v w : JwtVerifier J) → Verifies auth v → Verifies auth w → v ≡ w
  Verifies-unique auth v w (path, pem, p, r, e) (path2, pem2, p2, r2, e2) = cc

  Admits-insecure :
      (auth : AuthConfig) (header : Header) (p : Principal)
      → auth.insecure ≡ true
      → (call (insecure_interceptor {J = J}) header ≡ reply p) ↔ Admits auth header p
  unfolding call
  Admits-insecure auth header p trusts =
      ((λ h. inl (trusts, cc)), λ a. elim a [ inl (t, e) ↦ cc | inr (f, r) ↦ cc ])

  Admits-verifier :
      (auth : AuthConfig) (v : JwtVerifier J) (header : Header) (p : Principal)
      → auth.insecure ≡ false
      → Verifies auth v
      → (call (with_verifier v) header ≡ reply p) ↔ Admits auth header p
  Admits-verifier auth v header p asks verifies =
      let bearer = call_iff_Presents v header p in
      (
        (λ h. inr (asks, (v, (verifies, bearer.0 h)))),
        λ a. elim a [
          | inl (t, e) ↦ cc
          | inr (f, (w, (other, presents))) ↦
              bearer.1 (
                subst (λ w. Presents w header p) (Verifies-unique auth w v other verifies) presents)
        ],
      )

  -- The interceptor that a configuration makes lets a request through as a principal exactly if
  -- authentication is off and the principal is anonymous, or it is on and the request presents a
  -- bearer token that the key in the configured file verifies, as the principal of its claims.
  pub build_auth_interceptor-Admits :
      (auth : AuthConfig) (int : AuthInterceptor J) (header : Header) (p : Principal)
      → build_auth_interceptor J fs auth ≡ loaded int
      → (call int header ≡ reply p) ↔ Admits auth header p
  unfolding build_auth_interceptor
  build_auth_interceptor-Admits auth int header p h = elim (Bool-cases auth.insecure) [
    | inl trusts ↦
        let same : int ≡ insecure_interceptor = cc in rw same (Admits-insecure auth header p trusts)
    | inr asks ↦
        let built : then_load (load_public_key fs auth) (verifier_of J) ≡ loaded int = cc in
        let (v, (verifies, same)) = verifier_of-Verifies auth int built in
        rw same (Admits-verifier auth v header p asks verifies)
  ]
