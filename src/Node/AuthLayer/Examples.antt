-- ===== src/Node/AuthLayer/Examples.antt =====
-- auth_layer.rs with a verifier that accepts the token "t".
use ferriskv.Prelude.{◌≡◌, ◌↔◌, none, [], ◌∷◌, ◌++◌, if◌then◌else◌}
use ferriskv.Prelude.Bytes.{Bytes, bytes_eq}
use ferriskv.Auth.Jwt.{Claims, Jsonwebtoken, JwtVerifier, rs256, claims, expired_signature}
use ferriskv.Node.Status.{reply}
use ferriskv.Node.AuthLayer.{authenticated, text, bearer_upper, with_verifier, call}
use ferriskv.Node.AuthLayer.Bearer.{Presents, call_iff_Presents}

abbrev alice : Claims
alice = record { sub = []; tenant = b'a' ∷ []; roles = []; perms = []; exp = 0; iss = none }

abbrev library : Jsonwebtoken
library = record {
  DecodingKey = Bytes;
  from_secret = λ secret. secret;
  from_rsa_pem = λ pem. none;
  pem_error = λ pem. "no key";
  decode =
      λ key algorithm token. if bytes_eq token (b't' ∷ []) then claims alice else expired_signature;
}

abbrev verifier : JwtVerifier library
verifier = record { key = []; validation = rs256 }

call_iff_Presents_example :
    (call (with_verifier verifier) (text (bearer_upper ++ (b't' ∷ [])))
      ≡ reply (authenticated alice))
    ↔ Presents verifier (text (bearer_upper ++ (b't' ∷ []))) (authenticated alice)
call_iff_Presents_example =
    call_iff_Presents verifier (text (bearer_upper ++ (b't' ∷ []))) (authenticated alice)
