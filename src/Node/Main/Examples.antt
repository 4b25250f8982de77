-- ===== src/Node/Main/Examples.antt =====
-- Runs of main.rs: a file system with a key file, and a library that takes one token.
use ferriskv.Prelude.{
  ◌≡◌, ◌<◌, ◌≤◌, length, refl, ◌↔◌, ◌||◌, false, none, some, [], ◌∷◌, ◌++◌, if◌then◌else◌,
}
use ferriskv.Prelude.Bytes.{Bytes, bytes_eq}
use ferriskv.Core.Limits as Limits
use ferriskv.Core.Limits.{valid, invalid, ArePositive}
use ferriskv.Core.Storage.FjallStorage.{value, fault}
use ferriskv.Auth.Jwt.{Claims, new_rs256, Jsonwebtoken, claims, other_error, Algorithm}
use ferriskv.Node.Status.{reply}
use ferriskv.Node.AuthLayer.{
  authenticated, text, bearer_upper, AuthInterceptor, with_verifier, call,
}
use ferriskv.Node.Config.{
  FileSystem, NodeConfig, AuthConfig, load_public_key, validate, validate_auth,
}
use ferriskv.Node.Config.Valid.{HasKey, HasFiles, IsBounded, HasParent, validate_iff}
use ferriskv.Node.Main.{default_config, build_auth_interceptor}
use ferriskv.Node.Main.Started.{Admits, build_auth_interceptor-Admits}

abbrev key_path : Bytes
key_path = b'k' ∷ []

abbrev data_path : Bytes
data_path = b'.' ∷ b'/' ∷ b'd' ∷ b'a' ∷ b't' ∷ b'a' ∷ []

abbrev files : FileSystem
files = record {
  exists = λ path. bytes_eq path key_path || bytes_eq path data_path;
  parent = λ path. some data_path;
  read = λ path. if bytes_eq path key_path then value (7 ∷ []) else fault "no such file";
}

abbrev client : Claims
client = record { sub = b's' ∷ []; tenant = b't' ∷ []; roles = []; perms = []; exp = 9; iss = none }

abbrev library : Jsonwebtoken
library = record {
  DecodingKey = Bytes;
  from_secret = λ s. s;
  from_rsa_pem = λ pem. some pem;
  pem_error = λ pem. "";
  decode = λ key alg token. if bytes_eq token key then claims client else other_error "signature";
}

abbrev guarded : AuthConfig
guarded = record { insecure = false; public_key_path = some key_path }

abbrev interceptor : AuthInterceptor library
interceptor = with_verifier (record { key = 7 ∷ []; validation = Algorithm.rs256 })

abbrev secured : NodeConfig
secured = record default_config { auth = guarded }

no_buffer :
    validate files (record secured { watch_buffer = 1 }) ≡ invalid "watch_buffer must be at least 2"
unfolding validate validate_auth Limits.validate
no_buffer = refl

validate_iff_example : (validate files secured ≡ valid) ↔ (
    ((0 < length secured.node_id) × (length secured.node_id ≤ 255))
    × (ArePositive secured.limits
        × (HasKey secured.auth
            × (HasFiles files secured.tls
                × (IsBounded secured × HasParent files (some data_path))))))
validate_iff_example = validate_iff files secured

build_auth_interceptor-Admits_example :
    (call interceptor (text (bearer_upper ++ (7 ∷ []))) ≡ reply (authenticated client))
    ↔ Admits library files guarded (text (bearer_upper ++ (7 ∷ []))) (authenticated client)
unfolding build_auth_interceptor load_public_key new_rs256 bytes_eq
build_auth_interceptor-Admits_example =
    build_auth_interceptor-Admits library files guarded interceptor
      (text (bearer_upper ++ (7 ∷ []))) (authenticated client) refl
