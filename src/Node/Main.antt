-- ===== src/Node/Main.antt =====
-- crates/ferriskv-node/src/main.rs: what the process starts with. Sockets, tasks, signals and metrics
-- are left out; the configuration of a file is an argument, as `config` and `serde` read it.
pub mod Started
mod Examples
use ferriskv.Prelude.{ℕ, ◌*◌, Bool, true, false, Option, none, some, [], ◌∷◌, if◌then◌else◌}
use ferriskv.Prelude.Bytes.{Bytes}
use ferriskv.Core.Limits as Limits
use ferriskv.Core.Limits.{Validity, valid, invalid, invalid_path}
use ferriskv.Core.Error as Error
use ferriskv.Core.Storage.{StorageBackend}
use ferriskv.Core.Storage.FjallStorage.{Fjall}
use ferriskv.Auth.Error as Auth
use ferriskv.Auth.Jwt as Jwt
use ferriskv.Auth.Jwt.{Jsonwebtoken, JwtVerifier}
use ferriskv.Node.AuthLayer.{AuthInterceptor, insecure_interceptor, with_verifier}
use ferriskv.Node.Config as Config
use ferriskv.Node.Config.{
  FileSystem, AuthConfig, TlsConfig, NodeConfig, Loaded, loaded, failed, then_load, message,
  path_message, auth_failed, open_failed, memory, default_quota_config, load_public_key, load_tls,
}
use ferriskv.Node.Quota.{Json}
use ferriskv.Node.Watch.{Broadcast}
use ferriskv.Node.Throttle.{Governor}
use ferriskv.Node.Service.{NodeService, Disk}
use ferriskv.Node.Service.Boot as Boot

-- Without a configuration file: "node-0" at 127.0.0.1:7100 under "./data/node".
abbrev pub default_config : NodeConfig
default_config = record {
  node_id = b'n' ∷ b'o' ∷ b'd' ∷ b'e' ∷ b'-' ∷ b'0' ∷ [];
  listen = record { ip = 127 ∷ 0 ∷ 0 ∷ 1 ∷ []; port = 7100 };
  data_dir = b'.' ∷ b'/' ∷ b'd' ∷ b'a' ∷ b't' ∷ b'a' ∷ b'/' ∷ b'n' ∷ b'o' ∷ b'd' ∷ b'e' ∷ [];
  coord_endpoints = [];
  backend = memory;
  limits = Limits.default;
  auth = record { insecure = true; public_key_path = none };
  tls = none;
  admin_listen = none;
  ttl_sweep_interval_secs = 60;
  shutdown_timeout_secs = 10;
  quota = default_quota_config;
  watch_buffer = 1024;
  watch_heartbeat_secs = 30;
  wal_rotate_bytes = 64 * 1024 * 1024;
}

-- `map_err(anyhow::Error::msg)?`.
abbrev pub if_valid {ℓ} : {A : Type ℓ} → Validity → Loaded A → Loaded A
if_valid valid next = next
if_valid (invalid e) next = failed (message e)
if_valid (invalid_path e path) next = failed (path_message e path)

abbrev pub if_opened {ℓ κ} : {A : Type ℓ} {B : Type κ} → Error.Result A → (A → Loaded B) → Loaded B
if_opened (Error.ok a) f = f a
if_opened (Error.err e) f = failed (open_failed e)

module _ (J : Jsonwebtoken) where
  abbrev pub with_verified : Auth.Result (JwtVerifier J) → Loaded (AuthInterceptor J)
  with_verified (Auth.ok v) = loaded (with_verifier v)
  with_verified (Auth.err e) = failed (auth_failed e)

  abbrev pub verifier_of : Option Bytes → Loaded (AuthInterceptor J)
  verifier_of none = failed (message "auth: public_key_path required when not insecure")
  verifier_of (some pem) = with_verified (Jwt.new_rs256 pem)

module _ (J : Jsonwebtoken) (fs : FileSystem) where
  unfoldable pub build_auth_interceptor : AuthConfig → Loaded (AuthInterceptor J)
  unfolding load_public_key
  build_auth_interceptor auth =
      if auth.insecure
      then loaded insecure_interceptor
      else then_load (load_public_key fs auth) (verifier_of J)

  -- The certificate and the key, for a server with TLS.
  abbrev pub build_some_tls : Option TlsConfig → Loaded (Option (Bytes × Bytes))
  build_some_tls none = loaded none
  build_some_tls (some tls) = then_load (load_tls fs tls) λ identity. loaded (some identity)

module _ (F : Fjall) (B : Broadcast) (G : Governor) (J : Jsonwebtoken) where
  -- What the server is built from.
  pub record Server : Type 0 where
    pub service : NodeService F B G
    pub interceptor : AuthInterceptor J
    pub identity : Option (Bytes × Bytes)

module _ {F : Fjall} {B : Broadcast} {G : Governor} (J : Jsonwebtoken) (fs : FileSystem)
    (crc32 : Bytes → ℕ) (json : Json) (d : Disk) where
  unfoldable pub start : NodeConfig → StorageBackend F → Option Bytes → Loaded (Server F B G J)
  start cfg st file = if_valid (Config.validate fs cfg) (
      if_opened (Boot.open_with_clock crc32 json d cfg st file) λ service.
        then_load (build_auth_interceptor J fs cfg.auth) λ interceptor.
          then_load (build_some_tls J fs cfg.tls) λ identity.
            loaded (record { service = service; interceptor = interceptor; identity = identity }))
