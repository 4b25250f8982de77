-- ===== src/Node/Config.antt =====
-- crates/ferriskv-node/src/config.rs. A path is its bytes; the file system is a parameter. A message
-- that is formatted from a path or an error is kept as what it is formatted from.
pub mod Valid
use ferriskv.Prelude.{
  ℕ, ◌*◌, Bool, true, false, not, ◌&&◌, String, Option, none, some, List, [], length, ltb, ◌==◌,
  if◌then◌else◌,
}
use ferriskv.Prelude.Bytes.{Bytes, is_empty}
use ferriskv.Core.Limits as Limits
use ferriskv.Core.Limits.{Limits, Validity, valid, invalid, invalid_path, also}
use ferriskv.Core.Storage.FjallStorage.{Fallible, value, fault}
use ferriskv.Core.Error.{Error}
use ferriskv.Auth.Error.{AuthError}

-- `Path::exists`, `Path::parent` and `std::fs::read`.
pub record FileSystem : Type 0 where
  pub exists : Bytes → Bool
  pub parent : Bytes → Option Bytes
  pub read : Bytes → Fallible Bytes

-- Why a start fails before there is a service.
pub data Failure : Type 0 where
  message : String → Failure
  path_message : String → Bytes → Failure
  read_failed : Bytes → String → Failure
  public_key_unread : Bytes → String → Failure
  auth_failed : AuthError → Failure
  open_failed : Error → Failure

pub data Loaded {ℓ} (A : Type ℓ) : Type ℓ where
  loaded : A → Loaded A
  failed : Failure → Loaded A

-- The `?` operator.
abbrev pub then_load {ℓ κ} : {A : Type ℓ} {B : Type κ} → Loaded A → (A → Loaded B) → Loaded B
then_load (loaded a) f = f a
then_load (failed e) f = failed e

-- `map_err` with the message that names the path.
abbrev pub as_loaded : (String → Failure) → Fallible Bytes → Loaded Bytes
as_loaded wrap (value bytes) = loaded bytes
as_loaded wrap (fault e) = failed (wrap e)

pub record TlsConfig : Type 0 where
  pub cert_path : Bytes
  pub key_path : Bytes

pub record AuthConfig : Type 0 where
  pub insecure : Bool
  pub public_key_path : Option Bytes

pub record QuotaConfig : Type 0 where
  pub default_max_bytes : ℕ
  pub default_max_ops_per_sec : ℕ

pub data Backend : Type 0 where
  memory fjall : Backend

pub record SocketAddr : Type 0 where
  pub ip : Bytes
  pub port : ℕ

pub record NodeConfig : Type 0 where
  pub node_id : Bytes
  pub listen : SocketAddr
  pub data_dir : Bytes
  pub coord_endpoints : List Bytes
  pub backend : Backend
  pub limits : Limits
  pub auth : AuthConfig
  pub tls : Option TlsConfig
  pub admin_listen : Option SocketAddr
  pub ttl_sweep_interval_secs : ℕ
  pub shutdown_timeout_secs : ℕ
  pub quota : QuotaConfig
  pub watch_buffer : ℕ
  pub watch_heartbeat_secs : ℕ
  pub wal_rotate_bytes : ℕ

-- The `Default` of the parts, and what an absent field of a file is read as.
abbrev pub default_auth : AuthConfig
default_auth = record { insecure = false; public_key_path = none }

abbrev pub default_quota_config : QuotaConfig
default_quota_config = record { default_max_bytes = 0; default_max_ops_per_sec = 0 }

abbrev pub default_backend : Backend
default_backend = fjall

abbrev pub default_shutdown_secs : ℕ
default_shutdown_secs = 10

abbrev pub default_ttl_sweep_interval_secs : ℕ
default_ttl_sweep_interval_secs = 60

abbrev pub default_wal_rotate_bytes : ℕ
default_wal_rotate_bytes = 64 * 1024 * 1024

abbrev pub default_watch_buffer : ℕ
default_watch_buffer = 1024

abbrev pub default_watch_heartbeat_secs : ℕ
default_watch_heartbeat_secs = 30

abbrev pub has_key : Option Bytes → Validity
has_key none = invalid "auth: set insecure=true or provide public_key_path"
has_key (some path) = valid

unfoldable pub validate_auth : AuthConfig → Validity
validate_auth auth = if auth.insecure then valid else has_key auth.public_key_path

abbrev pub validate_name : Bytes → Validity
validate_name node_id =
    if is_empty node_id
    then invalid "node_id must not be empty"
    else if ltb 255 (length node_id)
    then invalid "node_id exceeds 255 bytes"
    else valid

-- The bounds on what the node runs with.
abbrev pub validate_bounds : NodeConfig → Validity
validate_bounds c =
    if c.shutdown_timeout_secs == 0
    then invalid "shutdown_timeout_secs must be > 0"
    else if ltb c.wal_rotate_bytes 4096
    then invalid "wal_rotate_bytes must be at least 4096"
    else if ltb c.watch_buffer 2
    then invalid "watch_buffer must be at least 2"
    else if c.watch_heartbeat_secs == 0
    then invalid "watch_heartbeat_secs must be > 0"
    else valid

module _ (fs : FileSystem) where
  unfoldable pub validate_tls : TlsConfig → Validity
  validate_tls tls =
      if not (fs.exists tls.cert_path)
      then invalid_path "tls.cert_path does not exist: " tls.cert_path
      else if not (fs.exists tls.key_path)
      then invalid_path "tls.key_path does not exist: " tls.key_path
      else valid

  unfoldable pub load_tls : TlsConfig → Loaded (Bytes × Bytes)
  load_tls tls = then_load (as_loaded (read_failed tls.cert_path) (fs.read tls.cert_path)) λ cert.
      then_load (as_loaded (read_failed tls.key_path) (fs.read tls.key_path))
        λ key. loaded (cert, key)

  abbrev pub load_key : Option Bytes → Loaded (Option Bytes)
  load_key none = loaded none
  load_key (some path) =
      then_load (as_loaded (public_key_unread path) (fs.read path)) λ bytes. loaded (some bytes)

  unfoldable pub load_public_key : AuthConfig → Loaded (Option Bytes)
  load_public_key auth = load_key auth.public_key_path

  -- The `if let Some` of the certificate, and that of the parent directory.
  abbrev pub validate_some_tls : Option TlsConfig → Validity
  validate_some_tls none = valid
  validate_some_tls (some tls) = validate_tls tls

  abbrev pub validate_parent : Option Bytes → Validity
  validate_parent none = valid
  validate_parent (some parent) =
      if not (is_empty parent) && not (fs.exists parent)
      then invalid_path "data_dir parent does not exist: " parent
      else valid

  unfoldable pub validate : NodeConfig → Validity
  unfolding validate_auth validate_tls
  validate c = also (validate_name c.node_id) (
      also (Limits.validate c.limits) (
        also (validate_auth c.auth) (
          also (validate_some_tls c.tls)
            (also (validate_bounds c) (validate_parent (fs.parent c.data_dir))))))
