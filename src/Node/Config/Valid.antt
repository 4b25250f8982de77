-- ===== src/Node/Config/Valid.antt =====
-- config.rs: the configurations that `validate` lets through.
use ferriskv.Prelude.{
  ◌≤◌, ◌<◌, ◌≡◌, refl, ◌↔◌, ◌⊎◌, inl, inr, true, Option, none, some, [], ◌∷◌, length, arith,
  Bool-cases,
}
use ferriskv.Prelude.Bytes.{Bytes}
use ferriskv.Core.Limits.{
  Validity, valid, invalid, invalid_path, also, ArePositive, validate_iff_positive,
}
use ferriskv.Node.Config.{
  FileSystem, TlsConfig, AuthConfig, NodeConfig, validate_auth, validate_tls, validate_some_tls,
  validate_name, has_key, validate_parent, validate_bounds, validate,
}

abbrev pub HasKey : AuthConfig → Type 0
HasKey auth = (auth.insecure ≡ true) ⊎ ((path : Bytes) × (auth.public_key_path ≡ some path))

-- The bounds on what the node runs with.
abbrev pub IsBounded : NodeConfig → Type 0
IsBounded c =
    (0 < c.shutdown_timeout_secs)
    × (4096 ≤ c.wal_rotate_bytes)
    × (2 ≤ c.watch_buffer)
    × (0 < c.watch_heartbeat_secs)

has_key_iff : (p : Option Bytes) → (has_key p ≡ valid) ↔ ((path : Bytes) × (p ≡ some path))
has_key_iff none = ((λ h. cc), λ (path, e). cc)
has_key_iff (some path) = ((λ h. (path, refl)), λ h. refl)

validate_auth_iff : (auth : AuthConfig) → (validate_auth auth ≡ valid) ↔ HasKey auth
unfolding validate_auth
validate_auth_iff auth =
    let keyed = has_key_iff auth.public_key_path in
    elim (Bool-cases auth.insecure) [
      | inl trusts ↦ rw trusts ((λ h. inl refl), λ h. refl)
      | inr asks ↦ rw asks ((λ h. inr (keyed.0 h)), λ h. elim h [ inl e ↦ cc | inr k ↦ keyed.1 k ])
    ]

also_iff {ℓ κ} :
    {P : Type ℓ} {Q : Type κ} (first next : Validity)
    → (first ≡ valid) ↔ P
    → (next ≡ valid) ↔ Q
    → (also first next ≡ valid) ↔ (P × Q)
also_iff valid next p q = ((λ h. (p.0 refl, q.0 h)), λ (hp, hq). q.1 hq)
also_iff (invalid e) next p q = ((λ h. cc), λ (hp, hq). cc (p.1 hp))
also_iff (invalid_path e path) next p q = ((λ h. cc), λ (hp, hq). cc (p.1 hp))

validate_name_iff :
    (node_id : Bytes)
    → (validate_name node_id ≡ valid) ↔ ((0 < length node_id) × (length node_id ≤ 255))
validate_name_iff [] = ground arith
validate_name_iff (b ∷ bs) = ground arith

validate_bounds_iff : (c : NodeConfig) → (validate_bounds c ≡ valid) ↔ IsBounded c
validate_bounds_iff c = ground arith

module _ (fs : FileSystem) where
  abbrev pub HasFiles : Option TlsConfig → Type 0
  HasFiles none = Unit
  HasFiles (some tls) = (fs.exists tls.cert_path ≡ true) × (fs.exists tls.key_path ≡ true)

  -- The relative path of one component has the empty parent.
  abbrev pub HasParent : Option Bytes → Type 0
  HasParent none = Unit
  HasParent (some parent) = (parent ≡ []) ⊎ (fs.exists parent ≡ true)

  validate_some_tls_iff :
      (tls : Option TlsConfig) → (validate_some_tls fs tls ≡ valid) ↔ HasFiles tls
  unfolding validate_tls
  validate_some_tls_iff none = ((λ h. tt), λ h. refl)
  validate_some_tls_iff (some tls) = ground arith

  validate_parent_iff :
      (parent : Option Bytes) → (validate_parent fs parent ≡ valid) ↔ HasParent parent
  validate_parent_iff none = ((λ h. tt), λ h. refl)
  validate_parent_iff (some []) = ((λ h. inl refl), λ h. refl)
  validate_parent_iff (some (b ∷ bs)) = ground arith

  -- A configuration is valid exactly if the node's name has 1 to 255 bytes, each limit is positive,
  -- authentication is off or has a key, the certificate's and the key's file exist where TLS is on,
  -- the timeout and the heartbeat are positive, the log is rotated at 4096 bytes at least, a watch
  -- buffers two events at least, and the data directory's parent, where it has one, exists.
  pub validate_iff :
      (c : NodeConfig)
      → (validate fs c ≡ valid) ↔ (
          ((0 < length c.node_id) × (length c.node_id ≤ 255))
          × (ArePositive c.limits
              × (HasKey c.auth
                  × (HasFiles c.tls × (IsBounded c × HasParent (fs.parent c.data_dir))))))
  unfolding validate
  validate_iff c = also_iff _ _ (validate_name_iff c.node_id) (
      also_iff _ _ (validate_iff_positive c.limits) (
        also_iff _ _ (validate_auth_iff c.auth) (
          also_iff _ _ (validate_some_tls_iff c.tls)
            (also_iff _ _ (validate_bounds_iff c) (validate_parent_iff (fs.parent c.data_dir))))))
