-- ===== src/Auth/ApiKey.antt =====
-- api_key.rs: `ApiKeyStore`. The hash is a parameter; a `DashMap` keyed by 32 bytes is an
-- association list.
use ferriskv.Prelude.{◌≡◌, refl, true, false, Option, none, some, [], if◌then◌else◌}
use ferriskv.Prelude.Bytes.{Bytes, bytes_eq}
use ferriskv.Prelude.Assoc.{Map, lookup, insert, lookup-insert}
use ferriskv.Auth.Rbac.{RoleSet}
use ferriskv.Auth.Error.{Result, ok, err, unknown_api_key}

pub record ApiKey : Type 0 where
  pub id : Bytes
  pub tenant : Bytes
  pub hashed : Bytes
  pub roles : RoleSet

abbrev pub ApiKeyStore : Type 0
ApiKeyStore = Map ApiKey

abbrev pub empty : ApiKeyStore
empty = []

unfoldable pub insert_key : ApiKey → ApiKeyStore → ApiKeyStore
insert_key key store = insert key.hashed key store

abbrev pub found : Option ApiKey → Result ApiKey
found none = err unknown_api_key
found (some key) = ok key

module _ (hash : Bytes → Bytes) where
  unfoldable pub verify : Bytes → ApiKeyStore → Result ApiKey
  verify raw store = found (lookup (hash raw) store)

  -- A raw key is answered by the last key inserted under its hash.
  pub verify-insert_key :
      (raw : Bytes) (key : ApiKey) (store : ApiKeyStore)
      → verify raw (insert_key key store)
        ≡ (if bytes_eq key.hashed (hash raw) then ok key else verify raw store)
  unfolding verify insert_key
  verify-insert_key raw key store =
      rw (lookup-insert key.hashed (hash raw) key store)
        (elim (bytes_eq key.hashed (hash raw))
          as (λ b.
            found (if b then some key else lookup (hash raw) store)
            ≡ (if b then ok key else found (lookup (hash raw) store))) [
              | true ↦ refl
              | false ↦ refl
            ])
