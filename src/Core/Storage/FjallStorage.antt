-- ===== src/Core/Storage/FjallStorage.antt =====
-- storage.rs: `FjallStorage`, over what it calls of the engine `fjall`.
use ferriskv.Prelude.{String, Option, List, [], ◌∷◌}
use ferriskv.Prelude.Bytes.{Bytes}
use ferriskv.Core.Error.{Result, ok, err, storage, ◌>>=◌}

pub data Fallible {ℓ} (A : Type ℓ) : Type ℓ where
  value : A → Fallible A
  fault : String → Fallible A

-- What the code calls of `fjall`: a partition of a keyspace.
pub record Fjall : Type 1 where
  pub Keyspace : Type 0
  pub get : Keyspace → Bytes → Fallible (Option Bytes)
  pub insert : Keyspace → Bytes → Bytes → Fallible (Unit {0}) × Keyspace
  pub remove : Keyspace → Bytes → Fallible (Unit {0}) × Keyspace
  pub prefix : Keyspace → Bytes → List (Fallible (Bytes × Bytes))
  pub range : Keyspace → Bytes → Bytes → List (Fallible (Bytes × Bytes))
  pub persist : Keyspace → Fallible (Unit {0}) × Keyspace

-- The conversion of the `?` operator, `Error::Storage(#[from] fjall::Error)`.
abbrev pub from_fjall {ℓ} : {A : Type ℓ} → Fallible A → Result A
from_fjall (value a) = ok a
from_fjall (fault e) = err (storage e)

-- `for kv in iter { let (k, v) = kv?; out.push(..) }`
unfoldable pub collect : List (Fallible (Bytes × Bytes)) → Result (List (Bytes × Bytes))
collect [] = ok []
collect (kv ∷ rest) = let out = collect rest in (from_fjall kv >>= λ p. (out >>= λ ps. ok (p ∷ ps)))

module _ (F : Fjall) where
  unfoldable pub get : F.Keyspace → Bytes → Result (Option Bytes)
  get ks key = from_fjall (F.get ks key)

  unfoldable pub put : F.Keyspace → Bytes → Bytes → Result (Unit {0}) × F.Keyspace
  put ks key v = let (r, ks') = F.insert ks key v in (from_fjall r, ks')

  unfoldable pub delete : F.Keyspace → Bytes → Result (Unit {0}) × F.Keyspace
  delete ks key = let (r, ks') = F.remove ks key in (from_fjall r, ks')

  unfoldable pub scan : F.Keyspace → Bytes → Result (List (Bytes × Bytes))
  scan ks prefix = collect (F.prefix ks prefix)

  unfoldable pub scan_range : F.Keyspace → Bytes → Bytes → Result (List (Bytes × Bytes))
  scan_range ks start end = collect (F.range ks start end)

  unfoldable pub flush : F.Keyspace → Result (Unit {0}) × F.Keyspace
  flush ks = let (r, ks') = F.persist ks in (from_fjall r, ks')
