-- ===== src/Core/Storage.antt =====
-- crates/ferriskv-core/src/storage.rs: `StorageBackend`, which passes each call of the `Storage`
-- trait on to `MemStorage` or `FjallStorage`. A call returns its result and the storage after it.
pub mod MemStorage
pub mod FjallStorage
pub mod Laws
use ferriskv.Prelude.{Bool, true, false, Option, none, some}
use ferriskv.Prelude.Bytes.{Bytes}
use ferriskv.Prelude.Assoc.{Map}
use ferriskv.Core.Error.{Result, ok, err, not_found, ◌>>=◌}
use MemStorage
use FjallStorage
use FjallStorage.{Fjall}

pub data StorageBackend (F : Fjall) : Type 0 where
  memory : Map Bytes → StorageBackend F
  fjall : F.Keyspace → StorageBackend F

module _ {F : Fjall} where
  unfoldable pub get : StorageBackend F → Bytes → Result (Option Bytes)
  unfolding MemStorage.get FjallStorage.get
  get (memory m) key = MemStorage.get m key
  get (fjall ks) key = FjallStorage.get F ks key

  unfoldable pub put : StorageBackend F → Bytes → Bytes → Result (Unit {0}) × StorageBackend F
  unfolding MemStorage.put FjallStorage.put
  put (memory m) key v = let (r, m') = MemStorage.put m key v in (r, memory m')
  put (fjall ks) key v = let (r, ks') = FjallStorage.put F ks key v in (r, fjall ks')

  unfoldable pub delete : StorageBackend F → Bytes → Result (Unit {0}) × StorageBackend F
  unfolding MemStorage.delete FjallStorage.delete
  delete (memory m) key = let (r, m') = MemStorage.delete m key in (r, memory m')
  delete (fjall ks) key = let (r, ks') = FjallStorage.delete F ks key in (r, fjall ks')

  unfoldable pub scan : StorageBackend F → Bytes → Result (Map Bytes)
  unfolding MemStorage.scan FjallStorage.scan
  scan (memory m) prefix = MemStorage.scan m prefix
  scan (fjall ks) prefix = FjallStorage.scan F ks prefix

  unfoldable pub scan_range : StorageBackend F → Bytes → Bytes → Result (Map Bytes)
  unfolding MemStorage.scan_range FjallStorage.scan_range
  scan_range (memory m) start end = MemStorage.scan_range m start end
  scan_range (fjall ks) start end = FjallStorage.scan_range F ks start end

  unfoldable pub flush : StorageBackend F → Result (Unit {0}) × StorageBackend F
  unfolding MemStorage.flush FjallStorage.flush
  flush (memory m) = let (r, m') = MemStorage.flush m in (r, memory m')
  flush (fjall ks) = let (r, ks') = FjallStorage.flush F ks in (r, fjall ks')

  unfoldable pub is_durable : StorageBackend F → Bool
  is_durable (memory m) = false
  is_durable (fjall ks) = true

  unfoldable pub require_key : StorageBackend F → Bytes → Result Bytes
  unfolding get
  require_key st key =
      get st key >>= λ found. (elim found [ none ↦ err (not_found key) | some v ↦ ok v ])
