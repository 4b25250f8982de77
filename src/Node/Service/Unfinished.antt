-- ===== src/Node/Service/Unfinished.antt =====
-- service.rs: the calls that the storage fails although it has applied their write.
mod Examples
use ferriskv.Prelude.{◌≡◌}
use ferriskv.Prelude.Bytes.{Bytes}
use ferriskv.Prelude.Assoc.{Map}
use ferriskv.Core.Error.{Error, Result, ok, err, err_not_ok}
use ferriskv.Core.Storage as Storage
use ferriskv.Core.Storage.FjallStorage.{Fjall}
use ferriskv.Core.Storage.Laws.{IsWritten, IsRemoved, entries}
use ferriskv.Node.Watch.{Broadcast}
use ferriskv.Node.Throttle.{Governor}
use ferriskv.Node.Service.{NodeService}

module _ {F : Fjall} {B : Broadcast} {G : Governor} (view : F.Keyspace → Map Bytes)
    (before : NodeService F B G) (key : Bytes) where
  -- The call ends with the storage's error, neither the counters nor the index have changed, and yet
  -- the storage holds the key's new value.
  abbrev pub IsHalfPut : Bytes → Result (Unit {0}) × NodeService F B G → Type 0
  IsHalfPut raw (r, after) =
      (e : Error) × ((Storage.put before.storage key raw).0 ≡ err e)
      × (r ≡ err e)
      × IsWritten key raw (entries view before.storage) (entries view after.storage)
      × (after.quotas ≡ before.quotas)
      × (after.ttl_index ≡ before.ttl_index)

  -- The same where the storage has dropped the key.
  abbrev pub IsHalfDelete : Result (Unit {0}) × NodeService F B G → Type 0
  IsHalfDelete (r, after) =
      (e : Error) × ((Storage.delete before.storage key).0 ≡ err e)
      × (r ≡ err e)
      × IsRemoved key (entries view before.storage) (entries view after.storage)
      × (after.quotas ≡ before.quotas)
      × (after.ttl_index ≡ before.ttl_index)
