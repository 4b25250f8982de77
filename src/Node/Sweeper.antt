-- ===== src/Node/Sweeper.antt =====
-- crates/ferriskv-node/src/ttl.rs: `sweep_once`. What the disk accepts in the deletion of the n-th
-- candidate is `disk n`; metrics are left out.
pub mod Live
pub mod Wakeup
pub mod Running
mod Examples
use ferriskv.Prelude.{ℕ, ◌+◌, Bool, true, false, Option, none, some, List, [], ◌∷◌}
use ferriskv.Prelude.Bytes.{Bytes}
use ferriskv.Core.Error.{Result, ok, err}
use ferriskv.Core.Value
use ferriskv.Core.Value.{StoredValue}
use ferriskv.Core.Storage
use ferriskv.Core.Storage.FjallStorage.{Fjall}
use ferriskv.Node.Ttl
use ferriskv.Node.Watch.{Broadcast}
use ferriskv.Node.Throttle.{Governor}
use ferriskv.Node.Service.{NodeService, Disk, delete, schedule_expiry}

-- A sweep takes the number of keys removed so far and the service.
module _ {F : Fjall} {B : Broadcast} {G : Governor} where
  count_removed : ℕ → Result (Unit {0}) × NodeService F B G → ℕ × NodeService F B G
  count_removed removed (ok u, svc) = (removed + 1, svc)
  count_removed removed (err e, svc) = (removed, svc)

  reschedule : Bytes → Result StoredValue → NodeService F B G → NodeService F B G
  reschedule key (ok sv) svc = schedule_expiry key sv.expires_at_ms svc
  reschedule key (err e) svc = svc

module _ {F : Fjall} {B : Broadcast} {G : Governor} (crc32 : Bytes → ℕ) (now : ℕ) where
  sweep_found : Disk → Bytes → Bytes → Result Bool → ℕ → NodeService F B G → ℕ × NodeService F B G
  sweep_found d key raw (ok true) removed svc = count_removed removed (delete crc32 d key svc)
  sweep_found d key raw (ok false) removed svc = (removed, reschedule key (Value.decode raw) svc)
  sweep_found d key raw (err e) removed svc = (removed, svc)

  sweep_got : Disk → Bytes → Result (Option Bytes) → ℕ → NodeService F B G → ℕ × NodeService F B G
  sweep_got d key (ok (some raw)) removed svc =
      sweep_found d key raw (Value.is_expired raw now) removed svc
  sweep_got d key (ok none) removed svc = (removed, svc)
  sweep_got d key (err e) removed svc = (removed, svc)

  -- The loop over the candidates.
  sweep_loop : (ℕ → Disk) → List Bytes → ℕ × NodeService F B G → ℕ × NodeService F B G
  sweep_loop disk [] (removed, svc) = (removed, svc)
  sweep_loop disk (key ∷ candidates) (removed, svc) =
      sweep_loop (λ n. disk (n + 1)) candidates
        (sweep_got (disk 0) key (Storage.get svc.storage key) removed svc)

  unfoldable pub sweep_once : (ℕ → Disk) → NodeService F B G → ℕ × NodeService F B G
  unfolding count_removed reschedule sweep_found sweep_got sweep_loop
  sweep_once disk svc =
      let (candidates, idx) = Ttl.drain_due now svc.ttl_index in
      sweep_loop disk candidates (0, record svc { ttl_index = idx })
