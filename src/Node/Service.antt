-- ===== src/Node/Service.antt =====
-- crates/ferriskv-node/src/service.rs: `NodeService`. An operation takes the service to its result
-- and the service after it, also where it fails. What the disk accepts of the log's writes is the
-- argument `Disk`, and the time that a call reads from the clock is an argument.
mod Steps
pub use Steps.*
pub mod Boot
pub mod Entries
pub mod Counters
pub mod Ended
pub mod Unfinished
pub mod Usage
pub mod Rebuilt
pub mod Replayed
pub mod Opened
pub mod Writes
pub mod Limits
pub mod Reads
pub mod ReadBack
pub mod Covered
pub mod Elsewhere
pub mod Touched
pub mod Fixture
mod Examples
mod StartExamples
use ferriskv.Prelude.{
  ℕ, ◌+◌, Bool, true, false, not, Option, none, some, List, [], ◌∷◌, ltb, if◌then◌else◌, length,
}
use ferriskv.Prelude.Bytes.{Bytes}
use ferriskv.Prelude.Words.{saturating_add}
use ferriskv.Prelude.Int.{ℤ, sub_i64, neg_i64}
use ferriskv.Prelude.Assoc.{Map}
use ferriskv.Core.Error.{Result, ok, err}
use ferriskv.Core.Error as Error
use ferriskv.Core.Key.{Subspace, metadata, data_space, index, stats, decode}
use ferriskv.Core.Value
use ferriskv.Core.Value.{StoredValue}
use ferriskv.Core.Storage
use ferriskv.Core.Storage.{StorageBackend}
use ferriskv.Core.Storage.FjallStorage.{Fjall}
use ferriskv.Node.Wal.{WalOp, WalRecord}
use ferriskv.Node.Wal as Wal
use ferriskv.Node.Wal.Writer.{Io}
use ferriskv.Node.Wal.Segment as Segment
use ferriskv.Node.Ttl
use ferriskv.Node.Ttl.{TtlIndex}
use ferriskv.Node.Quota
use ferriskv.Node.Quota.{QuotaStore, entry_bytes}
use ferriskv.Node.Watch
use ferriskv.Node.Watch.{Broadcast, WatchHub, ChangeKind}
use ferriskv.Node.Throttle
use ferriskv.Node.Throttle.{Governor, Throttle}

-- What the disk accepts in the four writes that one operation makes to the log.
pub record Disk : Type 0 where
  pub append_write : Io
  pub append_flush : Io
  pub rotate_flush : Io
  pub rotate_header : Io

pub record Accounting : Type 0 where
  pub tenant : Bytes
  pub delta : ℤ

-- The bytes that the key's entry counts for, `none` in storage counting for nothing.
abbrev pub previous_bytes : Bytes → Option Bytes → Result ℕ
previous_bytes payload none = ok 0
previous_bytes payload (some raw) =
    Error.◌>>=◌ (Value.payload_len raw) (λ n. ok (entry_bytes (length payload) n))

unfoldable pub freed : Bytes → Bytes → Option Bytes → Result (Option Accounting)
freed tenant payload none = ok none
freed tenant payload (some raw) =
    Error.◌>>=◌ (Value.payload_len raw)
      λ n. ok (some (record { tenant = tenant; delta = neg_i64 (entry_bytes (length payload) n) }))

module _ (F : Fjall) (B : Broadcast) (G : Governor) where
  pub record NodeService : Type 0 where
    pub wal_rotate_bytes : ℕ
    pub storage : StorageBackend F
    pub wal : Segment.Wal
    pub ttl_index : TtlIndex
    pub watch : WatchHub B
    pub quotas : QuotaStore
    pub throttle : Throttle G

module _ {F : Fjall} {B : Broadcast} {G : Governor} where
  admitted :
      NodeService F B G → Result (Unit {0}) × Throttle G → Result (Unit {0}) × NodeService F B G
  admitted svc (r, throttle) = (r, record svc { throttle = throttle })

  unfoldable pub admit : ℕ → Bytes → ℕ → Exec (NodeService F B G) (Unit {0})
  unfolding admitted
  admit now tenant cost svc =
      let ops_per_sec = (Quota.quota svc.quotas tenant).max_ops_per_sec in
      admitted svc (Throttle.check svc.throttle now tenant ops_per_sec cost)

  publish_data :
      NodeService F B G → ChangeKind → Bytes → Result (Bytes × Subspace × Bytes) → NodeService F B G
  publish_data svc kind value (err e) = svc
  publish_data svc kind value (ok (tenant, data_space, payload)) =
      if Watch.is_watched svc.watch tenant
      then record svc {
        watch =
            Watch.publish svc.watch tenant (record { kind = kind; key = payload; value = value });
      }
      else svc
  publish_data svc kind value (ok (tenant, other, payload)) = svc

  unfoldable pub publish_change : Bytes → ChangeKind → Bytes → NodeService F B G → NodeService F B G
  unfolding publish_data
  publish_change key kind value svc = publish_data svc kind value (decode key)

  -- A failed flush or rotation is logged and dropped.
  rotate_flushed :
      Disk → NodeService F B G → Result (Unit {0}) × StorageBackend F → NodeService F B G
  rotate_flushed d svc (err e, st) = record svc { storage = st }
  rotate_flushed d svc (ok u, st) =
      let (r, wal) = Segment.rotate d.rotate_flush d.rotate_header svc.wal in
      record svc { storage = st; wal = wal }

  unfoldable pub rotate_wal_if_needed : Disk → NodeService F B G → NodeService F B G
  unfolding rotate_flushed
  rotate_wal_if_needed d svc =
      if not (Storage.is_durable svc.storage)
      then svc
      else if ltb svc.wal.segment_bytes svc.wal_rotate_bytes
      then svc
      else rotate_flushed d svc (Storage.flush svc.storage)

  plan_data :
      NodeService F B G → Bytes → ℕ → Result (Bytes × Subspace × Bytes) → Result (Option Accounting)
  plan_data svc key new_value_len (err e) = ok none
  plan_data svc key new_value_len (ok (tenant, data_space, payload)) =
      Error.◌>>=◌ (Storage.get svc.storage key) λ found.
        Error.◌>>=◌ (previous_bytes payload found) λ previous. ok (
          some (record {
            tenant = tenant;
            delta = sub_i64 (entry_bytes (length payload) new_value_len) previous;
          }))
  plan_data svc key new_value_len (ok (tenant, other, payload)) = ok none

  unfoldable pub plan_accounting : Bytes → ℕ → NodeService F B G → Result (Option Accounting)
  unfolding plan_data
  plan_accounting key new_value_len svc = plan_data svc key new_value_len (decode key)

  plan_delete :
      NodeService F B G → Bytes → Result (Bytes × Subspace × Bytes) → Result (Option Accounting)
  plan_delete svc key (err e) = ok none
  plan_delete svc key (ok (tenant, data_space, payload)) =
      Error.◌>>=◌ (Storage.get svc.storage key) (freed tenant payload)
  plan_delete svc key (ok (tenant, other, payload)) = ok none

  unfoldable pub plan_delete_accounting : Bytes → NodeService F B G → Result (Option Accounting)
  unfolding plan_delete
  plan_delete_accounting key svc = plan_delete svc key (decode key)

  unfoldable pub commit_accounting : Option Accounting → NodeService F B G → NodeService F B G
  commit_accounting none svc = svc
  commit_accounting (some plan) svc =
      let (r, (storage, quotas)) = Quota.apply svc.storage svc.quotas plan.tenant plan.delta in
      record svc { storage = storage; quotas = quotas }

  abbrev pub check_quota : Option Accounting → NodeService F B G → Result (Unit {0})
  check_quota none svc = ok tt
  check_quota (some plan) svc = Quota.check_write svc.quotas plan.tenant plan.delta

  logged : NodeService F B G → Result ℕ × Segment.Wal → Result (Unit {0}) × NodeService F B G
  logged svc (ok seq, wal) = (ok tt, record svc { wal = wal })
  logged svc (err e, wal) = (err e, record svc { wal = wal })

  stored :
      NodeService F B G
      → Result (Unit {0}) × StorageBackend F
      → Result (Unit {0}) × NodeService F B G
  stored svc (r, storage) = (r, record svc { storage = storage })

  unfoldable pub store : Bytes → Bytes → Exec (NodeService F B G) (Unit {0})
  unfolding stored
  store key value svc = stored svc (Storage.put svc.storage key value)

  unfoldable pub unstore : Bytes → Exec (NodeService F B G) (Unit {0})
  unfolding stored
  unstore key svc = stored svc (Storage.delete svc.storage key)

  abbrev pub schedule_expiry : Bytes → Option ℕ → NodeService F B G → NodeService F B G
  schedule_expiry key none svc = svc
  schedule_expiry key (some exp) svc = record svc { ttl_index = Ttl.schedule key exp svc.ttl_index }

-- `clock.now_ms().saturating_add(ttl_ms)`, 0 meaning no expiry.
abbrev pub expiry : ℕ → ℕ → Option ℕ
expiry now ttl_ms = if ltb 0 ttl_ms then some (saturating_add now ttl_ms) else none

module _ {F : Fjall} {B : Broadcast} {G : Governor} (crc32 : Bytes → ℕ) (d : Disk) where
  unfoldable pub log : WalOp → Bytes → Bytes → Exec (NodeService F B G) (Unit {0})
  unfolding logged
  log op key value svc =
      logged svc (Segment.append crc32 d.append_write d.append_flush op key value svc.wal)

  unfoldable pub put_with_ttl : ℕ → Bytes → Bytes → ℕ → Exec (NodeService F B G) (Unit {0})
  unfolding log store
  put_with_ttl now key value ttl_ms = do
    accounting ← ask (plan_accounting key (length value))
    ask (check_quota accounting)
    log Wal.put key (Value.encode value (expiry now ttl_ms))
    store key (Value.encode value (expiry now ttl_ms))
    modify (schedule_expiry key (expiry now ttl_ms))
    modify (commit_accounting accounting)
    modify (publish_change key Watch.put value)
    modify (rotate_wal_if_needed d)

  unfoldable pub delete : Bytes → Exec (NodeService F B G) (Unit {0})
  unfolding log unstore
  delete key = do
    accounting ← ask (plan_delete_accounting key)
    log Wal.delete key []
    unstore key
    modify (commit_accounting accounting)
    modify (publish_change key Watch.delete [])
    modify (rotate_wal_if_needed d)
