-- ===== src/Node/Service/Boot.antt =====
-- service.rs: `replay`, `bootstrap_from_storage` and `open_with_clock`. The storage and the log's
-- file are opened by the caller, which stands for `create_dir_all` and the engine's `open`.
use ferriskv.Prelude.{
  ℕ, ◌+◌, ◌%◌, ◌^◌, not, Option, none, some, List, [], ◌∷◌, if◌then◌else◌, length,
}
use ferriskv.Prelude.Bytes.{Bytes}
use ferriskv.Prelude.Assoc.{Map, lookup, insert}
use ferriskv.Core.Error.{Result, ok, err, ◌>>=◌}
use ferriskv.Core.Key.{Subspace, data_space, decode}
use ferriskv.Core.Value
use ferriskv.Core.Value.{StoredValue}
use ferriskv.Core.Storage
use ferriskv.Core.Storage.{StorageBackend}
use ferriskv.Core.Storage.FjallStorage.{Fjall}
use ferriskv.Node.Config.{NodeConfig}
use ferriskv.Node.Wal.{WalRecord}
use ferriskv.Node.Wal as Wal
use ferriskv.Node.Wal.Segment as Segment
use ferriskv.Node.Ttl
use ferriskv.Node.Ttl.{TtlIndex}
use ferriskv.Node.Quota
use ferriskv.Node.Quota.{Quota, QuotaStore, Json, entry_bytes, unwrap_or}
use ferriskv.Node.Watch
use ferriskv.Node.Watch.{Broadcast}
use ferriskv.Node.Throttle
use ferriskv.Node.Throttle.{Governor}
use ferriskv.Node.Service.Steps as Steps
use ferriskv.Node.Service.Steps.{Exec, ask}
use ferriskv.Node.Service.{NodeService, Disk}

module _ {F : Fjall} where
  unfoldable pub replay_one : WalRecord → Exec (StorageBackend F) (Unit {0})
  replay_one r st = elim r.op [
    | Wal.put ↦ Storage.put st r.key r.value
    | Wal.delete ↦ Storage.delete st r.key
  ]

  unfoldable pub replay_loop : List WalRecord → Exec (StorageBackend F) (Unit {0})
  replay_loop [] = ask (λ st. ok tt)
  replay_loop (r ∷ records) = Steps.◌>>◌ (replay_one r) (replay_loop records)

  unfoldable pub replay : List WalRecord → Exec (StorageBackend F) ℕ
  replay records = Steps.◌>>=◌ (replay_loop records) (λ u. ask (λ st. ok (length records)))

pub record Bootstrap : Type 0 where
  pub ttl_entries : ℕ
  pub tenants : ℕ

-- What the loop of `bootstrap_from_storage` changes.
pub record Rebuilt : Type 0 where
  pub index : TtlIndex
  pub ttl_entries : ℕ
  pub usage : Map ℕ

unfoldable pub index_entry : Bytes → Option ℕ → Rebuilt → Rebuilt
index_entry key none b = b
index_entry key (some exp) b = record b {
  index = Ttl.schedule key exp b.index;
  ttl_entries = b.ttl_entries + 1;
}

unfoldable pub count_entry : Result (Bytes × Subspace × Bytes) → ℕ → Map ℕ → Map ℕ
count_entry (err e) n usage = usage
count_entry (ok (tenant, data_space, payload)) n usage =
    insert tenant ((unwrap_or (lookup tenant usage) 0 + entry_bytes (length payload) n) % 2 ^ 64)
      usage
count_entry (ok (tenant, other, payload)) n usage = usage

unfoldable pub rebuild_stored : Bytes → Result StoredValue → Rebuilt → Rebuilt
unfolding index_entry count_entry
rebuild_stored key (err e) b = b
rebuild_stored key (ok stored) b =
    let b' = index_entry key stored.expires_at_ms b in
    record b' { usage = count_entry (decode key) (length stored.value) b'.usage }

unfoldable pub rebuild_loop : Map Bytes → Rebuilt → Rebuilt
unfolding rebuild_stored
rebuild_loop [] b = b
rebuild_loop ((key, raw) ∷ items) b = rebuild_loop items (rebuild_stored key (Value.decode raw) b)

unfoldable pub rebuilt : Map Bytes → TtlIndex → Rebuilt
unfolding rebuild_loop
rebuilt items index = rebuild_loop items (record { index = index; ttl_entries = 0; usage = [] })

module _ {F : Fjall} where
  unfoldable pub bootstrap_from_storage :
      StorageBackend F → TtlIndex → QuotaStore → Result Bootstrap × (TtlIndex × QuotaStore)
  unfolding rebuilt
  bootstrap_from_storage st index quotas = elim (Storage.scan st []) [
    | err e ↦ (err e, (index, quotas))
    | ok items ↦
        let b = rebuilt items index in
        (
          ok (record { ttl_entries = b.ttl_entries; tenants = length b.usage }),
          (b.index, Quota.reset_usage quotas b.usage),
        )
  ]

abbrev pub default_quota : NodeConfig → Quota
default_quota config = record {
  max_bytes = config.quota.default_max_bytes;
  max_ops_per_sec = config.quota.default_max_ops_per_sec;
}

-- What a call leaves, where its failure ends the start.
abbrev pub kept {ℓ κ} : {A : Type ℓ} {S : Type κ} → Result A × S → Result S
kept (ok a, s) = ok s
kept (err e, s) = err e

module _ {F : Fjall} (d : Disk) where
  -- A durable storage is flushed and the segment dropped; a failure of either is fatal.
  unfoldable pub drop_segment :
      StorageBackend F → Segment.Wal → Result (StorageBackend F × Segment.Wal)
  drop_segment st wal = if not (Storage.is_durable st) then ok (st, wal) else (do
    st' ← kept (Storage.flush st)
    wal' ← kept (Segment.rotate d.rotate_flush d.rotate_header wal)
    ok (st', wal'))

module _ {F : Fjall} {B : Broadcast} {G : Governor} (crc32 : Bytes → ℕ) (json : Json)
    (d : Disk) where
  unfoldable pub open_with_clock :
      NodeConfig → StorageBackend F → Option Bytes → Result (NodeService F B G)
  unfolding drop_segment
  open_with_clock config st file = do
    (wal, recovery) ← Segment.open_file crc32 file
    st1 ← kept (replay recovery.records st)
    (st2, wal2) ← drop_segment d st1 wal
    quotas ← kept (Quota.load_quotas json st2 (Quota.new (default_quota config)))
    (index, quotas2) ← kept (bootstrap_from_storage st2 Ttl.empty quotas)
    ok (record {
      wal_rotate_bytes = config.wal_rotate_bytes;
      storage = st2;
      wal = wal2;
      ttl_index = index;
      watch = Watch.new config.watch_buffer;
      quotas = quotas2;
      throttle = Throttle.new config.quota.default_max_ops_per_sec;
    })
