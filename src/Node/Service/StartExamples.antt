-- ===== src/Node/Service/StartExamples.antt =====
-- service.rs: a node in memory that starts with a log of two records, a put and a delete.
use ferriskv.Prelude.{
  ℕ, ◌^◌, ◌<◌, ◌≡◌, refl, none, List, [], ◌∷◌, arith, length, slice, inl, inr, Bool-cases,
}
use ferriskv.Prelude.Bytes.{Bytes, bytes_eq, starts_with}
use ferriskv.Prelude.Assoc.{lookup, Distinct, total, insert}
use ferriskv.Core.Error.{ok}
use ferriskv.Core.Key.{decode}
use ferriskv.Core.Utf8.{is_utf8}
use ferriskv.Core.Value
use ferriskv.Core.Storage
use ferriskv.Core.Storage.{StorageBackend, memory, fjall}
use ferriskv.Core.Storage.MemStorage.{sort, select, insert_sorted}
use ferriskv.Core.Storage.Laws.{entries}
use ferriskv.Core.Storage.Laws.Engine.{engine, engine-FjallLaws, contents}
use ferriskv.Node.Wal.{WalRecord, frame, encode_header}
use ferriskv.Node.Wal as Wal
use ferriskv.Node.Wal.Writer as Writer
use ferriskv.Node.Wal.Writer.{done}
use ferriskv.Core.Storage.FjallStorage.{value, collect}
use ferriskv.Node.Watch
use ferriskv.Node.Throttle
use ferriskv.Node.Wal.Segment as Segment
use ferriskv.Node.Ttl
use ferriskv.Node.Config.{NodeConfig}
use ferriskv.Node.Main.{default_config}
use ferriskv.Node.Quota
use ferriskv.Node.Quota.{Quota, used_bytes, entry_bytes, QuotaStore, Json}
use ferriskv.Node.Watch.Channel.{broadcast}
use ferriskv.Node.Throttle.Window.{governor}
use ferriskv.Node.Service.{NodeService, Disk}
use ferriskv.Node.Service.Boot.{
  replay, replay_one, replay_loop, bootstrap_from_storage, rebuild_loop, rebuild_stored,
  open_with_clock,
}
use ferriskv.Node.Service.Entries.{tenant_bytes}
use ferriskv.Node.Service.Usage.{Agrees, Exact}
use ferriskv.Node.Service.Rebuilt.{bootstrap_from_storage-Agrees}
use ferriskv.Node.Service.Replayed.{after, replay_lem}
use ferriskv.Node.Service.Covered.{IsCovered}
use ferriskv.Node.Service.Opened.{open_with_clock-Exact, open_with_clock-IsCovered}

-- The keys "k" and "l" of the tenant "a".
abbrev k : Bytes
k = 1 ∷ b'a' ∷ 1 ∷ b'k' ∷ []

abbrev l : Bytes
l = 1 ∷ b'a' ∷ 1 ∷ b'l' ∷ []

abbrev records : List WalRecord
records =
    record { seq = 0; op = Wal.put; key = k; value = 0 ∷ b'v' ∷ [] }
    ∷ record { seq = 1; op = Wal.delete; key = l; value = [] }
    ∷ []

abbrev before : StorageBackend engine
before = memory ((l, 0 ∷ b'w' ∷ []) ∷ [])

abbrev storage : StorageBackend engine
storage = memory ((k, 0 ∷ b'v' ∷ []) ∷ [])

before-Distinct : Distinct (entries contents before)
unfolding lookup
before-Distinct = (refl, tt)

distinct : Distinct (entries contents storage)
unfolding lookup
distinct = (refl, tt)

replayed : (replay records before).0 ≡ ok 2
unfolding replay replay_loop replay_one Storage.put Storage.delete
replayed = refl

replay_lem_example :
    (2 ≡ length records)
    × ((j : Bytes)
        → lookup j (entries contents (replay records before).1)
          ≡ after records j (lookup j (entries contents before)))
replay_lem_example = replay_lem contents engine-FjallLaws records before 2 before-Distinct replayed

room : (t : Bytes) → total (tenant_bytes t) (entries contents storage) < 2 ^ 64
unfolding tenant_bytes decode Value.payload_len entry_bytes is_utf8 slice total
room t = elim (Bool-cases (bytes_eq (b'a' ∷ []) t)) [
  | inl h ↦ rw h (omega arith)
  | inr h ↦ rw h (omega arith)
]

abbrev quotas : QuotaStore
quotas = Quota.new Quota.unlimited

bootstrapped :
    (bootstrap_from_storage storage Ttl.empty quotas).0
    ≡ ok (record { ttl_entries = 0; tenants = 1 })
unfolding bootstrap_from_storage Storage.scan sort select insert_sorted starts_with rebuild_loop
    rebuild_stored Value.decode decode is_utf8 slice insert
bootstrapped = refl

bootstrap_from_storage-Agrees_example :
    Agrees (entries contents storage) (bootstrap_from_storage storage Ttl.empty quotas).1.1
bootstrap_from_storage-Agrees_example =
    bootstrap_from_storage-Agrees contents engine-FjallLaws storage Ttl.empty quotas
      (record { ttl_entries = 0; tenants = 1 }) distinct room bootstrapped

abbrev no_crc : Bytes → ℕ
no_crc b = 0

abbrev disk : Disk
disk = record {
  append_write = done;
  append_flush = done;
  rotate_flush = done;
  rotate_header = done;
}

abbrev json : Json
json = record { to_vec = λ q. value []; from_slice = λ b. none }

abbrev config : NodeConfig
config = record default_config { watch_buffer = 16; wal_rotate_bytes = 4096 }

abbrev durable : StorageBackend engine
durable = fjall ((k, 0 ∷ b'v' ∷ []) ∷ [], distinct)

abbrev node : NodeService engine broadcast governor
node = record {
  wal_rotate_bytes = 4096;
  storage = durable;
  wal = record {
    writer = record { file = encode_header 0; buffer = [] };
    next_seq = 0;
    segment_bytes = 14;
  };
  ttl_index = Ttl.empty;
  watch = Watch.new 16;
  quotas = record quotas { usage = (b'a' ∷ [], 2) ∷ [] };
  throttle = Throttle.new 0;
}

opened : open_with_clock no_crc json disk config durable none ≡ ok node
unfolding open_with_clock Segment.open_file replay replay_loop Storage.is_durable Storage.flush
    Segment.rotate Writer.flush Quota.load_quotas Storage.scan sort select insert_sorted starts_with
    decode is_utf8 slice bootstrap_from_storage rebuild_loop rebuild_stored Value.decode insert
    entry_bytes Quota.reset_usage lookup collect
opened = refl

open_with_clock-Exact_example : Exact contents node
open_with_clock-Exact_example =
    open_with_clock-Exact contents engine-FjallLaws no_crc json disk config durable none node
      distinct opened room

open_with_clock-IsCovered_example : IsCovered contents engine-FjallLaws node
open_with_clock-IsCovered_example =
    open_with_clock-IsCovered contents engine-FjallLaws no_crc json disk config durable none node
      distinct opened
