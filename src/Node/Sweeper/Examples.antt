-- ===== src/Node/Sweeper/Examples.antt =====
-- ttl.rs: a sweep of a node in memory whose index holds an expired key and one that was put again.
use ferriskv.Prelude.{◌≤◌, ◌↔◌, ◌⊎◌, ◌+◌, ℕ, ◌≡◌, refl, some, false, [], ◌∷◌, slice}
use ferriskv.Prelude.Bytes.{Bytes, bytes_eq}
use ferriskv.Prelude.Assoc.{lookup, Distinct}
use ferriskv.Core.Error.{ok}
use ferriskv.Core.Key.{data_space, decode}
use ferriskv.Core.Utf8.{is_utf8}
use ferriskv.Core.Value
use ferriskv.Core.Storage.{StorageBackend, memory}
use ferriskv.Core.Storage.Laws.{entries}
use ferriskv.Core.Storage.Laws.Engine.{engine, engine-FjallLaws, contents}
use ferriskv.Node.Wal.Writer.{done}
use ferriskv.Node.Quota
use ferriskv.Node.Ttl.{TtlIndex, next_due_ms}
use ferriskv.Node.Watch
use ferriskv.Node.Watch.Channel.{broadcast}
use ferriskv.Node.Throttle
use ferriskv.Node.Throttle.Window.{governor}
use ferriskv.Node.Service.{NodeService, Disk}
use ferriskv.Node.Sweeper.{sweep_once}
use ferriskv.Node.Sweeper.Wakeup.{compute_wakeup, compute_wakeup_iff_due}
use ferriskv.Node.Sweeper.Running.{Wake, slept, notified, run_sweeper, run_sweeper_keeps_live}
use ferriskv.Node.Sweeper.Live.{sweep_once_keeps_live}

abbrev no_crc : Bytes → ℕ
no_crc b = 0

abbrev disk : ℕ → Disk
disk n = record {
  append_write = done;
  append_flush = done;
  rotate_flush = done;
  rotate_header = done;
}

abbrev kept : Bytes
kept = 1 ∷ b'a' ∷ 1 ∷ b'k' ∷ []

abbrev expired : Bytes
expired = 1 ∷ b'a' ∷ 1 ∷ b'l' ∷ []

abbrev storage : StorageBackend engine
storage =
    memory ((kept, 0 ∷ b'v' ∷ []) ∷ (expired, 1 ∷ 0 ∷ 0 ∷ 0 ∷ 0 ∷ 0 ∷ 0 ∷ 0 ∷ 5 ∷ b'w' ∷ []) ∷ [])

abbrev index : TtlIndex
index = record { by_expiry = (5, kept ∷ expired ∷ []) ∷ []; total = 2; permit = false }

abbrev node : NodeService engine broadcast governor
node = record {
  wal_rotate_bytes = 4096;
  storage = storage;
  wal = record { writer = record { file = []; buffer = [] }; next_seq = 0; segment_bytes = 14 };
  ttl_index = index;
  watch = Watch.new 16;
  quotas = Quota.new Quota.unlimited;
  throttle = Throttle.new 0;
}

storage-Distinct : Distinct (entries contents storage)
unfolding lookup bytes_eq
storage-Distinct = (refl, (refl, tt))

decoded : decode kept ≡ ok (b'a' ∷ [], data_space, b'k' ∷ [])
unfolding decode is_utf8 slice
decoded = refl

live : Value.is_expired (0 ∷ b'v' ∷ []) 60 ≡ ok false
unfolding Value.is_expired
live = refl

found : lookup kept (entries contents storage) ≡ some (0 ∷ b'v' ∷ [])
unfolding lookup bytes_eq
found = refl

sweep_once_keeps_live_example :
    lookup kept (entries contents (sweep_once no_crc 60 disk node).1.storage) ≡ some (0 ∷ b'v' ∷ [])
sweep_once_keeps_live_example =
    sweep_once_keeps_live contents engine-FjallLaws no_crc 60 kept (b'a' ∷ []) (b'k' ∷ [])
      (0 ∷ b'v' ∷ []) decoded live disk node storage-Distinct found

-- The first expiry, at 5, is due 3 milliseconds after the clock read 2.
compute_wakeup_iff_due_example :
    (compute_wakeup 100 2 60 index ≤ 100 + 3) ↔ ((60 ≤ 3) ⊎ (5 ≤ 2 + 3))
unfolding next_due_ms
compute_wakeup_iff_due_example = compute_wakeup_iff_due 100 2 60 3 index

abbrev idle : Wake engine broadcast governor
idle = record { branch = slept; clock_now = 60; disk = disk; others = λ svc. svc }

abbrev woken_up : Wake engine broadcast governor
woken_up = record { branch = notified; clock_now = 90; disk = disk; others = λ svc. svc }

live_later : Value.is_expired (0 ∷ b'v' ∷ []) 90 ≡ ok false
unfolding Value.is_expired
live_later = refl

run_sweeper_keeps_live_example :
    lookup kept (entries contents (run_sweeper no_crc 60000 (idle ∷ woken_up ∷ []) node).storage)
    ≡ some (0 ∷ b'v' ∷ [])
run_sweeper_keeps_live_example =
    run_sweeper_keeps_live contents engine-FjallLaws no_crc kept (b'a' ∷ []) (b'k' ∷ [])
      (0 ∷ b'v' ∷ []) decoded 60000 (idle ∷ woken_up ∷ []) node storage-Distinct found
      ((live, (λ svc h. h)), ((live_later, (λ svc h. h)), tt))
