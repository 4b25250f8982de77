-- ===== src/Node/Service/Fixture.antt =====
-- A node in memory that holds one entry of a tenant with a quota of six bytes, for tests.
use ferriskv.Prelude.{
  ℕ, ◌+◌, ◌^◌, ◌<◌, ◌≡◌, refl, [], ◌∷◌, if◌then◌else◌, arith, slice, inl, inr, Bool-cases,
}
use ferriskv.Prelude.Bytes.{Bytes, bytes_eq}
use ferriskv.Prelude.Assoc.{lookup, Distinct, total}
use ferriskv.Core.Key.{decode}
use ferriskv.Core.Utf8.{is_utf8}
use ferriskv.Core.Value
use ferriskv.Core.Storage.{StorageBackend, memory}
use ferriskv.Core.Storage.Laws.{entries}
use ferriskv.Core.Storage.Laws.Engine.{engine, contents}
use ferriskv.Node.Wal.Writer.{done}
use ferriskv.Node.Ttl
use ferriskv.Node.Quota.{used_bytes, entry_bytes, QuotaStore}
use ferriskv.Node.Watch
use ferriskv.Node.Watch.Channel.{broadcast}
use ferriskv.Node.Throttle
use ferriskv.Node.Throttle.Window.{governor}
use ferriskv.Node.Service.{NodeService, Disk}
use ferriskv.Node.Service.Entries.{tenant_bytes}
use ferriskv.Node.Service.Usage.{Exact}

abbrev pub no_crc : Bytes → ℕ
no_crc b = 0

abbrev pub disk : Disk
disk = record {
  append_write = done;
  append_flush = done;
  rotate_flush = done;
  rotate_header = done;
}

abbrev pub tenant : Bytes
tenant = b'a' ∷ []

-- The key "k" of the tenant, and the value "v" without expiry.
abbrev pub key : Bytes
key = 1 ∷ b'a' ∷ 1 ∷ b'k' ∷ []

abbrev pub stored_value : Bytes
stored_value = 0 ∷ b'v' ∷ []

abbrev pub storage : StorageBackend engine
storage = memory ((key, stored_value) ∷ [])

abbrev pub quotas : QuotaStore
quotas = record {
  default_quota = record { max_bytes = 6; max_ops_per_sec = 0 };
  quotas = [];
  usage = (tenant, 2) ∷ [];
}

abbrev pub node : NodeService engine broadcast governor
node = record {
  wal_rotate_bytes = 4096;
  storage = storage;
  wal = record { writer = record { file = []; buffer = [] }; next_seq = 0; segment_bytes = 14 };
  ttl_index = Ttl.empty;
  watch = Watch.new 16;
  quotas = quotas;
  throttle = Throttle.new 0;
}

counter : (t : Bytes) → used_bytes quotas t ≡ (if bytes_eq tenant t then 2 else 0)
unfolding used_bytes lookup
counter t = elim (Bool-cases (bytes_eq tenant t)) [ inl h ↦ rw h refl | inr h ↦ rw h refl ]

counted : (t : Bytes) → tenant_bytes t key stored_value ≡ (if bytes_eq tenant t then 2 else 0)
unfolding tenant_bytes decode Value.payload_len entry_bytes is_utf8 slice
counted t = elim (Bool-cases (bytes_eq tenant t)) [ inl h ↦ rw h refl | inr h ↦ rw h refl ]

pub node-Exact : Exact contents node
unfolding Exact lookup total
node-Exact = ((refl, tt), λ t. omega (arith, counter t, counted t))

pub small : (t : Bytes) (n : ℕ) → n < 100 → used_bytes quotas t + n < 2 ^ 63
small t n h = elim (Bool-cases (bytes_eq tenant t)) [
  | inl k ↦ omega (arith, rw k at (counter t))
  | inr k ↦ omega (arith, rw k at (counter t))
]

pub distinct : Distinct (entries contents storage)
unfolding lookup
distinct = (refl, tt)
