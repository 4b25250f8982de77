-- ===== src/Node/Quota.antt =====
-- crates/ferriskv-node/src/quota.rs: `QuotaStore`. JSON (`serde_json`) is a parameter, metrics are
-- left out, and an atomic counter is its value: each call runs alone.
pub mod Applied
pub mod Enforced
pub mod Stored
pub mod Reloaded
use ferriskv.Prelude.{
  ℕ, suc, ◌+◌, ◌-◌, ◌%◌, ◌^◌, Bool, true, false, not, ◌&&◌, ◌||◌, Option, none, some, String, List,
  [], ◌∷◌, ltb, leb, ◌==◌, if◌then◌else◌,
}
use ferriskv.Prelude.Bytes.{Bytes, bytes_eq}
use ferriskv.Prelude.Words.{to_be_bytes, saturating_add}
use ferriskv.Prelude.Int.{ℤ, pos, negsuc, is_zero, is_positive}
use ferriskv.Prelude.Assoc.{Map, lookup, insert, remove}
use ferriskv.Core.Error.{Result, ok, err, config, encoding_quota, quota_exceeded, ◌>>=◌}
use ferriskv.Core.Key.{Subspace, metadata, data_space, index, stats, encode, decode}
use ferriskv.Core.Value
use ferriskv.Core.Value.{StoredValue}
use ferriskv.Core.Storage
use ferriskv.Core.Storage.{StorageBackend}
use ferriskv.Core.Storage.FjallStorage.{Fjall, Fallible, value, fault}

-- "quota" and "usage"
abbrev pub quota_key : Bytes
quota_key = b'q' ∷ b'u' ∷ b'o' ∷ b't' ∷ b'a' ∷ []

abbrev pub usage_key : Bytes
usage_key = b'u' ∷ b's' ∷ b'a' ∷ b'g' ∷ b'e' ∷ []

pub record Quota : Type 0 where
  pub max_bytes : ℕ
  pub max_ops_per_sec : ℕ

abbrev pub unlimited : Quota
unlimited = record { max_bytes = 0; max_ops_per_sec = 0 }

pub is_unlimited : Quota → Bool
is_unlimited q = (q.max_bytes == 0) && (q.max_ops_per_sec == 0)

pub record TenantUsage : Type 0 where
  pub used_bytes : ℕ
  pub max_bytes : ℕ
  pub max_ops_per_sec : ℕ

-- `serde_json::to_vec` and `from_slice` at `Quota`.
pub record Json : Type 0 where
  pub to_vec : Quota → Fallible Bytes
  pub from_slice : Bytes → Option Quota

pub record QuotaStore : Type 0 where
  pub default_quota : Quota
  pub quotas : Map Quota
  pub usage : Map ℕ

abbrev pub new : Quota → QuotaStore
new default_quota = record { default_quota = default_quota; quotas = []; usage = [] }

abbrev pub unwrap_or {ℓ} : {A : Type ℓ} → Option A → A → A
unwrap_or none d = d
unwrap_or (some a) d = a

unfoldable pub quota : QuotaStore → Bytes → Quota
quota s tenant = unwrap_or (lookup tenant s.quotas) s.default_quota

unfoldable pub used_bytes : QuotaStore → Bytes → ℕ
used_bytes s tenant = unwrap_or (lookup tenant s.usage) 0

unfoldable pub usage_of : QuotaStore → Bytes → TenantUsage
unfolding quota used_bytes
usage_of s tenant = record {
  used_bytes = used_bytes s tenant;
  max_bytes = (quota s tenant).max_bytes;
  max_ops_per_sec = (quota s tenant).max_ops_per_sec;
}

-- `delta as u64`, for a delta that is not negative.
abbrev pub as_u64 : ℤ → ℕ
as_u64 (pos n) = n
as_u64 (negsuc n) = 2 ^ 64 - (n + 1)

unfoldable pub check_write : QuotaStore → Bytes → ℤ → Result (Unit {0})
unfolding quota used_bytes
check_write s tenant delta =
    let limit = (quota s tenant).max_bytes in
    let after = saturating_add (used_bytes s tenant) (as_u64 delta) in
    if (limit == 0) || not (is_positive delta)
    then ok tt
    else if ltb limit after
    then err (quota_exceeded tenant after limit)
    else ok tt

-- `fetch_add` wraps; the subtraction saturates at 0.
unfoldable pub apply_delta : ℕ → ℤ → ℕ
apply_delta counter (pos n) = (counter + n) % 2 ^ 64
apply_delta counter (negsuc n) = counter - (n + 1)

-- The new total, and the store with it.
unfoldable pub adjust : QuotaStore → Bytes → ℤ → ℕ × QuotaStore
unfolding used_bytes apply_delta
adjust s tenant delta =
    let total = apply_delta (used_bytes s tenant) delta in
    (total, record s { usage = insert tenant total s.usage })

abbrev pub add_total : QuotaStore → Bytes × ℕ → QuotaStore
add_total s (tenant, total) = record s { usage = insert tenant total s.usage }

reset_loop : QuotaStore → Map ℕ → QuotaStore
reset_loop s [] = s
reset_loop s (t ∷ totals) = reset_loop (add_total s t) totals

unfoldable pub reset_usage : QuotaStore → Map ℕ → QuotaStore
unfolding reset_loop
reset_usage s totals = reset_loop (record s { usage = [] }) totals

unfoldable pub entry_bytes : ℕ → ℕ → ℕ
entry_bytes key_len value_len = (key_len + value_len) % 2 ^ 64

module _ {F : Fjall} where
  store_usage :
      StorageBackend F
      → QuotaStore
      → ℕ
      → Result Bytes
      → Result (Unit {0}) × (StorageBackend F × QuotaStore)
  store_usage st s total (err e) = (err e, (st, s))
  store_usage st s total (ok key) =
      let (r, st') = Storage.put st key (Value.encode (to_be_bytes 8 total) none) in (r, (st', s))

  unfoldable pub apply :
      StorageBackend F
      → QuotaStore
      → Bytes
      → ℤ
      → Result (Unit {0}) × (StorageBackend F × QuotaStore)
  unfolding adjust store_usage
  apply st s tenant delta =
      let (total, s') = adjust s tenant delta in
      let stored = store_usage st s' total (encode tenant stats usage_key) in
      if is_zero delta then (ok tt, (st, s)) else stored

encoded_quota : Bytes → Fallible Bytes → Result Bytes
encoded_quota tenant (value body) = ok body
encoded_quota tenant (fault e) = err (config (encoding_quota tenant e))

-- The next round, unless the last one failed.
next_entry :
    (QuotaStore → ℕ → Result ℕ × QuotaStore) → Result ℕ × QuotaStore → Result ℕ × QuotaStore
next_entry rest (err e, s) = (err e, s)
next_entry rest (ok n, s) = rest s n

module _ (json : Json) where
  -- The loop of `load_quotas`, over what `scan` listed: the quotas loaded so far and the store.
  parse_quota : QuotaStore → ℕ → Bytes → Option Quota → Result ℕ × QuotaStore
  parse_quota s loaded tenant none = (ok loaded, s)
  parse_quota s loaded tenant (some q) =
      (ok (loaded + 1), record s { quotas = insert tenant q s.quotas })

  load_quota : QuotaStore → ℕ → Bytes → Result StoredValue → Result ℕ × QuotaStore
  load_quota s loaded tenant (err e) = (err e, s)
  load_quota s loaded tenant (ok stored) =
      parse_quota s loaded tenant (json.from_slice stored.value)

  load_decoded : QuotaStore → ℕ → Bytes → Result (Bytes × Subspace × Bytes) → Result ℕ × QuotaStore
  load_decoded s loaded raw (err e) = (ok loaded, s)
  load_decoded s loaded raw (ok (tenant, metadata, payload)) =
      if bytes_eq payload quota_key
      then load_quota s loaded tenant (Value.decode raw)
      else (ok loaded, s)
  load_decoded s loaded raw (ok (tenant, other, payload)) = (ok loaded, s)

  load_entry : QuotaStore → ℕ → Bytes × Bytes → Result ℕ × QuotaStore
  load_entry s loaded (key, raw) = load_decoded s loaded raw (decode key)

  load_loop : QuotaStore → ℕ → List (Bytes × Bytes) → Result ℕ × QuotaStore
  load_loop s loaded [] = (ok loaded, s)
  load_loop s loaded (entry ∷ rest) =
      next_entry (λ s' n. load_loop s' n rest) (load_entry s loaded entry)

  load_listed : QuotaStore → Result (List (Bytes × Bytes)) → Result ℕ × QuotaStore
  load_listed s (err e) = (err e, s)
  load_listed s (ok items) = load_loop s 0 items

module _ {F : Fjall} where
  -- The cache is changed once the storage has the record.
  cache_quota :
      QuotaStore
      → Bytes
      → Quota
      → Result (Unit {0}) × StorageBackend F
      → Result (Unit {0}) × (StorageBackend F × QuotaStore)
  cache_quota s tenant q (err e, st) = (err e, (st, s))
  cache_quota s tenant q (ok u, st) = (ok tt, (st, record s { quotas = insert tenant q s.quotas }))

  set_quota_at :
      StorageBackend F
      → QuotaStore
      → Bytes
      → Quota
      → Result (Bytes × Bytes)
      → Result (Unit {0}) × (StorageBackend F × QuotaStore)
  set_quota_at st s tenant q (err e) = (err e, (st, s))
  set_quota_at st s tenant q (ok (key, body)) =
      cache_quota s tenant q (Storage.put st key (Value.encode body none))

module _ {F : Fjall} (json : Json) where
  unfoldable pub set_quota :
      StorageBackend F
      → QuotaStore
      → Bytes
      → Quota
      → Result (Unit {0}) × (StorageBackend F × QuotaStore)
  unfolding encoded_quota cache_quota set_quota_at
  set_quota st s tenant q = set_quota_at st s tenant q (do
    key ← encode tenant metadata quota_key
    body ← encoded_quota tenant (json.to_vec q)
    ok (key, body))

  unfoldable pub load_quotas : StorageBackend F → QuotaStore → Result ℕ × QuotaStore
  unfolding parse_quota load_quota load_decoded load_entry next_entry load_loop load_listed
  load_quotas st s = load_listed json (record s { quotas = [] }) (Storage.scan st [])

module _ {F : Fjall} where
  uncache_quota :
      QuotaStore
      → Bytes
      → Result (Unit {0}) × StorageBackend F
      → Result (Unit {0}) × (StorageBackend F × QuotaStore)
  uncache_quota s tenant (err e, st) = (err e, (st, s))
  uncache_quota s tenant (ok u, st) = (ok tt, (st, record s { quotas = remove tenant s.quotas }))

  clear_quota_at :
      StorageBackend F
      → QuotaStore
      → Bytes
      → Result Bytes
      → Result (Unit {0}) × (StorageBackend F × QuotaStore)
  clear_quota_at st s tenant (err e) = (err e, (st, s))
  clear_quota_at st s tenant (ok key) = uncache_quota s tenant (Storage.delete st key)

  unfoldable pub clear_quota :
      StorageBackend F → QuotaStore → Bytes → Result (Unit {0}) × (StorageBackend F × QuotaStore)
  unfolding uncache_quota clear_quota_at
  clear_quota st s tenant = clear_quota_at st s tenant (encode tenant metadata quota_key)
