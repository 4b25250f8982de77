-- ===== src/Node/Service/Rebuilt.antt =====
-- service.rs: the counters that `bootstrap_from_storage` sets are what the storage holds.
use ferriskv.Prelude.{
  ℕ, ◌+◌, ◌%◌, ◌^◌, ◌<◌, ◌≡◌, inl, inr, refl, ◌∙◌, ap, Option, none, some, [], ◌∷◌, arith, length,
  Bool-cases,
}
use ferriskv.Prelude.Bytes.{Bytes, bytes_eq, bytes_eq_iff, starts_with}
use ferriskv.Prelude.Assoc.{Map, lookup, Distinct, total, lookup-insert, insert-Distinct}
use ferriskv.Prelude.Totals.{total_ext}
use ferriskv.Core.Error.{Error, Result, ok, err, Result-cases, ◌>>=◌}
use ferriskv.Core.Key.{Subspace, data_space, decode}
use ferriskv.Core.Value
use ferriskv.Core.Value.{StoredValue}
use ferriskv.Core.Value.Agreement.{payload_len-eq-decode}
use ferriskv.Core.Storage
use ferriskv.Core.Storage.{StorageBackend}
use ferriskv.Core.Storage.FjallStorage.{Fjall}
use ferriskv.Core.Storage.MemStorage.Sorted.{Ascending-Distinct}
use ferriskv.Core.Storage.Laws.{FjallLaws, entries, backend-IsMap}
use ferriskv.Node.Ttl.{TtlIndex}
use ferriskv.Node.Quota
use ferriskv.Node.Quota.{QuotaStore, used_bytes, unwrap_or, reset_usage}
use ferriskv.Node.Quota.Applied.{used_bytes-reset_usage}
use ferriskv.Node.Service.Boot.{
  Rebuilt, Bootstrap, index_entry, count_entry, rebuild_stored, rebuild_loop, rebuilt,
  bootstrap_from_storage,
}
use ferriskv.Node.Service.Entries.{share, tenant_bytes}
use ferriskv.Node.Service.Usage.{Agrees}

-- The count for a tenant so far.
abbrev counter : Map ℕ → Bytes → ℕ
counter usage t = unwrap_or (lookup t usage) 0

-- One entry adds its share to the tenant's count.
counter-count_entry :
    (r : Result (Bytes × Subspace × Bytes)) (n : ℕ) (usage : Map ℕ) (t : Bytes)
    → counter usage t + share t r (ok n) < 2 ^ 64
    → counter (count_entry r n usage) t ≡ counter usage t + share t r (ok n)
unfolding count_entry
counter-count_entry (err e) n usage t h = omega arith
counter-count_entry (ok (u, data_space, p)) n usage t h = elim (Bool-cases (bytes_eq u t)) [
  | inl same ↦
      let room = rw same at h in
      rw
        (
          lookup-insert u t ((counter usage u + Quota.entry_bytes (length p) n) % 2 ^ 64) usage,
          same,
          (bytes_eq_iff u t).0 same,
        )
        (omega arith)
  | inr other ↦
      rw
        (
          lookup-insert u t ((counter usage u + Quota.entry_bytes (length p) n) % 2 ^ 64) usage,
          other,
        )
        (omega arith)
]
counter-count_entry (ok (u, other, p)) n usage t h = omega arith

count_entry-Distinct :
    (r : Result (Bytes × Subspace × Bytes)) (n : ℕ) (usage : Map ℕ)
    → Distinct usage
    → Distinct (count_entry r n usage)
unfolding count_entry
count_entry-Distinct (err e) n usage d = d
count_entry-Distinct (ok (u, data_space, p)) n usage d = insert-Distinct u _ usage d
count_entry-Distinct (ok (u, other, p)) n usage d = d

usage-index_entry :
    (key : Bytes) (o : Option ℕ) (b : Rebuilt) → (index_entry key o b).usage ≡ b.usage
unfolding index_entry
usage-index_entry key none b = refl
usage-index_entry key (some exp) b = refl

share_unreadable :
    (t : Bytes) (r : Result (Bytes × Subspace × Bytes)) (e : Error) → share t r (err e) ≡ 0
share_unreadable t (err x) e = refl
share_unreadable t (ok (u, data_space, p)) e = refl
share_unreadable t (ok (u, other, p)) e = refl

share_decoded :
    (t key raw : Bytes)
    → tenant_bytes t key raw ≡ share t (decode key) (Value.decode raw >>= λ v. ok (length v.value))
unfolding tenant_bytes
share_decoded t key raw = ap (share t (decode key)) (payload_len-eq-decode raw)

counter-rebuild_stored :
    (key : Bytes) (r : Result StoredValue) (b : Rebuilt) (t : Bytes)
    → counter b.usage t + share t (decode key) (r >>= λ v. ok (length v.value)) < 2 ^ 64
    → counter (rebuild_stored key r b).usage t
      ≡ counter b.usage t + share t (decode key) (r >>= λ v. ok (length v.value))
unfolding rebuild_stored
counter-rebuild_stored key (err e) b t h = omega (arith, share_unreadable t (decode key) e)
counter-rebuild_stored key (ok v) b t h =
    let usage = usage-index_entry key v.expires_at_ms b in
    let counted = counter-count_entry (decode key) (length v.value) b.usage t h in rw usage counted

rebuild_stored-Distinct :
    (key : Bytes) (r : Result StoredValue) (b : Rebuilt)
    → Distinct b.usage
    → Distinct (rebuild_stored key r b).usage
unfolding rebuild_stored
rebuild_stored-Distinct key (err e) b d = d
rebuild_stored-Distinct key (ok v) b d =
    count_entry-Distinct (decode key) (length v.value) _
      (rw (usage-index_entry key v.expires_at_ms b) d)

-- The loop adds what the listed entries count for.
counter-rebuild_loop :
    (items : Map Bytes) (b : Rebuilt) (t : Bytes)
    → counter b.usage t + total (tenant_bytes t) items < 2 ^ 64
    → counter (rebuild_loop items b).usage t ≡ counter b.usage t + total (tenant_bytes t) items
unfolding rebuild_loop total
counter-rebuild_loop [] b t h = omega arith
counter-rebuild_loop ((key, raw) ∷ items) b t h =
    let added = counter-rebuild_stored key (Value.decode raw) b t in
    let one = share_decoded t key raw in
    let first = added (omega (arith, h, one)) in
    omega (
      arith,
      first,
      one,
      counter-rebuild_loop items (rebuild_stored key (Value.decode raw) b) t
          (omega (arith, h, first, one)),
    )

rebuild_loop-Distinct :
    (items : Map Bytes) (b : Rebuilt) → Distinct b.usage → Distinct (rebuild_loop items b).usage
unfolding rebuild_loop
rebuild_loop-Distinct [] b d = d
rebuild_loop-Distinct ((key, raw) ∷ items) b d =
    rebuild_loop-Distinct items _ (rebuild_stored-Distinct key (Value.decode raw) b d)

module _ {F : Fjall} (view : F.Keyspace → Map Bytes) (laws : FjallLaws F view)
    (st : StorageBackend F) where
  total-scan :
      (t : Bytes) (items : Map Bytes)
      → Distinct (entries view st)
      → Storage.scan st [] ≡ ok items
      → total (tenant_bytes t) items ≡ total (tenant_bytes t) (entries view st)
  total-scan t items d h =
      let lists = (backend-IsMap view laws st d).scan_ok [] items h in
      total_ext (tenant_bytes t) items (entries view st) (Ascending-Distinct items lists.ascending)
        d (λ k. lists.entries k ∙ unfold starts_with in refl)

  not_both : (r : Result Bootstrap) (e : Error) (b : Bootstrap) → r ≡ err e → r ≡ ok b → ⊥
  not_both r e b h k = cc

  recounted :
      (idx : TtlIndex) (quotas : QuotaStore) (t : Bytes) (items : Map Bytes)
      → total (tenant_bytes t) items ≡ total (tenant_bytes t) (entries view st)
      → total (tenant_bytes t) (entries view st) < 2 ^ 64
      → used_bytes (reset_usage quotas (rebuilt items idx).usage) t
        ≡ total (tenant_bytes t) (entries view st)
  unfolding rebuilt lookup
  recounted idx quotas t items same room =
      let start : Rebuilt = record { index = idx; ttl_entries = 0; usage = [] } in
      omega (
        arith,
        used_bytes-reset_usage quotas (rebuild_loop items start).usage t
            (rebuild_loop-Distinct items start tt),
        counter-rebuild_loop items start t (omega (arith, same)),
        same,
      )

  failed :
      (idx : TtlIndex) (quotas : QuotaStore) (e : Error)
      → Storage.scan st [] ≡ err e
      → (bootstrap_from_storage st idx quotas).0 ≡ err e
  unfolding bootstrap_from_storage
  failed idx quotas e h = rw (bootstrap_from_storage, h) refl

  -- A bootstrap that succeeds leaves for each tenant the counter that its stored entries count for,
  -- whatever the counters were, if no tenant's entries exceed the range of u64.
  pub bootstrap_from_storage-Agrees :
      (idx : TtlIndex) (quotas : QuotaStore) (b : Bootstrap)
      → Distinct (entries view st)
      → ((t : Bytes) → total (tenant_bytes t) (entries view st) < 2 ^ 64)
      → (bootstrap_from_storage st idx quotas).0 ≡ ok b
      → Agrees (entries view st) (bootstrap_from_storage st idx quotas).1.1
  unfolding bootstrap_from_storage rebuilt
  bootstrap_from_storage-Agrees idx quotas b d room h = elim (Result-cases (Storage.scan st [])) [
    | inr (e, s) ↦ absurd (not_both _ e b (failed idx quotas e s) h)
    | inl (items, s) ↦ (
      d,
      λ t.
          rw (bootstrap_from_storage, s)
            (recounted idx quotas t items (total-scan t items d s) (room t)),
    )
  ]
