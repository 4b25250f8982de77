-- ===== src/Node/Quota/Reloaded.antt =====
-- quota.rs: a quota that was set outlives a restart, `set_quota` and then `load_quotas`.
use ferriskv.Prelude.{
  ℕ, ◌+◌, ◌≡◌, refl, sym, ◌∙◌, ap, inl, inr, true, false, Option, none, some, List, [], ◌∷◌,
  Bool-cases, arith,
}
use ferriskv.Prelude.Bytes.{Bytes, bytes_eq, bytes_eq_iff, starts_with, bytes_eq_refl}
use ferriskv.Prelude.Assoc.{Map, lookup, insert, Distinct, lookup-insert_here, lookup-insert_other}
use ferriskv.Core.Utf8.{is_utf8}
use ferriskv.Core.Error.{Result, ok, err, err_not_ok}
use ferriskv.Core.Key.{Subspace, metadata, encode, decode}
use ferriskv.Core.Key.RoundTrip.{encode_lem, decode_lem, decode-key_bytes}
use ferriskv.Core.Value as Value
use ferriskv.Core.Value.{StoredValue}
use ferriskv.Core.Value.RoundTrip.{decode-encode}
use ferriskv.Core.Storage as Storage
use ferriskv.Core.Storage.{StorageBackend}
use ferriskv.Core.Storage.FjallStorage.{Fjall, value}
use ferriskv.Core.Storage.MemStorage.Sorted.{Ascending-Distinct}
use ferriskv.Core.Storage.Laws.{FjallLaws, entries, backend-IsMap}
use ferriskv.Node.Quota.Stored.{set_quota-IsStored}
use ferriskv.Node.Quota.{
  quota, set_quota, unwrap_or, Quota, QuotaStore, Json, quota_key, parse_quota, load_quota,
  load_decoded, load_entry, next_entry, load_loop, load_listed, load_quotas,
}

some_same : {a b : Bytes} → some a ≡ some b → a ≡ b
some_same h = cc

module _ (json : Json) (t key : Bytes) (encoded : encode t metadata quota_key ≡ ok key)
    (utf8 : is_utf8 t ≡ true) where
  decoded : decode key ≡ ok (t, metadata, quota_key)
  decoded =
      let (same, pos, short) = encode_lem t metadata quota_key key encoded in
      rw same (decode-key_bytes t metadata quota_key pos utf8)

  only_key : (j : Bytes) → decode j ≡ ok (t, metadata, quota_key) → j ≡ key
  only_key j h =
      (decode_lem j t metadata quota_key h).0 ∙ sym (encode_lem t metadata quota_key key encoded).0

  -- Another tenant's quota leaves this tenant's as it was.
  load_quota_other :
      (s : QuotaStore) (n : ℕ) (u : Bytes) (r : Result StoredValue)
      → bytes_eq u t ≡ false
      → lookup t (load_quota json s n u r).1.quotas ≡ lookup t s.quotas
  unfolding load_quota parse_quota
  load_quota_other s n u (err e) h = refl
  load_quota_other s n u (ok stored) h = by_text (json.from_slice stored.value)
    where
      by_text :
          (o : Option Quota) → lookup t (parse_quota json s n u o).1.quotas ≡ lookup t s.quotas
      by_text none = refl
      by_text (some q) = lookup-insert_other u t q s.quotas h

  load_decoded_other :
      (s : QuotaStore) (n : ℕ) (j raw : Bytes) (r : Result (Bytes × Subspace × Bytes))
      → decode j ≡ r
      → bytes_eq j key ≡ false
      → lookup t (load_decoded json s n raw r).1.quotas ≡ lookup t s.quotas
  unfolding load_decoded
  load_decoded_other s n j raw (err e) eq h = refl
  load_decoded_other s n j raw (ok (u, metadata, p)) eq h =
      elim (Bool-cases (bytes_eq p quota_key)) [
        | inr other ↦ rw other refl
        | inl quota ↦ elim (Bool-cases (bytes_eq u t)) [
          | inr other ↦ rw quota (load_quota_other s n u (Value.decode raw) other)
          | inl same ↦
              let at_t : decode j ≡ ok (t, metadata, quota_key) =
                eq ∙ rw ((bytes_eq_iff u t).0 same, (bytes_eq_iff p quota_key).0 quota) refl in
              absurd (ground (arith, bytes_eq_iff j key, only_key j at_t))
        ]
      ]
  load_decoded_other s n j raw (ok (u, other, p)) eq h = refl

  -- The entry of the key is the quota that its text stands for.
  load_entry_here :
      (s : QuotaStore) (n : ℕ) (body : Bytes) (q : Quota)
      → json.from_slice body ≡ some q
      → load_entry json s n (key, Value.encode body none)
        ≡ (ok (n + 1), record s { quotas = insert t q s.quotas })
  unfolding load_entry load_decoded load_quota parse_quota
  load_entry_here s n body q h =
      rw (decoded, bytes_eq_refl quota_key, decode-encode body none tt, h) refl

  abbrev Loads : QuotaStore → List (Bytes × Bytes) → ℕ → QuotaStore → Type 0
  Loads s items n loaded = (from : ℕ) × (load_loop json s from items ≡ (ok n, loaded))

  -- A loop that ends well goes on after its first entry.
  load_loop-rest :
      (s loaded : QuotaStore) (from n : ℕ) (e : Bytes × Bytes) (rest : List (Bytes × Bytes))
      → load_loop json s from (e ∷ rest) ≡ (ok n, loaded)
      → Loads (load_entry json s from e).1 rest n loaded
  unfolding load_loop next_entry
  load_loop-rest s loaded from n e rest h = by_result (load_entry json s from e) h
    where
      by_result :
          (r : Result ℕ × QuotaStore)
          → next_entry (λ s' n. load_loop json s' n rest) r ≡ (ok n, loaded)
          → Loads r.1 rest n loaded
      by_result (err e, s') h = absurd (err_not_ok e n (ap (λ r. r.0) h))
      by_result (ok m, s') h = (m, h)

  load_loop_absent :
      (items : Map Bytes) (s loaded : QuotaStore) (n : ℕ)
      → lookup key items ≡ none
      → Loads s items n loaded
      → lookup t loaded.quotas ≡ lookup t s.quotas
  unfolding lookup load_entry load_loop
  load_loop_absent [] s loaded n h (from, l) = ap (λ r. lookup t (r.1).quotas) (sym l)
  load_loop_absent ((j, raw) ∷ rest) s loaded n h (from, l) = elim (Bool-cases (bytes_eq j key)) [
    | inl same ↦ absurd (ground (arith, h))
    | inr other ↦
        let absent : lookup key rest ≡ none = rw other at h in
        load_loop_absent rest (load_entry json s from (j, raw)).1 loaded n absent
          (load_loop-rest s loaded from n (j, raw) rest l)
        ∙ load_decoded_other s from j raw (decode j) refl other
  ]

  load_loop_present :
      (items : Map Bytes) (s loaded : QuotaStore) (n : ℕ) (body : Bytes) (q : Quota)
      → Distinct items
      → lookup key items ≡ some (Value.encode body none)
      → json.from_slice body ≡ some q
      → Loads s items n loaded
      → lookup t loaded.quotas ≡ some q
  unfolding lookup
  load_loop_present [] s loaded n body q d h parsed l = cc
  load_loop_present ((j, raw) ∷ rest) s loaded n body q d h parsed (from, l) =
      elim (Bool-cases (bytes_eq j key)) [
        | inr other ↦
            let there : lookup key rest ≡ some (Value.encode body none) = rw other at h in
            load_loop_present rest (load_entry json s from (j, raw)).1 loaded n body q d.1 there
              parsed (load_loop-rest s loaded from n (j, raw) rest l)
        | inl same ↦
            let at_key : j ≡ key = (bytes_eq_iff j key).0 same in
            let value : raw ≡ Value.encode body none = some_same (rw same at h) in
            let absent : lookup key rest ≡ none = rw at_key at d.0 in
            let entry : load_entry json s from (j, raw)
                ≡ (ok (from + 1), record s { quotas = insert t q s.quotas }) =
              rw (at_key, value) (load_entry_here s from body q parsed) in
            load_loop_absent rest (load_entry json s from (j, raw)).1 loaded n absent
              (load_loop-rest s loaded from n (j, raw) rest l)
            ∙ ap (λ r. lookup t (r.1).quotas) entry
            ∙ lookup-insert_here t t q s.quotas (bytes_eq_refl t)
      ]

module _ {F : Fjall} (view : F.Keyspace → Map Bytes) (laws : FjallLaws F view) (json : Json) where
  -- Loading finds a quota that the storage has.
  load_quotas_present :
      (st : StorageBackend F) (fresh loaded : QuotaStore) (n : ℕ) (t key body : Bytes) (q : Quota)
      → Distinct (entries view st)
      → encode t metadata quota_key ≡ ok key
      → is_utf8 t ≡ true
      → lookup key (entries view st) ≡ some (Value.encode body none)
      → json.from_slice body ≡ some q
      → load_quotas json st fresh ≡ (ok n, loaded)
      → lookup t loaded.quotas ≡ some q
  unfolding load_quotas load_listed starts_with
  load_quotas_present st fresh loaded n t key body q d encoded utf8 there parsed l =
      by_scan (Storage.scan st []) refl l
    where
      by_scan :
          (r : Result (List (Bytes × Bytes)))
          → Storage.scan st [] ≡ r
          → load_listed json (record fresh { quotas = [] }) r ≡ (ok n, loaded)
          → lookup t loaded.quotas ≡ some q
      by_scan (err e) scanned l = absurd (err_not_ok e n (ap (λ r. r.0) l))
      by_scan (ok items) scanned l =
          let lists = (backend-IsMap view laws st d).scan_ok [] items scanned in
          load_loop_present json t key encoded utf8 items (record fresh { quotas = [] }) loaded n
            body q (Ascending-Distinct items lists.ascending) (lists.entries key ∙ there) parsed
            (0, l)

  -- A quota that was set is the tenant's after a restart: once `set_quota` has answered without an
  -- error, `load_quotas` over the storage that it left, from whatever store it starts, leaves the
  -- tenant with that quota, if it ends without an error and the text of the quota parses.
  pub load_quotas-set_quota :
      (st st' : StorageBackend F) (s s' fresh loaded : QuotaStore) (n : ℕ) (t : Bytes) (q : Quota)
      → Distinct (entries view st)
      → is_utf8 t ≡ true
      → ((body : Bytes) → json.to_vec q ≡ value body → json.from_slice body ≡ some q)
      → set_quota json st s t q ≡ (ok tt, (st', s'))
      → load_quotas json st' fresh ≡ (ok n, loaded)
      → quota loaded t ≡ q
  unfolding quota
  load_quotas-set_quota st st' s s' fresh loaded n t q d utf8 parses h l =
      let (key, body, encoded, text, put, cached) = set_quota-IsStored json st s t q (st', s') h in
      let map = backend-IsMap view laws st d in
      let there = map.put_ok key (Value.encode body none) (ap (λ r. r.0) put) key in
      let there' : lookup key (entries view st') ≡ some (Value.encode body none) =
        rw (put, bytes_eq_refl key) at there in
      let distinct : Distinct (entries view st') =
        rw put at (map.put_distinct key (Value.encode body none)) in
      let found =
        load_quotas_present st' fresh loaded n t key body q distinct encoded utf8 there'
          (parses body text) l in
      ap (λ o. unwrap_or o loaded.default_quota) found
