-- ===== src/Node/Quota/Applied.antt =====
-- quota.rs: what `adjust` and `apply` do to the counters and to the storage.
use ferriskv.Prelude.{
  ℕ, ◌+◌, ◌^◌, ◌≤◌, ◌<◌, ◌≡◌, refl, sym, ◌∙◌, ap, true, Option, none, some, [], ◌∷◌, arith,
  if◌then◌else◌, Bool-cases, Option-cases, inl, inr, ◌⊎◌,
}
use ferriskv.Prelude.Bytes.{Bytes, bytes_eq, bytes_eq_iff}
use ferriskv.Prelude.Assoc.{Map, lookup, Distinct, lookup-insert}
use ferriskv.Prelude.Words.{to_be_bytes}
use ferriskv.Prelude.Int.{ℤ, sub_i64, is_zero}
use ferriskv.Core.Error.{Result, ok, err}
use ferriskv.Core.Key.{stats, encode}
use ferriskv.Core.Value as Value
use ferriskv.Core.Storage
use ferriskv.Core.Storage.{StorageBackend}
use ferriskv.Core.Storage.FjallStorage.{Fjall}
use ferriskv.Node.Quota.{
  QuotaStore, apply_delta, used_bytes, apply, adjust, store_usage, usage_key, reset_usage,
  reset_loop, unwrap_or, add_total,
}

-- A difference of two sizes, added to a counter that holds the smaller one.
pub apply_delta-sub_i64 :
    (c a b : ℕ) → b ≤ c → c + a < 2 ^ 63 → apply_delta c (sub_i64 a b) + b ≡ c + a
unfolding apply_delta
apply_delta-sub_i64 c a b h k = ground arith

apply_delta-is_zero : (c : ℕ) (z : ℤ) → c < 2 ^ 64 → is_zero z ≡ true → apply_delta c z ≡ c
unfolding apply_delta
apply_delta-is_zero c z h k = ground arith

used_bytes-adjust :
    (q : QuotaStore) (t u : Bytes) (z : ℤ)
    → used_bytes (adjust q t z).1 u
      ≡ (if bytes_eq t u then apply_delta (used_bytes q t) z else used_bytes q u)
unfolding used_bytes adjust
used_bytes-adjust q t u z =
    rw (lookup-insert t u (apply_delta (used_bytes q t) z) q.usage) (ground arith)

same_counter :
    (q : QuotaStore) (t u : Bytes)
    → (if bytes_eq t u then used_bytes q t else used_bytes q u) ≡ used_bytes q u
same_counter q t u = elim (Bool-cases (bytes_eq t u)) [
  | inl h ↦ rw h (ap (used_bytes q) ((bytes_eq_iff t u).0 h))
  | inr h ↦ rw h refl
]

module _ {F : Fjall} (st : StorageBackend F) where
  store_usage_counters :
      (q : QuotaStore) (n : ℕ) (r : Result Bytes) → (store_usage st q n r).1.1 ≡ q
  unfolding store_usage
  store_usage_counters q n (ok key) = refl
  store_usage_counters q n (err e) = refl

  -- What the storage is after the record of a counter was written: as before, or with one `put`.
  store_usage_storage :
      (q : QuotaStore) (n : ℕ) (r : Result Bytes)
      → ((store_usage st q n r).1.0 ≡ st)
        ⊎ ((key : Bytes) × (v : Bytes) × (r ≡ ok key)
            × ((store_usage st q n r).1.0 ≡ (Storage.put st key v).1))
  unfolding store_usage
  store_usage_storage q n (ok key) = inr (key, _, refl, refl)
  store_usage_storage q n (err e) = inl refl

  pub apply_storage :
      (q : QuotaStore) (t : Bytes) (z : ℤ)
      → ((apply st q t z).1.0 ≡ st)
        ⊎ ((key : Bytes) × (v : Bytes) × (encode t stats usage_key ≡ ok key)
            × ((apply st q t z).1.0 ≡ (Storage.put st key v).1))
  unfolding apply
  apply_storage q t z = elim (Bool-cases (is_zero z)) [
    | inl h ↦ rw h (inl refl)
    | inr h ↦
        rw h (store_usage_storage (adjust q t z).1 (adjust q t z).0 (encode t stats usage_key))
  ]

  store_usage_stores :
      (q : QuotaStore) (n : ℕ) (r : Result Bytes)
      → ((store_usage st q n r).1.0 ≡ st)
        ⊎ ((key : Bytes) × ((store_usage st q n r).1.0
              ≡ (Storage.put st key (Value.encode (to_be_bytes 8 n) none)).1))
  unfolding store_usage
  store_usage_stores q n (ok key) = inr (key, refl)
  store_usage_stores q n (err e) = inl refl

  -- What it stores, if anything, is a count without expiry.
  pub apply_stores :
      (q : QuotaStore) (t : Bytes) (z : ℤ)
      → ((apply st q t z).1.0 ≡ st)
        ⊎ ((key : Bytes) × (count : Bytes) × ((apply st q t z).1.0
              ≡ (Storage.put st key (Value.encode count none)).1))
  unfolding apply
  apply_stores q t z = elim (Bool-cases (is_zero z)) [
    | inl h ↦ rw h (inl refl)
    | inr h ↦
        rw h
          (elim (store_usage_stores (adjust q t z).1 (adjust q t z).0 (encode t stats usage_key)) [
            | inl same ↦ inl same
            | inr (key, put) ↦ inr (key, _, put)
          ])
  ]

  pub used_bytes-apply :
      (q : QuotaStore) (t u : Bytes) (z : ℤ)
      → used_bytes q t < 2 ^ 64
      → used_bytes (apply st q t z).1.1 u
        ≡ (if bytes_eq t u then apply_delta (used_bytes q t) z else used_bytes q u)
  unfolding apply
  used_bytes-apply q t u z h = elim (Bool-cases (is_zero z)) [
    | inl zero_delta ↦
        let same = apply_delta-is_zero (used_bytes q t) z h zero_delta in
        rw (zero_delta, same) (sym (same_counter q t u))
    | inr other ↦
        let counters =
          store_usage_counters (adjust q t z).1 (adjust q t z).0 (encode t stats usage_key) in
        rw (other, counters) (used_bytes-adjust q t u z)
  ]

abbrev or_else : Option ℕ → Option ℕ → Option ℕ
or_else none o = o
or_else (some n) o = some n

lookup-reset_loop :
    (q : QuotaStore) (totals : Map ℕ) (t : Bytes)
    → Distinct totals
    → lookup t (reset_loop q totals).usage ≡ or_else (lookup t totals) (lookup t q.usage)
unfolding reset_loop lookup
lookup-reset_loop q [] t d = refl
lookup-reset_loop q ((u, n) ∷ totals) t d =
    let rest = lookup-reset_loop (add_total q (u, n)) totals t d.1 in
    elim (Bool-cases (bytes_eq u t)) [
      | inl same ↦
          let absent : lookup t totals ≡ none =
            ap (λ (k : Bytes). lookup k totals) (sym ((bytes_eq_iff u t).0 same)) ∙ d.0 in
          rw (rest, absent, lookup-insert u t n q.usage, same) refl
      | inr other ↦ rw (rest, lookup-insert u t n q.usage, other) refl
    ]

-- The counters are the totals, whatever they were.
pub used_bytes-reset_usage :
    (q : QuotaStore) (totals : Map ℕ) (t : Bytes)
    → Distinct totals
    → used_bytes (reset_usage q totals) t ≡ unwrap_or (lookup t totals) 0
unfolding reset_usage used_bytes lookup
used_bytes-reset_usage q totals t d = elim (Option-cases (lookup t totals)) [
  | inl h ↦ rw (lookup-reset_loop (record q { usage = [] }) totals t d, h) refl
  | inr (n, h) ↦ rw (lookup-reset_loop (record q { usage = [] }) totals t d, h) refl
]
