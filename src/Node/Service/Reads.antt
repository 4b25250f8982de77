-- ===== src/Node/Service/Reads.antt =====
-- service.rs: `get`, `scan` and `scan_range`. Each reads the clock once, an argument here.
use ferriskv.Prelude.{
  ℕ, ◌≡◌, inl, inr, refl, sym, ◌∙◌, ap, Bool, true, false, not, ◌&&◌, Option, none, some, [], ◌∷◌,
  if◌then◌else◌, arith, Bool-cases,
}
use ferriskv.Prelude.Bytes.{Bytes, bytes_eq, bytes_eq_iff, starts_with, bytes_lt}
use ferriskv.Prelude.Assoc.{Map, lookup, Distinct}
use ferriskv.Core.Error.{Result, ok, err, err_not_ok, ◌>>=◌}
use ferriskv.Core.Value
use ferriskv.Core.Storage
use ferriskv.Core.Storage.FjallStorage.{Fjall}
use ferriskv.Core.Storage.MemStorage.Sorted.{Above, Ascending, Ascending-Distinct}
use ferriskv.Core.Storage.MemStorage.Scan.{Lists}
use ferriskv.Core.Storage.Laws.{FjallLaws, entries, backend-IsMap}
use ferriskv.Node.Watch.{Broadcast}
use ferriskv.Node.Throttle.{Governor}
use ferriskv.Node.Service.{NodeService}

-- What `get` makes of the stored bytes.
unfoldable pub live_value : ℕ → Bytes → Result (Option Bytes)
live_value now raw = do
  expired ← Value.is_expired raw now
  if expired then ok none else (Value.decode raw >>= λ v. ok (some v.value))

-- What `filter_scan` makes of them.
unfoldable pub listed_value : ℕ → Bytes → Option Bytes
listed_value now raw = elim (Value.is_expired raw now) [
  | ok true ↦ none
  | ok false ↦ elim (Value.decode raw) [ ok v ↦ some v.value | err e ↦ none ]
  | err e ↦ none
]

abbrev pub listed : Bytes → Option Bytes → Map Bytes → Map Bytes
listed key none rest = rest
listed key (some v) rest = (key, v) ∷ rest

unfoldable pub filter_scan : ℕ → Map Bytes → Map Bytes
unfolding listed_value
filter_scan now [] = []
filter_scan now ((key, raw) ∷ items) = listed key (listed_value now raw) (filter_scan now items)

abbrev pub live : ℕ → Option Bytes → Result (Option Bytes)
live now none = ok none
live now (some raw) = live_value now raw

module _ {F : Fjall} {B : Broadcast} {G : Governor} where
  unfoldable pub get : ℕ → Bytes → NodeService F B G → Result (Option Bytes)
  unfolding live_value
  get now key svc = Storage.get svc.storage key >>= live now

  unfoldable pub scan : ℕ → Bytes → NodeService F B G → Result (Map Bytes)
  scan now prefix svc = Storage.scan svc.storage prefix >>= λ items. ok (filter_scan now items)

  unfoldable pub scan_range : ℕ → Bytes → Bytes → NodeService F B G → Result (Map Bytes)
  scan_range now start end svc =
      Storage.scan_range svc.storage start end >>= λ items. ok (filter_scan now items)

-- A value is listed where reading it succeeds and finds it.
listed_value_lem :
    (now : ℕ) (raw : Bytes) (o : Option Bytes)
    → live_value now raw ≡ ok o
    → listed_value now raw ≡ o
unfolding live_value listed_value
listed_value_lem now raw o h = ground arith

abbrev then_listed : ℕ → Option Bytes → Option Bytes
then_listed now none = none
then_listed now (some raw) = listed_value now raw

lookup-listed :
    (key k : Bytes) (o : Option Bytes) (rest : Map Bytes)
    → (bytes_eq key k ≡ true → lookup k rest ≡ none)
    → lookup k (listed key o rest) ≡ (if bytes_eq key k then o else lookup k rest)
unfolding lookup
lookup-listed key k none rest h = elim (Bool-cases (bytes_eq key k)) [
  | inl same ↦ rw same (h same)
  | inr other ↦ rw other refl
]
lookup-listed key k (some v) rest h = refl

lookup-filter_scan :
    (now : ℕ) (items : Map Bytes) (k : Bytes)
    → Distinct items
    → lookup k (filter_scan now items) ≡ then_listed now (lookup k items)
unfolding filter_scan lookup
lookup-filter_scan now [] k d = refl
lookup-filter_scan now ((key, raw) ∷ items) k d =
    let rest = lookup-filter_scan now items k d.1 in
    let absent : bytes_eq key k ≡ true → lookup k (filter_scan now items) ≡ none = λ same.
      rest
      ∙ ap (λ (j : Bytes). then_listed now (lookup j items)) (sym ((bytes_eq_iff key k).0 same))
      ∙ ap (then_listed now) d.0 in
    lookup-listed key k (listed_value now raw) (filter_scan now items) absent
    ∙ elim (Bool-cases (bytes_eq key k)) [ inl same ↦ rw same refl | inr other ↦ rw other rest ]

Above-listed :
    (k key : Bytes) (o : Option Bytes) (rest : Map Bytes)
    → bytes_lt k key ≡ true
    → Above k rest
    → Above k (listed key o rest)
Above-listed k key none rest h a = a
Above-listed k key (some v) rest h a = (h, a)

Above-filter_scan :
    (now : ℕ) (items : Map Bytes) (k : Bytes) → Above k items → Above k (filter_scan now items)
unfolding filter_scan
Above-filter_scan now [] k a = tt
Above-filter_scan now ((key, raw) ∷ items) k a =
    Above-listed k key (listed_value now raw) _ a.0 (Above-filter_scan now items k a.1)

listed-Ascending :
    (key : Bytes) (o : Option Bytes) (rest : Map Bytes)
    → Above key rest
    → Ascending rest
    → Ascending (listed key o rest)
listed-Ascending key none rest h a = a
listed-Ascending key (some v) rest h a = (h, a)

filter_scan-Ascending :
    (now : ℕ) (items : Map Bytes) → Ascending items → Ascending (filter_scan now items)
unfolding filter_scan
filter_scan-Ascending now [] a = tt
filter_scan-Ascending now ((key, raw) ∷ items) a =
    listed-Ascending key (listed_value now raw) _ (Above-filter_scan now items key a.0)
      (filter_scan-Ascending now items a.1)

live_lem : (now : ℕ) (found o : Option Bytes) → live now found ≡ ok o → then_listed now found ≡ o
live_lem now none o h = cc
live_lem now (some raw) o h = listed_value_lem now raw o h

-- The keys that `scan_range` selects.
abbrev pub in_range : Bytes → Bytes → Bytes → Bool
in_range start end k = not (bytes_lt k start) && bytes_lt k end

module _ {F : Fjall} {B : Broadcast} {G : Governor} (view : F.Keyspace → Map Bytes)
    (laws : FjallLaws F view) (svc : NodeService F B G)
    (distinct : Distinct (entries view svc.storage)) where
  -- What `get` answers, in terms of the entries.
  pub get-live :
      (now : ℕ) (key : Bytes) (o : Option Bytes)
      → get now key svc ≡ ok o
      → live now (lookup key (entries view svc.storage)) ≡ ok o
  unfolding get
  get-live now key o h = by_get (Storage.get svc.storage key) refl h
    where
      by_get :
          (r : Result (Option Bytes))
          → Storage.get svc.storage key ≡ r
          → (r >>= live now) ≡ ok o
          → live now (lookup key (entries view svc.storage)) ≡ ok o
      by_get (err e) eq h = cc
      by_get (ok found) eq h =
          let same = (backend-IsMap view laws svc.storage distinct).get_ok key found eq in
          rw (← same) h

  get-listed :
      (now : ℕ) (key : Bytes) (o : Option Bytes)
      → get now key svc ≡ ok o
      → then_listed now (lookup key (entries view svc.storage)) ≡ o
  get-listed now key o h =
      live_lem now (lookup key (entries view svc.storage)) o (get-live now key o h)

  -- What a selection of the entries lists, once filtered, answers as a `get` does.
  filtered_lem :
      (test : Bytes → Bool) (now : ℕ) (found : Map Bytes) (key : Bytes) (o : Option Bytes)
      → Lists test (entries view svc.storage) found
      → get now key svc ≡ ok o
      → Ascending (filter_scan now found)
        × (lookup key (filter_scan now found) ≡ (if test key then o else none))
  filtered_lem test now found key o lists g = (
    filter_scan-Ascending now found lists.ascending,
    lookup-filter_scan now found key (Ascending-Distinct found lists.ascending)
        ∙ ap (then_listed now) (lists.entries key)
        ∙ selected,
  )
    where
      selected :
          then_listed now (if test key then lookup key (entries view svc.storage) else none)
          ≡ (if test key then o else none)
      selected = elim (Bool-cases (test key)) [
        | inl h ↦ rw h (get-listed now key o g)
        | inr h ↦ rw h refl
      ]

  -- At one time of the clock a scan and a `get` agree where both succeed: the scan lists its keys in
  -- ascending order, and a key with the prefix exactly if the `get` finds it, with the value that the
  -- `get` returns, and no key without the prefix.
  pub scan_answers_get :
      (now : ℕ) (prefix key : Bytes) (items : Map Bytes) (o : Option Bytes)
      → scan now prefix svc ≡ ok items
      → get now key svc ≡ ok o
      → Ascending items × (lookup key items ≡ (if starts_with key prefix then o else none))
  unfolding scan
  scan_answers_get now prefix key items o h g = by_scan (Storage.scan svc.storage prefix) refl h
    where
      by_scan :
          (r : Result (Map Bytes))
          → Storage.scan svc.storage prefix ≡ r
          → (r >>= λ found. ok (filter_scan now found)) ≡ ok items
          → Ascending items × (lookup key items ≡ (if starts_with key prefix then o else none))
      by_scan (err e) eq h = absurd (err_not_ok e items h)
      by_scan (ok found) eq h =
          let lists = (backend-IsMap view laws svc.storage distinct).scan_ok prefix found eq in
          let same : filter_scan now found ≡ items = cc in
          rw (← same) (filtered_lem (λ k. starts_with k prefix) now found key o lists g)

  -- The same of a range: it lists keys in ascending order that lie within its bounds and are stored,
  -- and answers as a `get` does.
  pub scan_range_answers_get :
      (now : ℕ) (start end : Bytes) (items : Map Bytes)
      → scan_range now start end svc ≡ ok items
      → Ascending items
        × ((key : Bytes) (o : Option Bytes)
            → get now key svc ≡ ok o
            → lookup key items ≡ (if in_range start end key then o else none))
        × ((key : Bytes)
            → ¬ (lookup key items ≡ none)
            → (in_range start end key ≡ true) × ¬ (lookup key (entries view svc.storage) ≡ none))
  unfolding scan_range
  scan_range_answers_get now start end items h =
      by_range (Storage.scan_range svc.storage start end) refl h
    where
      stored :
          (b : Bool) (found : Option Bytes)
          → ¬ (then_listed now (if b then found else none) ≡ none)
          → (b ≡ true) × ¬ (found ≡ none)
      stored false found h = absurd (h refl)
      stored true found h = (refl, λ e. h (ap (then_listed now) e))

      by_range :
          (r : Result (Map Bytes))
          → Storage.scan_range svc.storage start end ≡ r
          → (r >>= λ found. ok (filter_scan now found)) ≡ ok items
          → Ascending items
            × ((key : Bytes) (o : Option Bytes)
                → get now key svc ≡ ok o
                → lookup key items ≡ (if in_range start end key then o else none))
            × ((key : Bytes)
                → ¬ (lookup key items ≡ none)
                → (in_range start end key ≡ true)
                  × ¬ (lookup key (entries view svc.storage) ≡ none))
      by_range (err e) eq h = absurd (err_not_ok e items h)
      by_range (ok found) eq h =
          let lists =
            (backend-IsMap view laws svc.storage distinct).scan_range_ok start end found eq in
          let same : filter_scan now found ≡ items = cc in
          rw (← same) (
            filter_scan-Ascending now found lists.ascending,
            λ key o g. (filtered_lem (in_range start end) now found key o lists g).1,
            λ key there.
                stored (in_range start end key) (lookup key (entries view svc.storage)) (λ e.
                  there (
                    lookup-filter_scan now found key (Ascending-Distinct found lists.ascending)
                    ∙ ap (then_listed now) (lists.entries key)
                    ∙ e)),
          )
