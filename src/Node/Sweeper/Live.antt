-- ===== src/Node/Sweeper/Live.antt =====
-- ttl.rs: a sweep removes no value that has not expired.
use ferriskv.Prelude.{
  ℕ, ◌+◌, ◌≡◌, refl, sym, ◌∙◌, ap, Bool, true, false, Option, none, some, List, [], ◌∷◌, arith,
}
use ferriskv.Prelude.Bytes.{Bytes}
use ferriskv.Prelude.Assoc.{Map, lookup, Distinct}
use ferriskv.Core.Error.{Result, ok, err}
use ferriskv.Core.Key.{data_space, decode}
use ferriskv.Core.Value
use ferriskv.Core.Value.{StoredValue}
use ferriskv.Core.Storage
use ferriskv.Core.Storage.FjallStorage.{Fjall}
use ferriskv.Core.Storage.Laws.{FjallLaws, entries, backend-IsMap}
use ferriskv.Node.Ttl
use ferriskv.Node.Watch.{Broadcast}
use ferriskv.Node.Throttle.{Governor}
use ferriskv.Node.Service.{NodeService, Disk, delete, schedule_expiry}
use ferriskv.Node.Service.Entries.{usage_key-IsOther}
use ferriskv.Node.Service.Writes.{IsUsageOf}
use ferriskv.Node.Service.Elsewhere.{delete-Distinct, delete_elsewhere}
use ferriskv.Node.Sweeper.{
  count_removed, reschedule, sweep_found, sweep_got, sweep_loop, sweep_once,
}

-- A key of data is no tenant's usage record.
data_not_usage : (key j t p : Bytes) → decode j ≡ ok (t, data_space, p) → ¬ IsUsageOf key j
data_not_usage key j t p held (u, q, there, usage) = rw held at (usage_key-IsOther u j usage)

expired_and_live : (r : Result Bool) → r ≡ ok false → r ≡ ok true → ⊥
expired_and_live r h k = ground arith

some_same : {a b : Bytes} → some a ≡ some b → a ≡ b
some_same h = cc

module _ {F : Fjall} {B : Broadcast} {G : Governor} (view : F.Keyspace → Map Bytes)
    (laws : FjallLaws F view) (crc32 : Bytes → ℕ) (now : ℕ) (j t p raw : Bytes)
    (held : decode j ≡ ok (t, data_space, p)) (live : Value.is_expired raw now ≡ ok false) where
  -- The storage is a map in which the key has its value.
  abbrev pub Holds : NodeService F B G → Type 0
  Holds svc = Distinct (entries view svc.storage) × (lookup j (entries view svc.storage) ≡ some raw)

  count_removed-Holds :
      (removed : ℕ) (r : Result (Unit {0}) × NodeService F B G)
      → Holds r.1
      → Holds (count_removed removed r).1
  unfolding count_removed
  count_removed-Holds removed (ok u, svc) h = h
  count_removed-Holds removed (err e, svc) h = h

  reschedule-Holds :
      (key : Bytes) (r : Result StoredValue) (svc : NodeService F B G)
      → Holds svc
      → Holds (reschedule key r svc)
  unfolding reschedule
  reschedule-Holds key (err e) svc h = h
  reschedule-Holds key (ok sv) svc h = by_expiry sv.expires_at_ms
    where
      by_expiry : (o : Option ℕ) → Holds (schedule_expiry key o svc)
      by_expiry none = h
      by_expiry (some exp) = h

  sweep_found-Holds :
      (d : Disk) (key found : Bytes) (removed : ℕ) (svc : NodeService F B G)
      → Holds svc
      → lookup key (entries view svc.storage) ≡ some found
      → Holds (sweep_found crc32 now d key found (Value.is_expired found now) removed svc).1
  unfolding sweep_found
  sweep_found-Holds d key found removed svc h there = by_result (Value.is_expired found now) refl
    where
      not_due : key ≡ j → Value.is_expired found now ≡ ok true → ⊥
      not_due same due =
          let value : some found ≡ some raw =
            sym there ∙ ap (λ (k : Bytes). lookup k (entries view svc.storage)) same ∙ h.1 in
          expired_and_live (Value.is_expired raw now) live
            (ap (λ (v : Bytes). Value.is_expired v now) (sym (some_same value)) ∙ due)

      by_result :
          (r : Result Bool)
          → Value.is_expired found now ≡ r
          → Holds (sweep_found crc32 now d key found r removed svc).1
      by_result (ok true) eq =
          let other = λ (same : key ≡ j). not_due same eq in
          count_removed-Holds removed (delete crc32 d key svc) (
            delete-Distinct view laws crc32 d svc h.0 key,
            delete_elsewhere view laws crc32 d svc h.0 key j other (data_not_usage key j t p held)
                ∙ h.1,
          )
      by_result (ok false) eq = reschedule-Holds key (Value.decode found) svc h
      by_result (err e) eq = h

  sweep_got-Holds :
      (d : Disk) (key : Bytes) (removed : ℕ) (svc : NodeService F B G)
      → Holds svc
      → Holds (sweep_got crc32 now d key (Storage.get svc.storage key) removed svc).1
  unfolding sweep_got
  sweep_got-Holds d key removed svc h = by_get (Storage.get svc.storage key) refl
    where
      by_get :
          (r : Result (Option Bytes))
          → Storage.get svc.storage key ≡ r
          → Holds (sweep_got crc32 now d key r removed svc).1
      by_get (err e) eq = h
      by_get (ok none) eq = h
      by_get (ok (some found)) eq =
          let there = (backend-IsMap view laws svc.storage h.0).get_ok key (some found) eq in
          sweep_found-Holds d key found removed svc h (sym there)

  sweep_loop-Holds :
      (disk : ℕ → Disk) (candidates : List Bytes) (s : ℕ × NodeService F B G)
      → Holds s.1
      → Holds (sweep_loop crc32 now disk candidates s).1
  unfolding sweep_loop
  sweep_loop-Holds disk [] (removed, svc) h = h
  sweep_loop-Holds disk (key ∷ candidates) (removed, svc) h =
      sweep_loop-Holds (λ n. disk (n + 1)) candidates _ (sweep_got-Holds (disk 0) key removed svc h)

  pub sweep_once-Holds :
      (disk : ℕ → Disk) (svc : NodeService F B G)
      → Holds svc
      → Holds (sweep_once crc32 now disk svc).1
  unfolding sweep_once
  sweep_once-Holds disk svc h =
      let (candidates, idx) = Ttl.drain_due now svc.ttl_index in
      sweep_loop-Holds disk candidates (0, record svc { ttl_index = idx }) h

  -- A sweep leaves in storage every value of tenant data that the clock of the sweep has not expired,
  -- whatever the index holds of its key and whichever of the sweep's deletions fail.
  pub sweep_once_keeps_live :
      (disk : ℕ → Disk) (svc : NodeService F B G)
      → Distinct (entries view svc.storage)
      → lookup j (entries view svc.storage) ≡ some raw
      → lookup j (entries view (sweep_once crc32 now disk svc).1.storage) ≡ some raw
  sweep_once_keeps_live disk svc distinct found = (sweep_once-Holds disk svc (distinct, found)).1
