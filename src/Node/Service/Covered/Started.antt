-- ===== src/Node/Service/Covered/Started.antt =====
-- service.rs: the index that `bootstrap_from_storage` builds registers every stored expiry.
use ferriskv.Prelude.{
  ℕ, ◌≡◌, inl, inr, refl, sym, ◌∙◌, ap, subst, true, Option, none, some, [], ◌∷◌, arith, Bool-cases,
}
use ferriskv.Prelude.Bytes.{Bytes, bytes_eq, bytes_eq_iff, bytes_eq_refl, starts_with}
use ferriskv.Prelude.Assoc.{Map, lookup, Distinct}
use ferriskv.Core.Error.{Error, Result, ok, err, Result-cases}
use ferriskv.Core.Value as Value
use ferriskv.Core.Value.{StoredValue}
use ferriskv.Core.Storage as Storage
use ferriskv.Core.Storage.{StorageBackend}
use ferriskv.Core.Storage.FjallStorage.{Fjall}
use ferriskv.Core.Storage.Laws.{FjallLaws, entries, backend-IsMap}
use ferriskv.Node.Ttl.{TtlIndex}
use ferriskv.Node.Ttl.Index.{IsValid, scheduled, schedule_lem}
use ferriskv.Node.Quota.{QuotaStore}
use ferriskv.Node.Service.Boot.{
  Rebuilt, Bootstrap, index_entry, rebuild_stored, rebuild_loop, rebuilt, bootstrap_from_storage,
}
use ferriskv.Node.Service.Covered.{Expires, Covers}

-- The second index is valid and registers what the first does.
abbrev Extends : TtlIndex → TtlIndex → Type 0
Extends idx idx' =
    IsValid idx' × ((e : ℕ) (j : Bytes) → scheduled idx e j ≡ true → scheduled idx' e j ≡ true)

index_entry-Extends :
    (key : Bytes) (o : Option ℕ) (b : Rebuilt)
    → IsValid b.index
    → Extends b.index (index_entry key o b).index
unfolding index_entry
index_entry-Extends key none b v = (v, λ e j h. h)
index_entry-Extends key (some exp) b v =
    let (v', registers, permit) = schedule_lem key exp b.index v in
    (v', λ e j h. registers e j ∙ ground (arith, h))

rebuild_stored-Extends :
    (key : Bytes) (r : Result StoredValue) (b : Rebuilt)
    → IsValid b.index
    → Extends b.index (rebuild_stored key r b).index
unfolding rebuild_stored
rebuild_stored-Extends key (err e) b v = (v, λ e j h. h)
rebuild_stored-Extends key (ok stored) b v = index_entry-Extends key stored.expires_at_ms b v

index_entry_registers :
    (key : Bytes) (o : Option ℕ) (b : Rebuilt) (e : ℕ)
    → IsValid b.index
    → o ≡ some e
    → scheduled (index_entry key o b).index e key ≡ true
unfolding index_entry
index_entry_registers key none b e v h = cc
index_entry_registers key (some exp) b e v h =
    let (v', registers, permit) = schedule_lem key exp b.index v in
    let at : exp ≡ e = cc in registers e key ∙ ground (arith, bytes_eq_refl key)

rebuild_stored_registers :
    (key : Bytes) (r : Result StoredValue) (b : Rebuilt) (stored : StoredValue) (e : ℕ)
    → IsValid b.index
    → r ≡ ok stored
    → stored.expires_at_ms ≡ some e
    → scheduled (rebuild_stored key r b).index e key ≡ true
unfolding rebuild_stored
rebuild_stored_registers key (err x) b stored e v h has = cc
rebuild_stored_registers key (ok s) b stored e v h has =
    let same : s ≡ stored = cc in
    index_entry_registers key s.expires_at_ms b e v (ap (λ v. v.expires_at_ms) same ∙ has)

rebuild_loop-Extends :
    (items : Map Bytes) (b : Rebuilt)
    → IsValid b.index
    → Extends b.index (rebuild_loop items b).index
unfolding rebuild_loop
rebuild_loop-Extends [] b v = (v, λ e j h. h)
rebuild_loop-Extends ((key, raw) ∷ items) b v =
    let (v1, keeps1) = rebuild_stored-Extends key (Value.decode raw) b v in
    let (v2, keeps2) = rebuild_loop-Extends items (rebuild_stored key (Value.decode raw) b) v1 in
    (v2, λ e j h. keeps2 e j (keeps1 e j h))

-- The loop registers what the listed entries expire at.
rebuild_loop_registers :
    (items : Map Bytes) (b : Rebuilt) (j : Bytes) (e : ℕ)
    → IsValid b.index
    → Expires (lookup j items) e
    → scheduled (rebuild_loop items b).index e j ≡ true
unfolding rebuild_loop lookup
rebuild_loop_registers [] b j e v h = absurd h
rebuild_loop_registers ((key, raw) ∷ items) b j e v h =
    let next = rebuild_stored key (Value.decode raw) b in
    let (v1, keeps) = rebuild_stored-Extends key (Value.decode raw) b v in
    elim (Bool-cases (bytes_eq key j)) [
      | inr other ↦ rebuild_loop_registers items next j e v1 (rw other at h)
      | inl same ↦
          let (stored, held, has) : Expires (some raw) e = rw same at h in
          let here = rebuild_stored_registers key (Value.decode raw) b stored e v held has in
          (rebuild_loop-Extends items next v1).1 e j
            (subst (λ k. scheduled next.index e k ≡ true) ((bytes_eq_iff key j).0 same) here)
    ]

module _ {F : Fjall} (view : F.Keyspace → Map Bytes) (laws : FjallLaws F view)
    (st : StorageBackend F) (idx : TtlIndex) (quotas : QuotaStore) where
  rebuilt-Covers :
      (items : Map Bytes)
      → Distinct (entries view st)
      → IsValid idx
      → Storage.scan st [] ≡ ok items
      → Covers (entries view st) (rebuilt items idx).index
  unfolding rebuilt starts_with
  rebuilt-Covers items d v h =
      let lists = (backend-IsMap view laws st d).scan_ok [] items h in
      let start : Rebuilt = record { index = idx; ttl_entries = 0; usage = [] } in
      (
        d,
        (rebuild_loop-Extends items start v).0,
        λ j e x.
            rebuild_loop_registers items start j e v
              (subst (λ o. Expires o e) (sym (lists.entries j)) x),
      )

  not_both : (r : Result Bootstrap) (e : Error) (b : Bootstrap) → r ≡ err e → r ≡ ok b → ⊥
  not_both r e b h k = cc

  failed :
      (e : Error) → Storage.scan st [] ≡ err e → (bootstrap_from_storage st idx quotas).0 ≡ err e
  unfolding bootstrap_from_storage
  failed e h = rw (bootstrap_from_storage, h) refl

  -- A bootstrap that succeeds leaves an index in which every key that the storage holds with an
  -- expiry is registered at it, if the keys of the storage are distinct and the index was valid.
  pub bootstrap_from_storage-Covers :
      (b : Bootstrap)
      → Distinct (entries view st)
      → IsValid idx
      → (bootstrap_from_storage st idx quotas).0 ≡ ok b
      → Covers (entries view st) (bootstrap_from_storage st idx quotas).1.0
  unfolding bootstrap_from_storage
  bootstrap_from_storage-Covers b d v h = elim (Result-cases (Storage.scan st [])) [
    | inr (e, s) ↦ absurd (not_both _ e b (failed e s) h)
    | inl (items, s) ↦ rw (bootstrap_from_storage, s) (rebuilt-Covers items d v s)
  ]
