-- ===== src/Node/Service/ReadBack.antt =====
-- service.rs: what `get` returns of the value that a `put` has written.
use ferriskv.Prelude.{
  ℕ, ◌≡◌, refl, sym, ◌∙◌, Option, none, some, if◌then◌else◌, arith, ltb, inl, inr, Bool-cases,
}
use ferriskv.Prelude.Bytes.{Bytes, bytes_eq_refl}
use ferriskv.Prelude.Assoc.{Map, Distinct}
use ferriskv.Core.Error.{ok}
use ferriskv.Core.Value
use ferriskv.Core.Value.RoundTrip.{FitsU64, decode-encode}
use ferriskv.Core.Value.Agreement.{is_gone, is_expired-eq-decode}
use ferriskv.Core.Storage.FjallStorage.{Fjall}
use ferriskv.Core.Storage.Laws.{FjallLaws, entries}
use ferriskv.Node.Watch.{Broadcast}
use ferriskv.Node.Throttle.{Governor}
use ferriskv.Node.Service.{NodeService, Disk, expiry, put_with_ttl}
use ferriskv.Node.Service.Touched.{put_with_ttl-Distinct}
use ferriskv.Node.Service.Writes.{not_its_usage, put_with_ttl-lookup}
use ferriskv.Node.Service.Reads.{get, live_value, get-live}

live_value-encode :
    (now : ℕ) (v : Bytes) (exp : Option ℕ)
    → FitsU64 exp
    → live_value now (Value.encode v exp) ≡ ok (if is_gone exp now then none else some v)
unfolding live_value
live_value-encode now v exp fits =
    let decoded = decode-encode v exp fits in
    let gone = is_expired-eq-decode (Value.encode v exp) now in
    rw (gone, decoded)
      (elim (Bool-cases (is_gone exp now)) [ inl h ↦ rw h refl | inr h ↦ rw h refl ])

pub expiry-FitsU64 : (now ttl_ms : ℕ) → FitsU64 (expiry now ttl_ms)
expiry-FitsU64 now ttl_ms = elim (Bool-cases (ltb 0 ttl_ms)) [
  | inl h ↦ rw h (omega arith)
  | inr h ↦ rw h tt
]

module _ {F : Fjall} {B : Broadcast} {G : Governor} (view : F.Keyspace → Map Bytes)
    (laws : FjallLaws F view) where
  -- If the keys of the entries are distinct, then what a put that succeeds wrote a `get` that
  -- succeeds finds, unless it was put with a time to live and the clock of the `get` has reached
  -- its end: then it finds nothing.
  pub get-put_with_ttl :
      (crc32 : Bytes → ℕ) (d : Disk) (svc : NodeService F B G) (now later : ℕ) (key value : Bytes)
      (ttl_ms : ℕ) (o : Option Bytes)
      → Distinct (entries view svc.storage)
      → (put_with_ttl crc32 d now key value ttl_ms svc).0 ≡ ok tt
      → get later key (put_with_ttl crc32 d now key value ttl_ms svc).1 ≡ ok o
      → o ≡ (if is_gone (expiry now ttl_ms) later then none else some value)
  get-put_with_ttl crc32 d svc now later key value ttl_ms o distinct done read =
      let after = (put_with_ttl crc32 d now key value ttl_ms svc).1 in
      let distinct' = put_with_ttl-Distinct view laws crc32 d svc distinct now key value ttl_ms in
      let written =
        put_with_ttl-lookup view laws crc32 d svc distinct now key value ttl_ms key
          (not_its_usage key) done in
      let held = rw (bytes_eq_refl key) at written in
      let live = get-live view laws after distinct' later key o read in
      same (
        sym (rw held at live)
        ∙ live_value-encode later value (expiry now ttl_ms) (expiry-FitsU64 now ttl_ms))
    where
      same : {a b : Option Bytes} → ok a ≡ ok b → a ≡ b
      same h = cc
