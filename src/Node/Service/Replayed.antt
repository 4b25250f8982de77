-- ===== src/Node/Service/Replayed.antt =====
-- service.rs: what `replay` leaves in storage, and that a node opens with exact counters.
use ferriskv.Prelude.{
  ℕ, ◌≡◌, inl, inr, refl, Option, none, some, List, [], ◌∷◌, if◌then◌else◌, length,
}
use ferriskv.Prelude.Bytes.{Bytes, bytes_eq}
use ferriskv.Prelude.Assoc.{Map, lookup, Distinct}
use ferriskv.Core.Error.{ok, Result-cases, err_not_ok}
use ferriskv.Core.Storage.{StorageBackend}
use ferriskv.Core.Storage.FjallStorage.{Fjall}
use ferriskv.Core.Storage.Laws.{FjallLaws, entries, backend-IsMap}
use ferriskv.Node.Wal.{WalOp, WalRecord}
use ferriskv.Node.Wal as Wal
use ferriskv.Node.Service.Boot.{replay, replay_one, replay_loop}

-- What a record makes of its key.
abbrev pub written_by : WalOp → Bytes → Option Bytes
written_by Wal.put v = some v
written_by Wal.delete v = none

abbrev pub write_of : WalRecord → Option Bytes
write_of r = written_by r.op r.value

-- What the records leave under a key that held `o`: what the last of them with that key says.
abbrev pub after : List WalRecord → Bytes → Option Bytes → Option Bytes
after [] k o = o
after (r ∷ records) k o = after records k (if bytes_eq r.key k then write_of r else o)

module _ {F : Fjall} (view : F.Keyspace → Map Bytes) (laws : FjallLaws F view) where
  replay_one-Distinct :
      (r : WalRecord) (st : StorageBackend F)
      → Distinct (entries view st)
      → Distinct (entries view (replay_one r st).1)
  unfolding replay_one
  replay_one-Distinct r st d = by_op r.op
    where
      by_op : (op : WalOp) → Distinct (entries view (replay_one (record r { op = op }) st).1)
      by_op Wal.put = (backend-IsMap view laws st d).put_distinct r.key r.value
      by_op Wal.delete = (backend-IsMap view laws st d).delete_distinct r.key

  replay_one_lem :
      (r : WalRecord) (st : StorageBackend F) (k : Bytes)
      → Distinct (entries view st)
      → (replay_one r st).0 ≡ ok tt
      → lookup k (entries view (replay_one r st).1)
        ≡ (if bytes_eq r.key k then write_of r else lookup k (entries view st))
  unfolding replay_one
  replay_one_lem r st k d h = by_op r.op h
    where
      by_op :
          (op : WalOp)
          → (replay_one (record r { op = op }) st).0 ≡ ok tt
          → lookup k (entries view (replay_one (record r { op = op }) st).1)
            ≡ (if bytes_eq r.key k then written_by op r.value else lookup k (entries view st))
      by_op Wal.put h = (backend-IsMap view laws st d).put_ok r.key r.value h k
      by_op Wal.delete h = (backend-IsMap view laws st d).delete_ok r.key h k

  replay_loop-Distinct :
      (records : List WalRecord) (st : StorageBackend F)
      → Distinct (entries view st)
      → Distinct (entries view (replay_loop records st).1)
  unfolding replay_loop
  replay_loop-Distinct [] st d = d
  replay_loop-Distinct (r ∷ records) st d = elim (Result-cases (replay_one r st).0) [
    | inr (e, h) ↦ rw h (replay_one-Distinct r st d)
    | inl (u, h) ↦
        rw h (replay_loop-Distinct records (replay_one r st).1 (replay_one-Distinct r st d))
  ]

  replay_loop_lem :
      (records : List WalRecord) (st : StorageBackend F) (k : Bytes)
      → Distinct (entries view st)
      → (replay_loop records st).0 ≡ ok tt
      → lookup k (entries view (replay_loop records st).1)
        ≡ after records k (lookup k (entries view st))
  unfolding replay_loop
  replay_loop_lem [] st k d h = refl
  replay_loop_lem (r ∷ records) st k d h = elim (Result-cases (replay_one r st).0) [
    | inr (e, g) ↦ absurd (err_not_ok e tt (rw g at h))
    | inl (u, g) ↦
        let one = replay_one_lem r st k d g in
        rw (g, ← one)
          (replay_loop_lem records (replay_one r st).1 k (replay_one-Distinct r st d) (rw g at h))
  ]

  module _ (records : List WalRecord) where
    replay_parts :
        (st : StorageBackend F) (n : ℕ)
        → (replay records st).0 ≡ ok n
        → ((replay_loop records st).0 ≡ ok tt)
          × (n ≡ length records)
          × ((replay records st).1 ≡ (replay_loop records st).1)
    unfolding replay
    replay_parts st n h = elim (Result-cases (replay_loop records st).0) [
      | inr (e, g) ↦ absurd (err_not_ok e n (rw g at h))
      | inl (u, g) ↦ (g, counted (rw g at h), rw g refl)
    ]
      where
        counted : ok (length records) ≡ ok n → n ≡ length records
        counted h = cc

    pub replay-Distinct :
        (st : StorageBackend F) (n : ℕ)
        → Distinct (entries view st)
        → (replay records st).0 ≡ ok n
        → Distinct (entries view (replay records st).1)
    replay-Distinct st n d h =
        let (done, count, same) = replay_parts st n h in rw same (replay_loop-Distinct records st d)

    -- A replay that succeeds has applied every record: each key then holds what the last record with
    -- that key wrote, nothing if that was a delete, and what it held before if no record has the key.
    pub replay_lem :
        (st : StorageBackend F) (n : ℕ)
        → Distinct (entries view st)
        → (replay records st).0 ≡ ok n
        → (n ≡ length records)
          × ((k : Bytes)
              → lookup k (entries view (replay records st).1)
                ≡ after records k (lookup k (entries view st)))
    replay_lem st n d h =
        let (done, count, same) = replay_parts st n h in
        (count, λ k. rw same (replay_loop_lem records st k d done))
