-- ===== src/Node/Wal/Trace.antt =====
-- wal.rs: a segment over any sequence of appends, rotations and restarts refines an abstract log,
-- a list of records and the number of those dropped before it.
use ferriskv.Prelude.{
  ℕ, ◌+◌, ◌^◌, ◌≤◌, ◌<◌, ◌≡◌, refl, sym, none, some, List, [], ◌∷◌, ◌++◌, arith, append-nil, length,
  All, subst,
}
use ferriskv.Prelude.Bytes.{Bytes}
use ferriskv.Prelude.Words.{IsU32}
use ferriskv.Core.Error.{Result, ok, ◌>>=◌}
use ferriskv.Node.Wal.{WalOp, WalRecord, encode_header, parse_frame}
use ferriskv.Node.Wal.Frames.{frames}
use ferriskv.Node.Wal.Header.{length-encode_header}
use ferriskv.Node.Wal.Writer.{done}
use ferriskv.Node.Wal.Segment.{Wal, Recovery, open_file, record_of}
use ferriskv.Node.Wal.Segment as Segment
use ferriskv.Node.Wal.Recovery.{
  Holds, append-Holds, append_grows, rotate_shrinks, rotate-Holds, open_file-Holds, report,
}

-- `restart torn`: the process ends, with `torn` written behind the segment, and opens it again.
pub data Command : Type 0 where
  append : WalOp → Bytes → Bytes → Command
  rotate : Command
  restart : Bytes → Command

pub record Log : Type 0 where
  pub base : ℕ
  pub records : List WalRecord

abbrev pub log_step : Command → Log → Log
log_step (append op key value) l = record l {
  records =
      l.records
      ++ (record { seq = l.base + length l.records; op = op; key = key; value = value } ∷ []);
}
log_step rotate l = record { base = l.base + length l.records; records = [] }
log_step (restart torn) l = l

abbrev pub log_run : List Command → Log → Log
log_run [] l = l
log_run (c ∷ cs) l = log_run cs (log_step c l)

-- The bytes that a command adds to the segment, and one for its sequence number.
abbrev pub cost : Command → ℕ
cost (append op key value) = 22 + length key + length value
cost rotate = 0
cost (restart torn) = 0

abbrev pub costs : List Command → ℕ
costs [] = 0
costs (c ∷ cs) = cost c + costs cs

module _ (crc32 : Bytes → ℕ) where
  unfoldable pub step : Command → Wal → Result Wal
  step (append op key value) w =
      let (r, w') = Segment.append crc32 done done op key value w in (r >>= λ seq. ok w')
  step rotate w = let (r, w') = Segment.rotate done done w in (r >>= λ u. ok w')
  step (restart torn) w = open_file crc32 (some (w.writer.file ++ torn)) >>= λ found. ok found.0

  unfoldable pub run : List Command → Wal → Result Wal
  run [] w = ok w
  run (c ∷ cs) w = step c w >>= run cs

  -- Fields fit 32 bits, and what a crash left behind is no frame.
  abbrev pub IsAllowed : Command → Type 0
  IsAllowed (append op key value) = IsU32 (length key) × IsU32 (length value)
  IsAllowed rotate = Unit
  IsAllowed (restart torn) = parse_frame crc32 torn ≡ none

  module _ (crc_fits : (b : Bytes) → IsU32 (crc32 b)) where
    record Refines (c : Command) (w : Wal) (l : Log) : Type 0 where
      next : Wal
      step_ok : step c w ≡ ok next
      holds : Holds crc32 next (log_step c l).base (log_step c l).records
      room : next.segment_bytes + next.next_seq ≤ w.segment_bytes + w.next_seq + cost c

    step-Refines :
        (c : Command) (w : Wal) (l : Log)
        → Holds crc32 w l.base l.records
        → IsAllowed c
        → w.segment_bytes + w.next_seq + cost c < 2 ^ 64
        → Refines c w l
    unfolding step
    step-Refines (append op key value) w l h a room =
        let w' = (Segment.append crc32 done done op key value w).1 in
        let (r, held) = append-Holds crc32 op key value w l.base l.records h (record {
          key_fits = a.0;
          value_fits = a.1;
          seq_room = omega arith;
          byte_room = omega arith;
        }) in
        record {
          next = w';
          step_ok = rw r;
          holds =
              subst
                (λ n.
                  Holds crc32 w' l.base
                    (l.records ++ (record { seq = n; op = op; key = key; value = value } ∷ [])))
                h.next held;
          room = append_grows crc32 op key value w h.buffer;
        }
    step-Refines rotate w l h a room =
        let (r, held) = rotate-Holds crc32 w l.base l.records h in
        record {
          next = (Segment.rotate done done w).1;
          step_ok = rw r;
          holds = rw (← h.next) held;
          room = omega (arith, rotate_shrinks crc32 w l.base l.records h);
        }
    step-Refines (restart torn) w l h a room = record {
      next = w;
      step_ok = rw (open_file-Holds crc32 crc_fits w l.base l.records torn h a);
      holds = h;
      room = omega arith;
    }

    run-Holds :
        (cs : List Command) (w : Wal) (l : Log)
        → Holds crc32 w l.base l.records
        → All IsAllowed cs
        → w.segment_bytes + w.next_seq + costs cs < 2 ^ 64
        → (w' : Wal) × (run cs w ≡ ok w')
          × Holds crc32 w' (log_run cs l).base (log_run cs l).records
    unfolding run
    run-Holds [] w l h a room = (w, refl, h)
    run-Holds (c ∷ cs) w l h a room =
        let s = step-Refines c w l h a.0 (omega arith) in
        let (w', r, held) =
          run-Holds cs s.next (log_step c l) s.holds a.1 (omega (arith, s.room)) in
        (w', rw s.step_ok r, held)

  -- A segment that `open` has just created.
  abbrev created : Wal
  created = record {
    writer = record { file = encode_header 0; buffer = [] };
    next_seq = 0;
    segment_bytes = 14;
  }

  created-Holds : Holds crc32 created 0 []
  unfolding frames
  created-Holds = record {
    file = sym (append-nil (encode_header 0));
    buffer = refl;
    size = sym (length-encode_header 0);
    seqs = tt;
    next = omega arith;
    fit = tt;
    bound = omega arith;
  }

  open_file-created :
      (w : Wal) (found : Recovery) → open_file crc32 none ≡ ok (w, found) → w ≡ created
  unfolding open_file
  open_file-created w found h = cc

abbrev pub empty_log : Log
empty_log = record { base = 0; records = [] }

-- Open a segment that does not exist, run any appends, rotations and restarts, and open it once
-- more with a torn tail behind it. All of them succeed, and the last returns the records of the
-- abstract log, the length of the torn tail as what it dropped, the next sequence number of the
-- log, and the very state that the segment had. It needs that the checksum has 32 bits, that the
-- fields fit 32 bits, that no tail is a frame, and that the bytes and the sequence numbers that
-- are ever written fit 64 bits; and the disk accepts every write whole.
pub restart_finds_log :
    (crc32 : Bytes → ℕ) (crc_fits : (b : Bytes) → IsU32 (crc32 b)) (cs : List Command)
    (torn : Bytes) (start : Wal) (found : Recovery)
    → open_file crc32 none ≡ ok (start, found)
    → All (IsAllowed crc32) cs
    → 14 + costs cs < 2 ^ 64
    → parse_frame crc32 torn ≡ none
    → (w : Wal) × (run crc32 cs start ≡ ok w)
      × (open_file crc32 (some (w.writer.file ++ torn))
          ≡ ok (w, report w (log_run cs empty_log).records torn))
      × (w.next_seq ≡ (log_run cs empty_log).base + length (log_run cs empty_log).records)
restart_finds_log crc32 crc_fits cs torn start found h a room t =
    let e = open_file-created crc32 start found h in
    let (w, r, held) =
      run-Holds crc32 crc_fits cs (created crc32) empty_log (created-Holds crc32) a (omega arith) in
    (w, rw e r, open_file-Holds crc32 crc_fits w _ _ torn held t, held.next)
