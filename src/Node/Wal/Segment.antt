-- ===== src/Node/Wal/Segment.antt =====
-- wal.rs: `Wal` with `open`, `append`, `sync` and `rotate`. The path and the directory are not
-- modelled, and the calls on the file in `open` succeed; those of the others are given an `Io`.
use mathlib.Core.Option
use ferriskv.Prelude.{
  ℕ, ◌+◌, ◌-◌, Option, none, some, List, [], ◌∷◌, ltb, if◌then◌else◌, length, take, drop, max,
}
use ferriskv.Prelude.Bytes.{Bytes, is_empty}
use ferriskv.Prelude.Words.{saturating_add}
use ferriskv.Core.Error.{Result, ok, err, ◌>>=◌}
use ferriskv.Node.Wal.{
  WalOp, WalRecord, header_len, encode_header, parse_header, frame, parse_frames,
}
use ferriskv.Node.Wal.Writer.{Io, Writer, outcome, accepted, flush, write_all}

pub record Recovery : Type 0 where
  pub records : List WalRecord
  pub truncated_bytes : ℕ
  pub next_seq : ℕ
  pub segment_bytes : ℕ

pub record Wal : Type 0 where
  pub writer : Writer
  pub next_seq : ℕ
  pub segment_bytes : ℕ

-- `records.last().map(|r| r.seq.saturating_add(1))`
abbrev pub last_seq : List WalRecord → Option ℕ
last_seq [] = none
last_seq (r ∷ []) = some (saturating_add r.seq 1)
last_seq (r ∷ s ∷ rs) = last_seq (s ∷ rs)

abbrev pub unwrap_or : Option ℕ → ℕ → ℕ
unwrap_or none d = d
unwrap_or (some a) d = a

abbrev pub new_wal : Bytes → Recovery → Wal
new_wal file r = record {
  writer = record { file = file; buffer = [] };
  next_seq = r.next_seq;
  segment_bytes = r.segment_bytes;
}

-- The record that `append` writes.
abbrev pub record_of : Wal → WalOp → Bytes → Bytes → WalRecord
record_of w op key value = record { seq = w.next_seq; op = op; key = key; value = value }

module _ (crc32 : Bytes → ℕ) where
  -- What `open` finds in a file that is not empty, once the header is read.
  unfoldable pub recover : Bytes → ℕ → Wal × Recovery
  recover buf base_seq =
      let (records, consumed) = parse_frames crc32 (drop header_len buf) in
      let valid_len = header_len + consumed in
      let recovery : Recovery = record {
        records = records;
        truncated_bytes = length buf - valid_len;
        next_seq = max (unwrap_or (last_seq records) base_seq) base_seq;
        segment_bytes = valid_len;
      } in
      (
        new_wal (if ltb 0 (length buf - valid_len) then take valid_len buf else buf) recovery,
        recovery,
      )

  -- The argument is the content of the file, `none` where there is none yet.
  unfoldable pub open_file : Option Bytes → Result (Wal × Recovery)
  unfolding recover
  open_file file =
      let buf = Option.get_or file [] in
      let fresh : Recovery = record {
        records = [];
        truncated_bytes = 0;
        next_seq = 0;
        segment_bytes = header_len;
      } in
      if is_empty buf
      then ok (new_wal (encode_header 0) fresh, fresh)
      else do base_seq ← parse_header buf; ok (recover buf base_seq)

  -- The statements of `append` behind `write_all`, and those behind `flush`.
  append_flushed : Wal → Bytes → Result (Unit {0}) × Writer → Result ℕ × Wal
  append_flushed w bs (err e, wr) = (err e, record w { writer = wr })
  append_flushed w bs (ok u, wr) = (
    ok w.next_seq,
    record {
      writer = wr;
      next_seq = saturating_add w.next_seq 1;
      segment_bytes = saturating_add w.segment_bytes (length bs);
    },
  )

  append_written : Io → Wal → Bytes → Result (Unit {0}) × Writer → Result ℕ × Wal
  append_written d w bs (err e, wr) = (err e, record w { writer = wr })
  append_written d w bs (ok u, wr) = append_flushed w bs (flush d wr)

  -- `write_io` and `flush_io` are what the disk accepts in the two calls.
  unfoldable pub append : Io → Io → WalOp → Bytes → Bytes → Wal → Result ℕ × Wal
  unfolding append_flushed append_written
  append write_io flush_io op key value w =
      let bs = frame crc32 (record_of w op key value) in
      append_written flush_io w bs (write_all write_io bs w.writer)

unfoldable pub sync : Io → Wal → Result (Unit {0}) × Wal
sync d w = let (r, wr) = flush d w.writer in (r, record w { writer = wr })

-- The old file is truncated before the new header is written.
rotate_header : Io → Wal → ℕ → Result (Unit {0}) × Wal
rotate_header d w base_seq =
    let header = encode_header base_seq in
    let w' : Wal = record w {
      writer = record { file = accepted d header; buffer = w.writer.buffer };
    } in
    elim (outcome d header) [
      | err e ↦ (err e, w')
      | ok u ↦ (
        ok tt,
        record w' { writer = record w'.writer { buffer = [] }; segment_bytes = header_len },
      )
    ]

rotate_flushed : Io → Wal → Result (Unit {0}) × Writer → Result (Unit {0}) × Wal
rotate_flushed d w (err e, wr) = (err e, record w { writer = wr })
rotate_flushed d w (ok u, wr) = rotate_header d (record w { writer = wr }) w.next_seq

unfoldable pub rotate : Io → Io → Wal → Result (Unit {0}) × Wal
unfolding rotate_header rotate_flushed
rotate flush_io header_io w = rotate_flushed header_io w (flush flush_io w.writer)
