-- ===== src/Node/Wal/Examples.antt =====
-- wal.rs at concrete segments. The checksum is 0 throughout, a function that meets what is assumed.
use ferriskv.Prelude.{
  ◌+◌, ◌≤◌, ◌≡◌, ℕ, refl, none, some, List, [], ◌∷◌, ◌++◌, arith, length, take, slice,
  if◌then◌else◌, ◌==◌,
}
use ferriskv.Prelude.Bytes.{Bytes}
use ferriskv.Prelude.Words.{IsU32, to_le_bytes, from_le_bytes}
use ferriskv.Core.Error.{ok, err, corrupt, io}
use ferriskv.Node.Wal.{WalRecord, put, delete, frame, parse_frame, parse_frames, encode_header}
use ferriskv.Node.Wal.Frame.{Fits, parse_frame-frame}
use ferriskv.Node.Wal.Accepts.{parse_frame_torn}
use ferriskv.Node.Wal.Written.{parse_frame_written}
use ferriskv.Node.Wal.Split.{IsSplit, parse_frames-IsSplit}
use ferriskv.Node.Wal.Segment.{
  Wal, new_wal, open_file, append as append_record, rotate as rotate_wal,
}
use ferriskv.Node.Wal.Writer.{done, stops_after}
use ferriskv.Node.Wal.Interrupted.{first_recovery, open_file-rotate_cut, append-rotate_cut}
use ferriskv.Node.Wal.Recovery.{report}
use ferriskv.Node.Wal.Trace.{
  Command, append, rotate, restart, run, log_run, empty_log, restart_finds_log,
}

abbrev no_crc : Bytes → ℕ
no_crc b = 0

no_crc_fits : (b : Bytes) → IsU32 (no_crc b)
no_crc_fits b = omega arith

abbrev entry : WalRecord
entry = record { seq = 7; op = put; key = b'k' ∷ []; value = b'v' ∷ [] }

entry-Fits : Fits entry
entry-Fits = omega arith

parse_frame-frame_example :
    parse_frame no_crc (frame no_crc entry ++ (1 ∷ [])) ≡ some (entry, length (frame no_crc entry))
parse_frame-frame_example = parse_frame-frame no_crc no_crc_fits entry (1 ∷ []) entry-Fits

parse_frame_torn_example : parse_frame no_crc (take 22 (frame no_crc entry)) ≡ none
unfolding frame to_le_bytes
parse_frame_torn_example = parse_frame_torn no_crc no_crc_fits entry 22 entry-Fits (omega arith)

abbrev delete_frame : Bytes
delete_frame =
    3 ∷ 0 ∷ 0 ∷ 0 ∷ 0 ∷ 0 ∷ 0 ∷ 0 ∷ 2 ∷ 1 ∷ 0 ∷ 0 ∷ 0 ∷ 9 ∷ 0 ∷ 0 ∷ 0 ∷ 0 ∷ 0 ∷ 0 ∷ 0 ∷ 0 ∷ []

abbrev deleted : WalRecord
deleted = record { seq = 3; op = delete; key = 9 ∷ []; value = [] }

parse_frame_written_example :
    (take 22 delete_frame ≡ frame no_crc deleted) × (22 ≤ length delete_frame) × Fits deleted
unfolding parse_frame slice from_le_bytes
parse_frame_written_example = parse_frame_written no_crc delete_frame deleted 22 (omega arith) refl

parse_frames-IsSplit_example : IsSplit no_crc delete_frame (parse_frames no_crc delete_frame)
parse_frames-IsSplit_example = parse_frames-IsSplit no_crc delete_frame (omega arith)

abbrev script : List Command
script = append put (1 ∷ []) (2 ∷ []) ∷ restart [] ∷ rotate ∷ append delete (1 ∷ []) [] ∷ []

abbrev first_wal : Wal
first_wal = new_wal (encode_header 0) first_recovery

restart_finds_log_example :
    (w : Wal) × (run no_crc script first_wal ≡ ok w)
    × (open_file no_crc (some (w.writer.file ++ (0xab ∷ 0xab ∷ [])))
        ≡ ok (w, report w (log_run script empty_log).records (0xab ∷ 0xab ∷ [])))
    × (w.next_seq ≡ (log_run script empty_log).base + length (log_run script empty_log).records)
unfolding open_file parse_frame
restart_finds_log_example =
    restart_finds_log no_crc no_crc_fits script (0xab ∷ 0xab ∷ []) first_wal first_recovery refl
      (omega arith, (refl, (tt, (omega arith, tt)))) (omega arith) refl

open_file-rotate_cut_example :
    ((rotate_wal done (stops_after 3 "disk full") first_wal).0 ≡ err (io "disk full"))
    × (open_file no_crc (some (rotate_wal done (stops_after 3 "disk full") first_wal).1.writer.file)
        ≡ (if 3 == 0
            then ok (new_wal (encode_header 0) first_recovery, first_recovery)
            else err (corrupt "wal header is truncated")))
open_file-rotate_cut_example =
    open_file-rotate_cut no_crc 3 "disk full" first_wal (omega arith) refl

append-rotate_cut_example :
    let w' = (rotate_wal done (stops_after 0 "disk full") first_wal).1 in
    ((append_record no_crc done done put (1 ∷ []) [] w').0 ≡ ok 0)
    × (open_file no_crc (some (append_record no_crc done done put (1 ∷ []) [] w').1.writer.file)
        ≡ err (corrupt "file is not a ferriskv wal segment"))
append-rotate_cut_example =
    append-rotate_cut no_crc "disk full" put (1 ∷ []) [] first_wal refl (omega arith)
