-- ===== src/Node/Wal/Interrupted.antt =====
-- wal.rs: a rotation that ends between the truncation of the file and the end of its header, as a
-- full disk or a crash can make it.
use ferriskv.Prelude.{
  ℕ, suc, zero, ◌^◌, ◌<◌, ◌≤◌, ◌≡◌, ◌∙◌, refl, String, some, [], ◌∷◌, arith, length, take,
  length-take, if◌then◌else◌, ◌==◌, false, slice,
}
use ferriskv.Prelude.Bytes.{Bytes, is_empty, bytes_eq}
use ferriskv.Prelude.Words.{to_le_bytes}
use ferriskv.Core.Error.{ok, err, corrupt, io}
use ferriskv.Node.Wal.{WalOp, magic, encode_header, parse_header, frame, frame_body}
use ferriskv.Node.Wal.Frame.{length-frame}
use ferriskv.Node.Wal.Header.{length-encode_header}
use ferriskv.Node.Wal.Writer.{done, stops_after, flush}
use ferriskv.Node.Wal.Segment.{Wal, Recovery, open_file, append, rotate, record_of, new_wal}
use ferriskv.Node.Wal.Recovery.{append_done}

abbrev pub first_recovery : Recovery
first_recovery = record { records = []; truncated_bytes = 0; next_seq = 0; segment_bytes = 14 }

rotate_cut_lem :
    (n : ℕ) (message : String) (w : Wal)
    → n < 14
    → w.writer.buffer ≡ []
    → rotate done (stops_after n message) w ≡ (
      err (io message),
      record w { writer = record { file = take n (encode_header w.next_seq); buffer = [] } },
    )
unfolding rotate flush
rotate_cut_lem n message w h e = ground (arith, length-encode_header w.next_seq)

open_file_short :
    (crc32 : Bytes → ℕ) (buf : Bytes)
    → is_empty buf ≡ false
    → length buf < 14
    → open_file crc32 (some buf) ≡ err (corrupt "wal header is truncated")
unfolding open_file parse_header
open_file_short crc32 buf e h = ground arith

-- Where the new header is cut short after `n` of its 14 bytes, the rotation fails, and the next
-- `open` numbers records from 0 again if none was written, and refuses the file if some were.
pub open_file-rotate_cut :
    (crc32 : Bytes → ℕ) (n : ℕ) (message : String) (w : Wal)
    → n < 14
    → w.writer.buffer ≡ []
    → ((rotate done (stops_after n message) w).0 ≡ err (io message))
      × (open_file crc32 (some (rotate done (stops_after n message) w).1.writer.file) ≡ (
          if n == 0
          then ok (new_wal (encode_header 0) first_recovery, first_recovery)
          else err (corrupt "wal header is truncated")))
open_file-rotate_cut crc32 n message w h e = rw (rotate_cut_lem n message w h e) (refl, cases n h)
  where
    cases :
        (m : ℕ)
        → m < 14
        → open_file crc32 (some (take m (encode_header w.next_seq))) ≡ (
            if m == 0
            then ok (new_wal (encode_header 0) first_recovery, first_recovery)
            else err (corrupt "wal header is truncated"))
    cases zero k = unfold open_file in refl
    cases (suc m) k =
        let buf = take (suc m) (encode_header w.next_seq) in
        let e : is_empty buf ≡ false = unfold encode_header in refl in
        open_file_short crc32 buf e (omega (arith, length-take (suc m) (encode_header w.next_seq)))
        ∙ ground arith

-- The first four bytes of a frame, as the header's are read.
magic_of_frame :
    (crc32 : Bytes → ℕ) (op : WalOp) (key value : Bytes) (w : Wal)
    → w.next_seq < 2 ^ 24
    → bytes_eq (slice 0 4 (frame crc32 (record_of w op key value))) magic ≡ false
unfolding frame frame_body to_le_bytes slice bytes_eq
magic_of_frame crc32 op key value w h = ground arith

open_file_foreign :
    (crc32 : Bytes → ℕ) (buf : Bytes)
    → 14 ≤ length buf
    → bytes_eq (slice 0 4 buf) magic ≡ false
    → open_file crc32 (some buf) ≡ err (corrupt "file is not a ferriskv wal segment")
unfolding open_file parse_header
open_file_foreign crc32 [] h e = absurd (omega arith)
open_file_foreign crc32 (b ∷ buf) h e = ground arith

-- Where nothing of the new header was written, the segment goes on accepting appends: the next one
-- succeeds, and the file that it leaves is refused by the next `open`, as long as fewer than 2 ^ 24
-- sequence numbers were handed out.
pub append-rotate_cut :
    (crc32 : Bytes → ℕ) (message : String) (op : WalOp) (key value : Bytes) (w : Wal)
    → w.writer.buffer ≡ []
    → w.next_seq < 2 ^ 24
    → let w' = (rotate done (stops_after 0 message) w).1 in
      ((append crc32 done done op key value w').0 ≡ ok w.next_seq)
      × (open_file crc32 (some (append crc32 done done op key value w').1.writer.file)
          ≡ err (corrupt "file is not a ferriskv wal segment"))
append-rotate_cut crc32 message op key value w e h =
    let cut : Wal = record w { writer = record { file = []; buffer = [] } } in
    rw (rotate_cut_lem 0 message w (omega arith) e, append_done crc32 op key value cut refl)
      (
        refl,
        open_file_foreign crc32 (frame crc32 (record_of cut op key value))
            (omega (arith, length-frame crc32 (record_of cut op key value)))
            (magic_of_frame crc32 op key value cut h),
      )
