-- ===== src/Node/Wal/Recovery.antt =====
-- wal.rs: the state of an open segment against the records it holds. `append` adds one record,
-- `rotate` drops them and keeps the count, and `open` finds them again behind a torn tail.
use ferriskv.Prelude.{
  ℕ, ◌+◌, ◌-◌, ◌^◌, ◌≤◌, ◌<◌, ◌≡◌, refl, sym, ap, ◌∙◌, false, none, some, List, [], ◌∷◌, ◌++◌,
  arith, append_assoc, append-nil, length, take, drop, length-append, drop-append_length,
  take-append_length, All, All-append, max, ltb, Bool-cases, inl, inr, if◌then◌else◌,
}
use ferriskv.Prelude.Bytes.{Bytes, is_empty}
use ferriskv.Prelude.Words.{IsU32, saturating_add}
use ferriskv.Core.Error.{ok}
use ferriskv.Node.Wal.{
  WalOp, WalRecord, encode_header, parse_header, frame, parse_frame, parse_frames,
}
use ferriskv.Node.Wal.Frame.{Fits, length-frame}
use ferriskv.Node.Wal.Frames.{frames, frames-append, parse_frames-frames}
use ferriskv.Node.Wal.Header.{length-encode_header, parse_header-encode_header}
use ferriskv.Node.Wal.Writer.{done, Writer, flush, write_all}
use ferriskv.Node.Wal.Segment.{
  Recovery, Wal, last_seq, unwrap_or, recover, open_file, record_of, append, rotate,
}

-- The records are numbered from `base` on.
abbrev pub Counts : ℕ → List WalRecord → Type 0
Counts base [] = Unit
Counts base (r ∷ rs) = (r.seq ≡ base) × Counts (base + 1) rs

Counts-append :
    (base : ℕ) (rs : List WalRecord) (r : WalRecord)
    → Counts base rs
    → r.seq ≡ base + length rs
    → Counts base (rs ++ (r ∷ []))
Counts-append base [] r c h = (omega arith, tt)
Counts-append base (s ∷ rs) r c h = (c.0, Counts-append (base + 1) rs r c.1 (omega arith))

last_seq-Counts :
    (base : ℕ) (r : WalRecord) (rs : List WalRecord)
    → Counts base (r ∷ rs)
    → base + length (r ∷ rs) < 2 ^ 64
    → last_seq (r ∷ rs) ≡ some (base + length (r ∷ rs))
last_seq-Counts base r [] c h = ap some (omega arith)
last_seq-Counts base r (s ∷ rs) c h =
    last_seq-Counts (base + 1) s rs c.1 (omega arith) ∙ ap some (omega arith)

next_seq-Counts :
    (base : ℕ) (rs : List WalRecord)
    → Counts base rs
    → base + length rs < 2 ^ 64
    → max (unwrap_or (last_seq rs) base) base ≡ base + length rs
next_seq-Counts base [] c h = omega arith
next_seq-Counts base (r ∷ rs) c h = rw (last_seq-Counts base r rs c h) (omega arith)

-- A write that the disk accepts, from an empty buffer, reaches the file whole once it is flushed.
write_flush_done : (bs : Bytes) (wr : Writer) → wr.buffer ≡ [] → (write_all done bs wr).0 ≡ ok tt
unfolding write_all
write_flush_done bs wr e = ground arith

flush-write_all :
    (bs : Bytes) (wr : Writer)
    → wr.buffer ≡ []
    → flush done (write_all done bs wr).1 ≡ (ok tt, record { file = wr.file ++ bs; buffer = [] })
unfolding write_all
flush-write_all bs wr e = ground (arith, append-nil wr.file, append-nil (wr.file ++ bs))

-- What `open` reports of a segment that holds `rs`, with `torn` behind them.
abbrev pub report : Wal → List WalRecord → Bytes → Recovery
report w rs torn = record {
  records = rs;
  truncated_bytes = length torn;
  next_seq = w.next_seq;
  segment_bytes = w.segment_bytes;
}

module _ (crc32 : Bytes → ℕ) where
  pub record Holds (w : Wal) (base : ℕ) (rs : List WalRecord) : Type 0 where
    pub file : w.writer.file ≡ encode_header base ++ frames crc32 rs
    pub buffer : w.writer.buffer ≡ []
    pub size : w.segment_bytes ≡ length w.writer.file
    pub seqs : Counts base rs
    pub next : w.next_seq ≡ base + length rs
    pub fit : All Fits rs
    pub bound : w.next_seq < 2 ^ 64

  pub append_done :
      (op : WalOp) (key value : Bytes) (w : Wal)
      → w.writer.buffer ≡ []
      → append crc32 done done op key value w ≡ (
        ok w.next_seq,
        record {
          writer = record {
            file = w.writer.file ++ frame crc32 (record_of w op key value);
            buffer = [];
          };
          next_seq = saturating_add w.next_seq 1;
          segment_bytes =
              saturating_add w.segment_bytes (length (frame crc32 (record_of w op key value)));
        },
      )
  unfolding append
  append_done op key value w e =
      let bs = frame crc32 (record_of w op key value) in
      ground (arith, write_flush_done bs w.writer e, flush-write_all bs w.writer e)

  -- The room for one record more: the counters stay below 2 ^ 64, the fields fit 32 bits.
  pub record HasRoom (w : Wal) (op : WalOp) (key value : Bytes) : Type 0 where
    pub key_fits : IsU32 (length key)
    pub value_fits : IsU32 (length value)
    pub seq_room : w.next_seq + 1 < 2 ^ 64
    pub byte_room : w.segment_bytes + (21 + length key + length value) < 2 ^ 64

  pub append-Holds :
      (op : WalOp) (key value : Bytes) (w : Wal) (base : ℕ) (rs : List WalRecord)
      → Holds w base rs
      → HasRoom w op key value
      → ((append crc32 done done op key value w).0 ≡ ok w.next_seq)
        × Holds
            (append crc32 done done op key value w).1
            base
            (rs ++ (record_of w op key value ∷ []))
  append-Holds op key value w base rs h room =
      let r = record_of w op key value in
      let len : length (frame crc32 r) ≡ 21 + length key + length value =
        omega (arith, length-frame crc32 r) in
      let fr : frames crc32 (r ∷ []) ≡ frame crc32 r =
        unfold frames in append-nil (frame crc32 r) in
      rw (append_done op key value w h.buffer) (
        refl,
        record {
          file =
              rw (h.file, frames-append crc32 rs (r ∷ []), fr)
                (append_assoc (encode_header base) (frames crc32 rs) (frame crc32 r));
          buffer = refl;
          size =
              omega
                (arith, h.size, room.byte_room, len, length-append w.writer.file (frame crc32 r));
          seqs = Counts-append base rs r h.seqs h.next;
          next = omega (arith, h.next, room.seq_room, length-append rs (r ∷ []));
          fit = All-append Fits rs (r ∷ []) h.fit (
            record { seq_fits = h.bound; key_fits = room.key_fits; value_fits = room.value_fits },
            tt,
          );
          bound = omega (arith, room.seq_room);
        },
      )

  pub append_grows :
      (op : WalOp) (key value : Bytes) (w : Wal)
      → w.writer.buffer ≡ []
      → (append crc32 done done op key value w).1.segment_bytes
          + (append crc32 done done op key value w).1.next_seq
        ≤ w.segment_bytes + w.next_seq + (22 + length key + length value)
  append_grows op key value w e =
      rw (append_done op key value w e)
        (omega (arith, length-frame crc32 (record_of w op key value)))

  pub rotate-Holds :
      (w : Wal) (base : ℕ) (rs : List WalRecord)
      → Holds w base rs
      → ((rotate done done w).0 ≡ ok tt) × Holds (rotate done done w).1 w.next_seq []
  unfolding rotate flush frames
  rotate-Holds w base rs h = (
    refl,
    record {
      file = sym (append-nil (encode_header w.next_seq));
      buffer = refl;
      size = sym (length-encode_header w.next_seq);
      seqs = tt;
      next = omega arith;
      fit = tt;
      bound = h.bound;
    },
  )

  pub rotate_shrinks :
      (w : Wal) (base : ℕ) (rs : List WalRecord)
      → Holds w base rs
      → (rotate done done w).1.segment_bytes + (rotate done done w).1.next_seq
        ≤ w.segment_bytes + w.next_seq
  unfolding rotate flush
  rotate_shrinks w base rs h =
      let size : w.segment_bytes ≡ 14 + length (frames crc32 rs) =
        h.size
        ∙ rw h.file (
            omega (
              arith,
              length-append (encode_header base) (frames crc32 rs),
              length-encode_header base,
            )) in
      omega (arith, size)

  module _ (crc_fits : (b : Bytes) → IsU32 (crc32 b)) (w : Wal) (base : ℕ) (rs : List WalRecord)
      (torn : Bytes) (h : Holds w base rs) (t : parse_frame crc32 torn ≡ none) where
    abbrev reopened : Bytes
    reopened = w.writer.file ++ torn

    reopened_split : reopened ≡ encode_header base ++ (frames crc32 rs ++ torn)
    reopened_split = rw h.file (append_assoc (encode_header base) (frames crc32 rs) torn)

    parsed : parse_frames crc32 (drop 14 reopened) ≡ (rs, length (frames crc32 rs))
    parsed =
        let behind =
          drop-append_length 14 (encode_header base) (frames crc32 rs ++ torn)
            (length-encode_header base) in
        rw (reopened_split, behind) (parse_frames-frames crc32 crc_fits torn t rs h.fit)

    valid : 14 + length (frames crc32 rs) ≡ length w.writer.file
    valid = rw h.file (
        omega
          (arith, length-append (encode_header base) (frames crc32 rs), length-encode_header base))

    cut :
        (if ltb 0 (length torn) then take (length w.writer.file) reopened else reopened)
        ≡ w.writer.file
    cut = elim (Bool-cases (ltb 0 (length torn))) [
      | inl some_left ↦
          rw some_left (take-append_length (length w.writer.file) w.writer.file torn refl)
      | inr none_left ↦ rw none_left (no_tail torn none_left)
    ]
      where
        no_tail : (x : Bytes) → ltb 0 (length x) ≡ false → w.writer.file ++ x ≡ w.writer.file
        no_tail [] e = append-nil w.writer.file
        no_tail (b ∷ x) e = ground arith

    recover-Holds : recover crc32 reopened base ≡ (w, report w rs torn)
    unfolding recover
    recover-Holds =
        let left : length reopened - length w.writer.file ≡ length torn =
          omega (arith, length-append w.writer.file torn) in
        let seq : max (unwrap_or (last_seq rs) base) base ≡ w.next_seq =
          next_seq-Counts base rs h.seqs (omega (arith, h.next, h.bound)) ∙ sym h.next in
        rw (parsed, valid, left, seq, cut) (cc (h.size, h.buffer))

    is_empty-reopened : is_empty reopened ≡ false
    is_empty-reopened = rw reopened_split (unfold encode_header in refl)

    pub open_file-Holds : open_file crc32 (some reopened) ≡ ok (w, report w rs torn)
    unfolding open_file
    open_file-Holds =
        let header : parse_header reopened ≡ ok base = rw reopened_split (
          parse_header-encode_header base (frames crc32 rs ++ torn)
            (omega (arith, h.next, h.bound))) in
        rw (is_empty-reopened, header, recover-Holds)
