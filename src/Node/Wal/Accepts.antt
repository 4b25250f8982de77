-- ===== src/Node/Wal/Accepts.antt =====
-- wal.rs: what `parse_frame` has tested when it returns a record.
use ferriskv.Prelude.{
  ℕ, ◌+◌, ◌^◌, ◌≤◌, ◌<◌, ◌≡◌, inl, inr, ap, none, some, [], ◌++◌, arith, length, get_or, take, drop,
  slice, length-append, length-take, take-append-drop, Option-cases, slice-append, get_or-append,
  append-nil,
}
use ferriskv.Prelude.Bytes.{Bytes}
use ferriskv.Prelude.Words.{IsU32, from_le_bytes}
use ferriskv.Node.Wal.{from_u8, WalRecord, frame, parse_frame}
use ferriskv.Node.Wal.Frame.{Fits, parse_frame-frame}

module _ (buf : Bytes) where
  abbrev pub klen : ℕ
  klen = from_le_bytes (slice 9 13 buf)

  abbrev pub vlen : ℕ
  vlen = from_le_bytes (slice (13 + klen) (13 + klen + 4) buf)

  abbrev pub body_end : ℕ
  body_end = 13 + klen + 4 + vlen

module _ (crc32 : Bytes → ℕ) where
  pub record Accepted (buf : Bytes) (r : WalRecord) (n : ℕ) : Type 0 where
    pub len : n ≡ body_end buf + 4
    pub fits : body_end buf + 4 ≤ length buf
    pub small : body_end buf + 4 < 2 ^ 64
    pub seq : r.seq ≡ from_le_bytes (slice 0 8 buf)
    pub op : from_u8 (get_or buf 8 0) ≡ some r.op
    pub key : r.key ≡ slice 13 (13 + klen buf) buf
    pub value : r.value ≡ slice (13 + klen buf + 4) (body_end buf) buf
    pub crc :
        crc32 (slice 0 (body_end buf) buf)
        ≡ from_le_bytes (slice (body_end buf) (body_end buf + 4) buf)

  pub accepted :
      (buf : Bytes) (r : WalRecord) (n : ℕ) → parse_frame crc32 buf ≡ some (r, n) → Accepted buf r n
  unfolding parse_frame
  accepted buf r n h = ground arith

  parse_accepted :
      (buf : Bytes) (r : WalRecord) (n : ℕ) → Accepted buf r n → parse_frame crc32 buf ≡ some (r, n)
  unfolding parse_frame
  parse_accepted buf r n a = ground arith

  -- Bytes behind an accepted frame do not change what is read of it.
  module _ (buf rest : Bytes) (r : WalRecord) (n : ℕ) (a : Accepted buf r n) where
    klen-append : klen (buf ++ rest) ≡ klen buf
    klen-append =
        ap from_le_bytes (slice-append 9 13 buf rest (omega arith) (omega (arith, a.fits)))

    vlen-slice : from_le_bytes (slice (13 + klen buf) (13 + klen buf + 4) (buf ++ rest)) ≡ vlen buf
    vlen-slice = ap from_le_bytes (
        slice-append (13 + klen buf) (13 + klen buf + 4) buf rest (omega arith)
          (omega (arith, a.fits)))

    vlen-append : vlen (buf ++ rest) ≡ vlen buf
    vlen-append = rw klen-append vlen-slice

    accepted-append : Accepted (buf ++ rest) r n
    accepted-append =
        let e : body_end (buf ++ rest) ≡ body_end buf = omega (arith, klen-append, vlen-append) in
        record {
          len = rw e a.len;
          fits = rw e (omega (arith, a.fits, length-append buf rest));
          small = rw e a.small;
          seq = rw (slice-append 0 8 buf rest (omega arith) (omega (arith, a.fits))) a.seq;
          op = rw (get_or-append 8 buf rest 0 (omega (arith, a.fits))) a.op;
          key =
              rw
                (
                  klen-append,
                  slice-append 13 (13 + klen buf) buf rest (omega arith) (omega (arith, a.fits)),
                )
                a.key;
          value =
              rw
                (
                  klen-append,
                  vlen-slice,
                  slice-append (13 + klen buf + 4) (body_end buf) buf rest (omega arith)
                      (omega (arith, a.fits)),
                )
                a.value;
          crc =
              rw
                (
                  e,
                  slice-append 0 (body_end buf) buf rest (omega arith) (omega (arith, a.fits)),
                  slice-append (body_end buf) (body_end buf + 4) buf rest (omega arith)
                      (omega (arith, a.fits)),
                )
                a.crc;
        }

  pub parse_frame-append :
      (buf rest : Bytes) (r : WalRecord) (n : ℕ)
      → parse_frame crc32 buf ≡ some (r, n)
      → parse_frame crc32 (buf ++ rest) ≡ some (r, n)
  parse_frame-append buf rest r n h =
      parse_accepted (buf ++ rest) r n (accepted-append buf rest r n (accepted buf r n h))

  pub parse_frame-le :
      (buf : Bytes) (r : WalRecord) (n : ℕ)
      → parse_frame crc32 buf ≡ some (r, n)
      → (21 ≤ n) × (n ≤ length buf)
  parse_frame-le buf r n h =
      let a = accepted buf r n h in (omega (arith, a.len), omega (arith, a.len, a.fits))

  -- A write of a frame that was cut short is no frame: what the first `n` bytes of a frame parse to
  -- is nothing, for each `n` below the frame's length, if the checksum has 32 bits and the fields of
  -- the record fit the frame's (the lengths of key and value 32 bits, the sequence number 64).
  pub parse_frame_torn :
      (crc_fits : (b : Bytes) → IsU32 (crc32 b)) (r : WalRecord) (n : ℕ)
      → Fits r
      → n < length (frame crc32 r)
      → parse_frame crc32 (take n (frame crc32 r)) ≡ none
  parse_frame_torn crc_fits r n f h =
      elim (Option-cases (parse_frame crc32 (take n (frame crc32 r)))) [
        | inl e ↦ e
        | inr ((s, m), e) ↦
            let whole =
              parse_frame-append (take n (frame crc32 r)) (drop n (frame crc32 r)) s m e in
            let joined = rw (take-append-drop n (frame crc32 r)) at whole in
            let same = rw (append-nil) at (parse_frame-frame crc32 crc_fits r [] f) in
            let long : m ≡ length (frame crc32 r) = cc in
            absurd (
              omega (
                arith,
                long,
                (parse_frame-le (take n (frame crc32 r)) s m e).1,
                length-take n (frame crc32 r),
              ))
      ]
