-- ===== src/Node/Wal/Written.antt =====
-- wal.rs: the bytes that `parse_frame` reads a record from are the frame that `append` writes of it.
use ferriskv.Prelude.{
  ℕ, ◌+◌, ◌%◌, ◌^◌, ◌≤◌, ◌<◌, ◌≡◌, sym, ap, ◌∙◌, some, ◌∷◌, ◌++◌, arith, length, get_or, take,
  slice, length-slice, All-slice, slice-append-slice, get_or-cons-slice, slice_from_zero,
}
use ferriskv.Prelude.Bytes.{Bytes, IsByte, AreBytes}
use ferriskv.Prelude.Words.{to_le_bytes, from_le_bytes, to_le_bytes-from_le_bytes, from_le_bytes-lt}
use ferriskv.Node.Wal.{WalRecord, frame_body, frame, parse_frame}
use ferriskv.Node.Wal.Frame.{Fits, to_u8-from_u8}
use ferriskv.Node.Wal.Accepts.{Accepted, accepted, klen, vlen, body_end}

-- A field of `w` bytes, read as a number and written again.
field_again :
    (w a b : ℕ) (buf : Bytes)
    → AreBytes buf
    → a ≤ b
    → b ≤ length buf
    → a + w ≡ b
    → (to_le_bytes w (from_le_bytes (slice a b buf)) ≡ slice a b buf)
      × (from_le_bytes (slice a b buf) < 256 ^ w)
field_again w a b buf bytes h k e =
    let len : length (slice a b buf) ≡ w = omega (arith, length-slice a b buf h k) in
    let all = All-slice IsByte a b buf bytes in
    (
      to_le_bytes-from_le_bytes w (slice a b buf) all len,
      from_le_bytes-lt w (slice a b buf) all len,
    )

-- The fields of a frame, one behind the other.
joined :
    (buf : Bytes) (k v : ℕ)
    → 13 + k + 4 + v ≤ length buf
    → slice 0 8 buf
        ++ (get_or buf 8 0
            ∷ (slice 9 13 buf
                ++ (slice 13 (13 + k) buf
                    ++ (slice (13 + k) (13 + k + 4) buf
                        ++ slice (13 + k + 4) (13 + k + 4 + v) buf))))
      ≡ slice 0 (13 + k + 4 + v) buf
joined buf k v h =
    let n = 13 + k + 4 + v in
    rw (
      slice-append-slice (13 + k) (13 + k + 4) n buf (omega arith) (omega arith),
      slice-append-slice 13 (13 + k) n buf (omega arith) (omega arith),
      slice-append-slice 9 13 n buf (omega arith) (omega arith),
      get_or-cons-slice 8 n buf 0 (omega arith) (omega arith),
      slice-append-slice 0 8 n buf (omega arith) (omega arith),
    )

module _ (crc32 : Bytes → ℕ) (buf : Bytes) (r : WalRecord) (n : ℕ) (bytes : AreBytes buf)
    (a : Accepted crc32 buf r n) where
  key_length : length r.key ≡ klen buf
  key_length =
      ap length a.key
      ∙ omega (arith, length-slice 13 (13 + klen buf) buf (omega arith) (omega (arith, a.fits)))

  value_length : length r.value ≡ vlen buf
  value_length =
      ap length a.value
      ∙ omega (
        arith,
        length-slice (13 + klen buf + 4) (body_end buf) buf (omega arith) (omega (arith, a.fits)),
      )

  record-Fits : Fits r
  record-Fits =
      let s = (field_again 8 0 8 buf bytes (omega arith) (omega (arith, a.fits)) (omega arith)).1 in
      let k =
        (field_again 4 9 13 buf bytes (omega arith) (omega (arith, a.fits)) (omega arith)).1 in
      let v =
        (field_again 4 (13 + klen buf) (13 + klen buf + 4) buf bytes (omega arith)
          (omega (arith, a.fits)) (omega arith)).1 in
      record {
        seq_fits = rw a.seq (omega (arith, s));
        key_fits = omega (arith, k, key_length);
        value_fits = omega (arith, v, value_length);
      }

  body-eq-slice : frame_body r.seq r.op r.key r.value ≡ slice 0 (body_end buf) buf
  unfolding frame_body
  body-eq-slice =
      let s = (field_again 8 0 8 buf bytes (omega arith) (omega (arith, a.fits)) (omega arith)).0 in
      let k =
        (field_again 4 9 13 buf bytes (omega arith) (omega (arith, a.fits)) (omega arith)).0 in
      let v =
        (field_again 4 (13 + klen buf) (13 + klen buf + 4) buf bytes (omega arith)
          (omega (arith, a.fits)) (omega arith)).0 in
      let f = record-Fits in
      let ek : length r.key % 2 ^ 32 ≡ klen buf = omega (arith, key_length, f.key_fits) in
      let ev : length r.value % 2 ^ 32 ≡ vlen buf = omega (arith, value_length, f.value_fits) in
      let eo = to_u8-from_u8 (get_or buf 8 0) r.op a.op in
      rw (ek, ev, eo, a.seq, a.key, a.value, s, k, v)
        (joined buf (klen buf) (vlen buf) (omega (arith, a.fits)))

  frame-eq-take : frame crc32 r ≡ take n buf
  unfolding frame
  frame-eq-take =
      let c =
        (field_again 4 (body_end buf) (body_end buf + 4) buf bytes (omega arith) a.fits
          (omega arith)).0 in
      rw (body-eq-slice, a.crc, c, a.len)
        (slice-append-slice 0 (body_end buf) (body_end buf + 4) buf (omega arith) (omega arith)
          ∙ slice_from_zero (body_end buf + 4) buf)

-- When `parse_frame` returns a record and a length, the buffer begins with the frame that `append`
-- writes for that record, which has that length, and no field of the record is out of range.
pub parse_frame_written :
    (crc32 : Bytes → ℕ) (buf : Bytes) (r : WalRecord) (n : ℕ)
    → AreBytes buf
    → parse_frame crc32 buf ≡ some (r, n)
    → (take n buf ≡ frame crc32 r) × (n ≤ length buf) × Fits r
parse_frame_written crc32 buf r n bytes h =
    let a = accepted crc32 buf r n h in
    (
      sym (frame-eq-take crc32 buf r n bytes a),
      omega (arith, a.fits, a.len),
      record-Fits crc32 buf r n bytes a,
    )
