-- ===== src/Node/Wal/Frame.antt =====
-- wal.rs: one frame, and the header. `parse_frame` accepts exactly what `append` writes.
use ferriskv.Prelude.{
  ℕ, ◌+◌, ◌%◌, ◌^◌, ◌<◌, ◌≡◌, refl, ◌∙◌, some, [], ◌∷◌, ◌++◌, arith, append_assoc, length, get_or,
  slice, slice_at, length-append, get_or-append_length,
}
use ferriskv.Prelude.Bytes.{Bytes}
use ferriskv.Prelude.Words.{
  IsU64, IsU32, to_le_bytes, from_le_bytes, length-to_le_bytes, from_le_bytes-to_le_bytes,
}
use ferriskv.Node.Wal.{
  WalOp, put, delete, to_u8, from_u8, WalRecord, frame_body, frame, parse_frame,
}

-- A record that `append` can write without truncating a field.
pub record Fits (r : WalRecord) : Type 0 where
  pub seq_fits : IsU64 r.seq
  pub key_fits : IsU32 (length r.key)
  pub value_fits : IsU32 (length r.value)

from_u8-to_u8 : (op : WalOp) → from_u8 (to_u8 op) ≡ some op
from_u8-to_u8 put = refl
from_u8-to_u8 delete = refl

pub to_u8-from_u8 : (b : ℕ) (op : WalOp) → from_u8 b ≡ some op → to_u8 op ≡ b
to_u8-from_u8 b op h = ground arith

-- The parts of a buffer that begins with a frame, cut where `parse_frame` cuts it.
module _ (seq : Bytes) (op : ℕ) (klen key vlen value crc rest : Bytes) where
  abbrev pub body : Bytes
  body = seq ++ (op ∷ (klen ++ (key ++ (vlen ++ value))))

  abbrev pub buffer : Bytes
  buffer = (body ++ crc) ++ rest

  module _ (s8 : length seq ≡ 8) (k4 : length klen ≡ 4) (v4 : length vlen ≡ 4)
      (c4 : length crc ≡ 4) where
    abbrev key_end : ℕ
    key_end = 13 + length key

    abbrev vlen_end : ℕ
    vlen_end = 13 + length key + 4

    abbrev value_end : ℕ
    value_end = 13 + length key + 4 + length value

    abbrev frame_end : ℕ
    frame_end = 13 + length key + 4 + length value + 4

    length-body : length body ≡ value_end
    length-body = omega (
      arith,
      length-append seq (op ∷ (klen ++ (key ++ (vlen ++ value)))),
      length-append klen (key ++ (vlen ++ value)),
      length-append key (vlen ++ value),
      length-append vlen value,
    )

    length-buffer : length buffer ≡ frame_end + length rest
    length-buffer =
        omega (arith, length-body, length-append (body ++ crc) rest, length-append body crc)

    slice-seq : slice 0 8 buffer ≡ seq
    slice-seq =
        slice_at 0 8 buffer [] seq ((op ∷ (klen ++ (key ++ (vlen ++ value)))) ++ (crc ++ rest))
          (simp append_assoc) refl (omega arith)

    get_or-op : get_or buffer 8 0 ≡ op
    get_or-op =
        let split : buffer ≡ seq ++ (op ∷ (klen ++ (key ++ (vlen ++ (value ++ (crc ++ rest)))))) =
          simp append_assoc in
        rw split (get_or-append_length 8 seq op 0 _ s8)

    slice-klen : slice 9 13 buffer ≡ klen
    slice-klen =
        slice_at 9 13 buffer (seq ++ (op ∷ [])) klen (key ++ (vlen ++ (value ++ (crc ++ rest))))
          (simp append_assoc) (omega (arith, length-append seq (op ∷ []))) (omega arith)

    slice-key : slice 13 key_end buffer ≡ key
    slice-key =
        slice_at 13 key_end buffer (seq ++ (op ∷ klen)) key (vlen ++ (value ++ (crc ++ rest)))
          (simp append_assoc) (omega (arith, length-append seq (op ∷ klen))) refl

    slice-vlen : slice key_end vlen_end buffer ≡ vlen
    slice-vlen =
        slice_at key_end vlen_end buffer (seq ++ (op ∷ (klen ++ key))) vlen (value ++ (crc ++ rest))
          (simp append_assoc)
          (omega (arith, length-append seq (op ∷ (klen ++ key)), length-append klen key))
          (omega arith)

    slice-body : slice 0 value_end buffer ≡ body
    slice-body =
        slice_at 0 value_end buffer [] body (crc ++ rest) (simp append_assoc) refl
          (omega (arith, length-body))

    slice-value : slice vlen_end value_end buffer ≡ value
    slice-value =
        slice_at vlen_end value_end buffer (seq ++ (op ∷ (klen ++ (key ++ vlen)))) value
          (crc ++ rest) (simp append_assoc)
          (omega (
            arith,
            length-append seq (op ∷ (klen ++ (key ++ vlen))),
            length-append klen (key ++ vlen),
            length-append key vlen,
          ))
          refl

    slice-crc : slice value_end frame_end buffer ≡ crc
    slice-crc =
        slice_at value_end frame_end buffer body crc rest (append_assoc body crc rest) length-body
          (omega arith)

    module _ (crc32 : Bytes → ℕ) (o : WalOp) (e_op : from_u8 op ≡ some o)
        (e_key : from_le_bytes klen ≡ length key) (e_value : from_le_bytes vlen ≡ length value)
        (e_crc : from_le_bytes crc ≡ crc32 body) (b_key : length key < 2 ^ 32)
        (b_value : length value < 2 ^ 32) where
      abbrev parsed : WalRecord
      parsed = record { seq = from_le_bytes seq; op = o; key = key; value = value }

      parse_parts : parse_frame crc32 buffer ≡ some (parsed, frame_end)
      unfolding parse_frame
      parse_parts = ground (
        arith, length-buffer, get_or-op, slice-seq, slice-klen, slice-key, slice-vlen, slice-body,
        slice-value, slice-crc,
      )

-- The parts of the frame of a record.
module _ (crc32 : Bytes → ℕ) (r : WalRecord) where
  abbrev seq_bytes : Bytes
  seq_bytes = to_le_bytes 8 r.seq

  abbrev klen_bytes : Bytes
  klen_bytes = to_le_bytes 4 (length r.key % 2 ^ 32)

  abbrev vlen_bytes : Bytes
  vlen_bytes = to_le_bytes 4 (length r.value % 2 ^ 32)

  abbrev crc_bytes : Bytes
  crc_bytes = to_le_bytes 4 (crc32 (frame_body r.seq r.op r.key r.value))

  pub length-frame : length (frame crc32 r) ≡ 13 + length r.key + 4 + length r.value + 4
  unfolding frame frame_body
  length-frame = omega (
    arith,
    length-append (frame_body r.seq r.op r.key r.value) crc_bytes,
    length-to_le_bytes 4 (crc32 (frame_body r.seq r.op r.key r.value)),
    length-body seq_bytes (to_u8 r.op) klen_bytes r.key vlen_bytes r.value crc_bytes []
        (length-to_le_bytes 8 r.seq) (length-to_le_bytes 4 _) (length-to_le_bytes 4 _)
        (length-to_le_bytes 4 _),
  )

module _ (crc32 : Bytes → ℕ) (crc_fits : (b : Bytes) → IsU32 (crc32 b)) where
  -- A frame, with anything behind it, parses to its record and its length.
  pub parse_frame-frame :
      (r : WalRecord) (rest : Bytes)
      → Fits r
      → parse_frame crc32 (frame crc32 r ++ rest) ≡ some (r, length (frame crc32 r))
  unfolding frame frame_body
  parse_frame-frame r rest f =
      let e_seq = from_le_bytes-to_le_bytes 8 r.seq (omega arith) in
      let e_key : from_le_bytes (klen_bytes crc32 r) ≡ length r.key =
        from_le_bytes-to_le_bytes 4 _ (omega arith) ∙ omega arith in
      let e_value : from_le_bytes (vlen_bytes crc32 r) ≡ length r.value =
        from_le_bytes-to_le_bytes 4 _ (omega arith) ∙ omega arith in
      let e_crc : from_le_bytes (crc_bytes crc32 r) ≡ crc32 (frame_body r.seq r.op r.key r.value) =
        from_le_bytes-to_le_bytes 4 _
          (omega (arith, crc_fits (frame_body r.seq r.op r.key r.value))) in
      let parts =
        parse_parts (seq_bytes crc32 r) (to_u8 r.op) (klen_bytes crc32 r) r.key (vlen_bytes crc32 r)
          r.value (crc_bytes crc32 r) rest (length-to_le_bytes 8 r.seq) (length-to_le_bytes 4 _)
          (length-to_le_bytes 4 _) (length-to_le_bytes 4 _) crc32 r.op (from_u8-to_u8 r.op) e_key
          e_value e_crc f.key_fits f.value_fits in
      rw (length-frame crc32 r) (rw e_seq at parts)
