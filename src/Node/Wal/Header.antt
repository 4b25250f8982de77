-- ===== src/Node/Wal/Header.antt =====
-- wal.rs: the segment header.
use ferriskv.Prelude.{
  ℕ, ◌≤◌, ◌≡◌, refl, sym, ◌∙◌, [], ◌++◌, arith, append_assoc, length, take, slice, slice_at,
  length-append, length-slice, slice-append-slice, slice_from_zero, All-slice,
}
use ferriskv.Prelude.Bytes.{Bytes, IsByte, AreBytes, bytes_eq_iff, bytes_eq_refl}
use ferriskv.Prelude.Words.{
  IsU64, to_le_bytes, from_le_bytes, length-to_le_bytes, from_le_bytes-to_le_bytes,
  to_le_bytes-from_le_bytes,
}
use ferriskv.Core.Error.{ok}
use ferriskv.Node.Wal.{magic, format_version, encode_header, parse_header}

pub length-encode_header : (base : ℕ) → length (encode_header base) ≡ 14
unfolding encode_header
length-encode_header base = omega (
  arith,
  length-append magic (to_le_bytes 2 format_version ++ to_le_bytes 8 base),
  length-append (to_le_bytes 2 format_version) (to_le_bytes 8 base),
  length-to_le_bytes 2 format_version,
  length-to_le_bytes 8 base,
)

module _ (base : ℕ) (rest : Bytes) where
  slice-magic : slice 0 4 (encode_header base ++ rest) ≡ magic
  unfolding encode_header
  slice-magic =
      slice_at 0 4 (encode_header base ++ rest) [] magic
        (to_le_bytes 2 format_version ++ (to_le_bytes 8 base ++ rest)) (simp append_assoc) refl refl

  slice-version : slice 4 6 (encode_header base ++ rest) ≡ to_le_bytes 2 format_version
  unfolding encode_header
  slice-version =
      slice_at 4 6 (encode_header base ++ rest) magic (to_le_bytes 2 format_version)
        (to_le_bytes 8 base ++ rest) (simp append_assoc) refl
        (omega (arith, length-to_le_bytes 2 format_version))

  slice-base : slice 6 14 (encode_header base ++ rest) ≡ to_le_bytes 8 base
  unfolding encode_header
  slice-base =
      slice_at 6 14 (encode_header base ++ rest) (magic ++ to_le_bytes 2 format_version)
        (to_le_bytes 8 base) rest (simp append_assoc)
        (omega (arith, length-to_le_bytes 2 format_version))
        (omega (arith, length-to_le_bytes 8 base))

  pub parse_header-encode_header : IsU64 base → parse_header (encode_header base ++ rest) ≡ ok base
  unfolding parse_header
  parse_header-encode_header h = ground (
    arith,
    length-append (encode_header base) rest,
    length-encode_header base,
    slice-magic,
    slice-version,
    slice-base,
    from_le_bytes-to_le_bytes 2 format_version (omega arith),
    from_le_bytes-to_le_bytes 8 base h,
    bytes_eq_refl magic,
  )

header_facts :
    (buf : Bytes) (base : ℕ)
    → parse_header buf ≡ ok base
    → (14 ≤ length buf)
      × (slice 0 4 buf ≡ magic)
      × (from_le_bytes (slice 4 6 buf) ≡ format_version)
      × (from_le_bytes (slice 6 14 buf) ≡ base)
unfolding parse_header
header_facts buf base h = ground (arith, bytes_eq_iff (slice 0 4 buf) magic)

-- A buffer whose header is accepted begins with the header that is written for that base.
pub parse_header_written :
    (buf : Bytes) (base : ℕ)
    → AreBytes buf
    → parse_header buf ≡ ok base
    → (14 ≤ length buf) × (take 14 buf ≡ encode_header base)
unfolding encode_header
parse_header_written buf base bytes h =
    let (long, m, v, b) = header_facts buf base h in
    let ev =
      to_le_bytes-from_le_bytes 2 (slice 4 6 buf) (All-slice IsByte 4 6 buf bytes)
        (omega (arith, length-slice 4 6 buf)) in
    let eb =
      to_le_bytes-from_le_bytes 8 (slice 6 14 buf) (All-slice IsByte 6 14 buf bytes)
        (omega (arith, length-slice 6 14 buf)) in
    (
      long,
      sym (slice_from_zero 14 buf)
          ∙ sym (slice-append-slice 0 4 14 buf (omega arith) (omega arith))
          ∙ rw (← slice-append-slice 4 6 14 buf (omega arith) (omega arith), m, ← v, ev, ← b, eb),
    )
