-- ===== src/Node/Wal.antt =====
-- crates/ferriskv-node/src/wal.rs: the format of a segment. `crc32` is `crc32fast::hash`, a
-- parameter; the operations on a segment are in `Segment`, the proofs in the modules below.
pub mod Frame
pub mod Accepts
pub mod Written
pub mod Frames
pub mod Split
pub mod Header
pub mod Writer
pub mod Segment
pub mod Recovery
pub mod Trace
pub mod Interrupted
mod Examples
use ferriskv.Prelude.{
  ℕ, zero, suc, ◌+◌, ◌%◌, ◌^◌, Bool, true, false, not, Option, none, some, List, [], ◌∷◌, ◌++◌, ltb,
  ◌==◌, if◌then◌else◌, length, get_or, take, drop, slice,
}
use ferriskv.Prelude.Bytes.{Bytes, bytes_eq}
use ferriskv.Prelude.Words.{to_le_bytes, from_le_bytes}
use ferriskv.Core.Error.{Result, ok, err, corrupt}

-- "FKVW"
abbrev pub magic : Bytes
magic = 0x46 ∷ 0x4b ∷ 0x56 ∷ 0x57 ∷ []

abbrev pub format_version : ℕ
format_version = 1

abbrev pub header_len : ℕ
header_len = 4 + 2 + 8

abbrev pub min_frame_len : ℕ
min_frame_len = 8 + 1 + 4 + 4 + 4

pub data WalOp : Type 0 where
  put delete : WalOp

-- `op as u8`.
abbrev pub to_u8 : WalOp → ℕ
to_u8 put = 1
to_u8 delete = 2

abbrev pub from_u8 : ℕ → Option WalOp
from_u8 b = if b == 1 then some put else if b == 2 then some delete else none

pub record WalRecord : Type 0 where
  pub seq : ℕ
  pub op : WalOp
  pub key : Bytes
  pub value : Bytes

-- `a.checked_add(b)` on `usize`.
abbrev pub checked_add : ℕ → ℕ → Option ℕ
checked_add a b = if ltb (a + b) (2 ^ 64) then some (a + b) else none

-- `if test { return None; }`
abbrev pub none_if : Bool → Option (Unit {0})
none_if true = none
none_if false = some tt

-- The `?` operator on an `Option`.
infixl 5 ◌>>=◌ ◌>>◌
abbrev pub ◌>>=◌ {ℓ κ} : {A : Type ℓ} {B : Type κ} → Option A → (A → Option B) → Option B
none >>= f = none
some a >>= f = f a

abbrev pub ◌>>◌ {ℓ κ} : {A : Type ℓ} {B : Type κ} → Option A → Option B → Option B
m >> k = m >>= λ _. k

unfoldable pub encode_header : ℕ → Bytes
encode_header base_seq = magic ++ (to_le_bytes 2 format_version ++ to_le_bytes 8 base_seq)

unfoldable pub parse_header : Bytes → Result ℕ
parse_header buf =
    if ltb (length buf) header_len
    then err (corrupt "wal header is truncated")
    else if not (bytes_eq (slice 0 4 buf) magic)
    then err (corrupt "file is not a ferriskv wal segment")
    else if not (from_le_bytes (slice 4 6 buf) == format_version)
    then err (corrupt "unsupported wal format version")
    else ok (from_le_bytes (slice 6 14 buf))

-- The frame that `append` assembles, up to the checksum.
unfoldable pub frame_body : ℕ → WalOp → Bytes → Bytes → Bytes
frame_body seq op key value =
    to_le_bytes 8 seq
    ++ (to_u8 op
        ∷ (to_le_bytes 4 (length key % 2 ^ 32)
            ++ (key ++ (to_le_bytes 4 (length value % 2 ^ 32) ++ value))))

module _ (crc32 : Bytes → ℕ) where
  unfoldable pub frame : WalRecord → Bytes
  unfolding frame_body
  frame r = let body = frame_body r.seq r.op r.key r.value in body ++ to_le_bytes 4 (crc32 body)

  unfoldable pub parse_frame : Bytes → Option (WalRecord × ℕ)
  parse_frame buf = if ltb (length buf) min_frame_len then none else do
    op ← from_u8 (get_or buf 8 0)
    key_end ← checked_add 13 (from_le_bytes (slice 9 13 buf))
    vlen_end ← checked_add key_end 4
    none_if (ltb (length buf) vlen_end)
    value_end ← checked_add vlen_end (from_le_bytes (slice key_end vlen_end buf))
    frame_end ← checked_add value_end 4
    none_if (ltb (length buf) frame_end)
    none_if (not (crc32 (slice 0 value_end buf) == from_le_bytes (slice value_end frame_end buf)))
    some (
      record {
        seq = from_le_bytes (slice 0 8 buf);
        op = op;
        key = slice 13 key_end buf;
        value = slice vlen_end value_end buf;
      },
      frame_end,
    )

  -- The `while let` loop: `records` and `pos` are its variables.
  pub parse_loop : ℕ → Bytes → List WalRecord → ℕ → List WalRecord × ℕ
  parse_loop zero body records pos = (records, pos)
  parse_loop (suc fuel) body records pos = elim (parse_frame (drop pos body)) [
    | none ↦ (records, pos)
    | some (r, len) ↦ parse_loop fuel body (records ++ (r ∷ [])) (pos + len)
  ]

  -- A frame takes a byte at least, so `length body` rounds are enough.
  unfoldable pub parse_frames : Bytes → List WalRecord × ℕ
  unfolding parse_loop
  parse_frames body = parse_loop (length body) body [] 0
