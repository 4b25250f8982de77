-- ===== src/Node/Wal/Writer.antt =====
-- The `BufWriter<File>` that wal.rs appends through, over a file that is opened for appending.
-- What the operating system accepts of the bytes that a call writes is an argument, `Io`.
use ferriskv.Prelude.{ℕ, ◌*◌, ◌-◌, String, [], ◌++◌, ltb, leb, if◌then◌else◌, length, take, drop}
use ferriskv.Prelude.Bytes.{Bytes}
use ferriskv.Core.Error.{Result, ok, err, io}

-- All bytes are accepted, or the file takes `n` bytes more and then fails with a message.
pub data Io : Type 0 where
  done : Io
  stops_after : ℕ → String → Io

pub record Writer : Type 0 where
  pub file : Bytes
  pub buffer : Bytes

-- `BufWriter::new` allocates 8 KiB.
abbrev pub buffer_capacity : ℕ
buffer_capacity = 8 * 1024

-- The bytes that reach the file, and what the disk still takes.
abbrev pub accepted : Io → Bytes → Bytes
accepted done bs = bs
accepted (stops_after n e) bs = take n bs

abbrev pub left_over : Io → Bytes → Bytes
left_over done bs = []
left_over (stops_after n e) bs = drop n bs

abbrev pub after : Io → Bytes → Io
after done bs = done
after (stops_after n e) bs = stops_after (n - length bs) e

abbrev pub outcome : Io → Bytes → Result (Unit {0})
outcome done bs = ok tt
outcome (stops_after n e) bs = if leb (length bs) n then ok tt else err (io e)

-- `flush_buf`: what the file accepted leaves the buffer, also when the call fails.
unfoldable pub flush : Io → Writer → Result (Unit {0}) × Writer
flush d w = (
  outcome d w.buffer,
  record { file = w.file ++ accepted d w.buffer; buffer = left_over d w.buffer },
)

-- The part of `write_all` behind the flush: a write that fills the buffer goes to the file.
unfoldable pub write_past : Io → Bytes → Result (Unit {0}) × Writer → Result (Unit {0}) × Writer
write_past d bs (err e, w) = (err e, w)
write_past d bs (ok u, w) =
    if leb buffer_capacity (length bs)
    then (outcome d bs, record w { file = w.file ++ accepted d bs })
    else (ok tt, record w { buffer = w.buffer ++ bs })

unfoldable pub write_all : Io → Bytes → Writer → Result (Unit {0}) × Writer
unfolding flush write_past
write_all d bs w =
    let spare = buffer_capacity - length w.buffer in
    if ltb (length bs) spare
    then (ok tt, record w { buffer = w.buffer ++ bs })
    else write_past (after d w.buffer) bs (if ltb spare (length bs) then flush d w else (ok tt, w))
