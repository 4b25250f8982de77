-- ===== src/Node/Wal/Split.antt =====
-- wal.rs: what `parse_frames` answers on an arbitrary byte string.
use ferriskv.Prelude.{
  ℕ, zero, suc, ◌+◌, ◌-◌, ◌≤◌, ◌≡◌, refl, sym, ◌∙◌, inl, inr, none, some, List, [], ◌∷◌, ◌++◌,
  arith, append-nil, length, take, drop, length-drop, Option-cases, All, All-drop, All-append,
  slice-append-slice, slice_from_zero, slice,
}
use ferriskv.Prelude.Bytes.{Bytes, IsByte, AreBytes}
use ferriskv.Node.Wal.{WalRecord, frame, parse_frame, parse_loop, parse_frames}
use ferriskv.Node.Wal.Frame.{Fits}
use ferriskv.Node.Wal.Accepts.{parse_frame-le}
use ferriskv.Node.Wal.Written.{parse_frame_written}
use ferriskv.Node.Wal.Frames.{frames, frames-append, loop_stop, loop_step}

module _ (crc32 : Bytes → ℕ) where
  -- What the loop has read after `pos` bytes.
  pub record IsRead (body : Bytes) (records : List WalRecord) (pos : ℕ) : Type 0 where
    pub front : take pos body ≡ frames crc32 records
    pub within : pos ≤ length body
    pub fit : All Fits records

  -- The loop has ended by its own test.
  pub record IsSplit (body : Bytes) (out : List WalRecord × ℕ) : Type 0 where
    pub read : IsRead body out.0 out.1
    pub rest : parse_frame crc32 (drop out.1 body) ≡ none

  IsRead-next :
      (body : Bytes) (records : List WalRecord) (pos : ℕ) (r : WalRecord) (n : ℕ)
      → AreBytes body
      → IsRead body records pos
      → parse_frame crc32 (drop pos body) ≡ some (r, n)
      → IsRead body (records ++ (r ∷ [])) (pos + n)
  IsRead-next body records pos r n bytes w h =
      let (cut, short, fits) =
        parse_frame_written crc32 (drop pos body) r n (All-drop IsByte pos body bytes) h in
      let e : slice pos (pos + n) body ≡ frame crc32 r =
        unfold slice in (let m : pos + n - pos ≡ n = omega arith in rw m cut) in
      let f : frames crc32 (r ∷ []) ≡ frame crc32 r = unfold frames in append-nil (frame crc32 r) in
      record {
        front =
            sym (slice_from_zero (pos + n) body)
            ∙ sym (slice-append-slice 0 pos (pos + n) body (omega arith) (omega arith))
            ∙ rw (slice_from_zero pos body, w.front, e, frames-append crc32 records (r ∷ []), f);
        within = omega (arith, short, length-drop pos body, w.within);
        fit = All-append Fits records (r ∷ []) w.fit (fits, tt);
      }

  parse_frame_end :
      (body : Bytes) (pos : ℕ) → length body ≤ pos → parse_frame crc32 (drop pos body) ≡ none
  parse_frame_end body pos h = elim (Option-cases (parse_frame crc32 (drop pos body))) [
    | inl e ↦ e
    | inr ((r, n), e) ↦
        let (low, high) = parse_frame-le crc32 (drop pos body) r n e in
        absurd (omega (arith, low, high, length-drop pos body))
  ]

  loop-IsSplit :
      (fuel : ℕ) (body : Bytes) (records : List WalRecord) (pos : ℕ)
      → AreBytes body
      → length body ≤ pos + fuel
      → IsRead body records pos
      → IsSplit body (parse_loop crc32 fuel body records pos)
  loop-IsSplit zero body records pos bytes h w =
      let stop = parse_frame_end body pos (omega arith) in
      rw (loop_stop crc32 zero body records pos stop) (record { read = w; rest = stop })
  loop-IsSplit (suc fuel) body records pos bytes h w =
      elim (Option-cases (parse_frame crc32 (drop pos body))) [
        | inl stop ↦
            rw (loop_stop crc32 (suc fuel) body records pos stop) (record { read = w; rest = stop })
        | inr ((r, n), e) ↦ rw (loop_step crc32 fuel body records pos r n e) (
            loop-IsSplit fuel body (records ++ (r ∷ [])) (pos + n) bytes
              (omega (arith, (parse_frame-le crc32 (drop pos body) r n e).0))
              (IsRead-next body records pos r n bytes w e))
      ]

  -- On every byte string `parse_frames` splits off whole frames: the bytes that it counts are in
  -- range and are the frames of the records that it returns, no record has a field out of range,
  -- and what stands behind them is no frame (so the loop stopped by its test, not by its fuel).
  pub parse_frames-IsSplit : (body : Bytes) → AreBytes body → IsSplit body (parse_frames crc32 body)
  unfolding parse_frames
  parse_frames-IsSplit body bytes =
      loop-IsSplit (length body) body [] 0 bytes (omega arith)
        (record { front = unfold frames in refl; within = omega arith; fit = tt })
