-- ===== src/Node/Wal/Frames.antt =====
-- wal.rs: `parse_frames` on a whole segment body. Its loop ends by its own test on every input.
use ferriskv.Prelude.{
  ℕ, zero, suc, ◌+◌, ◌≤◌, ◌≡◌, refl, sym, ◌∙◌, none, some, List, [], ◌∷◌, ◌++◌, arith, append_assoc,
  append-nil, length, drop, drop-drop, length-append, drop-append_length, All,
}
use ferriskv.Prelude.Bytes.{Bytes}
use ferriskv.Prelude.Words.{IsU32}
use ferriskv.Node.Wal.{WalRecord, frame, parse_frame, parse_loop, parse_frames}
use ferriskv.Node.Wal.Frame.{Fits, parse_frame-frame, length-frame}

module _ (crc32 : Bytes → ℕ) where
  -- The frames of some records, one behind the other.
  unfoldable pub frames : List WalRecord → Bytes
  frames [] = []
  frames (r ∷ rs) = frame crc32 r ++ frames rs

  pub frames-append : (rs ss : List WalRecord) → frames (rs ++ ss) ≡ frames rs ++ frames ss
  unfolding frames
  frames-append [] ss = refl
  frames-append (r ∷ rs) ss =
      rw (frames-append rs ss) (sym (append_assoc (frame crc32 r) (frames rs) (frames ss)))

  pub length-le-frames : (rs : List WalRecord) → length rs ≤ length (frames rs)
  unfolding frames
  length-le-frames [] = omega arith
  length-le-frames (r ∷ rs) =
      omega (
        arith,
        length-append (frame crc32 r) (frames rs),
        length-frame crc32 r,
        length-le-frames rs,
      )

  pub loop_stop :
      (fuel : ℕ) (body : Bytes) (records : List WalRecord) (pos : ℕ)
      → parse_frame crc32 (drop pos body) ≡ none
      → parse_loop crc32 fuel body records pos ≡ (records, pos)
  unfolding parse_loop
  loop_stop zero body records pos h = refl
  loop_stop (suc fuel) body records pos h = rw (h, parse_loop)

  pub loop_step :
      (fuel : ℕ) (body : Bytes) (records : List WalRecord) (pos : ℕ) (r : WalRecord) (n : ℕ)
      → parse_frame crc32 (drop pos body) ≡ some (r, n)
      → parse_loop crc32 (suc fuel) body records pos
        ≡ parse_loop crc32 fuel body (records ++ (r ∷ [])) (pos + n)
  unfolding parse_loop
  loop_step fuel body records pos r n h = rw (h, parse_loop)

  module _ (crc_fits : (b : Bytes) → IsU32 (crc32 b)) (tail : Bytes)
      (torn : parse_frame crc32 tail ≡ none) where
    loop-frames :
        (fuel : ℕ) (body : Bytes) (records : List WalRecord) (pos : ℕ) (rs : List WalRecord)
        → All Fits rs
        → drop pos body ≡ frames rs ++ tail
        → length rs ≤ fuel
        → parse_loop crc32 fuel body records pos ≡ (records ++ rs, pos + length (frames rs))
    unfolding frames
    loop-frames fuel body records pos [] f e h =
        loop_stop fuel body records pos (rw e torn)
        ∙ (let p : pos ≡ pos + 0 = omega arith in rw (append-nil, ← p))
    loop-frames zero body records pos (r ∷ rs) f e h = absurd (omega arith)
    loop-frames (suc fuel) body records pos (r ∷ rs) f e h =
        let e' : drop pos body ≡ frame crc32 r ++ (frames rs ++ tail) =
          e ∙ append_assoc (frame crc32 r) (frames rs) tail in
        let step =
          loop_step fuel body records pos r (length (frame crc32 r))
            (rw e' (parse_frame-frame crc32 crc_fits r (frames rs ++ tail) (f.0))) in
        let after : drop (pos + length (frame crc32 r)) body ≡ frames rs ++ tail =
          sym (drop-drop pos (length (frame crc32 r)) body)
          ∙ rw e' (drop-append_length _ (frame crc32 r) (frames rs ++ tail) refl) in
        let rest =
          loop-frames fuel body (records ++ (r ∷ [])) (pos + length (frame crc32 r)) rs (f.1) after
            (omega arith) in
        let p : pos + length (frame crc32 r) + length (frames rs)
            ≡ pos + length (frame crc32 r ++ frames rs) =
          omega (arith, length-append (frame crc32 r) (frames rs)) in
        step ∙ rest ∙ rw (p, append_assoc records (r ∷ []) rs)

    -- A body of whole frames, with a tail behind them that is no frame, parses to the records of
    -- these frames, and the bytes they occupy are counted.
    pub parse_frames-frames :
        (rs : List WalRecord)
        → All Fits rs
        → parse_frames crc32 (frames rs ++ tail) ≡ (rs, length (frames rs))
    unfolding parse_frames
    parse_frames-frames rs f =
        loop-frames (length (frames rs ++ tail)) (frames rs ++ tail) [] 0 rs f refl
          (omega (arith, length-append (frames rs) tail, length-le-frames rs))
        ∙ (let p : 0 + length (frames rs) ≡ length (frames rs) = omega arith in rw p)
