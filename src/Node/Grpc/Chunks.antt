-- ===== src/Node/Grpc/Chunks.antt =====
-- grpc.rs: how `scan_impl` cuts a listing into chunks.
use ferriskv.Prelude.{
  ℕ, ◌≤◌, ◌<◌, ◌≡◌, refl, ◌∙◌, ap, inl, inr, Bool, true, false, List, [], ◌∷◌, ◌++◌, length,
  length-append, drop, leb, if◌then◌else◌, append_assoc, leb→le, Bool-cases, arith,
}
use ferriskv.Prelude.Bytes.{Bytes}
use ferriskv.Prelude.Assoc.{Map}
use ferriskv.Node.Grpc.Handlers.{chunk_size, chunk_loop, emit}

-- The entries of the chunks, one after another.
abbrev pub concat : List (Map Bytes) → Map Bytes
concat [] = []
concat (c ∷ cs) = c ++ concat cs

-- The entries with the first `n` bytes of their keys cut off.
unfoldable pub strip : ℕ → Map Bytes → Map Bytes
strip n [] = []
strip n ((k, v) ∷ items) = (drop n k, v) ∷ strip n items

-- No chunk is empty, and all but the last are full.
abbrev pub Chunked : List (Map Bytes) → Type 0
Chunked [] = Unit
Chunked (c ∷ []) = (0 < length c) × (length c ≤ chunk_size)
Chunked (c ∷ d ∷ cs) = (length c ≡ chunk_size) × Chunked (d ∷ cs)

concat-emit :
    (b : Bool) (grown : Map Bytes) (rest : List (Map Bytes)) (more : Map Bytes)
    → concat rest ≡ (if b then [] else grown) ++ more
    → concat (emit b grown rest) ≡ grown ++ more
concat-emit true grown rest more h = ap (λ (m : Map Bytes). grown ++ m) h
concat-emit false grown rest more h = h

pub concat-chunk_loop :
    (n : ℕ) (current items : Map Bytes)
    → concat (chunk_loop n current items) ≡ current ++ strip n items
unfolding chunk_loop strip
concat-chunk_loop n [] [] = refl
concat-chunk_loop n (e ∷ current) [] = refl
concat-chunk_loop n current ((k, v) ∷ items) =
    let grown = current ++ ((drop n k, v) ∷ []) in
    let full = leb chunk_size (length grown) in
    concat-emit full grown _ (strip n items)
      (concat-chunk_loop n (if full then [] else grown) items)
    ∙ append_assoc current ((drop n k, v) ∷ []) (strip n items)

Chunked-cons :
    (c : Map Bytes) (cs : List (Map Bytes)) → length c ≡ chunk_size → Chunked cs → Chunked (c ∷ cs)
Chunked-cons c [] full h = (omega arith, omega arith)
Chunked-cons c (d ∷ cs) full h = (full, h)

pub chunk_loop-Chunked :
    (n : ℕ) (current items : Map Bytes)
    → length current < chunk_size
    → Chunked (chunk_loop n current items)
unfolding chunk_loop
chunk_loop-Chunked n [] [] short = tt
chunk_loop-Chunked n (e ∷ current) [] short = (omega arith, omega arith)
chunk_loop-Chunked n current ((k, v) ∷ items) short =
    let grown = current ++ ((drop n k, v) ∷ []) in
    let len = length-append current ((drop n k, v) ∷ []) in
    elim (Bool-cases (leb chunk_size (length grown))) [
      | inl full ↦ rw full (
          Chunked-cons grown _ (omega (arith, leb→le _ _ full))
            (chunk_loop-Chunked n [] items (omega arith)))
      | inr part ↦ rw part (chunk_loop-Chunked n grown items (ground (arith, part)))
    ]
