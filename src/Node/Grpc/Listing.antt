-- ===== src/Node/Grpc/Listing.antt =====
-- grpc.rs: the keys that a scan lists, with the tenant's prefix cut off.
pub mod Answered
use ferriskv.Prelude.{
  ℕ, zero, suc, ◌≡◌, refl, sym, ◌∙◌, ap, inl, inr, Bool, true, false, none, some, List, [], ◌∷◌,
  ◌++◌, length, take, drop, ◌==◌, ◌&&◌, if◌then◌else◌, Bool-cases, arith,
}
use ferriskv.Prelude.Bytes.{Bytes, bytes_eq, bytes_eq_refl, bytes_lt, starts_with}
use ferriskv.Prelude.Assoc.{Map, lookup, Distinct}
use ferriskv.Core.Key.Prefix.{bytes_lt-append_same}
use ferriskv.Core.Storage.MemStorage.Sorted.{Above, Ascending}
use ferriskv.Node.Grpc.Chunks.{strip}

-- Each key is the prefix and a rest.
abbrev pub Under : Bytes → Map Bytes → Type 0
Under pre [] = Unit
Under pre ((k, v) ∷ items) = (k ≡ pre ++ drop (length pre) k) × Under pre items

pub starts_with-split : (k pre : Bytes) → starts_with k pre ≡ true → k ≡ pre ++ drop (length pre) k
unfolding starts_with
starts_with-split k [] h = refl
starts_with-split [] (p ∷ ps) h = cc
starts_with-split (a ∷ k) (p ∷ ps) h = ground (arith, starts_with-split k ps)

pub starts_with-append_same :
    (pre k u : Bytes) → starts_with (pre ++ k) (pre ++ u) ≡ starts_with k u
unfolding starts_with
starts_with-append_same [] k u = refl
starts_with-append_same (p ∷ pre) k u = ground (arith, starts_with-append_same pre k u)

bytes_eq-append_same : (pre a b : Bytes) → bytes_eq (pre ++ a) (pre ++ b) ≡ bytes_eq a b
unfolding bytes_eq
bytes_eq-append_same [] a b = refl
bytes_eq-append_same (p ∷ pre) a b = ground (arith, bytes_eq-append_same pre a b)

pub lookup-strip :
    (pre key : Bytes) (items : Map Bytes)
    → Under pre items
    → lookup key (strip (length pre) items) ≡ lookup (pre ++ key) items
unfolding lookup strip
lookup-strip pre key [] h = refl
lookup-strip pre key ((k, v) ∷ items) (split, h) =
    let same : bytes_eq k (pre ++ key) ≡ bytes_eq (drop (length pre) k) key =
      ap (λ (x : Bytes). bytes_eq x (pre ++ key)) split
      ∙ bytes_eq-append_same pre (drop (length pre) k) key in
    rw (same, lookup-strip pre key items h) refl

Above-strip :
    (pre k : Bytes) (items : Map Bytes)
    → k ≡ pre ++ drop (length pre) k
    → Under pre items
    → Above k items
    → Above (drop (length pre) k) (strip (length pre) items)
unfolding strip
Above-strip pre k [] split u h = tt
Above-strip pre k ((j, v) ∷ items) split (split', u) (lt, h) = (
  sym (bytes_lt-append_same pre (drop (length pre) k) (drop (length pre) j))
      ∙ ap (λ (x : Bytes). bytes_lt x (pre ++ drop (length pre) j)) (sym split)
      ∙ ap (bytes_lt k) (sym split')
      ∙ lt,
  Above-strip pre k items split u h,
)

pub Ascending-strip :
    (pre : Bytes) (items : Map Bytes)
    → Under pre items
    → Ascending items
    → Ascending (strip (length pre) items)
unfolding strip
Ascending-strip pre [] u h = tt
Ascending-strip pre ((k, v) ∷ items) (split, u) (above, h) =
    (Above-strip pre k items split u above, Ascending-strip pre items u h)

pub strip-take :
    (n lim : ℕ) (items : Map Bytes) → strip n (take lim items) ≡ take lim (strip n items)
unfolding strip
strip-take n zero items = none_taken items
  where
    none_taken : (m : Map Bytes) → strip n (take 0 m) ≡ take 0 (strip n m)
    none_taken [] = refl
    none_taken ((k, v) ∷ m) = refl
strip-take n (suc lim) [] = refl
strip-take n (suc lim) ((k, v) ∷ items) =
    ap (λ (m : Map Bytes). (drop n k, v) ∷ m) (strip-take n lim items)

-- Keys that a lookup finds have a common prefix, so all of them do.
pub lookup-Under :
    (pre : Bytes) (items : Map Bytes)
    → ((k : Bytes) → ¬ (lookup k items ≡ none) → starts_with k pre ≡ true)
    → Under pre items
unfolding lookup
lookup-Under pre [] h = tt
lookup-Under pre ((k, v) ∷ items) h = (
  starts_with-split k pre (h k (λ e. absurd (there (rw (bytes_eq_refl k) at e)))),
  lookup-Under pre items (λ j found. h j (λ e. by_head j found e)),
)
  where
    there : ¬ (some v ≡ none)
    there e = cc

    by_head :
        (j : Bytes)
        → ¬ (lookup j items ≡ none)
        → ¬ ((if bytes_eq k j then some v else lookup j items) ≡ none)
    by_head j found e = elim (Bool-cases (bytes_eq k j)) [
      | inl same ↦ there (rw same at e)
      | inr other ↦ found (rw other at e)
    ]
