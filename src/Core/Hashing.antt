-- ===== src/Core/Hashing.antt =====
-- crates/ferriskv-core/src/hashing.rs: rendezvous selection. The hash is a parameter, and so is the
-- standard library's sort, of which nothing is known but what it promises.
pub mod Insertion
pub mod Selection
mod Examples
use ferriskv.Prelude.{ℕ, Bool, List, [], ◌∷◌, ◌++◌, take, ◌==◌, ◌≤◌, if◌then◌else◌}
use ferriskv.Prelude.Bytes.{Bytes}
use mathlib.Core.List.{Pairwise, Perm}
use ferriskv.Prelude.Words.{from_le_bytes}

abbrev pub Scored : Type 0
Scored = List (ℕ × Bytes)

abbrev pub nodes_of : Scored → List Bytes
nodes_of [] = []
nodes_of ((score, node) ∷ rest) = node ∷ nodes_of rest

module _ (blake3 : Bytes → Bytes) where
  unfoldable pub hrw_score : Bytes → Bytes → ℕ
  hrw_score key node = from_le_bytes (take 8 (blake3 (key ++ node)))

  unfoldable pub scored : Bytes → List Bytes → Scored
  scored key [] = []
  scored key (node ∷ nodes) = (hrw_score key node, node) ∷ scored key nodes

  -- `sort` is `sort_unstable_by_key(|(score, _)| Reverse(*score))`.
  unfoldable pub hrw_select : (Scored → Scored) → Bytes → List Bytes → ℕ → List Bytes
  unfolding scored
  hrw_select sort key [] n = []
  hrw_select sort key (node ∷ nodes) n =
      if n == 0 then [] else nodes_of (take n (sort (scored key (node ∷ nodes))))

-- What the sort promises: the scores of its result descend, and it is a permutation of its input.
-- The order of equal scores is left open.
pub record IsSort (sort : Scored → Scored) : Type 0 where
  pub descends : (xs : Scored) → Pairwise (λ (x y : ℕ × Bytes). y.0 ≤ x.0) (sort xs)
  pub permutes : (xs : Scored) → Perm xs (sort xs)
