-- ===== src/Core/Hashing/Examples.antt =====
-- Runs of `hrw_select`, at a hash that is its input.
use ferriskv.Prelude.{ℕ, ◌≡◌, refl, arith, [], ◌∷◌}
use ferriskv.Prelude.Bytes.{Bytes}
use mathlib.Core.List.{Pairwise, Mem, forall_mem-cons, not-mem-nil}
use mathlib.Core.HLevel.{¬_prop}
use ferriskv.Prelude.Words.{from_le_bytes}
use ferriskv.Core.Hashing.{scored, hrw_score, hrw_select}
use ferriskv.Core.Hashing.Insertion.{sort_scored, insert_scored, sort_scored-IsSort}
use ferriskv.Core.Hashing.Selection.{Differ, unselected_leaves}

abbrev identity : Bytes → Bytes
identity b = b

abbrev node_a : Bytes
node_a = 5 ∷ []

abbrev node_b : Bytes
node_b = 3 ∷ []

abbrev node_c : Bytes
node_c = 9 ∷ []

two_of_three :
    hrw_select identity sort_scored [] (node_a ∷ node_b ∷ node_c ∷ []) 2 ≡ node_c ∷ node_a ∷ []
unfolding hrw_select scored sort_scored insert_scored hrw_score from_le_bytes
two_of_three = refl

distinct_scores : Pairwise Differ (scored identity [] (node_a ∷ node_b ∷ node_c ∷ []))
unfolding scored hrw_score from_le_bytes
distinct_scores =
    Pairwise.cons
      ((forall_mem-cons (λ (x : ℕ × Bytes). ¬_prop)).1 (
        (λ e. ground (arith, e)),
        (forall_mem-cons (λ (x : ℕ × Bytes). ¬_prop)).1 ((λ e. ground (arith, e)), none_left _),
      ))
      (Pairwise.cons
        ((forall_mem-cons (λ (x : ℕ × Bytes). ¬_prop)).1 ((λ e. ground (arith, e)), none_left _))
        (Pairwise.cons (none_left _) Pairwise.nil))
  where
    none_left : (P : ℕ × Bytes → Type 0) (x : ℕ × Bytes) → Mem x [] → P x
    none_left P x m = absurd (not-mem-nil m)

unselected_leaves_example :
    hrw_select identity sort_scored [] (node_a ∷ node_b ∷ node_c ∷ []) 2
    ≡ hrw_select identity sort_scored [] (node_a ∷ node_c ∷ []) 2
unfolding hrw_select scored sort_scored insert_scored hrw_score from_le_bytes
unselected_leaves_example =
    unselected_leaves identity [] sort_scored sort_scored-IsSort (node_a ∷ []) node_b (node_c ∷ [])
      2 distinct_scores ((λ e. ground (arith, e)), ((λ e. ground (arith, e)), tt))
