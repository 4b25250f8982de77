-- ===== src/Core/Hashing/Selection.antt =====
-- hashing.rs: a node that was not selected can leave without changing the selection.
use ferriskv.Prelude.{
  ℕ, ◌≤◌, ◌≡◌, refl, sym, ap, ◌∙◌, List, [], ◌∷◌, ◌++◌, take, ◌==◌, if◌then◌else◌, arith, All, ◌≢◌,
  subst,
}
use ferriskv.Prelude.Bytes.{Bytes}
use mathlib.Core.List.{Pairwise, Permᴰ, Sublistᴰ, Mem, mem-cons_self, is_set}
use mathlib.Core.List.Permᴰ
use mathlib.Core.List.Sublistᴰ
use mathlib.Core.List.Pairwise
use mathlib.Core.Logic.{∥∥₁_elim}
use mathlib.Core.HLevel.{¬_prop}
use native.Mathlib.Nat.{ℕ_set}
use ferriskv.Core.Hashing.{Scored, IsSort, nodes_of, scored, hrw_select}
use ferriskv.Core.Hashing.Insertion.{insert_scored, sort_scored, insertion_leaves}

abbrev pub Differ : ℕ × Bytes → ℕ × Bytes → Type 0
Differ x y = x.0 ≢ y.0

insert_scored_comm :
    (s : ℕ) (n : Bytes) (t : ℕ) (m : Bytes) (xs : Scored)
    → s ≢ t
    → insert_scored s n (insert_scored t m xs) ≡ insert_scored t m (insert_scored s n xs)
unfolding insert_scored
insert_scored_comm s n t m [] differ = ground arith
insert_scored_comm s n t m ((u, k) ∷ rest) differ =
    ground (arith, insert_scored_comm s n t m rest differ)

-- Permutations of distinct scores are sorted into the same list.
sort_scored-eq :
    {xs zs : Scored} → Permᴰ xs zs → Pairwise Differ xs → sort_scored xs ≡ sort_scored zs
unfolding sort_scored
sort_scored-eq Permᴰ.nil differ = refl
sort_scored-eq (Permᴰ.cons e d) (Pairwise.cons h p) = cc (e, sort_scored-eq d p)
sort_scored-eq (Permᴰ.swap {a = a} {b = b} {l = l} e e') (Pairwise.cons h p) =
    cc (e, e', insert_scored_comm a.0 a.1 b.0 b.1 (sort_scored l) (h b mem-cons_self))
sort_scored-eq (Permᴰ.trans d d') differ =
    sort_scored-eq d differ
    ∙ sort_scored-eq d'
        (Permᴰ.pairwise (λ x y. ¬_prop) (λ x y other same. other (sym same)) d differ)

-- What descends already stays as it is.
sorted :
    {xs : Scored}
    → Pairwise (λ (x y : ℕ × Bytes). y.0 ≤ x.0) xs
    → Pairwise Differ xs
    → sort_scored xs ≡ xs
unfolding sort_scored insert_scored
sorted Pairwise.nil Pairwise.nil = refl
sorted (Pairwise.cons {a = a} {l = l} below p) (Pairwise.cons differ q) =
    ap (insert_scored a.0 a.1) (sorted p q) ∙ in_front l below differ
  where
    in_front :
        (l : Scored)
        → ((x : ℕ × Bytes) → Mem x l → x.0 ≤ a.0)
        → ((x : ℕ × Bytes) → Mem x l → a.0 ≢ x.0)
        → insert_scored a.0 a.1 l ≡ a ∷ l
    in_front [] b d = refl
    in_front (x ∷ rest) b d =
        let low : x.0 ≤ a.0 = b x mem-cons_self in
        let other : a.0 ≢ x.0 = d x mem-cons_self in ground (arith, low, other)

module _ (blake3 : Bytes → Bytes) (key : Bytes) where
  scored-Sublist :
      (xs : List Bytes) (node : Bytes) (ys : List Bytes)
      → Sublistᴰ (scored blake3 key (xs ++ ys)) (scored blake3 key (xs ++ (node ∷ ys)))
  unfolding scored
  scored-Sublist [] node ys = Sublistᴰ.cons (Sublistᴰ.refl _)
  scored-Sublist (x ∷ xs) node ys = Sublistᴰ.cons-cons refl (scored-Sublist xs node ys)

  module _ (sort : Scored → Scored) (sorts : IsSort sort) where
    -- Where the scores are distinct, each sort selects the same nodes.
    sort_unique :
        (nodes : List Bytes) (n : ℕ)
        → Pairwise Differ (scored blake3 key nodes)
        → hrw_select blake3 sort key nodes n ≡ hrw_select blake3 sort_scored key nodes n
    unfolding hrw_select
    sort_unique [] n differ = refl
    sort_unique (node ∷ nodes) n differ =
        let xs = scored blake3 key (node ∷ nodes) in
        ∥∥₁_elim (sorts.permutes xs) (is_set (is_set ℕ_set) _ _) (λ d.
          let differ' =
            Permᴰ.pairwise (λ x y. ¬_prop) (λ x y other same. other (sym same)) d differ in
          ap (λ (zs : Scored). if n == 0 then [] else nodes_of (take n zs))
            (sym (sorted (sorts.descends xs) differ') ∙ sym (sort_scored-eq d differ)))

    -- When a node that a selection leaves out goes away, the selection for the key stays as it is:
    -- only the keys that a node serves move when it leaves. It needs that no two of the nodes have the
    -- same score, since the sort promises no order for equal scores, and holds for each sort.
    pub unselected_leaves :
        (xs : List Bytes) (node : Bytes) (ys : List Bytes) (n : ℕ)
        → Pairwise Differ (scored blake3 key (xs ++ (node ∷ ys)))
        → All (λ m. m ≢ node) (hrw_select blake3 sort key (xs ++ (node ∷ ys)) n)
        → hrw_select blake3 sort key (xs ++ (node ∷ ys)) n ≡ hrw_select blake3 sort key (xs ++ ys) n
    unselected_leaves xs node ys n differ kept =
        let before = sort_unique (xs ++ (node ∷ ys)) n differ in
        let after =
          sort_unique (xs ++ ys) n (Pairwise.sublistᴰ (scored-Sublist xs node ys) differ) in
        before
        ∙ insertion_leaves blake3 key xs node ys n (subst (All (λ m. m ≢ node)) before kept)
        ∙ sym after
