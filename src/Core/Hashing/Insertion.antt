-- ===== src/Core/Hashing/Insertion.antt =====
-- A sort by descending score, by insertion: an instance of what hashing.rs asks of the sort, and the
-- one that any other sort agrees with where the scores are distinct.
use ferriskv.Prelude.{
  ℕ, zero, suc, ◌≤◌, ◌<◌, ◌≡◌, refl, ◌∙◌, ap, inl, inr, List, [], ◌∷◌, ◌++◌, take, ltb, Bool-cases,
  arith, All, ◌≢◌, subst, if◌then◌else◌,
}
use ferriskv.Prelude.Bytes.{Bytes}
use mathlib.Core.List.{Pairwise, Perm, Mem, forall_mem-cons, not-mem-nil}
use mathlib.Core.List.Perm
use native.Mathlib.Bridge.{le_prop}
use ferriskv.Core.Hashing.{Scored, IsSort, nodes_of, scored, hrw_score, hrw_select}

-- In front of the first lower score.
unfoldable pub insert_scored : ℕ → Bytes → Scored → Scored
insert_scored score node [] = (score, node) ∷ []
insert_scored score node ((s, n) ∷ rest) =
    if ltb s score then (score, node) ∷ (s, n) ∷ rest else (s, n) ∷ insert_scored score node rest

-- `sort_unstable_by_key(|(score, _)| Reverse(*score))`, from the last node on.
unfoldable pub sort_scored : Scored → Scored
sort_scored [] = []
sort_scored ((score, node) ∷ rest) = insert_scored score node (sort_scored rest)

-- No score is above `hi`, and scores descend.
abbrev Below : ℕ → Scored → Type 0
Below hi [] = Unit
Below hi ((s, n) ∷ rest) = (s ≤ hi) × Below hi rest

abbrev Descending : Scored → Type 0
Descending [] = Unit
Descending ((s, n) ∷ rest) = Below s rest × Descending rest

Below-insert_scored :
    (hi score : ℕ) (node : Bytes) (xs : Scored)
    → score ≤ hi
    → Below hi xs
    → Below hi (insert_scored score node xs)
unfolding insert_scored
Below-insert_scored hi score node [] h b = (h, tt)
Below-insert_scored hi score node ((s, n) ∷ rest) h b =
    ground (arith, Below-insert_scored hi score node rest)

Below-mono : (lo hi : ℕ) (xs : Scored) → lo ≤ hi → Below lo xs → Below hi xs
Below-mono lo hi [] h b = tt
Below-mono lo hi ((s, n) ∷ rest) h b = (omega arith, Below-mono lo hi rest h b.1)

insert_scored-Descending :
    (score : ℕ) (node : Bytes) (xs : Scored)
    → Descending xs
    → Descending (insert_scored score node xs)
unfolding insert_scored
insert_scored-Descending score node [] d = (tt, tt)
insert_scored-Descending score node ((s, n) ∷ rest) d = elim (Bool-cases (ltb s score)) [
  | inl lower ↦ rw lower ((ground arith, Below-mono s score rest (ground arith) d.0), d)
  | inr higher ↦ rw higher (
    Below-insert_scored s score node rest (ground arith) d.0,
    insert_scored-Descending score node rest d.1,
  )
]

sort_scored-Descending : (xs : Scored) → Descending (sort_scored xs)
unfolding sort_scored
sort_scored-Descending [] = tt
sort_scored-Descending ((s, n) ∷ rest) =
    insert_scored-Descending s n (sort_scored rest) (sort_scored-Descending rest)

-- A score that is above all of the entries goes to the front.
insert_scored-front :
    (score : ℕ) (node : Bytes) (xs : Scored) (s : ℕ)
    → s < score
    → Below s xs
    → insert_scored score node xs ≡ (score, node) ∷ xs
unfolding insert_scored
insert_scored-front score node [] s h b = refl
insert_scored-front score node ((t, n) ∷ rest) s h b = ground arith

-- The second list is the first without one entry.
data Without (score : ℕ) (node : Bytes) : Scored → Scored → Type 0 where
  here : {rest : Scored} → Without score node ((score, node) ∷ rest) rest
  later :
      {s : ℕ} {n : Bytes} {xs ys : Scored}
      → Without score node xs ys
      → Without score node ((s, n) ∷ xs) ((s, n) ∷ ys)

-- What is inserted is what there is more.
inserted :
    (score : ℕ) (node : Bytes) (xs : Scored) → Without score node (insert_scored score node xs) xs
unfolding insert_scored
inserted score node [] = here
inserted score node ((s, n) ∷ rest) = elim (Bool-cases (ltb s score)) [
  | inl lower ↦ rw lower here
  | inr higher ↦ rw higher (later (inserted score node rest))
]

insert_scored-Without :
    {score : ℕ} {node : Bytes} {xs ys : Scored} (s : ℕ) (n : Bytes)
    → Descending xs
    → Without score node xs ys
    → Without score node (insert_scored s n xs) (insert_scored s n ys)
unfolding insert_scored
insert_scored-Without {score} {node} s n d (here {rest}) = elim (Bool-cases (ltb score s)) [
  | inl higher ↦ rw (higher, insert_scored-front s n rest score (ground arith) d.0) (later here)
  | inr lower ↦ rw lower here
]
insert_scored-Without s n d (later {s = t} w) = elim (Bool-cases (ltb t s)) [
  | inl higher ↦ rw higher (later (later w))
  | inr lower ↦ rw lower (later (insert_scored-Without s n d.1 w))
]

take-Without :
    {score : ℕ} {node : Bytes} {xs ys : Scored} (n : ℕ)
    → Without score node xs ys
    → All (λ m. m ≢ node) (nodes_of (take n xs))
    → nodes_of (take n xs) ≡ nodes_of (take n ys)
take-Without zero w kept = refl
take-Without (suc n) here kept = absurd (kept.0 refl)
take-Without (suc n) (later {n = m} w) kept = ap (λ rest. m ∷ rest) (take-Without n w kept.1)

module _ (blake3 : Bytes → Bytes) (key : Bytes) where
  sort_scored-Without :
      (xs : List Bytes) (node : Bytes) (ys : List Bytes)
      → Without
          (hrw_score blake3 key node)
          node
          (sort_scored (scored blake3 key (xs ++ (node ∷ ys))))
          (sort_scored (scored blake3 key (xs ++ ys)))
  unfolding scored sort_scored
  sort_scored-Without [] node ys = inserted (hrw_score blake3 key node) node _
  sort_scored-Without (x ∷ xs) node ys =
      insert_scored-Without (hrw_score blake3 key x) x
        (sort_scored-Descending (scored blake3 key (xs ++ (node ∷ ys))))
        (sort_scored-Without xs node ys)

  selected :
      (nodes : List Bytes) (n : ℕ)
      → hrw_select blake3 sort_scored key nodes n
        ≡ nodes_of (take n (sort_scored (scored blake3 key nodes)))
  unfolding hrw_select scored sort_scored
  selected [] zero = refl
  selected [] (suc n) = refl
  selected (node ∷ nodes) zero = refl
  selected (node ∷ nodes) (suc n) = ground arith

  pub insertion_leaves :
      (xs : List Bytes) (node : Bytes) (ys : List Bytes) (n : ℕ)
      → All (λ m. m ≢ node) (hrw_select blake3 sort_scored key (xs ++ (node ∷ ys)) n)
      → hrw_select blake3 sort_scored key (xs ++ (node ∷ ys)) n
        ≡ hrw_select blake3 sort_scored key (xs ++ ys) n
  insertion_leaves xs node ys n kept = rw (selected (xs ++ ys) n) (
      selected (xs ++ (node ∷ ys)) n
      ∙ take-Without n (sort_scored-Without xs node ys)
          (subst (All (λ m. m ≢ node)) (selected (xs ++ (node ∷ ys)) n) kept))

Below-Mem : (hi : ℕ) (xs : Scored) → Below hi xs → (x : ℕ × Bytes) → Mem x xs → x.0 ≤ hi
Below-Mem hi [] b = λ x m. absurd (not-mem-nil m)
Below-Mem hi ((s, n) ∷ rest) b =
    (forall_mem-cons (λ (x : ℕ × Bytes). le_prop)).1 (b.0, Below-Mem hi rest b.1)

Descending-Pairwise : (xs : Scored) → Descending xs → Pairwise (λ (x y : ℕ × Bytes). y.0 ≤ x.0) xs
Descending-Pairwise [] d = Pairwise.nil
Descending-Pairwise ((s, n) ∷ rest) d =
    Pairwise.cons (Below-Mem s rest d.0) (Descending-Pairwise rest d.1)

insert_scored-Perm : (s : ℕ) (n : Bytes) (xs : Scored) → Perm ((s, n) ∷ xs) (insert_scored s n xs)
unfolding insert_scored
insert_scored-Perm s n [] = Perm.rfl
insert_scored-Perm s n ((t, m) ∷ rest) = elim (Bool-cases (ltb t s)) [
  | inl lower ↦ rw lower Perm.rfl
  | inr higher ↦
      rw higher
        (Perm.trans (Perm.swap (t, m) (s, n) rest) (Perm.cons (t, m) (insert_scored-Perm s n rest)))
]

sort_scored-Perm : (xs : Scored) → Perm xs (sort_scored xs)
unfolding sort_scored
sort_scored-Perm [] = Perm.rfl
sort_scored-Perm ((s, n) ∷ rest) =
    Perm.trans (Perm.cons (s, n) (sort_scored-Perm rest))
      (insert_scored-Perm s n (sort_scored rest))

pub sort_scored-IsSort : IsSort sort_scored
sort_scored-IsSort = record {
  descends = λ xs. Descending-Pairwise (sort_scored xs) (sort_scored-Descending xs);
  permutes = sort_scored-Perm;
}
