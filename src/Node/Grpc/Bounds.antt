-- ===== src/Node/Grpc/Bounds.antt =====
-- grpc.rs: the bounds of a scan select the keys with its prefix.
pub mod Selected
use ferriskv.Prelude.{
  ℕ, ◌+◌, ◌≡◌, refl, ap, ◌∙◌, inl, inr, true, false, not, ◌&&◌, [], ◌∷◌, ◌++◌, ◌==◌, if◌then◌else◌,
  length, append_assoc, All-append, arith, Bool-cases,
}
use ferriskv.Prelude.Bytes.{Bytes, IsByte, AreBytes, is_empty, starts_with, bytes_lt}
use ferriskv.Core.Error.{Result, ok, err, ◌>>=◌}
use ferriskv.Core.Key.{data_space, encode_subspace_prefix}
use ferriskv.Core.Key.RoundTrip.{encode_lem}
use mathlib.Core.List.{reverse, reverse-append}
use ferriskv.Node.Grpc.{ScanBounds, bound_loop, next_prefix_bound, encode_data_scan_bounds}

-- What is left of the loop where the first bytes come last.
bound_loop-append :
    (xs ys : Bytes)
    → bound_loop (xs ++ ys)
      ≡ (if is_empty (bound_loop xs) then bound_loop ys else bound_loop xs ++ ys)
unfolding bound_loop
bound_loop-append [] ys = refl
bound_loop-append (x ∷ xs) ys = elim (Bool-cases (x == 255)) [
  | inl h ↦ rw h (bound_loop-append xs ys)
  | inr h ↦ rw h refl
]

is_empty-append : (xs : Bytes) (c : ℕ) → is_empty (xs ++ (c ∷ [])) ≡ false
is_empty-append [] c = refl
is_empty-append (x ∷ xs) c = refl

reverse-cons : (c : ℕ) (r : Bytes) → reverse (c ∷ r) ≡ reverse r ++ (c ∷ [])
reverse-cons c r = reverse-append (c ∷ []) r

last_byte :
    (b : ℕ) (x : Bytes)
    → reverse (if is_empty x then bound_loop (b ∷ []) else x ++ (b ∷ []))
      ≡ (if is_empty (reverse x) then (if b == 255 then [] else (b + 1) ∷ []) else b ∷ reverse x)
unfolding bound_loop
last_byte b [] = elim (Bool-cases (b == 255)) [ inl h ↦ rw h refl | inr h ↦ rw h refl ]
last_byte b (c ∷ r) =
    let filled : is_empty (reverse (c ∷ r)) ≡ false =
      rw (reverse-cons c r) (is_empty-append (reverse r) c) in
    rw filled (reverse-append (c ∷ r) (b ∷ []))

next_prefix_bound-cons :
    (b : ℕ) (p : Bytes)
    → next_prefix_bound (b ∷ p) ≡ (
        if is_empty (next_prefix_bound p)
        then (if b == 255 then [] else (b + 1) ∷ [])
        else b ∷ next_prefix_bound p)
unfolding next_prefix_bound
next_prefix_bound-cons b p =
    ap (λ (x : Bytes). reverse (bound_loop x)) (reverse-cons b p)
    ∙ ap reverse (bound_loop-append (reverse p) (b ∷ []))
    ∙ last_byte b (bound_loop (reverse p))

unbounded :
    (c : ℕ) (p : Bytes)
    → is_empty (next_prefix_bound (c ∷ p)) ≡ true
    → (is_empty (next_prefix_bound p) ≡ true) × (c ≡ 255)
unbounded c p h = elim (Bool-cases (is_empty (next_prefix_bound p))) [
  | inl none_left ↦ (none_left, top c (rw none_left at (next_prefix_bound-cons c p)) h)
  | inr left ↦ absurd (filled (rw left at (next_prefix_bound-cons c p)) h)
]
  where
    top :
        (c : ℕ) {x : Bytes}
        → x ≡ (if c == 255 then [] else (c + 1) ∷ [])
        → is_empty x ≡ true
        → c ≡ 255
    top c e h = ground arith

    filled : {x : Bytes} → x ≡ c ∷ next_prefix_bound p → is_empty x ≡ true → ⊥
    filled e h = ground arith

below : (c : ℕ) → is_empty (if c == 255 then [] else (c + 1) ∷ []) ≡ false → (c == 255) ≡ false
below c h = ground arith

-- A prefix without a bound is the greatest byte throughout.
greatest :
    (p key : Bytes)
    → AreBytes key
    → AreBytes p
    → is_empty (next_prefix_bound p) ≡ true
    → starts_with key p ≡ not (bytes_lt key p)
unfolding starts_with bytes_lt
greatest [] [] a b h = refl
greatest [] (k ∷ ks) a b h = refl
greatest (c ∷ p) [] a b h = refl
greatest (c ∷ p) (k ∷ ks) a b h =
    let (rest, top) = unbounded c p h in ground (arith, greatest p ks a.1 b.1 rest, top, a.0)

pub next_prefix_bound_lem :
    (p key : Bytes)
    → AreBytes key
    → AreBytes p
    → is_empty (next_prefix_bound p) ≡ false
    → starts_with key p ≡ (not (bytes_lt key p) && bytes_lt key (next_prefix_bound p))
unfolding starts_with bytes_lt
next_prefix_bound_lem [] key a b h = unfold next_prefix_bound in cc
next_prefix_bound_lem (c ∷ p) [] a b h = refl
next_prefix_bound_lem (c ∷ p) (k ∷ ks) a b h = elim (Bool-cases (is_empty (next_prefix_bound p))) [
  | inl none_left ↦
      let at_end = rw none_left at (next_prefix_bound-cons c p) in
      let low : (c == 255) ≡ false = below c (rw at_end at h) in
      rw (at_end, low) (ground (arith, greatest p ks a.1 b.1 none_left, a.0, b.0))
  | inr left ↦
      let inner = rw left at (next_prefix_bound-cons c p) in
      rw inner (ground (arith, next_prefix_bound_lem p ks a.1 b.1 left))
]

bounded-append :
    (xs ys : Bytes)
    → is_empty (next_prefix_bound ys) ≡ false
    → is_empty (next_prefix_bound (xs ++ ys)) ≡ false
bounded-append [] ys h = h
bounded-append (x ∷ xs) ys h =
    let rest = bounded-append xs ys h in rw (rw rest at (next_prefix_bound-cons x (xs ++ ys))) refl

data_prefix-bounded : (u : Bytes) → is_empty (next_prefix_bound (1 ∷ u)) ≡ false
data_prefix-bounded u = elim (Bool-cases (is_empty (next_prefix_bound u))) [
  | inl none_left ↦ rw (rw none_left at (next_prefix_bound-cons 1 u)) refl
  | inr left ↦ rw (rw left at (next_prefix_bound-cons 1 u)) refl
]

abbrev bounds_of : Bytes → Bytes → ScanBounds
bounds_of sub_prefix u = record {
  start = sub_prefix ++ u;
  end = next_prefix_bound (sub_prefix ++ u);
  strip_len = length sub_prefix;
}

-- The bounds select what starts with the first of them.
pub bounds_select :
    (t u key : Bytes) (b : ScanBounds)
    → AreBytes t
    → AreBytes u
    → AreBytes key
    → encode_data_scan_bounds t u ≡ ok b
    → starts_with key b.start ≡ (not (bytes_lt key b.start) && bytes_lt key b.end)
unfolding encode_data_scan_bounds encode_subspace_prefix
bounds_select t u key b ht hu hk h = by_prefix (encode_subspace_prefix t data_space) refl h
  where
    by_prefix :
        (r : Result Bytes)
        → encode_subspace_prefix t data_space ≡ r
        → (r >>= λ sub_prefix. ok (bounds_of sub_prefix u)) ≡ ok b
        → starts_with key b.start ≡ (not (bytes_lt key b.start) && bytes_lt key b.end)
    by_prefix (err e) eq h = cc
    by_prefix (ok sp) eq h =
        let (same, pos, short) = encode_lem t data_space [] sp eq in
        let whole : sp ++ u ≡ (length t ∷ t) ++ (1 ∷ u) =
          ap (λ (x : Bytes). x ++ u) same ∙ append_assoc (length t ∷ t) (1 ∷ []) u in
        let bytes : AreBytes ((length t ∷ t) ++ (1 ∷ u)) =
          All-append IsByte (length t ∷ t) (1 ∷ u) (omega arith, ht) (omega arith, hu) in
        let bounded = bounded-append (length t ∷ t) (1 ∷ u) (data_prefix-bounded u) in
        let is_b : bounds_of sp u ≡ b = cc in
        rw (← is_b, whole) (next_prefix_bound_lem ((length t ∷ t) ++ (1 ∷ u)) key hk bytes bounded)
