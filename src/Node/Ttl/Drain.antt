-- ===== src/Node/Ttl/Drain.antt =====
-- ttl.rs: what `drain_due` takes out of the index, and what `next_due_ms` says of it.
use ferriskv.Prelude.{
  ℕ, ◌+◌, ◌≤◌, ◌≡◌, ◌↔◌, refl, true, false, ◌||◌, some, List, [], ◌∷◌, ◌++◌, arith, ltb, leb,
  if◌then◌else◌, length, length-append, Bool-cases, inl, inr,
}
use ferriskv.Prelude.Bytes.{Bytes}
use ferriskv.Node.Ttl.{
  Buckets, TtlIndex, contains, bucket, first_expiry, next_due_ms, drain_loop, drain_due,
}
use ferriskv.Node.Ttl.Index.{AscendFrom, count, IsValid, scheduled, bucket_below, first_expiry-le}

contains-append :
    (s t : List Bytes) (k : Bytes) → contains (s ++ t) k ≡ (contains s k || contains t k)
unfolding contains
contains-append [] t k = refl
contains-append (j ∷ s) t k = ground (arith, contains-append s t k)

AscendFrom-weaken : (lo hi : ℕ) (b : Buckets) → lo ≤ hi → AscendFrom hi b → AscendFrom lo b
AscendFrom-weaken lo hi [] h a = tt
AscendFrom-weaken lo hi ((ts, keys) ∷ rest) h a = (omega arith, a.1)

module _ (now : ℕ) where
  drain-AscendFrom :
      (lo : ℕ) (b : Buckets) (out : List Bytes)
      → AscendFrom lo b
      → AscendFrom lo (drain_loop now b out).1
  unfolding drain_loop
  drain-AscendFrom lo [] out a = tt
  drain-AscendFrom lo ((ts, keys) ∷ rest) out a = elim (Bool-cases (ltb now ts)) [
    | inl later ↦ rw later a
    | inr due ↦ rw due (
        AscendFrom-weaken lo (ts + 1) _ (omega arith)
          (drain-AscendFrom (ts + 1) rest (out ++ keys) a.1))
  ]

  drain-count :
      (b : Buckets) (out : List Bytes)
      → length (drain_loop now b out).0 + count (drain_loop now b out).1 ≡ length out + count b
  unfolding drain_loop
  drain-count [] out = omega arith
  drain-count ((ts, keys) ∷ rest) out =
      ground (arith, drain-count rest (out ++ keys), length-append out keys)

  bucket-drain :
      (lo e : ℕ) (b : Buckets) (out : List Bytes)
      → AscendFrom lo b
      → bucket e (drain_loop now b out).1 ≡ (if leb e now then [] else bucket e b)
  unfolding drain_loop bucket
  bucket-drain lo e [] out a = ground arith
  bucket-drain lo e ((ts, keys) ∷ rest) out a =
      ground (arith, bucket-drain (ts + 1) e rest (out ++ keys), bucket_below (ts + 1) e rest)

  -- What was taken out before stays, and each key of a due bucket is taken out.
  drain_keeps :
      (b : Buckets) (out : List Bytes) (k : Bytes)
      → contains out k ≡ true
      → contains (drain_loop now b out).0 k ≡ true
  unfolding drain_loop
  drain_keeps [] out k h = h
  drain_keeps ((ts, keys) ∷ rest) out k h =
      ground (arith, drain_keeps rest (out ++ keys) k, contains-append out keys k)

  drain_takes :
      (lo e : ℕ) (b : Buckets) (out : List Bytes) (k : Bytes)
      → AscendFrom lo b
      → e ≤ now
      → contains (bucket e b) k ≡ true
      → contains (drain_loop now b out).0 k ≡ true
  unfolding drain_loop bucket
  drain_takes lo e [] out k a h c = unfold contains in cc
  drain_takes lo e ((ts, keys) ∷ rest) out k a h c = ground (
    arith,
    drain_takes (ts + 1) e rest (out ++ keys) k,
    drain_keeps rest (out ++ keys) k,
    contains-append out keys k,
    bucket_below (ts + 1) e rest,
    not_empty,
  )
    where
      not_empty : contains [] k ≡ false
      not_empty = unfold contains in refl

  drain_source :
      (lo : ℕ) (b : Buckets) (out : List Bytes) (k : Bytes)
      → AscendFrom lo b
      → contains out k ≡ false
      → contains (drain_loop now b out).0 k ≡ true
      → (e : ℕ) × (lo ≤ e) × (e ≤ now) × (contains (bucket e b) k ≡ true)
  unfolding drain_loop bucket
  drain_source lo [] out k a h c = cc
  drain_source lo ((ts, keys) ∷ rest) out k a h c = elim (Bool-cases (ltb now ts)) [
    | inl later ↦ cc (rw (later, drain_loop) at c)
    | inr due ↦ elim (Bool-cases (contains keys k)) [
      | inl here ↦ (ts, omega arith, ground arith, ground arith)
      | inr elsewhere ↦
          let (e, low, high, found) =
            drain_source (ts + 1) rest (out ++ keys) k a.1
              (ground (arith, contains-append out keys k)) (rw (due, drain_loop) at c) in
          (e, omega arith, high, ground arith)
    ]
  ]

-- `drain_due` keeps the index valid and splits it at `now_ms`: it returns every key that was
-- registered at or before that time, and only such keys, and it leaves no registration at or
-- before that time and every later one as it was.
pub drain_due_lem :
    (now_ms : ℕ) (idx : TtlIndex)
    → IsValid idx
    → let (out, idx') = drain_due now_ms idx in
      IsValid idx'
      × ((e : ℕ) (k : Bytes)
          → scheduled idx' e k ≡ (if leb e now_ms then false else scheduled idx e k))
      × ((k : Bytes)
          → (contains out k ≡ true) ↔ ((e : ℕ) × (e ≤ now_ms) × (scheduled idx e k ≡ true)))
unfolding drain_due
drain_due_lem now_ms idx v = (
  record {
    ascend = drain-AscendFrom now_ms 0 idx.by_expiry [] v.ascend;
    counted = omega (arith, drain-count now_ms idx.by_expiry [], v.counted);
  },
  λ e k. rw (bucket-drain now_ms 0 e idx.by_expiry [] v.ascend) (left e k),
  λ k. (
    λ c. source k (drain_source now_ms 0 idx.by_expiry [] k v.ascend (unfold contains in refl) c),
    λ (e, h, c). drain_takes now_ms 0 e idx.by_expiry [] k v.ascend h c,
  ),
)
  where
    left :
        (e : ℕ) (k : Bytes)
        → contains (if leb e now_ms then [] else bucket e idx.by_expiry) k
          ≡ (if leb e now_ms then false else scheduled idx e k)
    left e k = elim (Bool-cases (leb e now_ms)) [
      | inl due ↦ rw due (unfold contains in refl)
      | inr later ↦ rw later
    ]

    source :
        (k : Bytes)
        → ((e : ℕ) × (0 ≤ e) × (e ≤ now_ms) × (contains (bucket e idx.by_expiry) k ≡ true))
        → (e : ℕ) × (e ≤ now_ms) × (scheduled idx e k ≡ true)
    source k (e, low, high, found) = (e, high, found)

-- In a valid index where some key is registered at an expiry, `next_due_ms` returns an expiry, and
-- one that is no later.
pub next_due_ms_lem :
    (idx : TtlIndex) (e : ℕ) (k : Bytes)
    → IsValid idx
    → scheduled idx e k ≡ true
    → (m : ℕ) × (next_due_ms idx ≡ some m) × (m ≤ e)
unfolding next_due_ms
next_due_ms_lem idx e k v h = earliest idx.by_expiry v.ascend h
  where
    earliest :
        (b : Buckets)
        → AscendFrom 0 b
        → contains (bucket e b) k ≡ true
        → (m : ℕ) × (first_expiry b ≡ some m) × (m ≤ e)
    earliest [] a c = unfold contains bucket in cc
    earliest ((ts, keys) ∷ rest) a c = (ts, refl, first_expiry-le 0 ts e k _ a refl c)
