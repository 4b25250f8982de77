-- ===== src/Node/Ttl/Index.antt =====
-- ttl.rs: the invariant of the index, and what `schedule` and `next_due_ms` do.
use ferriskv.Prelude.{
  ℕ, ◌+◌, ◌≤◌, ◌<◌, ◌≡◌, refl, Bool, true, ◌&&◌, ◌||◌, some, List, [], ◌∷◌, arith, ◌==◌,
  if◌then◌else◌, length, Bool-cases, inl, inr,
}
use ferriskv.Prelude.Bytes.{Bytes, bytes_eq, bytes_eq_iff}
use ferriskv.Node.Ttl.{
  Buckets, TtlIndex, contains, place, set_insert, bucket, set_bucket, first_expiry, is_earlier,
  schedule, next_due_ms,
}

-- The expiries of the buckets ascend strictly from `lo` on.
abbrev pub AscendFrom : ℕ → Buckets → Type 0
AscendFrom lo [] = Unit
AscendFrom lo ((ts, keys) ∷ rest) = (lo ≤ ts) × AscendFrom (ts + 1) rest

abbrev pub count : Buckets → ℕ
count [] = 0
count ((ts, keys) ∷ rest) = length keys + count rest

pub record IsValid (idx : TtlIndex) : Type 0 where
  pub ascend : AscendFrom 0 idx.by_expiry
  pub counted : idx.total ≡ count idx.by_expiry

-- Whether a key is registered at an expiry.
abbrev pub scheduled : TtlIndex → ℕ → Bytes → Bool
scheduled idx exp k = contains (bucket exp idx.by_expiry) k

contains-place :
    (k j : Bytes) (s : List Bytes) → contains (place k s) j ≡ (bytes_eq k j || contains s j)
unfolding contains place
contains-place k j [] = refl
contains-place k j (i ∷ s) = ground (arith, contains-place k j s)

length-place : (k : Bytes) (s : List Bytes) → length (place k s) ≡ length s + 1
unfolding place
length-place k [] = omega arith
length-place k (i ∷ s) = ground (arith, length-place k s)

contains-set_insert :
    (k j : Bytes) (s : List Bytes) → contains (set_insert k s) j ≡ (bytes_eq k j || contains s j)
unfolding set_insert
contains-set_insert k j s = elim (Bool-cases (contains s k)) [
  | inl old ↦ rw old (ground (arith, bytes_eq_iff k j))
  | inr new ↦ rw new (contains-place k j s)
]

length-set_insert :
    (k : Bytes) (s : List Bytes)
    → length (set_insert k s) ≡ (if contains s k then length s else length s + 1)
unfolding set_insert
length-set_insert k s = ground (arith, length-place k s)

pub bucket_below : (lo exp : ℕ) (b : Buckets) → AscendFrom lo b → exp < lo → bucket exp b ≡ []
unfolding bucket
bucket_below lo exp [] a h = refl
bucket_below lo exp ((ts, keys) ∷ rest) a h = ground (arith, bucket_below (ts + 1) exp rest)

bucket-set_bucket :
    (lo exp e : ℕ) (s : List Bytes) (b : Buckets)
    → AscendFrom lo b
    → bucket e (set_bucket exp s b) ≡ (if exp == e then s else bucket e b)
unfolding bucket set_bucket
bucket-set_bucket lo exp e s [] a = refl
bucket-set_bucket lo exp e s ((ts, keys) ∷ rest) a =
    ground (arith, bucket-set_bucket (ts + 1) exp e s rest, bucket_below (ts + 1) exp rest)

set_bucket-AscendFrom :
    (lo exp : ℕ) (s : List Bytes) (b : Buckets)
    → AscendFrom lo b
    → lo ≤ exp
    → AscendFrom lo (set_bucket exp s b)
unfolding set_bucket
set_bucket-AscendFrom lo exp s [] a h = (h, tt)
set_bucket-AscendFrom lo exp s ((ts, keys) ∷ rest) a h =
    ground (arith, set_bucket-AscendFrom (ts + 1) exp s rest)

count-set_bucket :
    (lo exp : ℕ) (s : List Bytes) (b : Buckets)
    → AscendFrom lo b
    → count (set_bucket exp s b) + length (bucket exp b) ≡ count b + length s
unfolding bucket set_bucket
count-set_bucket lo exp s [] a = omega arith
count-set_bucket lo exp s ((ts, keys) ∷ rest) a =
    ground (arith, count-set_bucket (ts + 1) exp s rest, bucket_below (ts + 1) exp rest)

schedule-IsValid :
    (key : Bytes) (exp : ℕ) (idx : TtlIndex) → IsValid idx → IsValid (schedule key exp idx)
unfolding schedule
schedule-IsValid key exp idx v =
    let keys = bucket exp idx.by_expiry in
    record {
      ascend =
          set_bucket-AscendFrom 0 exp (set_insert key keys) idx.by_expiry v.ascend (omega arith);
      counted = ground (
        arith,
        length-set_insert key keys,
        count-set_bucket 0 exp (set_insert key keys) idx.by_expiry v.ascend,
        v.counted,
      );
    }

scheduled-schedule :
    (key k : Bytes) (exp e : ℕ) (idx : TtlIndex)
    → IsValid idx
    → scheduled (schedule key exp idx) e k ≡ (((exp == e) && bytes_eq key k) || scheduled idx e k)
unfolding schedule
scheduled-schedule key k exp e idx v =
    rw
      (bucket-set_bucket 0 exp e (set_insert key (bucket exp idx.by_expiry)) idx.by_expiry v.ascend)
      (ground (arith, contains-set_insert key k (bucket exp idx.by_expiry)))

-- `schedule` keeps the index valid, registers its key at its expiry and changes nothing else, and
-- leaves a permit for the sweeper exactly where there was one or the expiry is the new earliest.
pub schedule_lem :
    (key : Bytes) (exp : ℕ) (idx : TtlIndex)
    → IsValid idx
    → IsValid (schedule key exp idx)
      × ((e : ℕ) (k : Bytes)
          → scheduled (schedule key exp idx) e k
            ≡ (((exp == e) && bytes_eq key k) || scheduled idx e k))
      × ((schedule key exp idx).permit ≡ (is_earlier exp (next_due_ms idx) || idx.permit))
schedule_lem key exp idx v = (
  schedule-IsValid key exp idx v,
  λ e k. scheduled-schedule key k exp e idx v,
  unfold schedule next_due_ms in refl,
)

pub first_expiry-le :
    (lo m e : ℕ) (k : Bytes) (b : Buckets)
    → AscendFrom lo b
    → first_expiry b ≡ some m
    → contains (bucket e b) k ≡ true
    → m ≤ e
unfolding bucket contains
first_expiry-le lo m e k [] a f h = cc
first_expiry-le lo m e k ((ts, keys) ∷ rest) a f h = ground (arith, bucket_below (ts + 1) e rest)
