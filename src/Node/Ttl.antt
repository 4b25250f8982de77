-- ===== src/Node/Ttl.antt =====
-- crates/ferriskv-node/src/ttl.rs: `TtlIndex`. The `BTreeMap` from expiries to `BTreeSet`s is a list
-- of buckets by ascending expiry; `permit` is the one that `Notify::notify_one` stores.
pub mod Index
pub mod Drain
mod Examples
use ferriskv.Prelude.{
  ℕ, ◌+◌, ◌-◌, Bool, true, false, not, ◌&&◌, ◌||◌, Option, none, some, List, [], ◌∷◌, ◌++◌, ltb,
  ◌==◌, if◌then◌else◌, length,
}
use ferriskv.Prelude.Bytes.{Bytes, bytes_eq, bytes_lt}

abbrev pub Buckets : Type 0
Buckets = List (ℕ × List Bytes)

pub record TtlIndex : Type 0 where
  pub by_expiry : Buckets
  pub total : ℕ
  pub permit : Bool

abbrev pub empty : TtlIndex
empty = record { by_expiry = []; total = 0; permit = false }

-- `BTreeSet`: membership and insertion.
unfoldable pub contains : List Bytes → Bytes → Bool
contains [] k = false
contains (j ∷ s) k = bytes_eq j k || contains s k

unfoldable pub place : Bytes → List Bytes → List Bytes
place k [] = k ∷ []
place k (j ∷ s) = if bytes_lt j k then j ∷ place k s else k ∷ j ∷ s

unfoldable pub set_insert : Bytes → List Bytes → List Bytes
set_insert k s = if contains s k then s else place k s

-- `by_expiry.entry(expires_at_ms).or_default()`: the set that is there, and the map with another.
unfoldable pub bucket : ℕ → Buckets → List Bytes
bucket exp [] = []
bucket exp ((ts, keys) ∷ rest) = if ts == exp then keys else bucket exp rest

unfoldable pub set_bucket : ℕ → List Bytes → Buckets → Buckets
set_bucket exp s [] = (exp, s) ∷ []
set_bucket exp s ((ts, keys) ∷ rest) =
    if ts == exp
    then (exp, s) ∷ rest
    else if ltb ts exp
    then (ts, keys) ∷ set_bucket exp s rest
    else (exp, s) ∷ (ts, keys) ∷ rest

-- `by_expiry.keys().next().copied()`
abbrev pub first_expiry : Buckets → Option ℕ
first_expiry [] = none
first_expiry ((ts, keys) ∷ rest) = some ts

abbrev pub is_earlier : ℕ → Option ℕ → Bool
is_earlier exp none = true
is_earlier exp (some prev) = ltb exp prev

unfoldable pub schedule : Bytes → ℕ → TtlIndex → TtlIndex
schedule key expires_at_ms idx =
    let keys = bucket expires_at_ms idx.by_expiry in
    let wake = is_earlier expires_at_ms (first_expiry idx.by_expiry) in
    record {
      by_expiry = set_bucket expires_at_ms (set_insert key keys) idx.by_expiry;
      total = if contains keys key then idx.total else idx.total + 1;
      permit = wake || idx.permit;
    }

unfoldable pub next_due_ms : TtlIndex → Option ℕ
next_due_ms idx = first_expiry idx.by_expiry

-- The `while let` loop of `drain_due`.
unfoldable pub drain_loop : ℕ → Buckets → List Bytes → List Bytes × Buckets
drain_loop now_ms [] out = (out, [])
drain_loop now_ms ((ts, keys) ∷ rest) out =
    let more = drain_loop now_ms rest (out ++ keys) in
    if ltb now_ms ts then (out, (ts, keys) ∷ rest) else more

unfoldable pub drain_due : ℕ → TtlIndex → List Bytes × TtlIndex
unfolding drain_loop
drain_due now_ms idx =
    let (out, left) = drain_loop now_ms idx.by_expiry [] in
    (out, record idx { by_expiry = left; total = idx.total - length out })

unfoldable pub len : TtlIndex → ℕ
len idx = idx.total
