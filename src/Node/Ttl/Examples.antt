-- ===== src/Node/Ttl/Examples.antt =====
-- ttl.rs at a concrete index: two keys at 10 and one at 20.
use ferriskv.Prelude.{
  ℕ, ◌≤◌, ◌≡◌, ◌↔◌, refl, true, false, ◌&&◌, ◌||◌, some, [], ◌∷◌, arith, leb, ◌==◌, if◌then◌else◌,
}
use ferriskv.Prelude.Bytes.{Bytes, bytes_eq}
use ferriskv.Node.Ttl.{TtlIndex, contains, bucket, is_earlier, schedule, next_due_ms, drain_due}
use ferriskv.Node.Ttl.Index.{IsValid, scheduled, schedule_lem}
use ferriskv.Node.Ttl.Drain.{drain_due_lem, next_due_ms_lem}

abbrev index : TtlIndex
index = record {
  by_expiry = (10, (1 ∷ []) ∷ (2 ∷ []) ∷ []) ∷ (20, (3 ∷ []) ∷ []) ∷ [];
  total = 3;
  permit = false;
}

index-IsValid : IsValid index
index-IsValid = omega arith

schedule_lem_example :
    IsValid (schedule (4 ∷ []) 15 index)
    × ((e : ℕ) (k : Bytes)
        → scheduled (schedule (4 ∷ []) 15 index) e k
          ≡ (((15 == e) && bytes_eq (4 ∷ []) k) || scheduled index e k))
    × ((schedule (4 ∷ []) 15 index).permit ≡ (is_earlier 15 (next_due_ms index) || index.permit))
schedule_lem_example = schedule_lem (4 ∷ []) 15 index index-IsValid

drain_due_lem_example :
    let (out, idx') = drain_due 12 index in
    IsValid idx'
    × ((e : ℕ) (k : Bytes) → scheduled idx' e k ≡ (if leb e 12 then false else scheduled index e k))
    × ((k : Bytes) → (contains out k ≡ true) ↔ ((e : ℕ) × (e ≤ 12) × (scheduled index e k ≡ true)))
drain_due_lem_example = drain_due_lem 12 index index-IsValid

next_due_ms_lem_example : (m : ℕ) × (next_due_ms index ≡ some m) × (m ≤ 20)
unfolding bucket contains bytes_eq
next_due_ms_lem_example = next_due_ms_lem index 20 (3 ∷ []) index-IsValid refl

drain_runs : (drain_due 12 index).0 ≡ (1 ∷ []) ∷ (2 ∷ []) ∷ []
unfolding drain_due
drain_runs = refl
