-- ===== src/Node/Quota/Enforced.antt =====
-- quota.rs: what `check_write` lets through.
use ferriskv.Prelude.{ℕ, zero, suc, ◌^◌, ◌≤◌, ◌<◌, ◌≡◌, ◌⊎◌, inr, arith}
use ferriskv.Prelude.Bytes.{Bytes}
use ferriskv.Prelude.Int.{ℤ, pos, negsuc}
use ferriskv.Core.Error.{ok}
use ferriskv.Node.Quota.{QuotaStore, quota, used_bytes, check_write, apply_delta}

-- A counter that a limit allows: no limit is set, the counter is within it, or it has not grown.
abbrev pub IsAllowed : ℕ → ℕ → ℕ → Type 0
IsAllowed limit before now = (limit ≡ 0) ⊎ ((now ≤ limit) ⊎ (now ≤ before))

-- A change that `check_write` accepts takes the counter to a value that the limit allows.
pub check_write-IsAllowed :
    (s : QuotaStore) (t : Bytes) (z : ℤ)
    → used_bytes s t < 2 ^ 64
    → check_write s t z ≡ ok tt
    → IsAllowed (quota s t).max_bytes (used_bytes s t) (apply_delta (used_bytes s t) z)
unfolding check_write apply_delta
check_write-IsAllowed s t (pos zero) bound h = inr (inr (omega arith))
check_write-IsAllowed s t (pos (suc n)) bound h = ground arith
check_write-IsAllowed s t (negsuc n) bound h = inr (inr (omega arith))
