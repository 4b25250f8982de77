-- ===== src/Node/Sweeper/Wakeup.antt =====
-- ttl.rs: `compute_wakeup`, when the sweeper wakes up. Instants and durations are milliseconds.
use ferriskv.Prelude.{
  ℕ, ◌+◌, ◌-◌, ◌≤◌, ◌↔◌, ◌⊎◌, Option, none, some, min, leb, if◌then◌else◌, arith,
}
use ferriskv.Node.Ttl.{TtlIndex, next_due_ms}

-- `now` is the monotonic instant, `clock_now` what the service's clock reads.
unfoldable pub wakeup : ℕ → ℕ → ℕ → Option ℕ → ℕ
wakeup now clock_now fallback none = now + fallback
wakeup now clock_now fallback (some due_ms) =
    if leb due_ms clock_now then now else min (now + (due_ms - clock_now)) (now + fallback)

unfoldable pub compute_wakeup : ℕ → ℕ → ℕ → TtlIndex → ℕ
unfolding wakeup
compute_wakeup now clock_now fallback idx = wakeup now clock_now fallback (next_due_ms idx)

-- The first expiry has come by an instant that is `elapsed` later, by the service's clock.
abbrev pub HasDue : ℕ → ℕ → Option ℕ → Type 0
HasDue clock_now elapsed none = ⊥
HasDue clock_now elapsed (some due_ms) = due_ms ≤ clock_now + elapsed

wakeup_iff :
    (now clock_now fallback elapsed : ℕ) (o : Option ℕ)
    → (wakeup now clock_now fallback o ≤ now + elapsed)
      ↔ ((fallback ≤ elapsed) ⊎ HasDue clock_now elapsed o)
unfolding wakeup
wakeup_iff now clock_now fallback elapsed none = ground arith
wakeup_iff now clock_now fallback elapsed (some due_ms) = ground arith

-- The sweeper's wake-up has come, `elapsed` milliseconds after it was computed, exactly when the
-- fallback interval has passed or the first expiry of the index is due by the service's clock: it
-- sleeps past no expiry, and wakes up for none that is not due.
pub compute_wakeup_iff_due :
    (now clock_now fallback elapsed : ℕ) (idx : TtlIndex)
    → (compute_wakeup now clock_now fallback idx ≤ now + elapsed)
      ↔ ((fallback ≤ elapsed) ⊎ HasDue clock_now elapsed (next_due_ms idx))
unfolding compute_wakeup
compute_wakeup_iff_due now clock_now fallback elapsed idx =
    wakeup_iff now clock_now fallback elapsed (next_due_ms idx)
