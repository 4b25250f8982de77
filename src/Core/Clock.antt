-- ===== src/Core/Clock.antt =====
-- crates/ferriskv-core/src/clock.rs: `Clock`. What the operating system's clock reads is an argument.
use ferriskv.Prelude.{ℕ, ◌+◌, ◌%◌, ◌^◌}

pub data Clock : Type 0 where
  system : Clock
  manual : ℕ → Clock

abbrev pub default : Clock
default = system

unfoldable pub now_ms : ℕ → Clock → ℕ
now_ms system_ms system = system_ms
now_ms system_ms (manual t) = t

-- `fetch_add` wraps.
unfoldable pub advance : ℕ → Clock → Clock
advance by_ms system = system
advance by_ms (manual t) = manual ((t + by_ms) % 2 ^ 64)
