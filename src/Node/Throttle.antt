-- ===== src/Node/Throttle.antt =====
-- crates/ferriskv-node/src/throttle.rs: `Throttle`. A limiter of `governor` is a parameter; the time
-- that it reads from its clock, when it is made and when it is asked, is an argument, one for both
-- in a call, and metrics are left out.
pub mod Window
pub mod Admission
mod Examples
use ferriskv.Prelude.{ℕ, Option, none, some, [], ltb, ◌==◌, if◌then◌else◌}
use ferriskv.Prelude.Bytes.{Bytes}
use ferriskv.Prelude.Assoc.{Map, lookup, insert}
use ferriskv.Core.Error.{Result, ok, err, rate_limited, config, request_too_costly}

-- The nested result of `check_n`.
pub data Decision : Type 0 where
  admitted not_yet never : Decision

pub record Governor : Type 1 where
  pub Limiter : Type 0
  pub direct : ℕ → ℕ → Limiter
  pub check_n : Limiter → ℕ → ℕ → Decision × Limiter

module _ (G : Governor) where
  pub record Entry : Type 0 where
    pub ops_per_sec : ℕ
    pub limiter : G.Limiter

  pub record Throttle : Type 0 where
    pub default_ops_per_sec : ℕ
    pub limiters : Map Entry

-- What `check` makes of the decision.
abbrev pub answer : Bytes → ℕ → ℕ → Decision → Result (Unit {0})
answer tenant limit cost admitted = ok tt
answer tenant limit cost not_yet = err (rate_limited tenant limit)
answer tenant limit cost never = err (config (request_too_costly cost limit tenant))

module _ {G : Governor} where
  abbrev pub new : ℕ → Throttle G
  new default_ops_per_sec = record { default_ops_per_sec = default_ops_per_sec; limiters = [] }

  abbrev pub fresh_entry : ℕ → ℕ → Entry G
  fresh_entry now rate = record { ops_per_sec = rate; limiter = G.direct now rate }

  -- The limiter for the tenant. The map shares it, so `check` stores what `check_n` makes of it.
  entry_at : ℕ → ℕ → Option (Entry G) → Entry G
  entry_at now rate none = fresh_entry now rate
  entry_at now rate (some existing) =
      if existing.ops_per_sec == rate then existing else fresh_entry now rate

  unfoldable pub entry : Throttle G → ℕ → Bytes → ℕ → Entry G
  unfolding entry_at
  entry t now tenant rate = entry_at now rate (lookup tenant t.limiters)

  abbrev pub limit_of : Throttle G → ℕ → ℕ
  limit_of t ops_per_sec = if ltb 0 ops_per_sec then ops_per_sec else t.default_ops_per_sec

  unfoldable pub charge : Throttle G → ℕ → Bytes → ℕ → ℕ → Result (Unit {0}) × Throttle G
  unfolding entry
  charge t now tenant limit cost =
      let e = entry t now tenant limit in
      let (decision, limiter) = G.check_n e.limiter now cost in
      (
        answer tenant limit cost decision,
        record t { limiters = insert tenant (record e { limiter = limiter }) t.limiters },
      )

  check_limit : Throttle G → ℕ → Bytes → ℕ → ℕ → Result (Unit {0}) × Throttle G
  check_limit t now tenant limit cost =
      if limit == 0
      then (ok tt, t)
      else if cost == 0
      then (ok tt, t)
      else charge t now tenant limit cost

  unfoldable pub check : Throttle G → ℕ → Bytes → ℕ → ℕ → Result (Unit {0}) × Throttle G
  unfolding charge check_limit
  check t now tenant ops_per_sec cost = check_limit t now tenant (limit_of t ops_per_sec) cost
