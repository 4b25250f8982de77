-- ===== src/Node/Throttle/Window.antt =====
-- A concrete limiter: it admits its rate once, and never a cost above the rate.
use ferriskv.Prelude.{ℕ, ◌-◌, ltb, if◌then◌else◌}
use ferriskv.Node.Throttle.{Governor, admitted, not_yet, never}

abbrev pub governor : Governor
governor = record {
  Limiter = ℕ × ℕ;
  direct = λ now rate. (rate, rate);
  check_n = λ l now cost.
      if ltb l.0 cost
      then (never, l)
      else if ltb l.1 cost
      then (not_yet, l)
      else (admitted, (l.0, l.1 - cost));
}
