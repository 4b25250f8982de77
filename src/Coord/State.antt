-- ===== src/Coord/State.antt =====
-- crates/ferriskv-coord/src/state.rs: `CoordState`.
use ferriskv.Prelude.{
  ℕ, ◌≡◌, refl, ap, ◌∙◌, max, Option, none, some, List, [], ◌∷◌, ltb, if◌then◌else◌, arith,
}
use ferriskv.Prelude.Bytes.{Bytes}
use ferriskv.Coord.Config.{CoordConfig}
use ferriskv.Coord.Placement.{RangeMap}

pub record CoordState : Type 0 where
  pub config : CoordConfig
  pub ranges : RangeMap
  pub leader_hint : Option Bytes
  pub term : ℕ

abbrev pub new : CoordConfig → CoordState
new config = record { config = config; ranges = []; leader_hint = none; term = 0 }

unfoldable pub bump_term : ℕ → CoordState → CoordState
bump_term term s = if ltb s.term term then record s { term = term } else s

unfoldable pub set_leader_hint : Bytes → CoordState → CoordState
set_leader_hint leader s = record s { leader_hint = some leader }

-- The operations that change the term and the leader, one after another.
pub data StateOp : Type 0 where
  bump : ℕ → StateOp
  hint : Bytes → StateOp

abbrev pub apply_op : StateOp → CoordState → CoordState
apply_op (bump term) s = bump_term term s
apply_op (hint leader) s = set_leader_hint leader s

unfoldable pub run : List StateOp → CoordState → CoordState
run [] s = s
run (o ∷ ops) s = run ops (apply_op o s)

abbrev pub highest : List StateOp → ℕ → ℕ
highest [] term = term
highest (bump t ∷ ops) term = highest ops (max term t)
highest (hint leader ∷ ops) term = highest ops term

term-bump_term : (t : ℕ) (s : CoordState) → (bump_term t s).term ≡ max s.term t
unfolding bump_term
term-bump_term t s = ground arith

-- The term is the highest that there was, whatever the order of the calls: it never goes back.
pub term-run : (ops : List StateOp) (s : CoordState) → (run ops s).term ≡ highest ops s.term
unfolding run set_leader_hint
term-run [] s = refl
term-run (bump t ∷ ops) s = term-run ops (bump_term t s) ∙ ap (highest ops) (term-bump_term t s)
term-run (hint leader ∷ ops) s = term-run ops (set_leader_hint leader s)
