-- ===== src/MultiLess.antt =====
-- multiless.go: chains of comparisons of which the first that is not equal decides. `Next` calls
-- its function only while the chain is open; a comparison is the function's result.
pub mod Chain
mod Tests
use missinggo.Base.{Bool, true, false, ◌&&◌, not, List, [], ◌∷◌, if◌then◌else◌}
use missinggo.Base.Int.{ℤ, pos, ltb_ℤ, beq_ℤ}
use missinggo.Base.Outcome.{Outcome, done, panics}

pub record MultiLess : Type 0 where
  pub ok : Bool
  pub less : Bool

abbrev pub new_multi_less : MultiLess
new_multi_less = record { ok = false; less = false }

-- `Less`, `Final` and `FinalOk`.
unfoldable pub is_less : MultiLess → Bool
is_less me = me.ok && me.less

unfoldable pub final : MultiLess → Outcome Bool
final me = if me.ok then done me.less else panics

unfoldable pub final_ok : MultiLess → Bool × Bool
final_ok me = (me.less, me.ok)

-- `Next` and `StrictNext`.
unfoldable pub next : Bool × Bool → MultiLess → MultiLess
next (same, less) me = if me.ok then me else if same then me else record { ok = true; less = less }

unfoldable pub next_bool : Bool → Bool → MultiLess → MultiLess
next_bool l r me = next (if l then r else not r, l) me

unfoldable pub compare : ℤ → MultiLess → MultiLess
compare i me = next (beq_ℤ i (pos 0), ltb_ℤ i (pos 0)) me

-- A caller that makes one comparison after another.
unfoldable pub next_all : List (Bool × Bool) → MultiLess → MultiLess
next_all [] me = me
next_all (c ∷ cs) me = next_all cs (next c me)
