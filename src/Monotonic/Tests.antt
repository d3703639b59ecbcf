-- ===== src/Monotonic/Tests.antt =====
-- A standard clock that goes back twice, and one that goes back too far.
use missinggo.Base.{◌≡◌, refl, [], ◌∷◌, arith}
use missinggo.Base.Int.{pos, ◌+ℤ◌, ◌-ℤ◌}
use missinggo.Monotonic.{init, int64, time_sub, added_skew, skewed_std_now, times}
use missinggo.Monotonic.Order.{Ascending, times-Ascending}

times-Ascending_example :
    Ascending
      (skewed_std_now (pos 50) init).0
      (times (pos 70 ∷ pos 30 ∷ pos 40 ∷ pos 10 ∷ []) (skewed_std_now (pos 50) init).1)
unfolding ◌-ℤ◌
times-Ascending_example =
    times-Ascending (pos 50) (pos 70 ∷ pos 30 ∷ pos 40 ∷ pos 10 ∷ []) (ground arith) (ground arith)

-- From 10^19 nanoseconds back to 1: the second time lies before the first.
goes_down :
    times (pos 10000000000000000000 ∷ pos 1 ∷ []) init
    ≡ pos 10000000000000000000 ∷ pos 9223372036854775808 ∷ []
unfolding times skewed_std_now int64 added_skew time_sub ◌+ℤ◌ ◌-ℤ◌
goes_down = refl
