-- ===== src/GroupBy/Tests.antt =====
-- Numbers grouped by their halves.
use missinggo.Base.{ℕ, ◌≡◌, ◌/◌, [], ◌∷◌, List, arith}
use missinggo.Base.Keys.{nat_eq}
use missinggo.Base.Outcome.{done}
use missinggo.GroupBy.{group_by, take_groups}
use missinggo.GroupBy.Runs.{runs, take_groups-group_by}

abbrev half : ℕ → ℕ
half n = n / 2

abbrev numbers : List ℕ
numbers = 4 ∷ 5 ∷ 2 ∷ 3 ∷ 3 ∷ 5 ∷ []

take_groups-group_by_example : take_groups half 8 (group_by half numbers) ≡ done (runs half numbers)
take_groups-group_by_example = take_groups-group_by half numbers 8 (ground arith)
