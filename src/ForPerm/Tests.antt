-- ===== src/ForPerm/Tests.antt =====
-- A walk that always takes the first place.
use missinggo.Base.{ℕ, ◌≡◌, List, ◌==◌, if◌then◌else◌, ltb}
use missinggo.Base.Callbacks.{Callback, each_all}
use missinggo.Base.Count.{count}
use missinggo.ForPerm.{for_perm}
use missinggo.ForPerm.Once.{Below, for_perm_once}

abbrev always_first : (round bound : ℕ) → ℕ
always_first round bound = 0

always_first-Below : Below always_first
always_first-Below round bound h = h

for_perm_once_example :
    (l : List ℕ) × ((j : ℕ) → count (λ v. v == j) l ≡ (if ltb j 5 then 1 else 0))
    × ((S : Type 0) (cb : Callback ℕ S) (st : S) → for_perm always_first 5 cb st ≡ each_all l cb st)
for_perm_once_example = for_perm_once always_first 5 always_first-Below
