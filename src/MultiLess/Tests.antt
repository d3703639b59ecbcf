-- ===== src/MultiLess/Tests.antt =====
-- A chain over two fields.
use missinggo.Base.{◌≡◌, [], ◌∷◌, ltb}
use missinggo.MultiLess.{new_multi_less, is_less, next_all}
use missinggo.MultiLess.Chain.{lexicographic, comparisons, next_all-lexicographic}

next_all-lexicographic_example :
    is_less (next_all (comparisons ltb (3 ∷ 5 ∷ []) (3 ∷ 7 ∷ [])) new_multi_less)
    ≡ lexicographic ltb (3 ∷ 5 ∷ []) (3 ∷ 7 ∷ [])
next_all-lexicographic_example = next_all-lexicographic ltb (3 ∷ 5 ∷ []) (3 ∷ 7 ∷ [])
