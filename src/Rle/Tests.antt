-- ===== src/Rle/Tests.antt =====
-- The run-length encoder on a short input.
use missinggo.Base.{ℕ, ◌≡◌, refl, List, [], ◌∷◌, arith}
use missinggo.Base.Keys.{nat_eq}
use missinggo.Rle.{append, flush, append_all, new_encoder}
use missinggo.Rle.Expand.{expand, NoneEmpty, append_all-expand}

abbrev input : List (ℕ × ℕ)
input = (7, 2) ∷ (8, 0) ∷ (7, 1) ∷ (7, 3) ∷ []

emitted : append_all input (new_encoder 0) ≡ (7, 2) ∷ (7, 4) ∷ []
unfolding append_all append flush new_encoder
emitted = refl

append_all-expand_example :
    (expand (append_all input (new_encoder 0)) ≡ expand input)
    × NoneEmpty (append_all input (new_encoder 0))
append_all-expand_example = append_all-expand 0 input (omega arith)
