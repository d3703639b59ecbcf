-- ===== src/Iter/Tests.antt =====
-- The combinators on two short lists.
use missinggo.Base.{ℕ, ◌≡◌, refl, true, List, [], ◌∷◌, ◌++◌, some, take}
use missinggo.Base.Callbacks.{Callback, each, each_all}
use missinggo.Iter.{all, first, chain, head}
use missinggo.Iter.Walks.{
  Walker, Walks, funcs, all_values, all-walks, chain-Walks, first-Walks, head-Walks,
}

abbrev walk_of : List ℕ → Walker ℕ
walk_of l = record { func = λ S cb s. each l cb s; values = l; walks = λ S cb s. refl }

abbrev walkers : List (Walker ℕ)
walkers = walk_of (1 ∷ 2 ∷ []) ∷ walk_of (3 ∷ []) ∷ []

abbrev collect : Callback ℕ (List ℕ)
collect x s = (s ++ x ∷ [], true)

all-walks_example : all collect (funcs walkers) [] ≡ each_all (all_values walkers) collect []
all-walks_example = all-walks walkers collect []

chain_of_two : Walks (chain (funcs walkers)) (1 ∷ 2 ∷ 3 ∷ [])
chain_of_two = chain-Walks walkers

first_of_walk : first {A = ℕ} (λ S cb s. each (4 ∷ 5 ∷ []) cb s) ≡ some 4
first_of_walk = first-Walks {A = ℕ} (λ S cb s. each (4 ∷ 5 ∷ []) cb s) (4 ∷ 5 ∷ []) (λ S cb s. refl)

head_of_two :
    (head 2 (λ S cb s. each (4 ∷ 5 ∷ 6 ∷ []) cb s) collect []).0
    ≡ each (take 2 (4 ∷ 5 ∷ 6 ∷ [])) collect []
head_of_two =
    head-Walks 2 (λ S cb s. each (4 ∷ 5 ∷ 6 ∷ []) cb s) (4 ∷ 5 ∷ 6 ∷ []) collect [] (λ S cb s. refl)
