-- ===== src/Base/Callbacks.antt =====
-- iter.Callback of iter/func.go: a call that may change the caller's variables (the state `S`)
-- and says whether to go on.
use mathlib.Core.Bool.{Bool, true, false}
use mathlib.Core.Path.{◌≡◌, refl, sym, ◌∙◌}
use mathlib.Core.List.{List, [], ◌∷◌, ◌++◌}

abbrev pub Callback : Type 0 → Type 0 → Type 0
Callback A S = A → S → S × Bool

-- Hands the callback one value after another until it says stop; whether none said so.
unfoldable pub each_all : {A S : Type 0} → List A → Callback A S → S → S × Bool
each_all [] cb s = (s, true)
each_all (x ∷ xs) cb s =
    let (s', more) = cb x s in elim more [ true ↦ each_all xs cb s' | false ↦ (s', false) ]

-- The same, for a caller that does not look at the outcome.
unfoldable pub each : {A S : Type 0} → List A → Callback A S → S → S
unfolding each_all
each xs cb s = (each_all xs cb s).0

-- The calls go on only while the callback asks for more.
abbrev pub and_then : {S : Type 0} → S × Bool → (S → S × Bool) → S × Bool
and_then r k = elim r.1 [ true ↦ k r.0 | false ↦ (r.0, false) ]

pub and_then_assoc :
    {S : Type 0} (r : S × Bool) (k l : S → S × Bool)
    → and_then (and_then r k) l ≡ and_then r (λ s. and_then (k s) l)
and_then_assoc (s, true) k l = refl
and_then_assoc (s, false) k l = refl

pub and_then_cong :
    {S : Type 0} (r : S × Bool) (k l : S → S × Bool)
    → ((s : S) → k s ≡ l s)
    → and_then r k ≡ and_then r l
and_then_cong (s, true) k l h = h s
and_then_cong (s, false) k l h = refl

pub each_all-++ :
    {A S : Type 0} (xs ys : List A) (f : Callback A S) (s : S)
    → each_all (xs ++ ys) f s ≡ and_then (each_all xs f s) (each_all ys f)
unfolding each_all
each_all-++ [] ys f s = refl
each_all-++ (x ∷ xs) ys f s =
    and_then_cong (f x s) (each_all (xs ++ ys) f) (λ t. and_then (each_all xs f t) (each_all ys f))
      (each_all-++ xs ys f)
    ∙ sym (and_then_assoc (f x s) (each_all xs f) (each_all ys f))

pub and_then_done : {S : Type 0} (r : S × Bool) → and_then r (λ s. (s, true)) ≡ r
and_then_done (s, true) = refl
and_then_done (s, false) = refl
