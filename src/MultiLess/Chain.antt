-- ===== src/MultiLess/Chain.antt =====
-- Chains of comparisons and the lexicographic order.
use missinggo.Base.{
  ◌≡◌, refl, Bool, true, false, ◌&&◌, ◌||◌, List, [], ◌∷◌, arith, Bool-cases, inl, inr,
}
use missinggo.Base.Keys.{same}
use missinggo.MultiLess.{MultiLess, new_multi_less, is_less, next, next_all}

-- Comparing two lists of fields, each by the order of the field; a missing field ends the comparison.
abbrev pub lexicographic : {A : Type 0} → (A → A → Bool) → List A → List A → Bool
lexicographic less [] ys = false
lexicographic less (x ∷ xs) [] = false
lexicographic less (x ∷ xs) (y ∷ ys) = less x y || (same less x y && lexicographic less xs ys)

-- The comparisons that a `Less` method of such fields makes.
abbrev pub comparisons : {A : Type 0} → (A → A → Bool) → List A → List A → List (Bool × Bool)
comparisons less [] ys = []
comparisons less (x ∷ xs) [] = []
comparisons less (x ∷ xs) (y ∷ ys) = (same less x y, less x y) ∷ comparisons less xs ys

resolved : (cs : List (Bool × Bool)) (me : MultiLess) → me.ok ≡ true → next_all cs me ≡ me
unfolding next_all next
resolved [] me h = refl
resolved (c ∷ cs) me h = ground (arith, h, resolved cs me h)

module _ {A : Type 0} (less : A → A → Bool) where
  -- A chain of comparisons of the fields of two values, in turn, says less exactly if the first
  -- value is before the second in the lexicographic order of their fields.
  pub next_all-lexicographic :
      (xs ys : List A)
      → is_less (next_all (comparisons less xs ys) new_multi_less) ≡ lexicographic less xs ys
  unfolding next_all next is_less
  next_all-lexicographic [] ys = refl
  next_all-lexicographic (x ∷ xs) [] = refl
  next_all-lexicographic (x ∷ xs) (y ∷ ys) = elim (Bool-cases (same less x y)) [
    | inl q ↦ ground (arith, q, next_all-lexicographic xs ys)
    | inr q ↦
        ground
          (arith, q, resolved (comparisons less xs ys) (record { ok = true; less = less x y }) refl)
  ]
