-- ===== src/Base/Count.antt =====
-- How many values of a list pass a test, and what a write to the list does to that.
use mathlib.Core.Bool.{Bool, true, false}
use mathlib.Core.List.{List, [], ◌∷◌}
use mathlib.Core.Option.{some}
use mathlib.Core.Path.{◌≡◌, refl}
use native.Mathlib.Omega.{arith}
use Prim.Native.Nat.{ℕ, zero, suc, ◌+◌, ◌<◌, ◌≤◌}
use missinggo.Base.Tests.{if◌then◌else◌, ◌==◌}
use missinggo.Base.Lists.{get_elem?, set}

abbrev pub one_if : Bool → ℕ
one_if true = 1
one_if false = 0

module _ {A : Type 0} where
  -- How many values pass a test.
  abbrev pub count : (A → Bool) → List A → ℕ
  count p [] = 0
  count p (x ∷ xs) = one_if (p x) + count p xs

  pub count-set :
      (p : A → Bool) (xs : List A) (i : ℕ) (x y : A)
      → get_elem? xs i ≡ some x
      → count p (set xs i y) + one_if (p x) ≡ count p xs + one_if (p y)
  count-set p [] i x y h = absurd (ground arith)
  count-set p (z ∷ xs) zero x y h = let e : z ≡ x = ground arith in rw (e) (omega arith)
  count-set p (z ∷ xs) (suc i) x y h = omega (arith, count-set p xs i x y h)

  pub count-pos :
      (p : A → Bool) (xs : List A) (i : ℕ) (x : A)
      → get_elem? xs i ≡ some x
      → p x ≡ true
      → 0 < count p xs
  count-pos p [] i x h t = absurd (ground arith)
  count-pos p (z ∷ xs) zero x h t = ground (arith, h, t)
  count-pos p (z ∷ xs) (suc i) x h t = omega (arith, count-pos p xs i x h t)

  -- Two places that pass count twice.
  pub count-two :
      (p : A → Bool) (xs : List A) (i j : ℕ) (x y : A)
      → get_elem? xs i ≡ some x
      → get_elem? xs j ≡ some y
      → p x ≡ true
      → p y ≡ true
      → count p xs ≤ 1
      → i ≡ j
  count-two p [] i j x y h k t u few = absurd (ground arith)
  count-two p (z ∷ xs) zero zero x y h k t u few = refl
  count-two p (z ∷ xs) zero (suc j) x y h k t u few =
      absurd (ground (arith, h, t, count-pos p xs j y k u))
  count-two p (z ∷ xs) (suc i) zero x y h k t u few =
      absurd (ground (arith, k, u, count-pos p xs i x h t))
  count-two p (z ∷ xs) (suc i) (suc j) x y h k t u few =
      let e : i ≡ j = count-two p xs i j x y h k t u (omega arith) in omega arith

  pub get_set :
      (xs : List A) (i j : ℕ) (x y z : A)
      → get_elem? xs i ≡ some x
      → get_elem? (set xs i y) j ≡ some z
      → (if i == j then z ≡ y else (get_elem? xs j ≡ some z))
  get_set [] i j x y z h k = absurd (ground arith)
  get_set (a ∷ xs) zero zero x y z h k = ground arith
  get_set (a ∷ xs) zero (suc j) x y z h k = ground arith
  get_set (a ∷ xs) (suc i) zero x y z h k = ground arith
  get_set (a ∷ xs) (suc i) (suc j) x y z h k = ground (arith, get_set xs i j x y z h k)
