-- ===== src/Base/Keys.antt =====
-- Keys of maps: a type with a Boolean equality, as Go's `==` on comparable types.
use mathlib.Core.Bool.{Bool, true, false, not, ◌&&◌}
use mathlib.Core.Logic.{◌↔◌}
use mathlib.Core.List.{List, [], ◌∷◌}
use mathlib.Core.Path.{◌≡◌, refl}
use native.Mathlib.Omega.{arith}
use Prim.Native.Nat.{ℕ}
use missinggo.Base.Tests.{◌==◌, ltb, ==_iff, if◌then◌else◌}

pub record Eq (A : Type 0) : Type 0 where
  pub beq : A → A → Bool
  pub beq_iff : (a b : A) → (beq a b ≡ true) ↔ (a ≡ b)

instance abbrev pub nat_eq : Eq ℕ
nat_eq = record { beq = ◌==◌; beq_iff = ==_iff }

-- A strict weak order, which Go's containers want of a `less` function.
pub record StrictOrder {A : Type 0} (less : A → A → Bool) : Type 0 where
  pub irrefl : (a : A) → less a a ≡ false
  pub trans : (a b c : A) → less a b ≡ true → less b c ≡ true → less a c ≡ true
  pub neg_trans : (a b c : A) → less a b ≡ false → less b c ≡ false → less a c ≡ false

-- Neither lies before the other.
abbrev pub same : {A : Type 0} → (A → A → Bool) → A → A → Bool
same less a b = not (less a b) && not (less b a)

pub ltb-StrictOrder : StrictOrder ltb
ltb-StrictOrder = record {
  irrefl = λ a. ground arith;
  trans = λ a b c p q. ground arith;
  neg_trans = λ a b c p q. ground arith;
}

-- Byte strings, as lists of byte values, under Go's `==` and `<`.
abbrev pub bytes_eq : List ℕ → List ℕ → Bool
bytes_eq [] [] = true
bytes_eq [] (y ∷ ys) = false
bytes_eq (x ∷ xs) [] = false
bytes_eq (x ∷ xs) (y ∷ ys) = x == y && bytes_eq xs ys

unfoldable pub bytes_less : List ℕ → List ℕ → Bool
bytes_less [] [] = false
bytes_less [] (y ∷ ys) = true
bytes_less (x ∷ xs) [] = false
bytes_less (x ∷ xs) (y ∷ ys) =
    let rest = bytes_less xs ys in if ltb x y then true else if ltb y x then false else rest

pub bytes_eq_iff : (a b : List ℕ) → (bytes_eq a b ≡ true) ↔ (a ≡ b)
bytes_eq_iff [] [] = ground arith
bytes_eq_iff [] (y ∷ ys) = ground arith
bytes_eq_iff (x ∷ xs) [] = ground arith
bytes_eq_iff (x ∷ xs) (y ∷ ys) = ground (arith, bytes_eq_iff xs ys)

instance abbrev pub bytes_key : Eq (List ℕ)
bytes_key = record { beq = bytes_eq; beq_iff = bytes_eq_iff }

bytes_less_irrefl : (a : List ℕ) → bytes_less a a ≡ false
unfolding bytes_less
bytes_less_irrefl [] = refl
bytes_less_irrefl (x ∷ xs) = ground (arith, bytes_less_irrefl xs)

bytes_less_trans :
    (a b c : List ℕ) → bytes_less a b ≡ true → bytes_less b c ≡ true → bytes_less a c ≡ true
unfolding bytes_less
bytes_less_trans a [] c p q = absurd (nothing a p)
  where
    nothing : (a : List ℕ) → bytes_less a [] ≡ true → ⊥
    nothing [] p = cc
    nothing (x ∷ xs) p = cc
bytes_less_trans [] (y ∷ ys) [] p q = cc
bytes_less_trans [] (y ∷ ys) (z ∷ zs) p q = refl
bytes_less_trans (x ∷ xs) (y ∷ ys) [] p q = cc
bytes_less_trans (x ∷ xs) (y ∷ ys) (z ∷ zs) p q = ground (arith, bytes_less_trans xs ys zs)

bytes_less-neg_trans :
    (a b c : List ℕ) → bytes_less a b ≡ false → bytes_less b c ≡ false → bytes_less a c ≡ false
unfolding bytes_less
bytes_less-neg_trans [] [] c p q = q
bytes_less-neg_trans [] (y ∷ ys) c p q = cc
bytes_less-neg_trans (x ∷ xs) b [] p q = refl
bytes_less-neg_trans (x ∷ xs) [] (z ∷ zs) p q = cc
bytes_less-neg_trans (x ∷ xs) (y ∷ ys) (z ∷ zs) p q = ground (arith, bytes_less-neg_trans xs ys zs)

pub bytes_less-StrictOrder : StrictOrder bytes_less
bytes_less-StrictOrder = record {
  irrefl = bytes_less_irrefl;
  trans = bytes_less_trans;
  neg_trans = bytes_less-neg_trans;
}

-- No two byte strings stand together in the order.
pub same-bytes_less : (a b : List ℕ) → same bytes_less a b ≡ bytes_eq a b
unfolding bytes_less
same-bytes_less [] [] = refl
same-bytes_less [] (y ∷ ys) = refl
same-bytes_less (x ∷ xs) [] = refl
same-bytes_less (x ∷ xs) (y ∷ ys) = ground (arith, same-bytes_less xs ys)
