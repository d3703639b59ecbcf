-- ===== src/Bitmap/Tests.antt =====
-- Bitmaps over a list of values.
use missinggo.Base.{
  ℕ, zero, suc, ◌+◌, ◌-◌, ◌≡◌, refl, Bool, true, ◌||◌, ◌&&◌, not, List, [], ◌∷◌, ◌++◌, some, ◌==◌,
  leb, if◌then◌else◌, arith,
}
use missinggo.Base.Int.{pos}
use missinggo.Base.Outcome.{done, panics, Returns}
use missinggo.Bitmap.{Roaring, elem, within, Bitmap}
use missinggo.Bitmap.Means.{flips_range, step, view, meant, step-Meets}

abbrev keep : (ℕ → Bool) → List ℕ → List ℕ
keep p [] = []
keep p (x ∷ xs) = let rest = keep p xs in if p x then x ∷ rest else rest

abbrev upto : ℕ → ℕ → List ℕ
upto a zero = []
upto a (suc n) = a ∷ upto (suc a) n

elem-keep : (p : ℕ → Bool) (u : ℕ) (xs : List ℕ) → elem u (keep p xs) ≡ (p u && elem u xs)
elem-keep p u [] = ground arith
elem-keep p u (x ∷ xs) =
    let e : (x == u) ≡ true → p x ≡ p u = λ h. ground (arith, h) in
    ground (arith, elem-keep p u xs, e)

elem-++ : (u : ℕ) (xs ys : List ℕ) → elem u (xs ++ ys) ≡ (elem u xs || elem u ys)
elem-++ u [] ys = refl
elem-++ u (x ∷ xs) ys = ground (arith, elem-++ u xs ys)

elem-upto : (a n u : ℕ) → elem u (upto a n) ≡ within a (a + n) u
elem-upto a zero u = ground arith
elem-upto a (suc n) u = ground (arith, elem-upto (suc a) n u)

elem_between : (a b u : ℕ) → elem u (upto a (b - a)) ≡ within a b u
elem_between a b u = ground (arith, elem-upto a (b - a) u)

abbrev flip_list : ℕ → ℕ → List ℕ → List ℕ
flip_list v w b = keep (λ u. not (elem u b)) (upto v (w - v)) ++ keep (λ u. not (within v w u)) b

elem-flip :
    (v w u : ℕ) (b : List ℕ)
    → elem u (flip_list v w b) ≡ (if within v w u then not (elem u b) else elem u b)
elem-flip v w u b = ground (
  arith,
  elem-++ u (keep (λ u. not (elem u b)) (upto v (w - v))) (keep (λ u. not (within v w u)) b),
  elem-keep (λ u. not (elem u b)) u (upto v (w - v)),
  elem-keep (λ u. not (within v w u)) u b,
  elem_between v w u,
)

abbrev lists : Roaring
lists = record {
  Rb = List ℕ;
  new = [];
  add = λ v b. v ∷ b;
  remove = λ v. keep (λ u. not (v == u));
  add_range = λ v w b. if leb w 4294967296 then done (upto v (w - v) ++ b) else panics;
  remove_range = λ v w. keep (λ u. not (within v w u));
  flip = λ v w b. if leb w 4294967296 then done (flip_list v w b) else panics;
  or = λ b c. b ++ c;
  and_not = λ b c. keep (λ u. not (elem u c)) b;
  contains = elem;
  to_array = λ b. b;
  contains_new = λ u. refl;
  contains_add = λ v u b. refl;
  contains_remove = λ v u b. elem-keep (λ x. not (v == x)) u b;
  contains_add_range = λ v w b h. (
    upto v (w - v) ++ b,
    ground arith,
    λ u. ground (arith, elem-++ u (upto v (w - v)) b, elem_between v w u),
  );
  contains_remove_range = λ v w u b. elem-keep (λ x. not (within v w x)) u b;
  contains_flip = λ v w b h. (flip_list v w b, ground arith, λ u. elem-flip v w u b);
  contains_or = λ u b c. elem-++ u b c;
  contains_and_not = λ u b c. ground (arith, elem-keep (λ x. not (elem x c)) u b);
  to_array_elem = λ u b. refl;
}

abbrev three : Bitmap lists
three = some (5 ∷ 9 ∷ 12 ∷ [])

step-Meets_example :
    Returns
      (λ me.
        (u : ℕ) → view lists me u ≡ meant lists (flips_range (pos 8) (pos 11)) (view lists three) u)
      (step lists (flips_range (pos 8) (pos 11)) three)
step-Meets_example = step-Meets lists (flips_range (pos 8) (pos 11)) three (ground arith)
