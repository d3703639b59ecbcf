-- ===== src/OrderedMap/Sorted.antt =====
-- Lists in strictly ascending order, by which the B-tree is specified: what a search for an item,
-- an insertion and a removal do to the ascending sequence of a tree's items.
use missinggo.Base.{
  ◌≡◌, refl, Bool, true, false, List, [], ◌∷◌, Option, none, some, arith, if◌then◌else◌, Bool-cases,
  inl, inr,
}
use missinggo.Base.Keys.{StrictOrder, same}

module _ {A : Type 0} (less : A → A → Bool) where
  unfoldable pub find_item : A → List A → Option A
  find_item x [] = none
  find_item x (y ∷ ys) = if same less x y then some y else find_item x ys

  -- An item equal to the new one is replaced.
  unfoldable pub insert_item : A → List A → List A
  insert_item x [] = x ∷ []
  insert_item x (y ∷ ys) =
      let rest = insert_item x ys in
      if less x y then x ∷ y ∷ ys else if less y x then y ∷ rest else x ∷ ys

  unfoldable pub remove_item : A → List A → List A
  remove_item x [] = []
  remove_item x (y ∷ ys) = if same less x y then ys else y ∷ remove_item x ys

  abbrev pub Above : A → List A → Type 0
  Above x [] = Unit {0}
  Above x (y ∷ ys) = (less x y ≡ true) × Above x ys

  abbrev pub Sorted : List A → Type 0
  Sorted [] = Unit {0}
  Sorted (x ∷ xs) = Above x xs × Sorted xs

module _ {A : Type 0} {less : A → A → Bool} (o : StrictOrder less) where
  pub Above-trans : (x y : A) (xs : List A) → less x y ≡ true → Above less y xs → Above less x xs
  Above-trans x y [] h a = tt
  Above-trans x y (z ∷ xs) h a = (o.trans x y z h a.0, Above-trans x y xs h a.1)

  pub Above-insert :
      (x y : A) (xs : List A)
      → less x y ≡ true
      → Above less x xs
      → Above less x (insert_item less y xs)
  unfolding insert_item
  Above-insert x y [] h a = (h, tt)
  Above-insert x y (z ∷ xs) h a = ground (arith, Above-insert x y xs h a.1)

  pub Above-remove :
      (x y : A) (xs : List A) → Above less x xs → Above less x (remove_item less y xs)
  unfolding remove_item
  Above-remove x y [] a = tt
  Above-remove x y (z ∷ xs) a = ground (arith, Above-remove x y xs a.1)

  Above-same : (x y : A) (ys : List A) → less y x ≡ false → Above less y ys → Above less x ys
  Above-same x y [] h a = tt
  Above-same x y (z ∷ ys) h a = elim (Bool-cases (less x z)) [
    | inl p ↦ (p, Above-same x y ys h a.1)
    | inr p ↦ absurd (ground (arith, o.neg_trans y x z h p, a.0))
  ]

  pub insert_item-Sorted :
      (x : A) (xs : List A) → Sorted less xs → Sorted less (insert_item less x xs)
  unfolding insert_item
  insert_item-Sorted x [] s = (tt, tt)
  insert_item-Sorted x (y ∷ ys) s = ground (
    arith,
    insert_item-Sorted x ys s.1,
    Above-trans x y ys,
    Above-insert y x ys,
    Above-same x y ys,
  )

  pub remove_item-Sorted :
      (x : A) (xs : List A) → Sorted less xs → Sorted less (remove_item less x xs)
  unfolding remove_item
  remove_item-Sorted x [] s = tt
  remove_item-Sorted x (y ∷ ys) s =
      ground (arith, remove_item-Sorted x ys s.1, Above-remove y x ys s.0)

  -- `same` is an equivalence.
  pub same_refl : (x : A) → same less x x ≡ true
  same_refl x = ground (arith, o.irrefl x)

  pub asym : (x y : A) → less x y ≡ true → less y x ≡ false
  asym x y h = ground (arith, o.trans x y x, o.irrefl x)

  pub less-same : (x y z : A) → same less x y ≡ true → less x z ≡ less y z
  less-same x y z h = ground (arith, o.neg_trans y x z, o.neg_trans x y z)

  pub less-same' : (x y z : A) → same less x y ≡ true → less z x ≡ less z y
  less-same' x y z h = ground (arith, o.neg_trans z x y, o.neg_trans z y x)

  pub find-Above : (x : A) (xs : List A) → Above less x xs → find_item less x xs ≡ none
  unfolding find_item
  find-Above x [] a = refl
  find-Above x (y ∷ ys) a = ground (arith, find-Above x ys a.1)

  find-same :
      (x y : A) (xs : List A) → same less x y ≡ true → find_item less x xs ≡ find_item less y xs
  unfolding find_item
  find-same x y [] h = refl
  find-same x y (z ∷ zs) h =
      ground (arith, find-same x y zs h, less-same x y z h, less-same' x y z h)

  -- What a search finds after an insertion.
  pub find-insert :
      (x y : A) (xs : List A)
      → Sorted less xs
      → find_item less y (insert_item less x xs)
        ≡ (if same less y x then some x else find_item less y xs)
  unfolding find_item insert_item
  find-insert x y [] s = refl
  find-insert x y (z ∷ zs) s = ground (
    arith,
    find-insert x y zs s.1,
    less-same y x z,
    less-same' y x z,
    less-same x z y,
    less-same' x z y,
  )

  -- What a search finds after a removal.
  pub find-remove :
      (x y : A) (xs : List A)
      → Sorted less xs
      → find_item less y (remove_item less x xs)
        ≡ (if same less y x then none else find_item less y xs)
  unfolding find_item remove_item
  find-remove x y [] s = ground arith
  find-remove x y (z ∷ zs) s = ground (
    arith,
    find-remove x y zs s.1,
    less-same y x z,
    less-same' y x z,
    less-same x z y,
    less-same' x z y,
    find-Above z zs s.0,
    find-Above y zs,
    find-same y z zs,
  )

  find_not_below :
      (x y z : A) (xs : List A) → Above less x xs → find_item less y xs ≡ some z → less y x ≡ false
  unfolding find_item
  find_not_below x y z [] a h = cc
  find_not_below x y z (w ∷ ws) a h =
      ground (arith, find_not_below x y z ws a.1, less-same y w x, asym x w)

  -- Nothing that a search finds lies before the first item.
  pub head_least :
      (x y z : A) (xs : List A)
      → Sorted less (x ∷ xs)
      → find_item less y (x ∷ xs) ≡ some z
      → less y x ≡ false
  unfolding find_item
  head_least x y z xs s h = ground (arith, find_not_below x y z xs s.0)
