-- ===== src/ForPerm/Once.antt =====
-- The numbers that `ForPerm` hands over.
use missinggo.Base.{
  ℕ, zero, suc, ◌+◌, ◌-◌, ◌<◌, ◌≤◌, ◌≡◌, refl, ◌∙◌, ap, Bool, List, [], ◌∷◌, some, ◌==◌, ltb, leb,
  ◌&&◌, if◌then◌else◌, length, get_elem?, get_or, set, take, replicate, arith, Bool-cases, inl, inr,
  length-set, length-replicate, length-take,
}
use missinggo.Base.Callbacks.{Callback, each_all}
use missinggo.Base.Count.{one_if, count, count-set}
use missinggo.ForPerm.{Seq, new_seq, or_index, index, delete_index, walk, for_perm}

-- The values of a sequence whose first place has a number.
abbrev values : ℕ → Seq → List ℕ
values o [] = []
values o (v ∷ s) = or_index o v ∷ values (suc o) s

length-values : (o : ℕ) (s : Seq) → length (values o s) ≡ length s
length-values o [] = refl
length-values o (v ∷ s) = ap suc (length-values (suc o) s)

get-values :
    (o i : ℕ) (s : Seq)
    → i < length s
    → get_elem? (values o s) i ≡ some (or_index (o + i) (get_or s i 0))
get-values o i [] l = absurd (omega arith)
get-values o zero (v ∷ s) l = ground arith
get-values o (suc i) (v ∷ s) l =
    get-values (suc o) i s (omega arith) ∙ ap (λ n. some (or_index n (get_or s i 0))) (omega arith)

-- A number that is not zero stands for itself.
set-values : (o i v : ℕ) (s : Seq) → 0 < v → values o (set s i v) ≡ set (values o s) i v
set-values o i v [] p = refl
set-values o zero v (w ∷ s) p = ground (arith, p)
set-values o (suc i) v (w ∷ s) p = ap (λ l. or_index o w ∷ l) (set-values (suc o) i v s p)

take-values : (o n : ℕ) (s : Seq) → values o (take n s) ≡ take n (values o s)
take-values o zero s = refl
take-values o (suc n) [] = refl
take-values o (suc n) (v ∷ s) = ap (λ l. or_index o v ∷ l) (take-values (suc o) n s)

-- Taking off the last value of a list.
count-init :
    (p : ℕ → Bool) (xs : List ℕ) (m x : ℕ)
    → length xs ≡ suc m
    → get_elem? xs m ≡ some x
    → count p (take m xs) + one_if (p x) ≡ count p xs
count-init p [] m x l h = absurd (omega arith)
count-init p (y ∷ []) zero x l h = ground (arith, h)
count-init p (y ∷ z ∷ ys) zero x l h = absurd (omega arith)
count-init p (y ∷ ys) (suc m) x l h = omega (arith, count-init p ys m x (omega arith) h)

get-set-last :
    (xs : List ℕ) (i m x : ℕ) → get_elem? xs m ≡ some x → get_elem? (set xs i x) m ≡ some x
get-set-last [] i m x h = h
get-set-last (y ∷ ys) zero zero x h = refl
get-set-last (y ∷ ys) zero (suc m) x h = h
get-set-last (y ∷ ys) (suc i) zero x h = h
get-set-last (y ∷ ys) (suc i) (suc m) x h = get-set-last ys i m x h

-- Replacing a value by the last one and taking that off removes the value.
count-remove :
    (p : ℕ → Bool) (xs : List ℕ) (i m x y : ℕ)
    → length xs ≡ suc m
    → get_elem? xs i ≡ some x
    → get_elem? xs m ≡ some y
    → count p (take m (set xs i y)) + one_if (p x) ≡ count p xs
count-remove p xs i m x y l h k = omega (
  arith,
  count-init p (set xs i y) m y (length-set xs i y ∙ l) (get-set-last xs i m y k),
  count-set p xs i x y h,
)

-- How many places of a sequence have a number.
abbrev pub places : ℕ → Seq → ℕ
places j s = count (λ v. v == j) (values 0 s)

delete_index-places :
    (s : Seq) (m i j : ℕ)
    → length s ≡ suc m
    → i ≤ m
    → places j (delete_index i s) + one_if (index s i == j) ≡ places j s
unfolding delete_index index
delete_index-places [] m i j l h = absurd (omega arith)
delete_index-places (v ∷ []) m zero j l h = ground arith
delete_index-places (v ∷ []) m (suc i) j l h = absurd (omega arith)
delete_index-places (v ∷ w ∷ s) zero i j l h = absurd (omega arith)
delete_index-places (v ∷ w ∷ s) (suc m) i j l h =
    let t : Seq = v ∷ w ∷ s in
    let last = index t (suc m) in
    let some_last : 0 < last = ground arith in
    let place : length t - 1 ≡ suc m = omega (arith, l) in
    let deleted : delete_index i t ≡ take (suc m) (set t i last) =
      ap (λ n. take n (set t i (index t n))) place in
    let left : values 0 (delete_index i t) ≡ take (suc m) (set (values 0 t) i last) =
      ap (values 0) deleted
      ∙ take-values 0 (suc m) (set t i last)
      ∙ ap (take (suc m)) (set-values 0 i last t some_last) in
    let removed =
      count-remove (λ z. z == j) (values 0 t) i (suc m) (index t i) last (length-values 0 t ∙ l)
        (get-values 0 i t (omega (arith, l))
          ∙ ap (λ n. some (or_index n (get_or t i 0))) (omega arith))
        (get-values 0 (suc m) t (omega (arith, l))
          ∙ ap (λ n. some (or_index n (get_or t (suc m) 0))) (omega arith)) in
    ap (λ z. count (λ u. u == j) z + one_if (index t i == j)) left ∙ removed

length-delete_index : (s : Seq) (m i : ℕ) → length s ≡ suc m → length (delete_index i s) ≡ m
unfolding delete_index
length-delete_index s m i l = omega (
  arith,
  length-take (length s - 1) (set s i (index s (length s - 1))),
  length-set s i (index s (length s - 1)),
  l,
)

-- Random numbers that lie below their bounds.
abbrev pub Below : ((round bound : ℕ) → ℕ) → Type 0
Below intn = (round bound : ℕ) → 0 < bound → intn round bound < bound

-- Handing over the values of a list, which has each number as often as the sequence.
abbrev pub Hands : ((round bound : ℕ) → ℕ) → ℕ → Seq → Type 1
Hands intn n s =
    (l : List ℕ) × ((j : ℕ) → count (λ v. v == j) l ≡ places j s)
    × ((S : Type 0) (cb : Callback ℕ S) (st : S) → walk intn n s cb st ≡ each_all l cb st)

walk-Hands :
    (intn : (round bound : ℕ) → ℕ) (n : ℕ) (s : Seq) → Below intn → length s ≡ n → Hands intn n s
unfolding walk each_all
walk-Hands intn zero [] b l = ([], λ j. refl, λ S cb st. refl)
walk-Hands intn zero (v ∷ s) b l = absurd (omega arith)
walk-Hands intn (suc n) s b l =
    let r = intn n (length s) in
    let below = b n (length s) (omega (arith, l)) in
    let (rest, c, w) = walk-Hands intn n (delete_index r s) b (length-delete_index s n r l) in
    (
      index s r ∷ rest,
      λ j. omega (arith, c j, delete_index-places s n r j l (omega (arith, below, l))),
      λ S cb st. elim (Bool-cases (cb (index s r) st).1) [
        | inl q ↦ ground (arith, q, w S cb (cb (index s r) st).0)
        | inr q ↦ ground (arith, q)
      ],
    )

-- A new sequence has each number once.
places-new :
    (o n j : ℕ)
    → count (λ v. v == j) (values o (replicate n 0)) ≡ (if leb o j && ltb j (o + n) then 1 else 0)
places-new o zero j = ground arith
places-new o (suc n) j = ground (arith, places-new (suc o) n j)

-- `ForPerm` of `n`, with any random numbers below their bounds and any callback, hands over the values
-- of one list in turn until the callback says stop, and tells whether it did; the list, which does not
-- depend on the callback, has each number below `n` once and no other.
pub for_perm_once :
    (intn : (round bound : ℕ) → ℕ) (n : ℕ)
    → Below intn
    → (l : List ℕ) × ((j : ℕ) → count (λ v. v == j) l ≡ (if ltb j n then 1 else 0))
      × ((S : Type 0) (cb : Callback ℕ S) (st : S) → for_perm intn n cb st ≡ each_all l cb st)
unfolding for_perm new_seq
for_perm_once intn n b =
    let (l, c, w) = walk-Hands intn n (replicate n 0) b (length-replicate n 0) in
    (l, λ j. ground (arith, c j, places-new 0 n j), w)
