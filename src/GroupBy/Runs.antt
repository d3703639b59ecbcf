-- ===== src/GroupBy/Runs.antt =====
-- The groups of `GroupBy`, taken in turn, and runs of values with one key.
use missinggo.Base.{
  ℕ, zero, suc, ◌<◌, ◌≤◌, ◌≡◌, refl, ◌∙◌, ap, true, false, List, [], ◌∷◌, Option, some,
  if◌then◌else◌, arith, length, Bool-cases, inl, inr,
}
use missinggo.Base.Keys.{Eq}
use missinggo.Base.Outcome.{done}
use missinggo.GroupBy.{
  same_key, GroupBy, Group, group_by, took, advance, enter, next_from, next, value, stop,
  group_next, group_value, take_group, take_groups,
}

module _ {K V : Type 0} ⦃e : Eq K⦄ (key_func : V → K) where
  -- A value before runs joins the first of them if it has its key.
  abbrev pub cons_run : V → List (Option K × List V) → List (Option K × List V)
  cons_run x [] = (some (key_func x), x ∷ []) ∷ []
  cons_run x ((k, xs) ∷ rest) =
      if same_key k (some (key_func x))
      then (some (key_func x), x ∷ xs) ∷ rest
      else (some (key_func x), x ∷ []) ∷ (k, xs) ∷ rest

  -- The maximal runs of values with one key, each with its key.
  abbrev pub runs : List V → List (Option K × List V)
  runs [] = []
  runs (x ∷ xs) = cons_run x (runs xs)

  -- The longest prefix of values with a key, and the rest.
  abbrev prefix : K → List V → List V
  prefix k [] = []
  prefix k (x ∷ xs) = let rest = prefix k xs in if e.beq (key_func x) k then x ∷ rest else []

  abbrev left : K → List V → List V
  left k [] = []
  left k (x ∷ xs) = let rest = left k xs in if e.beq (key_func x) k then rest else x ∷ xs

  left-length : (k : K) (xs : List V) → length (left k xs) ≤ length xs
  left-length k [] = omega arith
  left-length k (x ∷ xs) = ground (arith, left-length k xs)

  prefix_cong :
      (k j : K) (xs : List V) → k ≡ j → (prefix k xs ≡ prefix j xs) × (left k xs ≡ left j xs)
  prefix_cong k j xs h = (ap (λ z. prefix z xs) h, ap (λ z. left z xs) h)

  -- The first run and the others.
  runs_first :
      (x : V) (xs : List V)
      → runs (x ∷ xs)
        ≡ (some (key_func x), x ∷ prefix (key_func x) xs) ∷ runs (left (key_func x) xs)
  runs_first x [] = refl
  runs_first x (y ∷ ys) = elim (Bool-cases (e.beq (key_func y) (key_func x))) [
    | inl q ↦ ground (
      arith,
      q,
      runs_first y ys,
      prefix_cong (key_func y) (key_func x) ys,
      e.beq_iff (key_func y) (key_func x),
      ap runs
          (prefix_cong (key_func y) (key_func x) ys ((e.beq_iff (key_func y) (key_func x)).0 q)).1,
    )
    | inr q ↦ ground (arith, q, runs_first y ys)
  ]

  -- The iterator after a group was taken to its end.
  abbrev behind : K → List V → GroupBy key_func → GroupBy key_func
  behind k [] gb = record gb { cur_key_ok = false }
  behind k (x ∷ xs) gb =
      let rest = behind k xs (took key_func x xs gb) in
      if e.beq (key_func x) k then rest else took key_func x xs gb

  abbrev inside : K → Group key_func
  inside k = record { key = some k; first = false; stopped = false }

  take_inside :
      (n : ℕ) (k : K) (xs : List V) (gb : GroupBy key_func)
      → length xs < n
      → gb.input.slice ≡ xs
      → take_group key_func n (inside k) gb ≡ done (prefix k xs, behind k xs gb)
  unfolding take_group group_next group_value advance stop
  take_inside zero k xs gb l h = absurd (omega arith)
  take_inside (suc n) k [] gb l h = ground (arith, h)
  take_inside (suc n) k (x ∷ xs) gb l h =
      ground (arith, h, take_inside n k xs (took key_func x xs gb) (omega arith) refl)

  -- The values that the iterator's groups are still to have.
  abbrev At : GroupBy key_func → List V → Type 0
  At gb [] = (same_key gb.cur_key gb.group_key ≡ true) × (gb.input.slice ≡ [])
  At gb (y ∷ ys) =
      (same_key gb.cur_key gb.group_key ≡ false)
      × (gb.cur_key ≡ some (key_func y))
      × (gb.cur_value ≡ some y)
      × (gb.input.slice ≡ ys)

  behind-At :
      (k : K) (xs : List V) (gb : GroupBy key_func)
      → gb.input.slice ≡ xs
      → gb.cur_key ≡ some k
      → gb.group_key ≡ some k
      → At (behind k xs gb) (left k xs)
  behind-At k [] gb h c g = ground (arith, h, c, g, e.beq_iff k k)
  behind-At k (x ∷ xs) gb h c g =
      ground (arith, h, c, g, e.beq_iff (key_func x) k, behind-At k xs (took key_func x xs gb) refl)

  next_differs :
      (xs : List V) (gb : GroupBy key_func)
      → same_key gb.cur_key gb.group_key ≡ false
      → next_from key_func xs gb ≡ (true, enter key_func gb)
  unfolding next_from
  next_differs [] gb h = ground (arith, h)
  next_differs (x ∷ xs) gb h = ground (arith, h)

  -- A whole group, from its first value on.
  take_first :
      (n : ℕ) (y : V) (ys : List V) (gb : GroupBy key_func)
      → length ys < n
      → gb.cur_key ≡ some (key_func y)
      → gb.cur_value ≡ some y
      → gb.input.slice ≡ ys
      → take_group key_func (suc n) (value key_func (enter key_func gb)) (enter key_func gb)
        ≡ done (y ∷ prefix (key_func y) ys, behind (key_func y) ys (enter key_func gb))
  unfolding take_group group_next group_value value
  take_first n y ys gb l c v h =
      let k : inside (key_func y) ≡ (record { key = gb.cur_key; first = false; stopped = false }) =
        ground (arith, c) in
      ground (
        arith,
        c,
        v,
        h,
        take_inside n (key_func y) ys (enter key_func gb) l h,
        ap (λ g. take_group key_func n g (enter key_func gb)) k,
      )

  next_exhausted : (gb : GroupBy key_func) → At gb [] → next key_func gb ≡ (false, gb)
  unfolding next next_from
  next_exhausted gb a = ground (arith, a.0, a.1, ap (λ z. next_from key_func z gb) a.1)

  next_entering :
      (y : V) (ys : List V) (gb : GroupBy key_func)
      → At gb (y ∷ ys)
      → next key_func gb ≡ (true, enter key_func gb)
  unfolding next
  next_entering y ys gb a = next_differs gb.input.slice gb a.0

  take_groups-runs :
      (n : ℕ) (ys : List V) (gb : GroupBy key_func)
      → suc (length ys) < n
      → At gb ys
      → take_groups key_func n gb ≡ done (runs ys)
  unfolding take_groups
  take_groups-runs zero ys gb l a = absurd (omega arith)
  take_groups-runs (suc n) [] gb l a = ground (arith, next_exhausted gb a)
  take_groups-runs (suc zero) (y ∷ ys) gb l a = absurd (omega arith)
  take_groups-runs (suc (suc n)) (y ∷ ys) gb l a =
      let k = key_func y in
      let gb' = behind k ys (enter key_func gb) in
      let rest =
        take_groups-runs (suc n) (left k ys) gb' (omega (arith, left-length k ys))
          (behind-At k ys (enter key_func gb) a.3 a.1 a.1) in
      ground (
        arith,
        next_entering y ys gb a,
        take_first n y ys gb (omega arith) a.1 a.2 a.3,
        rest,
        runs_first y ys,
        a.1,
      )

  same_next :
      (n : ℕ) (gb gb' : GroupBy key_func)
      → next key_func gb ≡ next key_func gb'
      → take_groups key_func n gb ≡ take_groups key_func n gb'
  unfolding take_groups
  same_next zero gb gb' h = refl
  same_next (suc n) gb gb' h = ground (arith, h)

  -- Taking all groups of `GroupBy` of a list, and of each all its values, ends: with the maximal runs
  -- of consecutive values that have one key, in order, each with its key. A round for each value and
  -- two more are enough.
  pub take_groups-group_by :
      (xs : List V) (n : ℕ)
      → suc (length xs) < n
      → take_groups key_func n (group_by key_func xs) ≡ done (runs xs)
  unfolding group_by take_groups next next_from
  take_groups-group_by [] zero l = absurd (omega arith)
  take_groups-group_by [] (suc n) l = refl
  take_groups-group_by (x ∷ xs) n l =
      let start = took key_func x xs (group_by key_func (x ∷ xs)) in
      let at : At start (x ∷ xs) = (refl, refl, refl, refl) in
      same_next n (group_by key_func (x ∷ xs)) start refl ∙ take_groups-runs n (x ∷ xs) start l at
