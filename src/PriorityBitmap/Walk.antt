-- ===== src/PriorityBitmap/Walk.antt =====
-- The walk of a priority bitmap: `IterTyped` hands over the bits, those of a lower priority first.
use missinggo.Base.{
  ◌≡◌, refl, sym, ap, ◌∙◌, Bool, true, false, ◌||◌, List, [], ◌∷◌, ◌++◌, Option, none, some, arith,
  Option-cases, inl, inr,
}
use missinggo.Base.Callbacks.{Callback, each, each_all, and_then, and_then_done, each_all-++}
use missinggo.Base.Dict.{lookup}
use missinggo.Base.Int.{ℤ, ltb_ℤ, beq_ℤ, beq_ℤ_iff, int_eq, same-ltb_ℤ}
use missinggo.OrderedMap.Interface.{OrderedMap, is_some}
use missinggo.OrderedMap.Sorted.{Sorted, Above, find_item}
use missinggo.PriorityBitmap.{
  Slot, lone, bits, set_bits, iter_slot, PriorityBitmap, iter_typed, contains, get_priority, IntSet,
}
use missinggo.PriorityBitmap.Deleted.{Inv, slot_has, has_priority}

abbrev pub has : ℤ → List ℤ → Bool
has b [] = false
has b (c ∷ cs) = beq_ℤ c b || has b cs

abbrev pub slot_bits : Option Slot → List ℤ
slot_bits none = []
slot_bits (some (lone v)) = v ∷ []
slot_bits (some (bits v)) = set_bits v

abbrev pub walk_of : List ℤ → (ℤ → Option Slot) → List ℤ
walk_of [] g = []
walk_of (p ∷ ps) g = slot_bits (g p) ++ walk_of ps g

iter_slot-each_all :
    {S : Type 0} (f : Callback ℤ S) (v : Option Slot) (s : S)
    → iter_slot f v s ≡ each_all (slot_bits v) f s
unfolding iter_slot each_all
iter_slot-each_all f none s = refl
iter_slot-each_all f (some (lone v)) s = sym (and_then_done (f v s))
iter_slot-each_all f (some (bits v)) s = refl

-- `iter.All` over the slots, where `r.1` is what it returns so far.
abbrev pub at_key : {S : Type 0} → Callback ℤ S → (ℤ → Option Slot) → Callback ℤ (S × Bool)
at_key f g key r = elim r.1 [
  | true ↦ let (s', all) = iter_slot f (g key) r.0 in ((s', all), all)
  | false ↦ (r, false)
]

each-walk_of :
    {S : Type 0} (ks : List ℤ) (f : Callback ℤ S) (g : ℤ → Option Slot) (s : S)
    → each ks (at_key f g) (s, true) ≡ each_all (walk_of ks g) f s
unfolding each each_all
each-walk_of [] f g s = refl
each-walk_of {S = S} (k ∷ ks) f g s =
    after (each-walk_of ks f g) (iter_slot f (g k) s)
    ∙ rw (iter_slot-each_all f (g k) s) (sym (each_all-++ (slot_bits (g k)) (walk_of ks g) f s))
  where
    after :
        ((t : S) → each ks (at_key f g) (t, true) ≡ each_all (walk_of ks g) f t)
        → (r : S × Bool)
        → (elim r.1 as (λ b. (S × Bool) × Bool) [
          | true ↦ each_all ks (at_key f g) r
          | false ↦ (r, false)
        ]).0
          ≡ and_then r (each_all (walk_of ks g) f)
    after ih (t, true) = ih t
    after ih (t, false) = refl

has-++ : (b : ℤ) (xs ys : List ℤ) → has b (xs ++ ys) ≡ (has b xs || has b ys)
has-++ b [] ys = refl
has-++ b (x ∷ xs) ys = ground (arith, has-++ b xs ys)

has-set_bits : (b : ℤ) (v : IntSet) → has b (set_bits v) ≡ is_some (lookup b v)
has-set_bits b [] = refl
has-set_bits b ((c, x) ∷ v) = ground (arith, has-set_bits b v)

has-slot_bits : (b : ℤ) (v : Option Slot) → has b (slot_bits v) ≡ slot_has v b
has-slot_bits b none = refl
has-slot_bits b (some (lone v)) = ground arith
has-slot_bits b (some (bits v)) = has-set_bits b v

-- Of two bits of which each has one priority, the first has not the higher one.
abbrev pub Below : (ℤ → Option ℤ) → ℤ → List ℤ → Type 0
Below pr b l = (c p q : ℤ) → has c l ≡ true → pr b ≡ some p → pr c ≡ some q → ltb_ℤ q p ≡ false

abbrev pub Ascending : (ℤ → Option ℤ) → List ℤ → Type 0
Ascending pr [] = Unit {0}
Ascending pr (b ∷ l) = Below pr b l × Ascending pr l

found_has : (p : ℤ) (ks : List ℤ) → is_some (find_item ltb_ℤ p ks) ≡ has p ks
unfolding find_item
found_has p [] = refl
found_has p (k ∷ ks) = ground (arith, same-ltb_ℤ p k, beq_ℤ_iff p k, beq_ℤ_iff k p, found_has p ks)

module _ (pr : ℤ → Option ℤ) (g : ℤ → Option Slot)
    (agree : (p b : ℤ) → slot_has (g p) b ≡ has_priority (pr b) p) where
  -- A bit of the walk has its priority among the keys.
  in_walk : (ks : List ℤ) (b p : ℤ) → pr b ≡ some p → has b (walk_of ks g) ≡ has p ks
  in_walk [] b p h = refl
  in_walk (k ∷ ks) b p h = ground (
    arith,
    has-++ b (slot_bits (g k)) (walk_of ks g),
    has-slot_bits b (g k),
    agree k b,
    h,
    in_walk ks b p h,
    beq_ℤ_iff p k,
    beq_ℤ_iff k p,
  )

  Above-has : (k p : ℤ) (ks : List ℤ) → Above ltb_ℤ k ks → has p ks ≡ true → ltb_ℤ k p ≡ true
  Above-has k p [] a h = cc
  Above-has k p (x ∷ ks) a h = ground (arith, Above-has k p ks a.1, beq_ℤ_iff x p)

  ascend_slot :
      (k : ℤ) (ks l : List ℤ)
      → Above ltb_ℤ k ks
      → ((b : ℤ) → has b l ≡ true → pr b ≡ some k)
      → Ascending pr (walk_of ks g)
      → Ascending pr (l ++ walk_of ks g)
  ascend_slot k ks [] a h d = d
  ascend_slot k ks (b ∷ l) a h d = (
    λ c p q i pb pc. ground (
      arith,
      has-++ c l (walk_of ks g),
      h b,
      h c,
      beq_ℤ_iff b b,
      in_walk ks c q pc,
      Above-has k q ks a,
      i,
      pb,
      pc,
    ),
    ascend_slot k ks l a (λ c i. h c (ground (arith, i))) d,
  )

  not_in_walk : (ks : List ℤ) (b : ℤ) → pr b ≡ none → has b (walk_of ks g) ≡ false
  not_in_walk [] b h = refl
  not_in_walk (k ∷ ks) b h = ground (
    arith,
    has-++ b (slot_bits (g k)) (walk_of ks g),
    has-slot_bits b (g k),
    agree k b,
    h,
    not_in_walk ks b h,
  )

  only : (o : Option ℤ) (k : ℤ) → has_priority o k ≡ true → o ≡ some k
  only none k h = cc
  only (some q) k h = ap some ((beq_ℤ_iff q k).0 h)

  walk_of-Ascending : (ks : List ℤ) → Sorted ltb_ℤ ks → Ascending pr (walk_of ks g)
  walk_of-Ascending [] s = tt
  walk_of-Ascending (k ∷ ks) s =
      ascend_slot k ks (slot_bits (g k)) s.0
        (λ b i. ground (arith, i, has-slot_bits b (g k), agree k b, only (pr b)))
        (walk_of-Ascending ks s.1)

module _ (maps : OrderedMap Slot ltb_ℤ) where
  -- The bits in the order of the walk.
  unfoldable pub walk : PriorityBitmap maps → List ℤ
  walk me = elim me.om [ none ↦ [] | some o ↦ walk_of (maps.keys o) (λ p. maps.get_ok p o) ]

  pub iter_typed-walk :
      {S : Type 0} (me : PriorityBitmap maps) (f : Callback ℤ S) (s : S)
      → iter_typed maps me f s ≡ each_all (walk me) f s
  unfolding iter_typed walk each_all
  iter_typed-walk {S = S} me f s = elim (Option-cases me.om) [
    | inl p ↦ rw (p) refl
    | inr (o, p) ↦ rw (p) (
        maps.iter_keys (S × Bool) o (at_key f (λ k. maps.get_ok k o)) (s, true)
        ∙ each-walk_of (maps.keys o) f (λ k. maps.get_ok k o) s)
  ]

  holds_bits :
      (me : PriorityBitmap maps) (b : ℤ) → Inv maps me → has b (walk me) ≡ contains maps me b
  unfolding walk contains
  holds_bits me b v = elim (Option-cases me.om) [
    | inl p ↦ elim (Option-cases (lookup b me.priorities)) [
      | inl q ↦ rw (q, contains, p, walk) refl
      | inr (k, q) ↦ absurd (ground (arith, v.agree k b, p, q, beq_ℤ_iff k k))
    ]
    | inr (o, p) ↦ elim (Option-cases (lookup b me.priorities)) [
      | inl q ↦
          rw (q, contains, p, walk)
            (not_in_walk (λ j. lookup j me.priorities) (λ k. maps.get_ok k o) (agree_at o p)
              (maps.keys o) b q)
      | inr (k, q) ↦
          rw (q, contains, p, walk)
            (in_walk (λ j. lookup j me.priorities) (λ k. maps.get_ok k o) (agree_at o p)
                (maps.keys o) b k q
              ∙ key o k q p)
    ]
  ]
    where
      agree_at :
          (o : maps.Map)
          → me.om ≡ some o
          → (k j : ℤ) → slot_has (maps.get_ok k o) j ≡ has_priority (lookup j me.priorities) k
      agree_at o p k j = ground (arith, v.agree k j, p)

      key :
          (o : maps.Map) (k : ℤ)
          → lookup b me.priorities ≡ some k
          → me.om ≡ some o
          → has k (maps.keys o) ≡ true
      key o k q p =
          ground (
            arith,
            v.agree k b,
            p,
            q,
            found_has k (maps.keys o),
            maps.keys_get_ok k o,
            beq_ℤ_iff k k,
          )

  -- What a walk hands over.
  pub record InOrder (me : PriorityBitmap maps) (l : List ℤ) : Type 0 where
    pub all_bits : (b : ℤ) → has b l ≡ contains maps me b
    pub ascending : Ascending (get_priority maps me) l

  walk-InOrder : (me : PriorityBitmap maps) → Inv maps me → InOrder me (walk me)
  unfolding walk get_priority
  walk-InOrder me v = record {
    all_bits = λ b. holds_bits me b v;
    ascending = elim (Option-cases me.om) [
      | inl p ↦ rw (p) tt
      | inr (o, p) ↦ rw (p) (
          walk_of-Ascending (λ j. lookup j me.priorities) (λ k. maps.get_ok k o)
            (λ k j. ground (arith, v.agree k j, p)) (maps.keys o) (maps.keys_sorted o))
    ];
  }

  -- If the two maps agree, `IterTyped` hands its callback, until it says stop, a sequence of
  -- exactly the bits that the bitmap contains, with no bit after one of a higher priority, and
  -- returns whether the callback never said stop.
  pub iter_typed-InOrder :
      {S : Type 0} (me : PriorityBitmap maps) (f : Callback ℤ S) (s : S)
      → Inv maps me
      → (l : List ℤ) × InOrder me l × (iter_typed maps me f s ≡ each_all l f s)
  iter_typed-InOrder me f s v = (walk me, walk-InOrder me v, iter_typed-walk me f s)
