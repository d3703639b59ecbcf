-- ===== src/FileCache/Lru/Choice.antt =====
-- `lru.Choose` of filecache/lru.go.
use missinggo.Base.{
  ◌≤◌, ◌≡◌, refl, Bool, true, false, List, [], ◌∷◌, Option, some, arith, inl, inr, Option-cases,
}
use missinggo.Base.Callbacks.{each, each_all}
use missinggo.Base.Keys.{Eq}
use missinggo.Base.Dict.{lookup}
use missinggo.Base.Outcome.{Returns}
use missinggo.OrderedMap.Interface.{OrderedMap, is_some}
use missinggo.OrderedMap.Sorted.{find_item, head_least, same_refl}
use missinggo.FileCache.Lru.{LruKey, before, Lru, choose}
use missinggo.FileCache.Lru.Invariant.{TotalOrder, Inv, tracked}

module _ {K : Type 0} ⦃e : Eq K⦄ (less : K → K → Bool) (t : TotalOrder less)
    (om : OrderedMap (Option (LruKey K)) (before less)) where
  -- `k` is kept, and no kept key was used before it, or at the same time and is less.
  pub record IsOldest (o_keys : List (K × LruKey K)) (k : K) : Type 0 where
    pub key : LruKey K
    pub kept : lookup k o_keys ≡ some key
    pub oldest :
        (j : K) (lj : LruKey K)
        → lookup j o_keys ≡ some lj
        → (key.used ≤ lj.used) × (key.used ≡ lj.used → less j k ≡ false)

  -- What the order of the map's keys says of their last uses.
  not_before :
      (x lj : LruKey K) (k j : K)
      → x.item ≡ some k
      → lj.item ≡ some j
      → before less lj x ≡ false
      → (x.used ≤ lj.used) × (x.used ≡ lj.used → less j k ≡ false)
  unfolding before
  not_before x lj k j p q h = (ground (arith, h), λ e. ground (arith, h, p, q, e))

  module _ (m : Lru less om) (v : Inv less t om m) (o : om.Map) (present : m.o ≡ some o) where
    found :
        (k : K) (lk : LruKey K)
        → lookup k m.o_keys ≡ some lk
        → is_some (find_item (before less) lk (om.keys o)) ≡ true
    found k lk h = ground (arith, v.indexed lk, v.keyed k lk h, om.keys_get_ok lk o)

    first_held :
        (x : LruKey K) (xs : List (LruKey K))
        → om.keys o ≡ x ∷ xs
        → tracked m.o_keys x.item x.used ≡ true
    unfolding find_item
    first_held x xs p = ground (arith, v.indexed x, om.keys_get_ok x o, same_refl om.order x)

    -- The first key of the walk is the entry of its item.
    first :
        (x : LruKey K) (xs : List (LruKey K))
        → om.keys o ≡ x ∷ xs
        → (c : K) × (x.item ≡ some c) × (lookup c m.o_keys ≡ some x)
    first x xs p = elim (Option-cases x.item) [
      | inl q ↦ absurd (ground (arith, first_held x xs p))
      | inr (c, q) ↦ elim (Option-cases (lookup c m.o_keys)) [
        | inl r ↦ absurd (ground (arith, first_held x xs p))
        | inr (lc, r) ↦ (c, q, ground (arith, first_held x xs p, v.keyed c lc r))
      ]
    ]

    choose_first :
        (k : K) (lk : LruKey K) (ys : List (LruKey K))
        → om.keys o ≡ ys
        → lookup k m.o_keys ≡ some lk
        → Returns (IsOldest m.o_keys) (choose less om m)
    unfolding choose each each_all find_item
    choose_first k lk [] p h = absurd (ground (arith, found k lk h))
    choose_first k lk (x ∷ xs) p h =
        let (c, item, kept) = first x xs p in
        (
          c,
          rw (present, om.iter_keys, p, item),
          record {
            key = x;
            kept = kept;
            oldest = λ j lj hj. elim (Option-cases (find_item (before less) lj (x ∷ xs))) [
              | inl q ↦ absurd (ground (arith, found j lj hj))
              | inr (z, q) ↦
                  not_before x lj c j item (v.keyed j lj hj)
                    (head_least om.order x lj z xs (rw p at (om.keys_sorted o)) q)
            ];
          },
        )

  -- If the policy keeps a key and its two maps agree, `Choose` returns a key that it keeps; no kept key
  -- was last used before it, and none of those last used at the same time is less.
  pub choose-IsOldest :
      (m : Lru less om) (k : K) (lk : LruKey K)
      → Inv less t om m
      → lookup k m.o_keys ≡ some lk
      → Returns (IsOldest m.o_keys) (choose less om m)
  choose-IsOldest m k lk v h = elim (Option-cases m.o) [
    | inl p ↦ absurd (ground (arith, v.indexed lk, v.keyed k lk h))
    | inr (o, p) ↦ choose_first m v o p k lk (om.keys o) refl h
  ]
