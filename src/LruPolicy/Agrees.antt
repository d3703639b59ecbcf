-- ===== src/LruPolicy/Agrees.antt =====
-- What `LruPolicy.Candidate` offers.
use missinggo.Base.{
  ◌≡◌, refl, Bool, true, false, List, [], ◌∷◌, Option, none, some, arith, inl, inr, Option-cases,
}
use missinggo.Base.Callbacks.{each, each_all}
use missinggo.Base.Keys.{Eq, StrictOrder, same}
use missinggo.Base.Dict.{lookup}
use missinggo.OrderedMap.Interface.{OrderedMap, is_some}
use missinggo.OrderedMap.Sorted.{find_item, same_refl, head_least}
use missinggo.LruPolicy.{LruItem, item_less, LruPolicy, candidate}
use missinggo.LruPolicy.Maps.{item_less_either, tracked_at, Inv}

module _ {K U : Type 0} ⦃e : Eq K⦄ (less : K → K → Bool) (usage_less : U → U → Bool)
    (so : StrictOrder less) (total : (a b : K) → same less a b ≡ e.beq a b)
    (uo : StrictOrder usage_less)
    (om : OrderedMap (Unit {0}) (item_less e.beq less usage_less)) where
  abbrev first_key : List (LruItem K U) → Option K
  first_key [] = none
  first_key (x ∷ xs) = some x.key

  candidate_at :
      (m : LruPolicy less usage_less om) (o : om.Map) (xs : List (LruItem K U))
      → m.sorted ≡ some o
      → om.keys o ≡ xs
      → candidate less usage_less om m ≡ first_key xs
  unfolding candidate each each_all
  candidate_at m o [] p q = rw (p, om.iter_keys, q) refl
  candidate_at m o (x ∷ xs) p q = rw (p, om.iter_keys, q) refl

  -- The key is kept, and no kept key has a lesser usage, or one of the same rank and a lesser key.
  abbrev pub Least : List (K × U) → K → Type 0
  Least keys k =
      (u : U) × (lookup k keys ≡ some u)
      × ((j : K) (w : U)
          → lookup j keys ≡ some w
          → (usage_less w u ≡ false) × (usage_less u w ≡ false → less j k ≡ false))

  -- What `Candidate` offers.
  abbrev pub Offer : List (K × U) → Option K → Type 0
  Offer keys none = (k : K) → lookup k keys ≡ none
  Offer keys (some k) = Least keys k

  -- A kept key is in the walk.
  walked :
      (m : LruPolicy less usage_less om) (o : om.Map) (k : K) (u : U)
      → (Inv less usage_less so total uo om) m
      → m.sorted ≡ some o
      → lookup k m.keys ≡ some u
      → is_some
          (find_item (item_less e.beq less usage_less) (record { key = k; usage = u }) (om.keys o))
        ≡ true
  walked m o k u v p a =
      let i : LruItem K U = record { key = k; usage = u } in
      ground (arith, p, v i, om.keys_get_ok i o, a, uo.irrefl u)

  first-Least :
      (m : LruPolicy less usage_less om) (o : om.Map) (x : LruItem K U) (xs : List (LruItem K U))
      → (Inv less usage_less so total uo om) m
      → m.sorted ≡ some o
      → om.keys o ≡ x ∷ xs
      → Least m.keys x.key
  unfolding find_item
  first-Least m o x xs v p q =
      let there : (tracked_at less usage_less so total uo om) (lookup x.key m.keys) x.usage ≡ true =
        ground (arith, p, q, v x, om.keys_get_ok x o, same_refl om.order x) in
      elim (Option-cases (lookup x.key m.keys)) [
        | inl a ↦ absurd (ground (arith, there, a))
        | inr (u, a) ↦ (
          u,
          a,
          λ j w b.
              let i : LruItem K U = record { key = j; usage = w } in
              elim (Option-cases (find_item (item_less e.beq less usage_less) i (x ∷ xs))) [
                | inl c ↦ absurd (ground (arith, walked m o j w v p b, q, c))
                | inr (z, c) ↦
                    least_of m i x u (ground (arith, there, a))
                      (head_least om.order x i z xs (rw q at (om.keys_sorted o)) c)
              ],
        )
      ]
    where
      same_rank :
          (m : LruPolicy less usage_less om) (i x : LruItem K U) (u : U)
          → same usage_less u x.usage ≡ true
          → item_less e.beq less usage_less i x ≡ false
          → item_less e.beq less usage_less i (record { key = x.key; usage = u }) ≡ false
      same_rank m i x u s h = ground (
        arith,
        s,
        h,
        item_less_either less usage_less so total uo i x,
        item_less_either less usage_less so total uo i (record { key = x.key; usage = u }),
        uo.neg_trans i.usage x.usage u,
        uo.neg_trans i.usage u x.usage,
        uo.neg_trans u i.usage x.usage,
        uo.neg_trans x.usage i.usage u,
        uo.neg_trans x.usage u i.usage,
        uo.neg_trans u x.usage i.usage,
      )

      least_of :
          (m : LruPolicy less usage_less om) (i x : LruItem K U) (u : U)
          → same usage_less u x.usage ≡ true
          → item_less e.beq less usage_less i x ≡ false
          → (usage_less i.usage u ≡ false)
            × (usage_less u i.usage ≡ false → less i.key x.key ≡ false)
      least_of m i x u s h =
          let least : item_less e.beq less usage_less i (record { key = x.key; usage = u })
              ≡ false =
            same_rank m i x u s h in
          let either =
            item_less_either less usage_less so total uo i (record { key = x.key; usage = u }) in
          (ground (arith, least, either), λ r. ground (arith, least, either, r, so.irrefl x.key))

  offered_first :
      (m : LruPolicy less usage_less om) (o : om.Map) (xs : List (LruItem K U))
      → (Inv less usage_less so total uo om) m
      → m.sorted ≡ some o
      → om.keys o ≡ xs
      → Offer m.keys (candidate less usage_less om m)
  unfolding find_item
  offered_first m o [] v p q = rw (candidate_at m o [] p q) (λ k.
      elim (Option-cases (lookup k m.keys)) [
        | inl a ↦ a
        | inr (u, a) ↦ absurd (ground (arith, q, walked m o k u v p a))
      ])
  offered_first m o (x ∷ xs) v p q = rw (candidate_at m o (x ∷ xs) p q) (first-Least m o x xs v p q)

  pub candidate-Offer :
      (m : LruPolicy less usage_less om)
      → (Inv less usage_less so total uo om) m
      → Offer m.keys (candidate less usage_less om m)
  unfolding candidate
  candidate-Offer m v = elim (Option-cases m.sorted) [
    | inl p ↦ rw (p) (λ k. elim (Option-cases (lookup k m.keys)) [
      | inl a ↦ a
      | inr (u, a) ↦ absurd (ground (arith, p, v (record { key = k; usage = u }), a, uo.irrefl u))
    ])
    | inr (o, p) ↦ offered_first m o (om.keys o) v p refl
  ]
