-- ===== src/LruPolicy/Maps.antt =====
-- The two maps of `LruPolicy`.
use missinggo.Base.{
  ◌≡◌, refl, Bool, false, ◌&&◌, ◌||◌, List, Option, none, some, if◌then◌else◌, arith, inl, inr,
  Option-cases, ap,
}
use missinggo.Base.Keys.{Eq, StrictOrder, same}
use missinggo.Base.Dict.{lookup, erase, lookup-insert, lookup-erase}
use missinggo.Base.Outcome.{Returns}
use missinggo.MultiLess.{is_less, next, next_bool}
use missinggo.OrderedMap.Interface.{OrderedMap, is_some}
use missinggo.LruPolicy.{
  LruItem, item_less, LruPolicy, new_lru_policy, forget, or_new, unset_old, update,
}

module _ {K U : Type 0} ⦃e : Eq K⦄ (less : K → K → Bool) (usage_less : U → U → Bool)
    (so : StrictOrder less) (total : (a b : K) → same less a b ≡ e.beq a b)
    (uo : StrictOrder usage_less) where
  -- By usage, then by key.
  pub item_less_either :
      (l r : LruItem K U)
      → item_less e.beq less usage_less l r
        ≡ (usage_less l.usage r.usage || (same usage_less l.usage r.usage && less l.key r.key))
  unfolding item_less is_less next next_bool
  item_less_either l r =
      ground (arith, total l.key r.key, uo.trans l.usage r.usage l.usage, uo.irrefl l.usage)

  pub item_less-StrictOrder : StrictOrder (item_less e.beq less usage_less)
  item_less-StrictOrder = record {
    irrefl = λ a. ground (arith, item_less_either a a, so.irrefl a.key, uo.irrefl a.usage);
    trans = λ a b c p q. ground (
      arith,
      item_less_either a b,
      item_less_either b c,
      item_less_either a c,
      so.trans a.key b.key c.key,
      uo.trans a.usage b.usage c.usage,
      uo.neg_trans a.usage c.usage b.usage,
      uo.neg_trans c.usage a.usage b.usage,
      uo.neg_trans b.usage a.usage c.usage,
      uo.neg_trans c.usage b.usage a.usage,
      uo.neg_trans a.usage b.usage c.usage,
      uo.neg_trans b.usage c.usage a.usage,
    );
    neg_trans = λ a b c p q. ground (
      arith,
      item_less_either a b,
      item_less_either b c,
      item_less_either a c,
      so.neg_trans a.key b.key c.key,
      uo.trans a.usage b.usage c.usage,
      uo.neg_trans a.usage c.usage b.usage,
      uo.neg_trans c.usage a.usage b.usage,
      uo.neg_trans b.usage a.usage c.usage,
      uo.neg_trans c.usage b.usage a.usage,
      uo.neg_trans a.usage b.usage c.usage,
      uo.neg_trans b.usage c.usage a.usage,
    );
  }

  pub same-item :
      (l r : LruItem K U)
      → same (item_less e.beq less usage_less) l r
        ≡ (same usage_less l.usage r.usage && e.beq l.key r.key)
  same-item l r = ground (arith, total l.key r.key, item_less_either l r, item_less_either r l)

module _ {K U : Type 0} ⦃e : Eq K⦄ (less : K → K → Bool) (usage_less : U → U → Bool)
    (so : StrictOrder less) (total : (a b : K) → same less a b ≡ e.beq a b)
    (uo : StrictOrder usage_less)
    (om : OrderedMap (Unit {0}) (item_less e.beq less usage_less)) where
  abbrev pub held : Option om.Map → LruItem K U → Bool
  held none i = false
  held (some o) i = is_some (om.get_ok i o)

  abbrev pub tracked_at : Option U → U → Bool
  tracked_at none u = false
  tracked_at (some v) u = same usage_less v u

  -- The ordered map has exactly the keys of `keys`, each at its usage.
  abbrev pub Inv : LruPolicy less usage_less om → Type 0
  Inv m = (i : LruItem K U) → held m.sorted i ≡ tracked_at (lookup i.key m.keys) i.usage

  pub new-Inv : Inv (new_lru_policy less usage_less om)
  unfolding new_lru_policy
  new-Inv i = refl

  -- What is held once the old item of a key is taken out.
  held_unset :
      (k : K) (keys : List (K × U)) (o : om.Map)
      → ((i : LruItem K U) → is_some (om.get_ok i o) ≡ tracked_at (lookup i.key keys) i.usage)
      → (i : LruItem K U)
      → is_some (om.get_ok i (unset_old less usage_less om k (lookup k keys) o))
        ≡ (if e.beq k i.key then false else tracked_at (lookup i.key keys) i.usage)
  held_unset k keys o v i = elim (Option-cases (lookup k keys)) [
    | inl q ↦ ground (arith, q, v i, e.beq_iff k i.key, ap (λ j. lookup j keys))
    | inr (u, q) ↦ ground (
      arith,
      q,
      v i,
      e.beq_iff k i.key,
      ap (λ j. lookup j keys),
      e.beq_iff i.key k,
      om.get_ok_unset (record { key = k; usage = u }) i o,
      same-item less usage_less so total uo i (record { key = k; usage = u }),
    )
  ]

  pub forget-Inv :
      (k : K) (m : LruPolicy less usage_less om)
      → Inv m
      → Returns
          (λ m'.
            Inv m' × ((j : K) → lookup j m'.keys ≡ (if e.beq k j then none else lookup j m.keys)))
          (forget less usage_less om k m)
  unfolding forget
  forget-Inv k m v = elim (Option-cases (lookup k m.keys)) [
    | inl q ↦ (
      m,
      ground (arith, q),
      (v, λ j. ground (arith, q, e.beq_iff k j, ap (λ z. lookup z m.keys))),
    )
    | inr (u, q) ↦ elim (Option-cases m.sorted) [
      | inl p ↦ absurd (ground (arith, p, q, v (record { key = k; usage = u }), uo.irrefl u))
      | inr (o, p) ↦ (
        record {
          sorted = some (om.unset (record { key = k; usage = u }) o);
          keys = erase k m.keys;
        },
        ground (arith, p, q),
        (
          λ i. ground (
            arith,
            q,
            held_unset k m.keys o (λ j. ground (arith, p, v j)) i,
            lookup-erase k i.key m.keys,
          ),
          λ j. lookup-erase k j m.keys,
        ),
      )
    ]
  ]

  or_new-held :
      (m : LruPolicy less usage_less om) (i : LruItem K U)
      → Inv m
      → is_some (om.get_ok i (or_new less usage_less om m.sorted))
        ≡ tracked_at (lookup i.key m.keys) i.usage
  or_new-held m i v = elim (Option-cases m.sorted) [
    | inl p ↦ ground (arith, p, v i, om.get_ok_new i)
    | inr (o, p) ↦ ground (arith, p, v i)
  ]

  pub update-Inv :
      (k : K) (u : U) (m : LruPolicy less usage_less om)
      → Inv m
      → Inv (update less usage_less om k u m)
  unfolding update
  update-Inv k u m v i =
      let new : LruItem K U = record { key = k; usage = u } in
      let o =
        unset_old less usage_less om k (lookup k m.keys) (or_new less usage_less om m.sorted) in
      ground (
        arith,
        om.get_ok_set new i tt o,
        same-item less usage_less so total uo i new,
        held_unset k m.keys (or_new less usage_less om m.sorted) (λ j. or_new-held m j v) i,
        lookup-insert k i.key u m.keys,
        e.beq_iff k i.key,
        e.beq_iff i.key k,
      )
