-- ===== src/FileCache/Lru/Invariant.antt =====
-- The two maps of filecache/lru.go.
use missinggo.Base.{
  ℕ, ◌≡◌, refl, sym, Bool, true, false, ◌&&◌, List, Option, none, some, arith, ◌==◌, inl, inr,
  Option-cases,
}
use missinggo.Base.Keys.{Eq, StrictOrder, same}
use missinggo.Base.Dict.{
  lookup, insert, erase, Distinct, lookup-insert, lookup-erase, insert-Distinct, erase-Distinct,
}
use missinggo.OrderedMap.Interface.{OrderedMap, is_some}
use missinggo.FileCache.Lru.{
  LruKey, before, zero_key, item_before, Lru, index, used, forget, new_lru,
}

-- An order that tells all keys apart.
pub record TotalOrder {K : Type 0} ⦃e : Eq K⦄ (less : K → K → Bool) : Type 0 where
  pub strict : StrictOrder less
  pub total : (a b : K) → same less a b ≡ e.beq a b

abbrev item_eq : {K : Type 0} ⦃e : Eq K⦄ → Option K → Option K → Bool
item_eq none none = true
item_eq none (some k) = false
item_eq (some k) none = false
item_eq ⦃e⦄ (some k) (some j) = e.beq k j

-- Whether `oKeys` has an item with a last use.
abbrev pub tracked_at : {K : Type 0} → Option (LruKey K) → ℕ → Bool
tracked_at none used = false
tracked_at (some lk) used = lk.used == used

abbrev pub tracked : {K : Type 0} ⦃e : Eq K⦄ → List (K × LruKey K) → Option K → ℕ → Bool
tracked o_keys none used = false
tracked o_keys (some k) used = tracked_at (lookup k o_keys) used

module _ {K : Type 0} ⦃e : Eq K⦄ (less : K → K → Bool) (t : TotalOrder less) where
  item_before_irrefl : (a : Option K) → item_before less a a ≡ false
  item_before_irrefl none = refl
  item_before_irrefl (some a) = t.strict.irrefl a

  item_before_trans :
      (a b c : Option K)
      → item_before less a b ≡ true
      → item_before less b c ≡ true
      → item_before less a c ≡ true
  item_before_trans none b (some c) p q = refl
  item_before_trans none b none p q = ground arith
  item_before_trans (some a) none c p q = cc
  item_before_trans (some a) (some b) none p q = cc
  item_before_trans (some a) (some b) (some c) p q = t.strict.trans a b c p q

  item_before_neg_trans :
      (a b c : Option K)
      → item_before less a b ≡ false
      → item_before less b c ≡ false
      → item_before less a c ≡ false
  item_before_neg_trans none none c p q = q
  item_before_neg_trans none (some b) c p q = cc
  item_before_neg_trans (some a) b none p q = refl
  item_before_neg_trans (some a) none (some c) p q = cc
  item_before_neg_trans (some a) (some b) (some c) p q = t.strict.neg_trans a b c p q

  same-item : (a b : Option K) → same (item_before less) a b ≡ item_eq a b
  same-item none none = refl
  same-item none (some b) = refl
  same-item (some a) none = refl
  same-item (some a) (some b) = t.total a b

  pub before-StrictOrder : StrictOrder (before less)
  unfolding before
  before-StrictOrder = record {
    irrefl = λ a. ground (arith, item_before_irrefl a.item);
    trans = λ a b c p q. ground (arith, item_before_trans a.item b.item c.item);
    neg_trans = λ a b c p q. ground (arith, item_before_neg_trans a.item b.item c.item);
  }

  -- Keys that stand together in the order are equal in both fields.
  same-before :
      (a b : LruKey K) → same (before less) a b ≡ (a.used == b.used && item_eq a.item b.item)
  unfolding before
  same-before a b = ground (arith, same-item a.item b.item)

  module _ (om : OrderedMap (Option (LruKey K)) (before less)) where
    abbrev pub held : Option om.Map → LruKey K → Bool
    held none lk = false
    held (some o) lk = is_some (om.get_ok lk o)

    -- The ordered map holds exactly the keys that `oKeys` has, each with its last use.
    pub record Inv (m : Lru less om) : Type 0 where
      pub keyed : (k : K) (lk : LruKey K) → lookup k m.o_keys ≡ some lk → lk.item ≡ some k
      pub distinct : Distinct m.o_keys
      pub indexed : (lk : LruKey K) → held m.o lk ≡ tracked m.o_keys lk.item lk.used

    pub new_lru-Inv : Inv (new_lru less om)
    unfolding new_lru
    new_lru-Inv = record {
      keyed = λ k lk h. cc;
      distinct = tt;
      indexed = λ lk. elim (Option-cases lk.item) [ inl p ↦ rw p | inr (k, p) ↦ rw p ];
    }

    module _ (m : Lru less om) (v : Inv m) (o : om.Map) (present : m.o ≡ some o) (k : K) where
      -- What is held after the old entry of `k` is taken out.
      held_unset :
          (lk : LruKey K)
          → is_some (om.get_ok lk (om.unset (index less om m.o_keys k) o))
            ≡ tracked (erase k m.o_keys) lk.item lk.used
      held_unset lk = elim (Option-cases lk.item) [
        | inl p ↦ ground (arith, om.get_ok_unset (index less om m.o_keys k) lk o, v.indexed lk)
        | inr (i, p) ↦ elim (Option-cases (lookup k m.o_keys)) [
          | inl absent ↦ ground (
            arith,
            om.get_ok_unset zero_key lk o,
            same-before lk zero_key,
            v.indexed lk,
            e.beq_iff k i,
            lookup-erase k i m.o_keys,
          )
          | inr (old, found) ↦ ground (
            arith,
            om.get_ok_unset old lk o,
            same-before lk old,
            v.indexed lk,
            v.keyed k old found,
            e.beq_iff k i,
            e.beq_iff i k,
            lookup-erase k i m.o_keys,
          )
        ]
      ]

    -- With no ordered map yet, nothing is tracked.
    untracked :
        (m : Lru less om) (v : Inv m) (k : K) (lk : LruKey K)
        → m.o ≡ none
        → tracked (erase k m.o_keys) lk.item lk.used ≡ false
    untracked m v k lk p = elim (Option-cases lk.item) [
      | inl q ↦ rw q
      | inr (i, q) ↦ ground (arith, v.indexed lk, lookup-erase k i m.o_keys)
    ]

    pub forget-Inv : (m : Lru less om) (k : K) → Inv m → Inv (forget less om k m)
    unfolding forget
    forget-Inv m k v = record {
      keyed = λ j lk h. v.keyed j lk (ground (arith, lookup-erase k j m.o_keys));
      distinct = erase-Distinct k m.o_keys v.distinct;
      indexed = λ lk. elim (Option-cases m.o) [
        | inl p ↦ rw p (sym (untracked m v k lk p))
        | inr (o, p) ↦ rw p (held_unset m v o p k lk)
      ];
    }

    held_set :
        (keys : List (K × LruKey K)) (o : om.Map) (k : K) (at : ℕ) (lk : LruKey K)
        → is_some (om.get_ok lk o) ≡ tracked (erase k keys) lk.item lk.used
        → is_some (
            om.get_ok lk (
              om.set
                (record { item = some k; used = at })
                (some (record { item = some k; used = at }))
                o))
          ≡ tracked (insert k (record { item = some k; used = at }) keys) lk.item lk.used
    held_set keys o k at lk h =
        let new : LruKey K = record { item = some k; used = at } in
        elim (Option-cases lk.item) [
          | inl p ↦ ground (arith, om.get_ok_set new lk (some new) o, same-before lk new)
          | inr (i, p) ↦ ground (
            arith,
            om.get_ok_set new lk (some new) o,
            same-before lk new,
            e.beq_iff k i,
            e.beq_iff i k,
            lookup-erase k i keys,
            lookup-insert k i new keys,
          )
        ]

    pub used-Inv : (m : Lru less om) (k : K) (at : ℕ) → Inv m → Inv (used less om k at m)
    unfolding used
    used-Inv m k at v = record {
      keyed = λ j lk h. ground (
        arith,
        lookup-insert k j (record { item = some k; used = at }) m.o_keys,
        e.beq_iff k j,
        v.keyed j lk,
      );
      distinct = insert-Distinct k _ m.o_keys v.distinct;
      indexed = λ lk. elim (Option-cases m.o) [
        | inl p ↦
            rw p (
              held_set m.o_keys om.new k at lk (rw (om.get_ok_new lk) (sym (untracked m v k lk p))))
        | inr (o, p) ↦ rw p (
            held_set m.o_keys (om.unset (index less om m.o_keys k) o) k at lk
              (held_unset m v o p k lk))
      ];
    }
