-- ===== src/FileCache/Cache/Trim.antt =====
-- What `trimToCapacity` evicts.
use missinggo.Base.{
  ℕ, zero, suc, ◌≤◌, ◌≡◌, refl, ◌∙◌, true, false, List, [], ◌∷◌, Option, none, some, arith, ◌⊎◌,
  inl, inr, Bool-cases,
}
use missinggo.Base.Int.{pos, ◌-ℤ◌, ltb_ℤ}
use missinggo.Base.Keys.{bytes_less, bytes_key, bytes_eq_iff}
use missinggo.Base.Dict.{lookup, erase, lookup-erase}
use missinggo.Base.Outcome.{
  done, ◌>>=◌, Ensures, Ensures-bind, Ensures-mono, Ensures-trivial, Returns,
}
use missinggo.OrderedMap.Interface.{OrderedMap}
use missinggo.FileCache.Paths.{Bytes, realpath}
use missinggo.FileCache.Lru.{LruKey, before, choose, forget}
use missinggo.FileCache.Lru.Invariant.{TotalOrder}
use missinggo.FileCache.Lru.Choice.{IsOldest, choose-IsOldest}
use missinggo.FileCache.Os.{Os, error-cases}
use missinggo.FileCache.Cache.{
  ItemState, or_zero, Cache, update_item_then, remove_then, trim_to_capacity, prune_empty_dirs,
  drop_item, forget_then,
}
use missinggo.FileCache.Cache.Invariant.{Inv, drop-Inv}

module _ (t : TotalOrder bytes_less) (om : OrderedMap (Option (LruKey Bytes)) (before bytes_less))
    (os : Os) where
  open os use {World}

  -- When an item was last used, with its path to tell apart items of one time.
  abbrev pub use_of : Bytes → ItemState → LruKey Bytes
  use_of k i = record { item = some k; used = i.accessed }

  -- From `me` to `after` items were only evicted, and none was evicted that was used after one
  -- that is kept, or at the same time and has a greater path.
  pub record Evicts (me after : Cache om os) : Type 0 where
    pub inv : Inv t om os after
    pub root : after.root ≡ me.root
    pub capacity : after.capacity ≡ me.capacity
    pub kept :
        (k : Bytes) → (lookup k after.items ≡ lookup k me.items) ⊎ (lookup k after.items ≡ none)
    pub oldest_first :
        (j k : Bytes) (i l : ItemState)
        → lookup j me.items ≡ some i
        → lookup j after.items ≡ none
        → lookup k after.items ≡ some l
        → (i.accessed ≤ l.accessed) × (i.accessed ≡ l.accessed → bytes_less k j ≡ false)

  Evicts-refl : (me : Cache om os) → Inv t om os me → Evicts me me
  Evicts-refl me v = record {
    inv = v;
    root = refl;
    capacity = refl;
    kept = λ k. inl refl;
    oldest_first = λ j k i l p q r. cc;
  }

  Evicts-trans : (a b c : Cache om os) → Evicts a b → Evicts b c → Evicts a c
  Evicts-trans a b c x y = record {
    inv = y.inv;
    root = y.root ∙ x.root;
    capacity = y.capacity ∙ x.capacity;
    kept = λ k. ground (arith, x.kept k, y.kept k);
    oldest_first = λ j k i l p q r.
        ground (arith, x.kept j, y.kept k, x.oldest_first j k i l p, y.oldest_first j k i l);
  }

  -- The cache without the item, its account settled.
  abbrev pub without : Cache om os → Bytes → Cache om os
  without me k = record me {
    filled = me.filled -ℤ (or_zero (lookup k me.items)).size;
    policy = forget bytes_less om k me.policy;
    items = erase k me.items;
  }

  without-Evicts :
      (me : Cache om os) (k : Bytes)
      → Inv t om os me
      → IsOldest bytes_less t om me.policy.o_keys k
      → Evicts me (without me k)
  without-Evicts me k v o = record {
    inv = drop-Inv t om os me k v;
    root = refl;
    capacity = refl;
    kept = λ j. ground (arith, lookup-erase k j me.items);
    oldest_first = λ j h i l p q r. ground (
      arith,
      lookup-erase k j me.items,
      lookup-erase k h me.items,
      bytes_eq_iff k j,
      v.agree k,
      v.agree h,
      o.kept,
      o.oldest h (use_of h l),
    );
  }

  -- Above its capacity the cache has an item, and the policy offers an oldest one.
  pub candidate :
      (me : Cache om os)
      → Inv t om os me
      → ltb_ℤ me.capacity (pos 0) ≡ false
      → ltb_ℤ me.capacity me.filled ≡ true
      → Returns (IsOldest bytes_less t om me.policy.o_keys) (choose bytes_less om me.policy)
  candidate me v p q = from me.items refl
    where
      from :
          (m : List (Bytes × ItemState))
          → me.items ≡ m
          → Returns (IsOldest bytes_less t om me.policy.o_keys) (choose bytes_less om me.policy)
      from [] e = absurd (ground (arith, v.filled))
      from ((k, i) ∷ m) e =
          choose-IsOldest bytes_less t om me.policy k (use_of k i) v.policy
            (ground (arith, v.agree k, bytes_eq_iff k k))

  abbrev pub Fits : Cache om os → Type 0
  Fits me = (ltb_ℤ me.capacity (pos 0) ≡ true) ⊎ (ltb_ℤ me.capacity me.filled ≡ false)

  -- The outcome of a trim.
  pub record Trimmed (me after : Cache om os) : Type 0 where
    pub evicts : Evicts me after
    pub fits : Fits after

  abbrev Trims : ℕ → Type 0
  Trims fuel =
      (me : Cache om os) (w : World)
      → Inv t om os me
      → Ensures (λ r. Trimmed me r.0) (trim_to_capacity om os fuel me w)

  update-Evicts :
      (fuel : ℕ) (me : Cache om os) (k : Bytes) (w : World)
      → Trims fuel
      → Inv t om os me
      → IsOldest bytes_less t om me.policy.o_keys k
      → Ensures
          (λ r. Evicts me r.0)
          (update_item_then om os (trim_to_capacity om os fuel) k (drop_item om os) me w)
  unfolding update_item_then
  update-Evicts fuel me k w ih v o =
      Ensures-mono _ _ (trim_to_capacity om os fuel (without me k) w)
        (ih (without me k) w (drop-Inv t om os me k v))
        (λ r h. Evicts-trans me (without me k) r.0 (without-Evicts me k v o) h.evicts)

  forget-Evicts :
      (fuel : ℕ) (me : Cache om os) (k : Bytes) (w : World)
      → Trims fuel
      → Inv t om os me
      → IsOldest bytes_less t om me.policy.o_keys k
      → Ensures (λ r. Evicts me r.1) (forget_then om os (trim_to_capacity om os fuel) k me w)
  unfolding forget_then
  forget-Evicts fuel me k w ih v o =
      Ensures-bind (λ (w1 : World). Unit {0}) _
        (prune_empty_dirs om os me.root (realpath me.root k) w) _ (Ensures-trivial _)
        (λ w1 _.
          Ensures-bind (λ r. Evicts me r.0) (λ r. Evicts me r.1)
            (update_item_then om os (trim_to_capacity om os fuel) k (drop_item om os) me w1)
            (λ r. done (none, r.0, r.1)) (update-Evicts fuel me k w1 ih v o) (λ r h. h))

  -- What one removal of an oldest item does, given what the trim within it does.
  remove-Evicts :
      (fuel : ℕ) (me : Cache om os) (k : Bytes) (w : World)
      → Trims fuel
      → Inv t om os me
      → IsOldest bytes_less t om me.policy.o_keys k
      → Ensures (λ r. Evicts me r.1) (remove_then om os (trim_to_capacity om os fuel) k me w)
  unfolding remove_then
  remove-Evicts fuel me k w ih v o =
      let w' = (os.remove (realpath me.root k) w).0 in
      elim (error-cases (os.remove (realpath me.root k) w).1) [
        | inl (inl p) ↦ rw (p, remove_then) (forget-Evicts fuel me k w' ih v o)
        | inl (inr p) ↦ rw (p, remove_then) (forget-Evicts fuel me k w' ih v o)
        | inr (n, p) ↦ rw (p, remove_then) (Evicts-refl me v)
      ]

  module _ (fuel : ℕ) (me : Cache om os) (w : World) where
    pub trim_unlimited :
        ltb_ℤ me.capacity (pos 0) ≡ true → trim_to_capacity om os (suc fuel) me w ≡ done (me, w)
    unfolding trim_to_capacity
    trim_unlimited p = rw (p, trim_to_capacity)

    pub trim_within :
        ltb_ℤ me.capacity (pos 0) ≡ false
        → ltb_ℤ me.capacity me.filled ≡ false
        → trim_to_capacity om os (suc fuel) me w ≡ done (me, w)
    unfolding trim_to_capacity
    trim_within p q = rw (p, q, trim_to_capacity)

    pub trim_above :
        {k : Bytes}
        → ltb_ℤ me.capacity (pos 0) ≡ false
        → ltb_ℤ me.capacity me.filled ≡ true
        → choose bytes_less om me.policy ≡ done k
        → trim_to_capacity om os (suc fuel) me w ≡ (
            remove_then om os (trim_to_capacity om os fuel) k me w >>= λ r.
            trim_to_capacity om os fuel r.1 r.2)
    unfolding trim_to_capacity
    trim_above p q c = rw (p, q, c, trim_to_capacity)

  -- Where it ends at all, it ends within the capacity.
  pub trim_to_capacity-Trimmed : (fuel : ℕ) → Trims fuel
  trim_to_capacity-Trimmed zero me w v = unfold trim_to_capacity in tt
  trim_to_capacity-Trimmed (suc fuel) me w v = elim (Bool-cases (ltb_ℤ me.capacity (pos 0))) [
    | inl p ↦ rw (trim_unlimited fuel me w p) (record { evicts = Evicts-refl me v; fits = inl p })
    | inr p ↦ elim (Bool-cases (ltb_ℤ me.capacity me.filled)) [
      | inr q ↦ rw (trim_within fuel me w p q) (record { evicts = Evicts-refl me v; fits = inr q })
      | inl q ↦
          let (k, chosen, oldest) = candidate me v p q in
          rw (trim_above fuel me w p q chosen) (
            Ensures-bind (λ r. Evicts me r.1) (λ s. Trimmed me s.0)
              (remove_then om os (trim_to_capacity om os fuel) k me w)
              (λ r. trim_to_capacity om os fuel r.1 r.2)
              (remove-Evicts fuel me k w (trim_to_capacity-Trimmed fuel) v oldest)
              (λ r h.
                Ensures-mono (λ s. Trimmed r.1 s.0) (λ s. Trimmed me s.0)
                  (trim_to_capacity om os fuel r.1 r.2)
                  (trim_to_capacity-Trimmed fuel r.1 r.2 h.inv)
                  (λ s g. record { evicts = Evicts-trans me r.1 s.0 h g.evicts; fits = g.fits })))
    ]
  ]
