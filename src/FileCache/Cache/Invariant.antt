-- ===== src/FileCache/Cache/Invariant.antt =====
-- The accounts of the cache: the fill level is the total of the recorded sizes, and the policy
-- keeps exactly the recorded items, each with its recorded access time.
use missinggo.Base.{◌≡◌, refl, List, [], ◌∷◌, Option, none, some, arith, inl, inr, Bool-cases}
use missinggo.Base.Int.{ℤ, pos, ◌+ℤ◌, ◌-ℤ◌, int_laws}
use missinggo.Base.Keys.{bytes_less, bytes_key, bytes_eq_iff, bytes_eq}
use missinggo.Base.Dict.{
  lookup, insert, erase, Distinct, lookup-insert, lookup-erase, insert-Distinct, erase-Distinct,
  erase_absent,
}
use missinggo.OrderedMap.Interface.{OrderedMap}
use missinggo.FileCache.Paths.{Bytes}
use missinggo.FileCache.Lru.{LruKey, before, used, forget}
use missinggo.FileCache.Lru.Invariant
use missinggo.FileCache.Lru.Invariant.{TotalOrder, used-Inv, forget-Inv}
use missinggo.FileCache.Os.{Os}
use missinggo.FileCache.Cache.{ItemState, or_zero, Cache}

-- The recorded sizes, added up.
abbrev pub total : List (Bytes × ItemState) → ℤ
total [] = pos 0
total ((k, i) ∷ m) = i.size +ℤ total m

total-insert :
    (k : Bytes) (i : ItemState) (m : List (Bytes × ItemState))
    → total (insert k i m) ≡ total m -ℤ (or_zero (lookup k m)).size +ℤ i.size
total-insert k i [] = omega int_laws
total-insert k i ((j, w) ∷ m) = elim (Bool-cases (bytes_eq j k)) [
  | inl p ↦ rw p (omega int_laws)
  | inr p ↦ rw (p, total-insert k i m) (omega int_laws)
]

total-erase :
    (k : Bytes) (m : List (Bytes × ItemState))
    → Distinct m
    → total (erase k m) ≡ total m -ℤ (or_zero (lookup k m)).size
total-erase k [] d = omega int_laws
total-erase k ((j, w) ∷ m) d = elim (Bool-cases (bytes_eq j k)) [
  | inl p ↦
      let gone : lookup k m ≡ none = ground (arith, bytes_eq_iff j k, d.0) in
      rw (p, erase_absent k m gone) (omega int_laws)
  | inr p ↦ rw (p, total-erase k m d.1) (omega int_laws)
]

-- The policy's entry for an item.
abbrev pub entry : Bytes → Option ItemState → Option (LruKey Bytes)
entry k none = none
entry k (some i) = some (record { item = some k; used = i.accessed })

module _ (t : TotalOrder bytes_less) (om : OrderedMap (Option (LruKey Bytes)) (before bytes_less))
    (os : Os) where
  open os use {World}

  pub record Inv (me : Cache om os) : Type 0 where
    pub filled : me.filled ≡ total me.items
    pub distinct : Distinct me.items
    pub policy : Invariant.Inv bytes_less t om me.policy
    pub agree : (k : Bytes) → lookup k me.policy.o_keys ≡ entry k (lookup k me.items)

  -- The state after `updateItem` has kept an item, before it trims.
  pub keep-Inv :
      (me : Cache om os) (k : Bytes) (i : ItemState)
      → Inv me
      → Inv (record me {
        filled = me.filled -ℤ (or_zero (lookup k me.items)).size +ℤ i.size;
        policy = used bytes_less om k i.accessed me.policy;
        items = insert k i me.items;
      })
  unfolding used
  keep-Inv me k i v = record {
    filled = rw (v.filled, total-insert k i me.items) refl;
    distinct = insert-Distinct k i me.items v.distinct;
    policy = used-Inv bytes_less t om me.policy k i.accessed v.policy;
    agree = λ j. ground (
      arith,
      v.agree j,
      bytes_eq_iff k j,
      lookup-insert k j i me.items,
      lookup-insert k j (record { item = some k; used = i.accessed }) me.policy.o_keys,
    );
  }

  -- The same after it has dropped one.
  pub drop-Inv :
      (me : Cache om os) (k : Bytes)
      → Inv me
      → Inv (record me {
        filled = me.filled -ℤ (or_zero (lookup k me.items)).size;
        policy = forget bytes_less om k me.policy;
        items = erase k me.items;
      })
  unfolding forget
  drop-Inv me k v = record {
    filled = rw (v.filled, total-erase k me.items v.distinct) refl;
    distinct = erase-Distinct k me.items v.distinct;
    policy = forget-Inv bytes_less t om me.policy k v.policy;
    agree = λ j.
        ground (arith, v.agree j, lookup-erase k j me.items, lookup-erase k j me.policy.o_keys);
  }
