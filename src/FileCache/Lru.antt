-- ===== src/FileCache/Lru.antt =====
-- filecache/lru.go, filecache/policy.go: the eviction policy. Keys are of any type with an equality
-- and an order (`policyItemKey`); times are nanoseconds, with 0 for Go's zero `Time`.
pub mod Invariant
pub mod Choice
use missinggo.Base.{
  ℕ, ◌≡◌, Bool, true, false, List, [], ◌∷◌, Option, none, some, if◌then◌else◌, ltb, ◌==◌, length,
}
use missinggo.Base.Keys.{Eq, StrictOrder, same}
use missinggo.Base.Dict.{lookup, insert, erase}
use missinggo.Base.Outcome.{Outcome, done, panics}
use missinggo.OrderedMap.Interface.{OrderedMap}

-- `item` is an interface value, nil in the zero key.
pub record LruKey (K : Type 0) : Type 0 where
  pub item : Option K
  pub used : ℕ

abbrev pub zero_key : {K : Type 0} → LruKey K
zero_key = record { item = none; used = 0 }

-- `item.Before`. A call on a nil item panics in Go; here nil stands before the keys. Only a key
-- with the zero time can meet it.
abbrev pub item_before : {K : Type 0} → (K → K → Bool) → Option K → Option K → Bool
item_before less none none = false
item_before less none (some k) = true
item_before less (some k) none = false
item_before less (some k) (some j) = less k j

-- `lruKey.Before`: by time, then by key.
unfoldable pub before : {K : Type 0} → (K → K → Bool) → LruKey K → LruKey K → Bool
before less me other =
    if me.used == other.used then item_before less me.item other.item else ltb me.used other.used

module _ {K : Type 0} ⦃e : Eq K⦄ (less : K → K → Bool)
    (om : OrderedMap (Option (LruKey K)) (before less)) where
  -- `o` is nil until the first use; the nil and the empty map `oKeys` are the same.
  pub record Lru : Type 0 where
    pub o : Option om.Map
    pub o_keys : List (K × LruKey K)

  unfoldable pub new_lru : Lru
  new_lru = record { o = none; o_keys = [] }

  -- `me.oKeys[k]`, the zero key where there is none.
  abbrev pub index : List (K × LruKey K) → K → LruKey K
  index o_keys k = elim (lookup k o_keys) [ none ↦ zero_key | some lk ↦ lk ]

  -- What is made of the last key that the callback of `Choose` has seen.
  abbrev pub chosen : Option (LruKey K) → Outcome K
  chosen none = panics
  chosen (some lk) = elim lk.item [ none ↦ panics | some k ↦ done k ]

  -- `Choose`, with the type assertion that its caller makes. `Iter` of a nil interface panics.
  unfoldable pub choose : Lru → Outcome K
  choose me = elim me.o [
    | none ↦ panics
    | some o ↦ chosen (om.iter (Option (LruKey K)) o (λ i s. (some i, false)) none)
  ]

  unfoldable pub used : K → ℕ → Lru → Lru
  used k at me =
      let lk : LruKey K = record { item = some k; used = at } in
      let o : om.Map = elim me.o [ none ↦ om.new | some o ↦ om.unset (index me.o_keys k) o ] in
      record { o = some (om.set lk (some lk) o); o_keys = insert k lk me.o_keys }

  unfoldable pub forget : K → Lru → Lru
  forget k me = record {
    o = elim me.o [ none ↦ none | some o ↦ some (om.unset (index me.o_keys k) o) ];
    o_keys = erase k me.o_keys;
  }

  unfoldable pub num_items : Lru → ℕ
  num_items me = length me.o_keys
