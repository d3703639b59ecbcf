-- ===== src/LruPolicy.antt =====
-- cache/lru_policy.go: an eviction policy that offers the item of the least usage, over an ordered
-- map of items and a map of the usages. An operation runs under the policy's lock.
pub mod Maps
pub mod Agrees
pub mod Implements
mod Tests
use missinggo.Base.{
  ℕ, ◌≡◌, Bool, true, false, List, [], ◌∷◌, Option, none, some, if◌then◌else◌, length,
}
use missinggo.Base.Keys.{Eq}
use missinggo.Base.Dict.{lookup, insert, erase}
use missinggo.Base.Outcome.{Outcome, done, panics}
use missinggo.MultiLess.{MultiLess, new_multi_less, is_less, next, next_bool}
use missinggo.OrderedMap.Interface.{OrderedMap}

pub record LruItem (K U : Type 0) : Type 0 where
  pub key : K
  pub usage : U

-- The order of the ordered map: `Usage.Less`, then `<` on keys.
unfoldable pub item_less :
    {K U : Type 0}
    → (K → K → Bool)
    → (K → K → Bool)
    → (U → U → Bool)
    → LruItem K U
    → LruItem K U
    → Bool
unfolding is_less next next_bool
item_less equal less usage_less l r = is_less (
    next (equal l.key r.key, less l.key r.key)
      (next_bool (usage_less l.usage r.usage) (usage_less r.usage l.usage) new_multi_less))

module _ {K U : Type 0} ⦃e : Eq K⦄ (less : K → K → Bool) (usage_less : U → U → Bool)
    (om : OrderedMap (Unit {0}) (item_less e.beq less usage_less)) where
  -- `sorted` is nil until the first use; the nil and the empty map `keys` read alike.
  pub record LruPolicy : Type 0 where
    pub sorted : Option om.Map
    pub keys : List (K × U)

  unfoldable pub new_lru_policy : LruPolicy
  new_lru_policy = record { sorted = none; keys = [] }

  -- The callback of `Candidate` keeps the item's key and stops.
  unfoldable pub candidate : LruPolicy → Option K
  candidate me = elim me.sorted [
    | none ↦ none
    | some o ↦ om.iter (Option K) o (λ i k. (some i.key, false)) none
  ]

  -- `Unset` of a nil interface panics.
  unfoldable pub forget : K → LruPolicy → Outcome LruPolicy
  forget k me = elim (lookup k me.keys) [
    | none ↦ done me
    | some u ↦ elim me.sorted [
      | none ↦ panics
      | some o ↦ done (record {
        sorted = some (om.unset (record { key = k; usage = u }) o);
        keys = erase k me.keys;
      })
    ]
  ]

  unfoldable pub num_items : LruPolicy → ℕ
  num_items me = length me.keys

  abbrev pub or_new : Option om.Map → om.Map
  or_new none = om.new
  or_new (some o) = o

  abbrev pub unset_old : K → Option U → om.Map → om.Map
  unset_old k none o = o
  unset_old k (some u) o = om.unset (record { key = k; usage = u }) o

  unfoldable pub update : K → U → LruPolicy → LruPolicy
  update k u me = record {
    sorted = some (
        om.set (record { key = k; usage = u }) tt
          (unset_old k (lookup k me.keys) (or_new me.sorted)));
    keys = insert k u me.keys;
  }
