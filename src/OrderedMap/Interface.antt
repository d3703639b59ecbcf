-- ===== src/OrderedMap/Interface.antt =====
-- orderedmap/orderedmap.go: the interface `OrderedMap`, with what its clients rely on.
use missinggo.Base.{ℕ, ◌≡◌, Bool, List, [], Option, none, some, if◌then◌else◌, length}
use missinggo.Base.Callbacks.{Callback, each}
use missinggo.Base.Keys.{StrictOrder, same}
use missinggo.OrderedMap.Sorted.{find_item, Sorted}

abbrev pub is_some : {A : Type 0} → Option A → Bool
is_some none = Bool.false
is_some (some a) = Bool.true

-- `keys` is what `Iter` walks.
pub record OrderedMap {K : Type 0} (V : Type 0) (lesser : K → K → Bool) : Type 1 where
  pub Map : Type 0
  pub new : Map
  pub get_ok : K → Map → Option V
  pub set : K → V → Map → Map
  pub unset : K → Map → Map
  pub len : Map → ℕ
  pub keys : Map → List K
  pub iter : (S : Type 0) → Map → Callback K S → S → S
  pub order : StrictOrder lesser
  pub keys_new : keys new ≡ []
  pub get_ok_new : (k : K) → get_ok k new ≡ none
  pub get_ok_set :
      (k j : K) (v : V) (m : Map)
      → get_ok j (set k v m) ≡ (if same lesser j k then some v else get_ok j m)
  pub get_ok_unset :
      (k j : K) (m : Map) → get_ok j (unset k m) ≡ (if same lesser j k then none else get_ok j m)
  pub iter_keys :
      (S : Type 0) (m : Map) (cb : Callback K S) (s : S) → iter S m cb s ≡ each (keys m) cb s
  pub keys_sorted : (m : Map) → Sorted lesser (keys m)
  pub keys_get_ok : (k : K) (m : Map) → is_some (find_item lesser k (keys m)) ≡ is_some (get_ok k m)
  pub len_keys : (m : Map) → len m ≡ length (keys m)
