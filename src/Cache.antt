-- ===== src/Cache.antt =====
-- cache/cache.go and cache/policy.go: the books of a cache whose items are kept elsewhere. An
-- operation runs under the cache's mutex; `Clear`, which takes no lock, is taken to run alone.
pub mod Books
mod Tests
use missinggo.Base.{
  ◌≡◌, ◌≢◌, Bool, true, false, List, [], ◌∷◌, Option, none, some, if◌then◌else◌, length, ℕ,
}
use missinggo.Base.Int.{ℤ, pos, ◌+ℤ◌, ◌-ℤ◌}
use missinggo.Base.Keys.{Eq}
use missinggo.Base.Dict.{lookup, insert, erase}

-- `Policy`, with what it keeps of each key for its clients to reason with.
pub record Policy (K U : Type 0) ⦃e : Eq K⦄ : Type 1 where
  pub State : Type 0
  pub new : State
  pub candidate : State → Option K
  pub update : K → U → State → State
  pub forget : K → State → State
  pub kept : K → State → Option U
  pub kept_new : (k : K) → kept k new ≡ none
  pub kept_update :
      (k j : K) (u : U) (s : State)
      → kept j (update k u s) ≡ (if e.beq k j then some u else kept j s)
  pub kept_forget :
      (k j : K) (s : State) → kept j (forget k s) ≡ (if e.beq k j then none else kept j s)
  pub candidate_kept : (k : K) (s : State) → candidate s ≡ some k → kept k s ≢ none
  pub candidate_none : (k : K) (s : State) → candidate s ≡ none → kept k s ≡ none

pub record ItemMeta (U : Type 0) : Type 0 where
  pub size : ℤ
  pub can_evict : Bool
  pub usage : U

module _ {K U : Type 0} ⦃e : Eq K⦄ (p : Policy K U) (nil : U) where
  -- The zero `ItemMeta` has the nil usage.
  abbrev pub or_zero : Option (ItemMeta U) → ItemMeta U
  or_zero none = record { size = pos 0; can_evict = false; usage = nil }
  or_zero (some i) = i

  pub record Cache : Type 0 where
    pub filled : ℤ
    pub policy : p.State
    pub items : List (K × ItemMeta U)

  unfoldable pub new_cache : Cache
  new_cache = record { filled = pos 0; policy = p.new; items = [] }

  unfoldable pub remove : K → Cache → Cache
  remove k me = record {
    filled = me.filled -ℤ (or_zero (lookup k me.items)).size;
    policy = p.forget k me.policy;
    items = erase k me.items;
  }

  unfoldable pub update : K → ItemMeta U → Cache → Cache
  update k i me = record {
    filled = me.filled -ℤ (or_zero (lookup k me.items)).size +ℤ i.size;
    policy = if i.can_evict then p.update k i.usage me.policy else p.forget k me.policy;
    items = insert k i me.items;
  }

  -- The loop of `Clear` over the items.
  unfoldable pub forget_all : List (K × ItemMeta U) → p.State → p.State
  forget_all [] s = s
  forget_all ((k, i) ∷ m) s = forget_all m (p.forget k s)

  unfoldable pub clear : Cache → Cache
  clear me = record { filled = pos 0; policy = forget_all me.items me.policy; items = [] }

  unfoldable pub num_items : Cache → ℕ
  num_items me = length me.items

  unfoldable pub candidate : Cache → Option (K × ItemMeta U)
  candidate me = elim (p.candidate me.policy) [
    | none ↦ none
    | some k ↦ some (k, or_zero (lookup k me.items))
  ]

  -- The calls that change the books.
  pub data Call : Type 0 where
    remove_call : K → Call
    update_call : K → ItemMeta U → Call
    clear_call : Call

  unfoldable pub step : Call → Cache → Cache
  step (remove_call k) me = remove k me
  step (update_call k i) me = update k i me
  step clear_call me = clear me

  unfoldable pub run : List Call → Cache → Cache
  run [] me = me
  run (c ∷ cs) me = run cs (step c me)
