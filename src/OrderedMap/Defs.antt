-- ===== src/OrderedMap/Defs.antt =====
-- orderedmap/google_btree.go: the ordered map, and the interface of the B-tree that it wraps.
use missinggo.Base.{ℕ, ◌≡◌, Bool, List, [], Option, none, some, length}
use missinggo.Base.Callbacks.{Callback, each}
use missinggo.OrderedMap.Sorted.{find_item, insert_item, remove_item, Sorted}

-- `btree.BTree` of github.com/google/btree for items that `less` orders, by its documentation:
-- `Ascend` visits the items in ascending order, `ReplaceOrInsert` adds an item or replaces the one
-- that is equal to it, `Delete` removes the item equal to the given one, `Get` looks for it.
pub record BTree {A : Type 0} (less : A → A → Bool) : Type 1 where
  pub Tree : Type 0
  pub new : Tree
  pub replace_or_insert : A → Tree → Tree
  pub delete : A → Tree → Tree
  pub get : A → Tree → Option A
  pub len : Tree → ℕ
  pub items : Tree → List A
  pub items_sorted : (t : Tree) → Sorted less (items t)
  pub items_new : items new ≡ []
  pub items_insert :
      (x : A) (t : Tree) → items (replace_or_insert x t) ≡ insert_item less x (items t)
  pub items_delete : (x : A) (t : Tree) → items (delete x t) ≡ remove_item less x (items t)
  pub get_items : (x : A) (t : Tree) → get x t ≡ find_item less x (items t)
  pub len_items : (t : Tree) → len t ≡ length (items t)

-- `value` is Go's `interface{}`, whose nil a caller names.
pub record GoogleBTreeItem (K V : Type 0) : Type 0 where
  pub key : K
  pub value : V

-- `googleBTreeItem.Less`, for the `less` that all items of one map carry.
abbrev pub item_less :
    {K V : Type 0} → (K → K → Bool) → GoogleBTreeItem K V → GoogleBTreeItem K V → Bool
item_less less me right = less me.key right.key

abbrev pub item_value : {K V : Type 0} → Option (GoogleBTreeItem K V) → Option V
item_value none = none
item_value (some item) = some item.value

module _ {K V : Type 0} (lesser : K → K → Bool) (b : BTree (item_less {V = V} lesser))
    (nil : V) where
  open b use {Tree}

  -- The item that a search is made with.
  abbrev pub probe : K → GoogleBTreeItem K V
  probe key = record { key = key; value = nil }

  unfoldable pub new_google_btree : Tree
  new_google_btree = b.new

  unfoldable pub set : K → V → Tree → Tree
  set key value me = b.replace_or_insert (record { key = key; value = value }) me

  -- `none` where the second result is false.
  unfoldable pub get_ok : K → Tree → Option V
  get_ok key me = item_value (b.get (probe key) me)

  unfoldable pub get : K → Tree → V
  unfolding get_ok
  get key me = elim (get_ok key me) [ none ↦ nil | some value ↦ value ]

  -- `bt.Ascend` with the callback on each item's key.
  unfoldable pub iter : {S : Type 0} → Tree → Callback K S → S → S
  iter me f s = each (b.items me) (λ i. f i.key) s

  unfoldable pub unset : K → Tree → Tree
  unset key me = b.delete (probe key) me

  unfoldable pub len : Tree → ℕ
  len me = b.len me
