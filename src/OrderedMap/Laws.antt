-- ===== src/OrderedMap/Laws.antt =====
-- The wrapped B-tree meets the interface: reads after writes, and the order of the walk.
use missinggo.Base.{
  ◌≡◌, refl, sym, ap, ◌∙◌, Bool, List, [], ◌∷◌, map, none, some, arith, if◌then◌else◌, length-map,
}
use missinggo.Base.Callbacks.{Callback, each, each_all}
use missinggo.Base.Keys.{StrictOrder, same}
use missinggo.OrderedMap.Sorted.{find_item, Above, Sorted, find-insert, find-remove}
use missinggo.OrderedMap.Defs.{
  BTree, GoogleBTreeItem, item_less, item_value, probe, new_google_btree, set, get_ok, iter, unset,
  len,
}
use missinggo.OrderedMap.Interface.{OrderedMap, is_some}

abbrev item_keys : {K V : Type 0} → List (GoogleBTreeItem K V) → List K
item_keys = map (λ i. i.key)

pub item_less-StrictOrder :
    {K V : Type 0} (lesser : K → K → Bool)
    → StrictOrder lesser
    → StrictOrder (item_less {V = V} lesser)
item_less-StrictOrder lesser o = record {
  irrefl = λ a. o.irrefl a.key;
  trans = λ a b c. o.trans a.key b.key c.key;
  neg_trans = λ a b c. o.neg_trans a.key b.key c.key;
}

each_all-map :
    {A B S : Type 0} (g : A → B) (xs : List A) (cb : Callback B S) (s : S)
    → each_all xs (λ x. cb (g x)) s ≡ each_all (map g xs) cb s
unfolding each_all
each_all-map g [] cb s = refl
each_all-map g (x ∷ xs) cb s = ground (arith, each_all-map g xs cb (cb (g x) s).0)

module _ {K V : Type 0} (lesser : K → K → Bool) where
  Above-keys :
      (x : GoogleBTreeItem K V) (xs : List (GoogleBTreeItem K V))
      → Above (item_less lesser) x xs
      → Above lesser x.key (item_keys xs)
  Above-keys x [] a = tt
  Above-keys x (y ∷ ys) a = (a.0, Above-keys x ys a.1)

  pub Sorted-keys :
      (xs : List (GoogleBTreeItem K V))
      → Sorted (item_less lesser) xs
      → Sorted lesser (item_keys xs)
  Sorted-keys [] s = tt
  Sorted-keys (x ∷ xs) s = (Above-keys x xs s.0, Sorted-keys xs s.1)

  find-keys :
      (x : GoogleBTreeItem K V) (xs : List (GoogleBTreeItem K V))
      → is_some (find_item lesser x.key (item_keys xs))
        ≡ is_some (item_value (find_item (item_less lesser) x xs))
  unfolding find_item
  find-keys x [] = refl
  find-keys x (y ∷ ys) = ground (arith, find-keys x ys)

module _ {K V : Type 0} (lesser : K → K → Bool) (o : StrictOrder lesser)
    (b : BTree (item_less {V = V} lesser)) (nil : V) where
  -- A search after `Set` finds the new value at an equal key, and at any other key what a search
  -- found before.
  pub get_ok-set :
      (k j : K) (v : V) (m : b.Tree)
      → get_ok lesser b nil j (set lesser b nil k v m)
        ≡ (if same lesser j k then some v else get_ok lesser b nil j m)
  unfolding get_ok set
  get_ok-set k j v m =
      let item : GoogleBTreeItem K V = record { key = k; value = v } in
      ground (
        arith,
        b.get_items (probe lesser b nil j) (b.replace_or_insert item m),
        b.get_items (probe lesser b nil j) m,
        b.items_insert item m,
        find-insert (item_less-StrictOrder lesser o) item (probe lesser b nil j) (b.items m)
            (b.items_sorted m),
      )

  -- After `Unset` no key equal to the removed one is found, and every other key is as before.
  pub get_ok-unset :
      (k j : K) (m : b.Tree)
      → get_ok lesser b nil j (unset lesser b nil k m)
        ≡ (if same lesser j k then none else get_ok lesser b nil j m)
  unfolding get_ok unset
  get_ok-unset k j m = ground (
    arith,
    b.get_items (probe lesser b nil j) (b.delete (probe lesser b nil k) m),
    b.get_items (probe lesser b nil j) m,
    b.items_delete (probe lesser b nil k) m,
    find-remove (item_less-StrictOrder lesser o) (probe lesser b nil k) (probe lesser b nil j)
        (b.items m) (b.items_sorted m),
  )

  pub iter-keys :
      {S : Type 0} (m : b.Tree) (cb : Callback K S) (s : S)
      → iter lesser b nil m cb s ≡ each (item_keys (b.items m)) cb s
  unfolding iter each
  iter-keys m cb s = ap (λ r. r.0) (each_all-map (λ i. i.key) (b.items m) cb s)

  pub find-get_ok :
      (k : K) (m : b.Tree)
      → is_some (find_item lesser k (item_keys (b.items m))) ≡ is_some (get_ok lesser b nil k m)
  unfolding get_ok
  find-get_ok k m =
      rw (b.get_items (probe lesser b nil k) m)
        (find-keys lesser (probe lesser b nil k) (b.items m))

  -- For each tree there is one series of keys that `Iter` hands to any callback, until that says stop:
  -- the keys are in strictly ascending order of `lesser`, and a key is equal to one of them exactly
  -- if `GetOk` finds something at it.
  pub iter-Sorted :
      {S : Type 0} (m : b.Tree)
      → (keys : List K) × Sorted lesser keys
        × ((k : K) → is_some (find_item lesser k keys) ≡ is_some (get_ok lesser b nil k m))
        × ((cb : Callback K S) (s : S) → iter lesser b nil m cb s ≡ each keys cb s)
  iter-Sorted m = (
    item_keys (b.items m),
    Sorted-keys lesser (b.items m) (b.items_sorted m),
    λ k. find-get_ok k m,
    iter-keys m,
  )

  pub get_ok-new : (k : K) → get_ok lesser b nil k (new_google_btree lesser b nil) ≡ none
  unfolding get_ok new_google_btree find_item
  get_ok-new k = rw (b.get_items (probe lesser b nil k) b.new, b.items_new)

  -- The wrapper implements the interface.
  unfoldable pub google_btree : OrderedMap V lesser
  unfolding new_google_btree set get_ok iter unset len
  google_btree = record {
    Map = b.Tree;
    new = new_google_btree lesser b nil;
    get_ok = get_ok lesser b nil;
    set = set lesser b nil;
    unset = unset lesser b nil;
    len = len lesser b nil;
    keys = λ m. item_keys (b.items m);
    iter = λ S m cb s. iter lesser b nil m cb s;
    order = o;
    keys_new = ap item_keys b.items_new;
    get_ok_new = get_ok-new;
    get_ok_set = get_ok-set;
    get_ok_unset = get_ok-unset;
    iter_keys = λ S. iter-keys;
    keys_sorted = λ m. Sorted-keys lesser (b.items m) (b.items_sorted m);
    keys_get_ok = find-get_ok;
    len_keys = λ m. b.len_items m ∙ sym (length-map (b.items m) (λ i. i.key));
  }
