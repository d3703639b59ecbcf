-- ===== src/OrderedMap/Reference.antt =====
-- A B-tree's interface can be met: an ascending list of items. It runs in the tests.
use missinggo.Base.{refl, Bool, List, [], length}
use missinggo.Base.Keys.{StrictOrder}
use missinggo.OrderedMap.Sorted.{
  find_item, insert_item, remove_item, Sorted, insert_item-Sorted, remove_item-Sorted,
}
use missinggo.OrderedMap.Defs.{BTree}

unfoldable pub sorted_list : {A : Type 0} (less : A → A → Bool) → StrictOrder less → BTree less
sorted_list {A} less o = record {
  Tree = (xs : List A) × Sorted less xs;
  new = ([], tt);
  replace_or_insert = λ x t. (insert_item less x t.0, insert_item-Sorted o x t.0 t.1);
  delete = λ x t. (remove_item less x t.0, remove_item-Sorted o x t.0 t.1);
  get = λ x t. find_item less x t.0;
  len = λ t. length t.0;
  items = λ t. t.0;
  items_sorted = λ t. t.1;
  items_new = refl;
  items_insert = λ x t. refl;
  items_delete = λ x t. refl;
  get_items = λ x t. refl;
  len_items = λ t. refl;
}
