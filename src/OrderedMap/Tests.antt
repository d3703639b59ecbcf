-- ===== src/OrderedMap/Tests.antt =====
-- The ordered map over an ascending list, with numbers as keys.
use missinggo.Base.{ℕ, ◌≡◌, List, none, some, if◌then◌else◌, ltb}
use missinggo.Base.Callbacks.{Callback, each}
use missinggo.Base.Keys.{ltb-StrictOrder, same}
use missinggo.OrderedMap.Defs.{BTree, item_less, new_google_btree, set, get_ok, iter, unset}
use missinggo.OrderedMap.Interface.{is_some}
use missinggo.OrderedMap.Sorted.{find_item, Sorted}
use missinggo.OrderedMap.Reference.{sorted_list}
use missinggo.OrderedMap.Laws.{get_ok-set, get_ok-unset, iter-Sorted, item_less-StrictOrder}

abbrev tree : BTree (item_less {V = ℕ} ltb)
tree = sorted_list (item_less ltb) (item_less-StrictOrder ltb ltb-StrictOrder)

abbrev stocked : tree.Tree
stocked = set ltb tree 0 4 40 (set ltb tree 0 2 20 (new_google_btree ltb tree 0))

get_ok-set_example :
    get_ok ltb tree 0 2 (set ltb tree 0 3 30 stocked)
    ≡ (if same ltb 2 3 then some 30 else get_ok ltb tree 0 2 stocked)
get_ok-set_example = get_ok-set ltb ltb-StrictOrder tree 0 3 2 30 stocked

read_after_unset :
    get_ok ltb tree 0 2 (unset ltb tree 0 2 stocked)
    ≡ (if same ltb 2 2 then none else get_ok ltb tree 0 2 stocked)
read_after_unset = get_ok-unset ltb ltb-StrictOrder tree 0 2 2 stocked

iter-Sorted_example :
    (keys : List ℕ) × Sorted ltb keys
    × ((k : ℕ) → is_some (find_item ltb k keys) ≡ is_some (get_ok ltb tree 0 k stocked))
    × ((cb : Callback ℕ (List ℕ)) (s : List ℕ) → iter ltb tree 0 stocked cb s ≡ each keys cb s)
iter-Sorted_example = iter-Sorted ltb ltb-StrictOrder tree 0 stocked
