-- ===== src/PriorityBitmap/Tests.antt =====
-- The priority bitmap over a sorted list, and its theorems at a concrete bitmap.
use missinggo.Base.{◌≡◌, Bool, true, List, [], ◌∷◌, ◌++◌}
use missinggo.Base.Callbacks.{each_all}
use missinggo.Base.Int.{ℤ, pos, ltb_ℤ, ltb_ℤ-StrictOrder}
use missinggo.Base.Outcome.{Outcome, Returns, done, panics, out_of_fuel}
use missinggo.OrderedMap.Interface.{OrderedMap}
use missinggo.OrderedMap.Defs.{item_less}
use missinggo.OrderedMap.Reference.{sorted_list}
use missinggo.OrderedMap.Laws.{google_btree, item_less-StrictOrder}
use missinggo.PriorityBitmap.{Slot, bits, PriorityBitmap, clear, set, remove, iter_typed}
use missinggo.PriorityBitmap.Invariant.{
  clear-Inv, WasSet, set-WasSet, WasRemoved, remove-WasRemoved,
}
use missinggo.PriorityBitmap.Deleted.{Inv}
use missinggo.PriorityBitmap.Walk.{InOrder, iter_typed-InOrder}

abbrev maps : OrderedMap Slot ltb_ℤ
maps =
    google_btree ltb_ℤ ltb_ℤ-StrictOrder
      (sorted_list (item_less ltb_ℤ) (item_less-StrictOrder ltb_ℤ ltb_ℤ-StrictOrder)) (bits [])

abbrev result : Outcome (PriorityBitmap maps × Bool) → PriorityBitmap maps
result (done r) = r.0
result panics = clear maps
result out_of_fuel = clear maps

after_set : (me : PriorityBitmap maps) (b p : ℤ) → Inv maps me → Inv maps (result (set maps me b p))
after_set me b p v = let (r, e, w) = set-WasSet maps me b p v in rw (e) w.inv

-- Bit 7 at priority 2, then bit 3 at the same one.
abbrev one_bit : PriorityBitmap maps
one_bit = result (set maps (clear maps) (pos 7) (pos 2))

abbrev filled : PriorityBitmap maps
filled = result (set maps one_bit (pos 3) (pos 2))

filled-Inv : Inv maps filled
filled-Inv =
    after_set one_bit (pos 3) (pos 2) (after_set (clear maps) (pos 7) (pos 2) (clear-Inv maps))

set-WasSet_example : Returns (WasSet maps filled (pos 7) (pos 1)) (set maps filled (pos 7) (pos 1))
set-WasSet_example = set-WasSet maps filled (pos 7) (pos 1) filled-Inv

remove-WasRemoved_example : Returns (WasRemoved maps filled (pos 7)) (remove maps filled (pos 7))
remove-WasRemoved_example = remove-WasRemoved maps filled (pos 7) filled-Inv

iter_typed-InOrder_example :
    (l : List ℤ) × InOrder maps filled l
    × (iter_typed maps filled (λ b s. (s ++ b ∷ [], true)) []
        ≡ each_all l (λ b s. (s ++ b ∷ [], true)) [])
iter_typed-InOrder_example =
    iter_typed-InOrder maps filled (λ b s. (s ++ b ∷ [], true)) [] filled-Inv
