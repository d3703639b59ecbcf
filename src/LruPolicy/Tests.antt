-- ===== src/LruPolicy/Tests.antt =====
-- The policy over an ascending list, with usages and keys that are numbers.
use missinggo.Base.{ℕ, ◌≡◌, ◌∷◌, [], List, none, true, arith, ltb}
use missinggo.Base.Keys.{nat_eq, ltb-StrictOrder, StrictOrder, same}
use missinggo.Base.Int.{pos}
use missinggo.Base.Outcome.{Returns}
use missinggo.Cache
use missinggo.Cache.Books
use missinggo.OrderedMap.Interface.{OrderedMap}
use missinggo.OrderedMap.Reference.{sorted_list}
use missinggo.OrderedMap.Laws
use missinggo.LruPolicy.{item_less, new_lru_policy}
use missinggo.LruPolicy.Maps.{item_less-StrictOrder}
use missinggo.LruPolicy.Implements.{
  Call, update_call, forget_call, run, After, run-After, lru_policy,
}

numbers_apart : (a b : ℕ) → same ltb a b ≡ nat_eq.beq a b
numbers_apart a b = ground arith

abbrev order : StrictOrder (item_less nat_eq.beq ltb ltb)
order = item_less-StrictOrder ltb ltb ltb-StrictOrder numbers_apart ltb-StrictOrder

abbrev om : OrderedMap (Unit {0}) (item_less nat_eq.beq ltb ltb)
om =
    Laws.google_btree (item_less nat_eq.beq ltb ltb) order
      (sorted_list _ (Laws.item_less-StrictOrder (item_less nat_eq.beq ltb ltb) order)) tt

abbrev calls : List (Call ℕ ℕ)
calls = update_call 1 30 ∷ update_call 2 20 ∷ update_call 3 20 ∷ forget_call 2 ∷ []

run-After_example :
    Returns (After ltb ltb ltb-StrictOrder numbers_apart ltb-StrictOrder om calls (λ k. none)) (
      run ltb ltb ltb-StrictOrder numbers_apart ltb-StrictOrder om calls
        (new_lru_policy ltb ltb om))
run-After_example = run-After ltb ltb ltb-StrictOrder numbers_apart ltb-StrictOrder om calls

-- The books of a cache with this policy.
books_agree : Books.Inv (lru_policy ltb ltb ltb-StrictOrder numbers_apart ltb-StrictOrder om) 0 (
    Cache.run
      (lru_policy ltb ltb ltb-StrictOrder numbers_apart ltb-StrictOrder om)
      0
      (Cache.update_call 1 (record { size = pos 10; can_evict = true; usage = 5 }) ∷ [])
      (Cache.new_cache (lru_policy ltb ltb ltb-StrictOrder numbers_apart ltb-StrictOrder om) 0))
books_agree =
    Books.new_cache-calls-Inv (lru_policy ltb ltb ltb-StrictOrder numbers_apart ltb-StrictOrder om)
      0 (Cache.update_call 1 (record { size = pos 10; can_evict = true; usage = 5 }) ∷ [])
