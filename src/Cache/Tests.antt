-- ===== src/Cache/Tests.antt =====
-- The books with a policy that offers its first key, at concrete calls.
use missinggo.Base.{ℕ, ◌≡◌, ◌≢◌, refl, true, false, List, [], ◌∷◌, Option, none, some, arith}
use missinggo.Base.Int.{pos}
use missinggo.Base.Keys.{nat_eq}
use missinggo.Base.Dict.{lookup, insert, erase, lookup-insert, lookup-erase}
use missinggo.Cache.{Policy, new_cache, candidate, Call, update_call, remove_call, run}
use missinggo.Cache.Books.{Inv, new_cache-calls-Inv, Offers, candidate-Offers}

abbrev first_key : List (ℕ × ℕ) → Option ℕ
first_key [] = none
first_key ((k, u) ∷ m) = some k

first_key-kept : (k : ℕ) (m : List (ℕ × ℕ)) → first_key m ≡ some k → lookup k m ≢ none
first_key-kept k [] h = absurd (ground arith)
first_key-kept k ((j, u) ∷ m) h = ground (arith, nat_eq.beq_iff j k)

none_kept : (k : ℕ) (m : List (ℕ × ℕ)) → first_key m ≡ none → lookup k m ≡ none
none_kept k [] h = refl
none_kept k ((j, u) ∷ m) h = absurd (ground arith)

abbrev by_age : Policy ℕ ℕ
by_age = record {
  State = List (ℕ × ℕ);
  new = [];
  candidate = first_key;
  update = insert;
  forget = erase;
  kept = lookup;
  kept_new = λ k. refl;
  kept_update = lookup-insert;
  kept_forget = lookup-erase;
  candidate_kept = first_key-kept;
  candidate_none = none_kept;
}

abbrev calls : List (Call by_age 0)
calls =
    update_call 1 (record { size = pos 10; can_evict = false; usage = 5 })
    ∷ update_call 2 (record { size = pos 20; can_evict = true; usage = 6 })
    ∷ remove_call 1
    ∷ []

new_cache-calls-Inv_example : Inv by_age 0 (run by_age 0 calls (new_cache by_age 0))
new_cache-calls-Inv_example = new_cache-calls-Inv by_age 0 calls

candidate-Offers_example :
    Offers by_age 0
      (run by_age 0 calls (new_cache by_age 0))
      (candidate by_age 0 (run by_age 0 calls (new_cache by_age 0)))
candidate-Offers_example =
    candidate-Offers by_age 0 (run by_age 0 calls (new_cache by_age 0))
      (new_cache-calls-Inv by_age 0 calls)
