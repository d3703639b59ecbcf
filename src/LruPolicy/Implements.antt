-- ===== src/LruPolicy/Implements.antt =====
-- `LruPolicy` as a `Policy`, and through any calls.
use missinggo.Base.{◌≡◌, refl, Bool, List, [], ◌∷◌, Option, none, some, if◌then◌else◌, arith}
use missinggo.Base.Keys.{Eq, StrictOrder, same}
use missinggo.Base.Dict.{lookup, lookup-insert}
use missinggo.Base.Outcome.{Outcome, done, ◌>>=◌, Returns}
use missinggo.Cache.{Policy}
use missinggo.OrderedMap.Interface.{OrderedMap}
use missinggo.LruPolicy.{item_less, LruPolicy, new_lru_policy, candidate, forget, update}
use missinggo.LruPolicy.Agrees.{Offer, candidate-Offer}
use missinggo.LruPolicy.Maps.{Inv, new-Inv, forget-Inv, update-Inv}

pub data Call (K U : Type 0) : Type 0 where
  update_call : K → U → Call K U
  forget_call : K → Call K U

-- The usage of each key that is to be kept after calls, given what was kept before.
abbrev pub kept_after : {K U : Type 0} ⦃e : Eq K⦄ → List (Call K U) → (K → Option U) → K → Option U
kept_after [] f = f
kept_after ⦃e⦄ (update_call k u ∷ cs) f = kept_after cs (λ j. if e.beq k j then some u else f j)
kept_after ⦃e⦄ (forget_call k ∷ cs) f = kept_after cs (λ j. if e.beq k j then none else f j)

kept_after_cong :
    {K U : Type 0} ⦃e : Eq K⦄ (cs : List (Call K U)) (f g : K → Option U)
    → ((j : K) → f j ≡ g j)
    → (j : K) → kept_after cs f j ≡ kept_after cs g j
kept_after_cong [] f g h j = h j
kept_after_cong ⦃e⦄ (update_call k u ∷ cs) f g h j =
    kept_after_cong cs _ _ (λ i. ground (arith, h i)) j
kept_after_cong ⦃e⦄ (forget_call k ∷ cs) f g h j =
    kept_after_cong cs _ _ (λ i. ground (arith, h i)) j

module _ {K U : Type 0} ⦃e : Eq K⦄ (less : K → K → Bool) (usage_less : U → U → Bool)
    (so : StrictOrder less) (total : (a b : K) → same less a b ≡ e.beq a b)
    (uo : StrictOrder usage_less)
    (om : OrderedMap (Unit {0}) (item_less e.beq less usage_less)) where
  abbrev pub Agreeing : Type 0
  Agreeing = (m : LruPolicy less usage_less om) × Inv less usage_less so total uo om m

  none_not_some :
      (m : LruPolicy less usage_less om) (k : K) (o : Option K)
      → candidate less usage_less om m ≡ some k
      → Offer less usage_less so total uo om m.keys (candidate less usage_less om m)
      → lookup k m.keys ≡ none
      → ⊥
  none_not_some m k o h = rw h (λ l a. ground (arith, l.1, a))

  kept_none :
      (m : LruPolicy less usage_less om) (k : K)
      → candidate less usage_less om m ≡ none
      → Offer less usage_less so total uo om m.keys (candidate less usage_less om m)
      → lookup k m.keys ≡ none
  kept_none m k h = rw h (λ l. l k)

  -- `LruPolicy` implements `Policy`, by its own operations.
  pub lru_policy : Policy K U
  unfolding update new_lru_policy
  lru_policy = record {
    State = Agreeing;
    new = (new_lru_policy less usage_less om, new-Inv less usage_less so total uo om);
    candidate = λ s. candidate less usage_less om s.0;
    update = λ k u s.
        (update less usage_less om k u s.0, update-Inv less usage_less so total uo om k u s.0 s.1);
    forget = λ k s. let r = forget-Inv less usage_less so total uo om k s.0 s.1 in (r.0, r.2.0);
    kept = λ k s. lookup k s.0.keys;
    kept_new = λ k. refl;
    kept_update = λ k j u s. lookup-insert k j u s.0.keys;
    kept_forget = λ k j s. (forget-Inv less usage_less so total uo om k s.0 s.1).2.1 j;
    candidate_kept = λ k s h.
        none_not_some s.0 k none h (candidate-Offer less usage_less so total uo om s.0 s.1);
    candidate_none =
        λ k s h. kept_none s.0 k h (candidate-Offer less usage_less so total uo om s.0 s.1);
  }

  unfoldable pub call :
      Call K U → LruPolicy less usage_less om → Outcome (LruPolicy less usage_less om)
  call (update_call k u) m = done (update less usage_less om k u m)
  call (forget_call k) m = forget less usage_less om k m

  unfoldable pub run :
      List (Call K U) → LruPolicy less usage_less om → Outcome (LruPolicy less usage_less om)
  run [] m = done m
  run (c ∷ cs) m = call c m >>= run cs

  abbrev pub After : List (Call K U) → (K → Option U) → LruPolicy less usage_less om → Type 0
  After cs f m =
      ((j : K) → lookup j m.keys ≡ kept_after cs f j)
      × Offer less usage_less so total uo om m.keys (candidate less usage_less om m)

  keys_after :
      (k : K) (u : U) (f : K → Option U) (m : LruPolicy less usage_less om)
      → ((j : K) → lookup j m.keys ≡ f j)
      → (j : K)
      → lookup j (update less usage_less om k u m).keys ≡ (if e.beq k j then some u else f j)
  unfolding update
  keys_after k u f m h j = ground (arith, lookup-insert k j u m.keys, h j)

  run_from :
      (cs : List (Call K U)) (f : K → Option U) (m : LruPolicy less usage_less om)
      → Inv less usage_less so total uo om m
      → ((j : K) → lookup j m.keys ≡ f j)
      → Returns (After cs f) (run cs m)
  unfolding run call
  run_from [] f m v h = (m, refl, (h, candidate-Offer less usage_less so total uo om m v))
  run_from (update_call k u ∷ cs) f m v h =
      run_from cs _ (update less usage_less om k u m)
        (update-Inv less usage_less so total uo om k u m v) (keys_after k u f m h)
  run_from (forget_call k ∷ cs) f m v h =
      let (n, p, (w, q)) = forget-Inv less usage_less so total uo om k m v in
      rw p (run_from cs _ n w (λ j. ground (arith, q j, h j)))

  -- After any calls of `Update` and `Forget` from the empty policy, none of which panics: the policy
  -- keeps the keys that were updated and not forgotten since, each at its last usage, and `Candidate`
  -- offers one of them that comes first by usage and, among equal usages, by key, or nothing if there
  -- is none. The orders of the keys and of the usages are strict orders, that of the keys a total one.
  pub run-After :
      (cs : List (Call K U))
      → Returns (After cs (λ k. none)) (run cs (new_lru_policy less usage_less om))
  unfolding new_lru_policy
  run-After cs = run_from cs (λ k. none) _ (new-Inv less usage_less so total uo om) (λ j. refl)
