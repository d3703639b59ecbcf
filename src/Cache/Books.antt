-- ===== src/Cache/Books.antt =====
-- The books of cache/cache.go through any calls.
use missinggo.Base.{
  ◌≡◌, refl, sym, ◌∙◌, true, List, [], ◌∷◌, Option, none, some, if◌then◌else◌, arith, inl, inr,
  Bool-cases, Option-cases,
}
use missinggo.Base.Int.{ℤ, pos, ◌+ℤ◌, ◌-ℤ◌, int_laws}
use missinggo.Base.Keys.{Eq}
use missinggo.Base.Dict.{
  lookup, insert, erase, Distinct, lookup-insert, lookup-erase, insert-Distinct, erase-Distinct,
  erase_absent,
}
use missinggo.Cache.{
  Policy, ItemMeta, or_zero, Cache, new_cache, remove, update, forget_all, clear, candidate, Call,
  remove_call, update_call, clear_call, step, run,
}

module _ {K U : Type 0} ⦃e : Eq K⦄ (p : Policy K U) (nil : U) where
  abbrev pub total : List (K × ItemMeta U) → ℤ
  total [] = pos 0
  total ((k, i) ∷ m) = i.size +ℤ total m

  total-insert :
      (k : K) (i : ItemMeta U) (m : List (K × ItemMeta U))
      → total (insert k i m) ≡ total m -ℤ (or_zero p nil (lookup k m)).size +ℤ i.size
  total-insert k i [] = omega int_laws
  total-insert k i ((j, w) ∷ m) = elim (Bool-cases (e.beq j k)) [
    | inl q ↦ rw q (omega int_laws)
    | inr q ↦ rw (q, total-insert k i m) (omega int_laws)
  ]

  total-erase :
      (k : K) (m : List (K × ItemMeta U))
      → Distinct m
      → total (erase k m) ≡ total m -ℤ (or_zero p nil (lookup k m)).size
  total-erase k [] d = omega int_laws
  total-erase k ((j, w) ∷ m) d = elim (Bool-cases (e.beq j k)) [
    | inl q ↦
        let gone : lookup k m ≡ none = ground (arith, e.beq_iff j k, d.0) in
        rw (q, erase_absent k m gone) (omega int_laws)
    | inr q ↦ rw (q, total-erase k m d.1) (omega int_laws)
  ]

  -- The policy's part of an item: its usage if it may be evicted.
  abbrev pub evictable : Option (ItemMeta U) → Option U
  evictable none = none
  evictable (some i) = if i.can_evict then some i.usage else none

  pub record Inv (me : Cache p nil) : Type 0 where
    pub filled : me.filled ≡ total me.items
    pub distinct : Distinct me.items
    pub agree : (k : K) → p.kept k me.policy ≡ evictable (lookup k me.items)

  new_cache-Inv : Inv (new_cache p nil)
  unfolding new_cache
  new_cache-Inv = record { filled = refl; distinct = tt; agree = λ k. p.kept_new k }

  remove-Inv : (me : Cache p nil) (k : K) → Inv me → Inv (remove p nil k me)
  unfolding remove
  remove-Inv me k v = record {
    filled = rw (v.filled, total-erase k me.items v.distinct) refl;
    distinct = erase-Distinct k me.items v.distinct;
    agree = λ j. ground (arith, v.agree j, lookup-erase k j me.items, p.kept_forget k j me.policy);
  }

  update-Inv : (me : Cache p nil) (k : K) (i : ItemMeta U) → Inv me → Inv (update p nil k i me)
  unfolding update
  update-Inv me k i v = record {
    filled = rw (v.filled, total-insert k i me.items) refl;
    distinct = insert-Distinct k i me.items v.distinct;
    agree = λ j. ground (
      arith,
      v.agree j,
      lookup-insert k j i me.items,
      p.kept_forget k j me.policy,
      p.kept_update k j i.usage me.policy,
      e.beq_iff k j,
    );
  }

  -- A key that the policy keeps after the loop of `Clear` is no item's.
  kept-forget_all :
      (k : K) (m : List (K × ItemMeta U)) (s : p.State)
      → (lookup k m ≡ none → p.kept k s ≡ none)
      → p.kept k (forget_all p nil m s) ≡ none
  unfolding forget_all
  kept-forget_all k [] s h = h refl
  kept-forget_all k ((j, i) ∷ m) s h =
      kept-forget_all k m (p.forget j s) (λ q. ground (arith, p.kept_forget j k s, h, q))

  clear-Inv : (me : Cache p nil) → Inv me → Inv (clear p nil me)
  unfolding clear
  clear-Inv me v = record {
    filled = refl;
    distinct = tt;
    agree = λ k. kept-forget_all k me.items me.policy (λ q. ground (arith, v.agree k, q));
  }

  step-Inv : (c : Call p nil) (me : Cache p nil) → Inv me → Inv (step p nil c me)
  unfolding step
  step-Inv (remove_call k) me v = remove-Inv me k v
  step-Inv (update_call k i) me v = update-Inv me k i v
  step-Inv clear_call me v = clear-Inv me v

  run-Inv_from : (cs : List (Call p nil)) (me : Cache p nil) → Inv me → Inv (run p nil cs me)
  unfolding run
  run-Inv_from [] me v = v
  run-Inv_from (c ∷ cs) me v = run-Inv_from cs (step p nil c me) (step-Inv c me v)

  -- After any calls on a new cache the fill level is the total of the items' sizes, no key has two
  -- items, and the policy keeps exactly the items that may be evicted, each with its usage.
  pub new_cache-calls-Inv : (cs : List (Call p nil)) → Inv (run p nil cs (new_cache p nil))
  new_cache-calls-Inv cs = run-Inv_from cs (new_cache p nil) new_cache-Inv

  -- What `Candidate` may answer.
  abbrev pub Offers : Cache p nil → Option (K × ItemMeta U) → Type 0
  Offers me none = (k : K) → evictable (lookup k me.items) ≡ none
  Offers me (some (k, i)) = (lookup k me.items ≡ some i) × (i.can_evict ≡ true)

  -- On right books `Candidate` offers an item that is there and may be evicted, if there is one.
  pub candidate-Offers : (me : Cache p nil) → Inv me → Offers me (candidate p nil me)
  unfolding candidate
  candidate-Offers me v = elim (Option-cases (p.candidate me.policy)) [
    | inl q ↦ rw (q, candidate) (λ k. sym (v.agree k) ∙ p.candidate_none k me.policy q)
    | inr (k, q) ↦ elim (Option-cases (lookup k me.items)) [
      | inl r ↦ absurd (ground (arith, v.agree k, p.candidate_kept k me.policy q, r))
      | inr (i, r) ↦
          rw (q, r, candidate) (refl, ground (arith, v.agree k, p.candidate_kept k me.policy q, r))
    ]
  ]
