-- ===== src/Iter/Walks.antt =====
-- What the combinators of iter hand over, for functions that hand over the values of a list.
use missinggo.Base.{
  ℕ, zero, suc, ◌-◌, ltb, ◌≡◌, refl, sym, ap, ◌∙◌, Bool, true, false, List, [], ◌∷◌, ◌++◌, Option,
  none, some, arith, take,
}
use missinggo.Base.Callbacks.{
  Callback, each, each_all, and_then, and_then_cong, and_then_done, each_all-++,
}
use missinggo.Iter.{Func, at_value, all, first, chain, head}

-- The function calls back with the values of the list, until it is told to stop.
abbrev pub Walks : {A : Type 0} → Func A → List A → Type 1
Walks {A} f l = (S : Type 0) (cb : Callback A S) (s : S) → f S cb s ≡ each l cb s

-- A function with the values that it calls back with.
pub record Walker (A : Type 0) : Type 1 where
  pub func : Func A
  pub values : List A
  pub walks : Walks func values

module _ {A : Type 0} where
  abbrev pub funcs : List (Walker A) → List (Func A)
  funcs [] = []
  funcs (w ∷ ws) = w.func ∷ funcs ws

  abbrev pub all_values : List (Walker A) → List A
  all_values [] = []
  all_values (w ∷ ws) = w.values ++ all_values ws

  each-at_value :
      {S : Type 0} (l : List A) (cb : Callback A S) (s : S)
      → each l (at_value cb) (s, true) ≡ each_all l cb s
  unfolding each each_all
  each-at_value [] cb s = refl
  each-at_value {S = S} (x ∷ l) cb s = after (each-at_value l cb) (cb x s)
    where
      after :
          ((t : S) → each l (at_value cb) (t, true) ≡ each_all l cb t)
          → (r : S × Bool)
          → (elim r.1 as (λ b. (S × Bool) × Bool) [
            | true ↦ each_all l (at_value cb) r
            | false ↦ (r, false)
          ]).0
            ≡ and_then r (each_all l cb)
      after ih (t, true) = ih t
      after ih (t, false) = refl

  -- `All` over functions that walk lists hands over the values of each list after the other, until
  -- the callback says stop, and returns whether it never did.
  pub all-walks :
      {S : Type 0} (ws : List (Walker A)) (cb : Callback A S) (s : S)
      → all cb (funcs ws) s ≡ each_all (all_values ws) cb s
  unfolding all each_all
  all-walks [] cb s = refl
  all-walks {S = S} (w ∷ ws) cb s =
      ap (λ r. and_then r (all cb (funcs ws)))
        (w.walks (S × Bool) (at_value cb) (s, true) ∙ each-at_value w.values cb s)
      ∙ and_then_cong (each_all w.values cb s) (all cb (funcs ws)) (each_all (all_values ws) cb)
          (all-walks ws cb)
      ∙ sym (each_all-++ w.values (all_values ws) cb s)

  -- `Chain` of functions that walk lists walks the lists one after the other.
  pub chain-Walks : (ws : List (Walker A)) → Walks (chain (funcs ws)) (all_values ws)
  unfolding chain each each_all all
  chain-Walks [] S cb s = refl
  chain-Walks (w ∷ ws) S cb s =
      after w ws cb (chain-Walks ws S cb) (all cb (w.func ∷ []) s)
      ∙ ap (λ r. (and_then r (each_all (all_values ws) cb)).0) (only w cb s)
      ∙ ap (λ r. r.0) (sym (each_all-++ w.values (all_values ws) cb s))
    where
      only :
          {S : Type 0} (w : Walker A) (cb : Callback A S) (s : S)
          → all cb (w.func ∷ []) s ≡ each_all w.values cb s
      only {S = S} w cb s =
          and_then_done _ ∙ w.walks (S × Bool) (at_value cb) (s, true) ∙ each-at_value w.values cb s

      after :
          {S : Type 0} (w : Walker A) (ws : List (Walker A)) (cb : Callback A S)
          → ((t : S) → chain (funcs ws) S cb t ≡ each (all_values ws) cb t)
          → (r : S × Bool)
          → (elim r.1 as (λ b. S) [ true ↦ chain (funcs ws) S cb r.0 | false ↦ r.0 ])
            ≡ (and_then r (each_all (all_values ws) cb)).0
      after w ws cb ih (t, true) = ih t
      after w ws cb ih (t, false) = refl

  -- `First` of a function that walks a list is the list's first value, if it has one.
  pub first-Walks :
      (f : Func A) (l : List A) → Walks f l → first f ≡ (elim l [ [] ↦ none | x ∷ xs ↦ some x ])
  unfolding first each each_all
  first-Walks f [] h = h (Option A) (λ x r. (some x, false)) none
  first-Walks f (x ∷ l) h = h (Option A) (λ x r. (some x, false)) none

  -- The callback of `Head`, with the count that is left.
  abbrev pub counted : {S : Type 0} → Callback A S → Callback A (S × ℕ)
  counted cb v r =
      let (s', more) = cb v r.0 in
      elim more [ true ↦ ((s', r.1 - 1), ltb 0 (r.1 - 1)) | false ↦ ((s', r.1 - 1), false) ]

  each-counted :
      {S : Type 0} (l : List A) (n : ℕ) (cb : Callback A S) (s : S)
      → (each l (counted cb) (s, suc n)).0 ≡ each (take (suc n) l) cb s
  unfolding each each_all
  each-counted [] n cb s = refl
  each-counted {S = S} (x ∷ l) n cb s =
      after (λ m t. each-counted l m cb t) n (cb x s) (suc n - 1) (omega arith)
    where
      after :
          ((m : ℕ) (t : S) → (each l (counted cb) (t, suc m)).0 ≡ each (take (suc m) l) cb t)
          → (n : ℕ) (r : S × Bool) (m : ℕ) → m ≡ n
          → (let q : (S × ℕ) × Bool = elim r.1 as (λ b. (S × ℕ) × Bool) [
            | true ↦ ((r.0, m), ltb 0 m)
            | false ↦ ((r.0, m), false)
          ] in
              (elim q.1 as (λ b. (S × ℕ) × Bool) [
                | true ↦ each_all l (counted cb) q.0
                | false ↦ (q.0, false)
              ]).0.0)
            ≡ (and_then r (each_all (take n l) cb)).0
      after ih zero (t, true) zero e = refl
      after ih zero (t, true) (suc m) e = absurd (omega (arith, e))
      after ih (suc n) (t, true) zero e = absurd (omega (arith, e))
      after ih (suc n) (t, true) (suc m) e =
          let more : ltb 0 (suc m) ≡ true = ground arith in
          rw (more) (ih m t ∙ ap (λ k. each (take k l) cb t) e)
      after ih n (t, false) m e = refl

  -- `Head` of `n` and a function that walks a list hands over the list's first `n` values, the
  -- first time that what it returns is used.
  pub head-Walks :
      {S : Type 0} (n : ℕ) (f : Func A) (l : List A) (cb : Callback A S) (s : S)
      → Walks f l
      → (head n f cb s).0 ≡ each (take n l) cb s
  unfolding head each each_all
  head-Walks zero f l cb s h = refl
  head-Walks {S = S} (suc n) f l cb s h =
      ap (λ r. r.0) (h (S × ℕ) (counted cb) (s, suc n)) ∙ each-counted l n cb s
