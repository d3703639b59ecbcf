-- ===== src/Iter.antt =====
-- iter/func.go, iter/head.go and iter/chain.go: functions that call back with one value after
-- another. A callback changes its caller's variables, the state `S`.
pub mod Walks
mod Tests
use missinggo.Base.{
  ℕ, zero, suc, ◌-◌, ltb, Bool, true, false, not, List, [], ◌∷◌, Option, none, some, if◌then◌else◌,
}
use missinggo.Base.Callbacks.{Callback}

-- `Func`, for any state of its caller.
abbrev pub Func : Type 0 → Type 1
Func A = (S : Type 0) → Callback A S → S → S

module _ {A : Type 0} where
  -- The callback of `All` round another, over its variable `all`.
  abbrev pub at_value : {S : Type 0} → Callback A S → Callback A (S × Bool)
  at_value cb v r = elim r.1 [
    | true ↦ let (s', more) = cb v r.0 in ((s', more), more)
    | false ↦ (r, false)
  ]

  unfoldable pub all : {S : Type 0} → Callback A S → List (Func A) → S → S × Bool
  all cb [] s = (s, true)
  all {S} cb (f ∷ fs) s =
      let (s', more) = f (S × Bool) (at_value cb) (s, true) in
      elim more [ true ↦ all cb fs s' | false ↦ (s', false) ]

  unfoldable pub first : Func A → Option A
  first f = f (Option A) (λ x r. (some x, false)) none

  unfoldable pub chain : List (Func A) → Func A
  chain [] S cb s = s
  chain (f ∷ fs) S cb s =
      let (s', more) = all cb (f ∷ []) s in elim more [ true ↦ chain fs S cb s' | false ↦ s' ]

  -- A use of what `Head` returns: the caller's state and the captured `n` afterwards. A negative
  -- `n` does what zero does.
  unfoldable pub head : {S : Type 0} → ℕ → Func A → Callback A S → S → S × ℕ
  head zero f cb s = (s, zero)
  head {S} (suc n) f cb s =
      f (S × ℕ)
        (λ v r.
          let (s', more) = cb v r.0 in
          elim more [ true ↦ ((s', r.1 - 1), ltb 0 (r.1 - 1)) | false ↦ ((s', r.1 - 1), false) ])
        (s, suc n)
