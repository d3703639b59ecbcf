-- ===== src/Base/Outcome.antt =====
-- How a Go call ends: with a result, in a panic, or (in a model with fuel) not yet.
use mathlib.Core.Bool.{Bool, true, false}
use mathlib.Core.Path.{◌≡◌, refl, sym, subst}

pub data Outcome {ℓ} (A : Type ℓ) : Type ℓ where
  done : A → Outcome A
  panics : Outcome A
  out_of_fuel : Outcome A

infixl 5 ◌>>=◌
abbrev pub ◌>>=◌ {ℓ κ} : {A : Type ℓ} {B : Type κ} → Outcome A → (A → Outcome B) → Outcome B
done a >>= f = f a
panics >>= f = panics
out_of_fuel >>= f = out_of_fuel

-- What holds of the result, if there is one.
abbrev pub Ensures {ℓ κ} : {A : Type ℓ} → (A → Type κ) → Outcome A → Type κ
Ensures P (done a) = P a
Ensures P panics = Unit
Ensures P out_of_fuel = Unit

-- There is a result, and it has the property.
abbrev pub Returns {ℓ κ} : {A : Type ℓ} → (A → Type κ) → Outcome A → Type (ℓ ⊔ κ)
Returns {A = A} P m = (a : A) × (m ≡ done a) × P a

pub Ensures-bind {ℓ κ μ ν} :
    {A : Type ℓ} {B : Type κ} (P : A → Type μ) (Q : B → Type ν) (m : Outcome A) (f : A → Outcome B)
    → Ensures P m
    → ((a : A) → P a → Ensures Q (f a))
    → Ensures Q (m >>= f)
Ensures-bind P Q (done a) f h k = k a h
Ensures-bind P Q panics f h k = tt
Ensures-bind P Q out_of_fuel f h k = tt

pub Ensures-mono {ℓ κ μ} :
    {A : Type ℓ} (P : A → Type κ) (Q : A → Type μ) (m : Outcome A)
    → Ensures P m
    → ((a : A) → P a → Q a)
    → Ensures Q m
Ensures-mono P Q (done a) h f = f a h
Ensures-mono P Q panics h f = tt
Ensures-mono P Q out_of_fuel h f = tt

pub Ensures-trivial {ℓ} : {A : Type ℓ} (m : Outcome A) → Ensures (λ a. Unit {0}) m
Ensures-trivial (done a) = tt
Ensures-trivial panics = tt
Ensures-trivial out_of_fuel = tt

pub Ensures_done {ℓ κ} :
    {A : Type ℓ} (P : A → Type κ) (m : Outcome A) {a : A} → Ensures P m → m ≡ done a → P a
Ensures_done P m h e = subst (Ensures P) e h

pub Returns_done {ℓ κ} :
    {A : Type ℓ} (P : A → Type κ) (m : Outcome A) {a : A} → Returns P m → m ≡ done a → P a
Returns_done P m (b, e, h) k = Ensures_done P m (subst (Ensures P) (sym e) h) k

abbrev pub is_done {ℓ} : {A : Type ℓ} → Outcome A → Bool
is_done (done a) = true
is_done panics = false
is_done out_of_fuel = false

pub done_of-is_done {ℓ} : {A : Type ℓ} (m : Outcome A) → is_done m ≡ true → (a : A) × (m ≡ done a)
done_of-is_done (done a) h = (a, refl)
done_of-is_done panics h = cc
done_of-is_done out_of_fuel h = cc
