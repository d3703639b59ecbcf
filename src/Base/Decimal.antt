-- ===== src/Base/Decimal.antt =====
-- Go's decimal numbers in text, a list of bytes: what `%d` prints and `strconv.ParseInt` reads.
use Prim.Native.Nat.{ℕ, zero, suc, ◌+◌, ◌-◌, ◌*◌, ◌/◌, ◌%◌, ◌<◌, ◌≤◌}
use mathlib.Core.Bool.{Bool, true, false, ◌&&◌}
use mathlib.Core.List.{List, [], ◌∷◌}
use mathlib.Core.Option.{Option, none, some}
use mathlib.Core.Path.{◌≡◌, refl, ap, ◌∙◌}
use mathlib.Core.Logic.{inl, inr}
use native.Mathlib.Omega.{arith}
use missinggo.Base.Tests.{ltb, leb, ◌==◌, if◌then◌else◌, Bool-cases}
use missinggo.Base.Int.{ℤ, pos, negsuc}

abbrev pub Text : Type 0
Text = List ℕ

abbrev pub is_digit : ℕ → Bool
is_digit c = leb 48 c && leb c 57

abbrev pub all_digits : Text → Bool
all_digits [] = true
all_digits (c ∷ cs) = is_digit c && all_digits cs

-- The number that digits stand for, after those that stand for `n`.
abbrev pub value : ℕ → Text → ℕ
value n [] = n
value n (c ∷ cs) = value (n * 10 + (c - 48)) cs

-- The digits of a number before a text, with as much fuel as the number.
unfoldable pub digits_before : ℕ → ℕ → Text → Text
digits_before zero n cs = (48 + n) ∷ cs
digits_before (suc f) n cs = elim (ltb n 10) [
  | true ↦ (48 + n) ∷ cs
  | false ↦ digits_before f (n / 10) ((48 + n % 10) ∷ cs)
]

unfoldable pub digits : ℕ → Text
unfolding digits_before
digits n = digits_before n n []

unfoldable pub print_int : ℤ → Text
unfolding digits
print_int (pos n) = digits n
print_int (negsuc n) = 45 ∷ digits (suc n)

unfoldable pub read_digits : Text → Option ℕ
read_digits [] = none
read_digits (c ∷ cs) = if all_digits (c ∷ cs) then some (value 0 (c ∷ cs)) else none

-- In the range of int64.
unfoldable pub signed : Bool → Option ℕ → Option ℤ
signed minus none = none
signed true (some zero) = some (pos 0)
signed true (some (suc n)) = if ltb n 9223372036854775808 then some (negsuc n) else none
signed false (some n) = if ltb n 9223372036854775808 then some (pos n) else none

-- `strconv.ParseInt(s, 10, 64)`; `none` for an error.
unfoldable pub parse_int : Text → Option ℤ
unfolding signed read_digits
parse_int [] = none
parse_int (c ∷ cs) =
    if c == 45
    then signed true (read_digits cs)
    else if c == 43
    then signed false (read_digits cs)
    else signed false (read_digits (c ∷ cs))

more :
    (f n : ℕ) (cs : Text)
    → ltb n 10 ≡ false
    → digits_before (suc f) n cs ≡ digits_before f (n / 10) ((48 + n % 10) ∷ cs)
unfolding digits_before
more f n cs p = ground (arith, p)

pub value-digits : (f n : ℕ) (cs : Text) → n ≤ f → value 0 (digits_before f n cs) ≡ value n cs
unfolding digits_before
value-digits zero n cs h = ground arith
value-digits (suc f) n cs h = elim (Bool-cases (ltb n 10)) [
  | inl p ↦ ground (arith, p, ap (λ m. value m cs))
  | inr p ↦
      let smaller : n / 10 ≤ f = ground (arith, p) in
      let back : n / 10 * 10 + (48 + n % 10 - 48) ≡ n = omega arith in
      ap (value 0) (more f n cs p)
      ∙ (value-digits f (n / 10) ((48 + n % 10) ∷ cs) smaller ∙ ap (λ m. value m cs) back)
]

-- All are digits, and there is one.
pub digits_before-all_digits :
    (f n : ℕ) (cs : Text)
    → n ≤ f
    → all_digits cs ≡ true
    → (d : ℕ) × (ds : Text) × (digits_before f n cs ≡ d ∷ ds) × (all_digits (d ∷ ds) ≡ true)
unfolding digits_before
digits_before-all_digits zero n cs h k = (48 + n, cs, refl, ground (arith, k))
digits_before-all_digits (suc f) n cs h k = elim (Bool-cases (ltb n 10)) [
  | inl p ↦ (48 + n, cs, ground (arith, p), ground (arith, p, k))
  | inr p ↦
      let smaller : n / 10 ≤ f = ground (arith, p) in
      let (d, ds, e, a) =
        digits_before-all_digits f (n / 10) ((48 + n % 10) ∷ cs) smaller (ground (arith, k)) in
      (d, ds, more f n cs p ∙ e, a)
]

-- What `%d` prints of a number, `ParseInt` reads back.
pub parse_int-digits : (n : ℕ) → n < 9223372036854775808 → parse_int (digits n) ≡ some (pos n)
unfolding parse_int read_digits signed digits
parse_int-digits n h =
    let (d, ds, e, a) = digits_before-all_digits n n [] (omega arith) refl in
    let v = value-digits n n [] (omega arith) in ground (arith, e, a, v, h)
