-- ===== src/Monotonic/Order.antt =====
-- The times of a series of calls.
use missinggo.Base.{ℕ, ◌+◌, ◌≤◌, ◌≡◌, sym, ◌∙◌, ap, subst, List, [], ◌∷◌, arith}
use missinggo.Base.Int.{ℤ, pos, negsuc, ◌+ℤ◌, ◌-ℤ◌, ◌≤ℤ◌, int_laws, pos_part}
use missinggo.Monotonic.{init, int64, time_sub, added_skew, skewed_std_now, times}

-- Each time is at least the one before.
abbrev pub Ascending : ℤ → List ℤ → Type 0
Ascending t [] = Unit {0}
Ascending t (u ∷ us) = (t ≤ℤ u) × Ascending u us

-- None is before the zero time.
abbrev pub FromZero : List ℤ → Type 0
FromZero [] = Unit {0}
FromZero (t ∷ ts) = (pos 0 ≤ℤ t) × FromZero ts

-- By how much the readings go back, in all.
abbrev pub set_back : ℤ → List ℤ → ℕ
set_back last [] = 0
set_back last (t ∷ ts) = pos_part (last -ℤ t) + set_back t ts

abbrev pub max_duration : ℕ
max_duration = 9223372036854775807

added_skew-back :
    (last std : ℤ)
    → pos 0 ≤ℤ last
    → pos 0 ≤ℤ std
    → pos_part (last -ℤ std) ≤ max_duration
    → added_skew last std ≡ pos (pos_part (last -ℤ std))
unfolding added_skew time_sub ◌-ℤ◌
added_skew-back (pos a) (pos b) p q h = ground (arith, h)
added_skew-back (pos a) (negsuc b) p q h = absurd (omega (arith, q))
added_skew-back (negsuc a) b p q h = absurd (omega (arith, p))

skewed :
    (last std : ℤ) (k : ℕ)
    → pos 0 ≤ℤ last
    → pos 0 ≤ℤ std
    → k + pos_part (last -ℤ std) ≤ max_duration
    → int64 (pos k +ℤ added_skew last std) ≡ pos (k + pos_part (last -ℤ std))
unfolding int64 ◌+ℤ◌
skewed last std k p q h =
    let e = added_skew-back last std p q (omega (arith, h)) in
    ap (λ z. int64 (pos k +ℤ z)) e ∙ ground (arith, h)

-- The skew makes up for a standard clock that goes back.
step_up : (last std : ℤ) (k : ℕ) → last +ℤ pos k ≤ℤ std +ℤ pos (k + pos_part (last -ℤ std))
step_up last std k = omega int_laws

times_from :
    (ts : List ℤ) (last : ℤ) (k : ℕ)
    → pos 0 ≤ℤ last
    → FromZero ts
    → k + set_back last ts ≤ max_duration
    → Ascending (last +ℤ pos k) (times ts (record { last_std_now = last; skew = pos k }))
unfolding times skewed_std_now
times_from [] last k z zs h = tt
times_from (t ∷ ts) last k z zs h =
    let j = k + pos_part (last -ℤ t) in
    let e = skewed last t k z zs.0 (omega (arith, h)) in
    subst
      (λ s.
        (last +ℤ pos k ≤ℤ t +ℤ s)
        × Ascending (t +ℤ s) (times ts (record { last_std_now = t; skew = s })))
      (sym e) (step_up last t k, times_from ts t j zs.0 zs.1 (omega (arith, h)))

-- The first reading adds nothing.
first_skew : (std : ℤ) → int64 (pos 0 +ℤ added_skew (pos 0) std) ≡ pos 0
unfolding int64 added_skew ◌+ℤ◌
first_skew std = ground arith

-- If the standard clock never says a time before the zero `Time`, and the times that it is set back by
-- come to no more than the longest `Duration` (about 292 years) in all, then from the first call on the
-- times that the calls return do not go down.
pub times-Ascending :
    (std : ℤ) (ts : List ℤ)
    → FromZero (std ∷ ts)
    → set_back std ts ≤ max_duration
    → Ascending (skewed_std_now std init).0 (times ts (skewed_std_now std init).1)
unfolding skewed_std_now
times-Ascending std ts z h =
    let e : int64 (pos 0 +ℤ added_skew (pos 0) std) ≡ pos 0 = first_skew std in
    subst (λ s. Ascending (std +ℤ s) (times ts (record { last_std_now = std; skew = s }))) (sym e)
      (times_from ts std 0 z.0 z.1 (omega (arith, h)))
