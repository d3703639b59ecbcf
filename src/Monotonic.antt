-- ===== src/Monotonic.antt =====
-- monotonic.go: a clock that is corrected when the standard clock goes back.
-- A `Time` is its reading in nanoseconds since the zero `Time`, without a bound; a `Duration` is an
-- int64. The package's variables are the state, and what the standard clock says is an argument. A
-- call is under the mutex.
pub mod Order
mod Tests
use missinggo.Base.{
  ℕ, ◌-◌, ◌%◌, ◌≡◌, Bool, true, false, ◌&&◌, not, List, [], ◌∷◌, if◌then◌else◌, ltb,
}
use missinggo.Base.Int.{ℤ, pos, negsuc, ◌+ℤ◌, ◌-ℤ◌, ltb_ℤ, beq_ℤ}

pub record Clock : Type 0 where
  pub last_std_now : ℤ
  pub skew : ℤ

abbrev pub init : Clock
init = record { last_std_now = pos 0; skew = pos 0 }

-- An int64 keeps the last 64 bits of a sum.
unfoldable pub int64 : ℤ → ℤ
int64 (pos n) =
    let m = n % 18446744073709551616 in
    if ltb m 9223372036854775808 then pos m else negsuc (18446744073709551615 - m)
int64 (negsuc n) =
    let m = n % 18446744073709551616 in
    if ltb m 9223372036854775808 then negsuc m else pos (18446744073709551615 - m)

-- `Time.Sub`, which stops at the ends of int64.
unfoldable pub time_sub : ℤ → ℤ → ℤ
time_sub t u =
    if ltb_ℤ (t -ℤ u) (negsuc 9223372036854775807)
    then negsuc 9223372036854775807
    else if ltb_ℤ (pos 9223372036854775807) (t -ℤ u)
    then pos 9223372036854775807
    else t -ℤ u

-- What is added to the skew: nothing where the last reading is the zero time.
unfoldable pub added_skew : ℤ → ℤ → ℤ
unfolding time_sub
added_skew last std_now =
    if not (beq_ℤ last (pos 0)) && ltb_ℤ std_now last then time_sub last std_now else pos 0

-- `skewedStdNow` and `MonotonicNow`.
unfoldable pub skewed_std_now : ℤ → Clock → ℤ × Clock
unfolding int64 added_skew
skewed_std_now std_now me =
    let skew = int64 (me.skew +ℤ added_skew me.last_std_now std_now) in
    (std_now +ℤ skew, record { last_std_now = std_now; skew = skew })

-- `Sub` and `MonotonicSince`.
unfoldable pub monotonic_sub : ℤ → ℤ → ℤ
unfolding time_sub
monotonic_sub me other = time_sub me other

unfoldable pub monotonic_since : ℤ → ℤ → Clock → ℤ × Clock
unfolding skewed_std_now time_sub
monotonic_since since std_now me =
    let (now, me') = skewed_std_now std_now me in (time_sub now since, me')

-- The times of a series of calls, given what the standard clock says at each.
unfoldable pub times : List ℤ → Clock → List ℤ
unfolding skewed_std_now
times [] me = []
times (t ∷ ts) me = let (now, me') = skewed_std_now t me in now ∷ times ts me'
