-- ===== src/ByteRange.antt =====
-- httptoo/bytes_content_range.go: byte ranges of HTTP headers. Text is a list of bytes.
pub mod RoundTrip
pub mod ContentRange
mod Tests
use missinggo.Base.{
  ℕ, ◌≡◌, Bool, true, false, ◌&&◌, ◌||◌, List, [], ◌∷◌, ◌++◌, Option, none, some, ◌==◌, leb,
  if◌then◌else◌,
}
use missinggo.Base.Int.{ℤ, pos, negsuc, beq_ℤ}
use missinggo.Base.Keys.{bytes_eq}
use missinggo.Base.Decimal.{Text, is_digit, print_int, parse_int}
use missinggo.Base.Outcome.{Outcome, done, panics, ◌>>=◌}

pub record BytesContentRange : Type 0 where
  pub first : ℤ
  pub last : ℤ
  pub length : ℤ

pub record BytesRange : Type 0 where
  pub first : ℤ
  pub last : ℤ

abbrev pub max_int64 : ℤ
max_int64 = pos 9223372036854775807

-- "bytes" and "bytes=".
abbrev pub bytes_unit : Text
bytes_unit = 98 ∷ 121 ∷ 116 ∷ 101 ∷ 115 ∷ []

unfoldable pub string : BytesRange → Text
string me =
    if beq_ℤ me.last max_int64
    then bytes_unit ++ 61 ∷ (print_int me.first ++ 45 ∷ [])
    else bytes_unit ++ 61 ∷ (print_int me.first ++ 45 ∷ print_int me.last)

-- The longest prefix of digits, and the rest.
abbrev pub with_digit : ℕ → Text × Text → Text × Text
with_digit c (ds, rest) = (c ∷ ds, rest)

unfoldable pub span_digits : Text → Text × Text
span_digits [] = ([], [])
span_digits (c ∷ cs) = let r = span_digits cs in if is_digit c then with_digit c r else ([], c ∷ cs)

-- The text after a prefix.
unfoldable pub after : Text → Text → Option Text
after [] s = some s
after (p ∷ ps) [] = none
after (p ∷ ps) (c ∷ cs) = if p == c then after ps cs else none

-- The groups of `(\d+)-(\d*)`.
unfoldable pub match_range : Text × Text → Option (Text × Text)
unfolding span_digits
match_range ([], rest) = none
match_range (d ∷ ds, []) = none
match_range (d ∷ ds, c ∷ rest) = if c == 45 then some (d ∷ ds, (span_digits rest).0) else none

-- The groups of `bytes[ =](\d+)-(\d*)` at the start of a text.
unfoldable pub match_separator : Option Text → Option (Text × Text)
unfolding match_range span_digits
match_separator none = none
match_separator (some []) = none
match_separator (some (c ∷ cs)) = if c == 32 || c == 61 then match_range (span_digits cs) else none

-- `FindStringSubmatch`: the first place where the expression matches.
unfoldable pub find_submatch : Text → Option (Text × Text)
unfolding match_separator after
find_submatch [] = none
find_submatch (c ∷ cs) =
    let rest = find_submatch cs in
    elim (match_separator (after bytes_unit (c ∷ cs))) [ none ↦ rest | some r ↦ some r ]

-- `ret.Last`, where the second group may be empty.
unfoldable pub parse_last : Text → Option ℤ
unfolding parse_int
parse_last [] = some max_int64
parse_last (c ∷ cs) = parse_int (c ∷ cs)

-- `none` where `ok` is false.
unfoldable pub parse_bytes_range : Text → Option BytesRange
unfolding find_submatch parse_last parse_int
parse_bytes_range s = elim (find_submatch s) [
  | none ↦ none
  | some (ds, es) ↦ elim (parse_int ds) [
    | none ↦ none
    | some first ↦ elim (parse_last es) [
      | none ↦ none
      | some last ↦ some (record { first = first; last = last })
    ]
  ]
]

-- `strings.TrimSpace`, for ASCII text.
abbrev pub is_space : ℕ → Bool
is_space c = (leb 9 c && leb c 13) || c == 32

unfoldable pub trim_left : Text → Text
trim_left [] = []
trim_left (c ∷ cs) = let rest = trim_left cs in if is_space c then rest else c ∷ cs

-- A byte goes before trimmed text, unless it is a space before nothing.
abbrev pub before_trimmed : ℕ → Text → Text
before_trimmed c [] = if is_space c then [] else c ∷ []
before_trimmed c (d ∷ ds) = c ∷ d ∷ ds

unfoldable pub trim_right : Text → Text
trim_right [] = []
trim_right (c ∷ cs) = before_trimmed c (trim_right cs)

unfoldable pub trim_space : Text → Text
unfolding trim_left trim_right
trim_space s = trim_right (trim_left s)

-- The text before and after the first byte that passes; `none` if there is none.
unfoldable pub cut : (ℕ → Bool) → Text → Option (Text × Text)
cut p [] = none
cut p (c ∷ cs) =
    let rest = cut p cs in
    if p c then some ([], cs) else (elim rest [ none ↦ none | some (a, b) ↦ some (c ∷ a, b) ])

unfoldable pub parse_unit_ranges : Text → Text × Text
unfolding cut trim_space
parse_unit_ranges s = elim (cut (λ c. c == 32 || c == 61) (trim_space s)) [
  | none ↦ ([], [])
  | some r ↦ r
]

-- A number that is not one is a panic.
unfoldable pub must_int : Text → Outcome ℤ
unfolding parse_int
must_int s = elim (parse_int s) [ none ↦ panics | some i ↦ done i ]

-- Without a dash there is no second part to index.
unfoldable pub parse_first_last : Text → Outcome (ℤ × ℤ)
unfolding cut must_int
parse_first_last s = elim (cut (λ c. c == 45) s) [
  | none ↦ panics
  | some (a, b) ↦ must_int a >>= λ first. must_int b >>= λ last. done (first, last)
]

abbrev pub star : Text
star = 42 ∷ []

unfoldable pub parse_content_range : Text → Outcome BytesContentRange
unfolding cut parse_first_last must_int trim_space
parse_content_range s = elim (cut (λ c. c == 47) s) [
  | none ↦ panics
  | some (a, b) ↦
      (if bytes_eq (trim_space a) star
        then done (negsuc 0, negsuc 0)
        else parse_first_last (trim_space a))
      >>= λ fl.
          (if bytes_eq (trim_space b) star then done (negsuc 0) else must_int (trim_space b))
          >>= λ l. done (record { first = fl.0; last = fl.1; length = l })
]

-- `none` where `ok` is false.
unfoldable pub parse_bytes_content_range : Text → Outcome (Option BytesContentRange)
unfolding parse_unit_ranges parse_content_range
parse_bytes_content_range s =
    let (unit, ranges) = parse_unit_ranges s in
    if bytes_eq unit bytes_unit
    then (parse_content_range ranges >>= λ r. done (some r))
    else done none
