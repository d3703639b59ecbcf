-- ===== src/ByteRange/RoundTrip.antt =====
-- `BytesRange.String` and `ParseBytesRange`.
use missinggo.Base.{
  ℕ, ◌<◌, ◌≡◌, refl, sym, ◌∙◌, ap, true, false, [], ◌∷◌, ◌++◌, some, arith, Bool-cases, inl, inr,
}
use missinggo.Base.Int.{ℤ, pos, negsuc, beq_ℤ, beq_ℤ_iff}
use missinggo.Base.Decimal.{
  Text, is_digit, all_digits, digits, print_int, parse_int, parse_int-digits,
  digits_before-all_digits,
}
use missinggo.ByteRange.{
  BytesRange, max_int64, bytes_unit, string, span_digits, after, match_range, match_separator,
  find_submatch, parse_last, parse_bytes_range,
}

-- The digits of a number are some byte and more, all digits.
pub printed : (n : ℕ) → (d : ℕ) × (ds : Text) × (digits n ≡ d ∷ ds) × (all_digits (d ∷ ds) ≡ true)
unfolding digits
printed n = digits_before-all_digits n n [] (omega arith) refl

span_digits-all : (ds : Text) → all_digits ds ≡ true → span_digits ds ≡ (ds, [])
unfolding span_digits
span_digits-all [] h = refl
span_digits-all (d ∷ ds) h = ground (arith, span_digits-all ds)

span_digits-++ :
    (ds : Text) (c : ℕ) (cs : Text)
    → all_digits ds ≡ true
    → is_digit c ≡ false
    → span_digits (ds ++ c ∷ cs) ≡ (ds, c ∷ cs)
unfolding span_digits
span_digits-++ [] c cs h k = ground arith
span_digits-++ (d ∷ ds) c cs h k = ground (arith, span_digits-++ ds c cs)

-- A bound of an int64 range that is not negative.
abbrev pub Offset : ℤ → Type 0
Offset (pos n) = n < 9223372036854775808
Offset (negsuc n) = ⊥

print_int-parse : (i : ℤ) → Offset i → parse_int (print_int i) ≡ some i
unfolding print_int
print_int-parse (pos n) h = parse_int-digits n h
print_int-parse (negsuc n) h = elim h [ ]

print_int-digits :
    (i : ℤ)
    → Offset i
    → (d : ℕ) × (ds : Text) × (print_int i ≡ d ∷ ds) × (all_digits (d ∷ ds) ≡ true)
unfolding print_int
print_int-digits (pos n) h = printed n
print_int-digits (negsuc n) h = elim h [ ]

-- What the expression finds in a range that is printed.
find_submatch-printed :
    (d : ℕ) (ds es : Text)
    → all_digits (d ∷ ds) ≡ true
    → all_digits es ≡ true
    → find_submatch (bytes_unit ++ 61 ∷ ((d ∷ ds) ++ 45 ∷ es)) ≡ some (d ∷ ds, es)
unfolding find_submatch after match_separator match_range
find_submatch-printed d ds es h k =
    ground (arith, span_digits-++ (d ∷ ds) 45 es h refl, span_digits-all es k)

parse_found :
    (s ds es : Text) (first last : ℤ)
    → find_submatch s ≡ some (ds, es)
    → parse_int ds ≡ some first
    → parse_last es ≡ some last
    → parse_bytes_range s ≡ some (record { first = first; last = last })
unfolding parse_bytes_range
parse_found s ds es first last h j k = ground (arith, h, j, k)

string-open :
    (r : BytesRange)
    → beq_ℤ r.last max_int64 ≡ true
    → string r ≡ bytes_unit ++ 61 ∷ (print_int r.first ++ 45 ∷ [])
unfolding string
string-open r h = ground (arith, h)

string-closed :
    (r : BytesRange)
    → beq_ℤ r.last max_int64 ≡ false
    → string r ≡ bytes_unit ++ 61 ∷ (print_int r.first ++ 45 ∷ print_int r.last)
unfolding string
string-closed r h = ground (arith, h)

-- `ParseBytesRange` reads back the range that `String` prints, for bounds that are not negative and
-- within int64, and for an open range, whose last byte is the greatest int64.
pub parse_bytes_range-string :
    (r : BytesRange) → Offset r.first → Offset r.last → parse_bytes_range (string r) ≡ some r
unfolding parse_last
parse_bytes_range-string r h k =
    let (d, ds, p, a) = print_int-digits r.first h in
    let (e, es, q, b) = print_int-digits r.last k in
    let first = ap parse_int (sym p) ∙ print_int-parse r.first h in
    let last = ap parse_int (sym q) ∙ print_int-parse r.last k in
    elim (Bool-cases (beq_ℤ r.last max_int64)) [
      | inl t ↦
          let max : max_int64 ≡ r.last = ground (arith, t, beq_ℤ_iff r.last max_int64) in
          ap parse_bytes_range (string-open r t ∙ ap (λ z. bytes_unit ++ 61 ∷ (z ++ 45 ∷ [])) p)
          ∙ parse_found (bytes_unit ++ 61 ∷ ((d ∷ ds) ++ 45 ∷ [])) (d ∷ ds) [] r.first r.last
              (find_submatch-printed d ds [] a refl) first (ap some max)
      | inr t ↦
          ap parse_bytes_range (
            string-closed r t
            ∙ ap (λ z. bytes_unit ++ 61 ∷ (z ++ 45 ∷ print_int r.last)) p
            ∙ ap (λ z. bytes_unit ++ 61 ∷ ((d ∷ ds) ++ 45 ∷ z)) q)
          ∙ parse_found (bytes_unit ++ 61 ∷ ((d ∷ ds) ++ 45 ∷ e ∷ es)) (d ∷ ds) (e ∷ es) r.first
              r.last (find_submatch-printed d ds (e ∷ es) a b) first last
    ]
