-- ===== src/ByteRange/ContentRange.antt =====
-- `ParseBytesContentRange` and the form of content ranges that servers send.
use missinggo.Base.{
  ℕ, ◌<◌, ◌≡◌, refl, sym, ◌∙◌, ap, subst, Bool, true, false, ◌&&◌, not, [], ◌∷◌, ◌++◌, some, ◌==◌,
  arith,
}
use missinggo.Base.Int.{pos}
use missinggo.Base.Keys.{bytes_eq}
use missinggo.Base.Decimal.{Text, is_digit, all_digits, digits, parse_int-digits}
use missinggo.Base.Outcome.{done}
use missinggo.ByteRange.{
  bytes_unit, trim_left, trim_right, trim_space, cut, parse_unit_ranges, must_int, parse_first_last,
  parse_content_range, parse_bytes_content_range, star, is_space, before_trimmed,
}
use missinggo.ByteRange.RoundTrip.{printed}

-- No byte passes.
abbrev none_pass : (ℕ → Bool) → Text → Bool
none_pass p [] = true
none_pass p (c ∷ cs) = not (p c) && none_pass p cs

cut-none :
    (p : ℕ → Bool) (ds : Text) (c : ℕ) (cs : Text)
    → none_pass p ds ≡ true
    → p c ≡ true
    → cut p (ds ++ c ∷ cs) ≡ some (ds, cs)
unfolding cut
cut-none p [] c cs a t = ground (arith, t)
cut-none p (d ∷ ds) c cs a t = ground (arith, cut-none p ds c cs, t)

digits-none_pass :
    (p : ℕ → Bool) (ds : Text)
    → ((d : ℕ) → is_digit d ≡ true → p d ≡ false)
    → all_digits ds ≡ true
    → none_pass p ds ≡ true
digits-none_pass p [] n a = refl
digits-none_pass p (d ∷ ds) n a = ground (arith, n d, digits-none_pass p ds n)

none_pass-++ :
    (p : ℕ → Bool) (xs ys : Text)
    → none_pass p xs ≡ true
    → none_pass p ys ≡ true
    → none_pass p (xs ++ ys) ≡ true
none_pass-++ p [] ys h k = k
none_pass-++ p (x ∷ xs) ys h k = ground (arith, none_pass-++ p xs ys, k)

-- A text that ends in no space, and is not empty.
abbrev Trimmed : Text → Type 0
Trimmed [] = ⊥
Trimmed (c ∷ cs) = trim_right (c ∷ cs) ≡ c ∷ cs

digits-Trimmed : (d : ℕ) (ds : Text) → all_digits (d ∷ ds) ≡ true → Trimmed (d ∷ ds)
unfolding trim_right
digits-Trimmed d [] a = ground arith
digits-Trimmed d (e ∷ es) a = ground (arith, digits-Trimmed e es)

Trimmed-++ : (xs ys : Text) → Trimmed ys → Trimmed (xs ++ ys)
unfolding trim_right
Trimmed-++ [] ys t = t
Trimmed-++ (x ∷ []) [] t = elim t [ ]
Trimmed-++ (x ∷ []) (y ∷ ys) t = kept x y ys t
  where
    kept : (x y : ℕ) (ys : Text) → Trimmed (y ∷ ys) → Trimmed (x ∷ y ∷ ys)
    kept x y ys t = ap (before_trimmed x) t
Trimmed-++ (x ∷ z ∷ zs) ys t = ap (before_trimmed x) (Trimmed-++ (z ∷ zs) ys t)

trim_space-Trimmed :
    (c : ℕ) (cs : Text) → is_space c ≡ false → Trimmed (c ∷ cs) → trim_space (c ∷ cs) ≡ c ∷ cs
unfolding trim_space trim_left
trim_space-Trimmed c cs h t = ground (arith, h, t)

bytes_eq-star :
    (d : ℕ) (ds : Text) → all_digits (d ∷ ds) ≡ true → (cs : Text) → bytes_eq (d ∷ cs) star ≡ false
bytes_eq-star d ds a cs = ground arith

must_int-digits : (n : ℕ) → n < 9223372036854775808 → must_int (digits n) ≡ done (pos n)
unfolding must_int
must_int-digits n h = ground (arith, parse_int-digits n h)

-- The form "first-last/length".
abbrev pub first_last : ℕ → ℕ → Text
first_last f l = digits f ++ 45 ∷ digits l

parse_first_last-digits :
    (f l : ℕ)
    → f < 9223372036854775808
    → l < 9223372036854775808
    → parse_first_last (first_last f l) ≡ done (pos f, pos l)
unfolding parse_first_last
parse_first_last-digits f l h k =
    let (d, ds, p, a) = printed f in
    ground (
      arith,
      must_int-digits f h,
      must_int-digits l k,
      ap (λ z. cut (λ c. c == 45) (z ++ 45 ∷ digits l)) p,
      cut-none (λ c. c == 45) (d ∷ ds) 45 (digits l)
          (digits-none_pass (λ c. c == 45) (d ∷ ds) (λ c e. ground arith) a) refl,
    )

-- It starts with a digit, has no slash, and no space at its ends.
first_last-form :
    (f l : ℕ)
    → (d : ℕ) × (cs : Text) × (first_last f l ≡ d ∷ cs)
      × (is_digit d ≡ true)
      × (none_pass (λ c. c == 47) (d ∷ cs) ≡ true)
      × (trim_space (d ∷ cs) ≡ d ∷ cs)
first_last-form f l =
    let (d, ds, p, a) = printed f in
    let (e, es, q, b) = printed l in
    let trimmed : Trimmed (d ∷ ds ++ 45 ∷ e ∷ es) =
      Trimmed-++ (d ∷ ds) (45 ∷ e ∷ es) (Trimmed-++ (45 ∷ []) (e ∷ es) (digits-Trimmed e es b)) in
    (
      d,
      ds ++ 45 ∷ e ∷ es,
      ap (λ z. z ++ 45 ∷ digits l) p ∙ ap (λ z. (d ∷ ds) ++ 45 ∷ z) q,
      ground (arith, a),
      none_pass-++ (λ c. c == 47) (d ∷ ds) (45 ∷ e ∷ es)
          (digits-none_pass (λ c. c == 47) (d ∷ ds) (λ c t. ground arith) a)
          (ground (arith, digits-none_pass (λ c. c == 47) (e ∷ es) (λ c t. ground arith) b)),
      trim_space-Trimmed d (ds ++ 45 ∷ e ∷ es) (ground (arith, a)) trimmed,
    )

-- The text of a content range, with the unit before it.
abbrev pub content_range : ℕ → ℕ → ℕ → Text
content_range f l n = bytes_unit ++ 32 ∷ (first_last f l ++ 47 ∷ digits n)

-- Once the parts of a content range are known.
parse_parts :
    (s a b : Text) (f l n : ℕ)
    → cut (λ c. c == 47) s ≡ some (a, b)
    → trim_space a ≡ a
    → trim_space b ≡ b
    → bytes_eq a star ≡ false
    → bytes_eq b star ≡ false
    → parse_first_last a ≡ done (pos f, pos l)
    → must_int b ≡ done (pos n)
    → parse_content_range s ≡ done (record { first = pos f; last = pos l; length = pos n })
unfolding parse_content_range
parse_parts s a b f l n h t u v w x y = ground (arith, h, t, u, v, w, x, y)

-- `ParseBytesContentRange` of "bytes first-last/length", the form that servers send, returns the three
-- numbers, for numbers within int64.
pub parse_bytes_content_range-content_range :
    (f l n : ℕ)
    → f < 9223372036854775808
    → l < 9223372036854775808
    → n < 9223372036854775808
    → parse_bytes_content_range (content_range f l n)
      ≡ done (some (record { first = pos f; last = pos l; length = pos n }))
unfolding parse_bytes_content_range parse_unit_ranges trim_space trim_left cut
parse_bytes_content_range-content_range f l n h k m =
    let (d, cs, p, x, y, z) = first_last-form f l in
    let (e, es, q, b) = printed n in
    let body = first_last f l ++ 47 ∷ digits n in
    let at : cut (λ c. c == 47) body ≡ some (first_last f l, digits n) =
      ap (λ t. cut (λ c. c == 47) (t ++ 47 ∷ digits n)) p
      ∙ cut-none (λ c. c == 47) (d ∷ cs) 47 (digits n) y refl
      ∙ ap (λ t. some (t, digits n)) (sym p) in
    let parts =
      parse_parts body (first_last f l) (digits n) f l n at (ap trim_space p ∙ z ∙ sym p)
        (ap trim_space q
          ∙ trim_space-Trimmed e es (ground (arith, b)) (digits-Trimmed e es b)
          ∙ sym q)
        (ap (λ t. bytes_eq t star) p ∙ ground (arith, x))
        (ap (λ t. bytes_eq t star) q ∙ ground (arith, b)) (parse_first_last-digits f l h k)
        (must_int-digits n m) in
    let trimmed : Trimmed (content_range f l n) = Trimmed-++ (bytes_unit ++ 32 ∷ []) body (
      Trimmed-++ (first_last f l) (47 ∷ digits n)
        (Trimmed-++ (47 ∷ []) (digits n) (subst Trimmed (sym q) (digits-Trimmed e es b)))) in
    ground (arith, parts, trimmed)
