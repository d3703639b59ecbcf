-- ===== src/Rle/Expand.antt =====
-- What the runs of the encoder stand for.
use missinggo.Base.{
  ℕ, zero, suc, ◌+◌, ◌<◌, ◌==◌, ◌≡◌, refl, sym, ap, ◌∙◌, true, false, List, [], ◌∷◌, ◌++◌,
  if◌then◌else◌, arith, inl, inr, Bool-cases, replicate,
}
use missinggo.Base.Keys.{Eq}
use missinggo.Rle.{word, RunLengthEncoder, append, flush, append_all, new_encoder}

module _ {E : Type 0} ⦃e : Eq E⦄ where
  abbrev pub expand : List (E × ℕ) → List E
  expand [] = []
  expand ((x, n) ∷ xs) = replicate n x ++ expand xs

  abbrev pub total : List (E × ℕ) → ℕ
  total [] = 0
  total ((x, n) ∷ xs) = n + total xs

  -- No run is empty.
  abbrev pub NoneEmpty : List (E × ℕ) → Type 0
  NoneEmpty [] = Unit {0}
  NoneEmpty ((x, n) ∷ xs) = (0 < n) × NoneEmpty xs

  append_assoc : (a b c : List E) → (a ++ b) ++ c ≡ a ++ (b ++ c)
  append_assoc [] b c = refl
  append_assoc (x ∷ a) b c = ground (arith, append_assoc a b c)

  replicate-+ : (m n : ℕ) (x : E) → replicate (m + n) x ≡ replicate m x ++ replicate n x
  replicate-+ zero n x = ap (λ k. replicate k x) (omega arith)
  replicate-+ (suc m) n x =
      let sum : suc m + n ≡ suc (m + n) = omega arith in
      ap (λ k. replicate k x) sum ∙ ap (λ l. x ∷ l) (replicate-+ m n x)

  append_same :
      (x : E) (n : ℕ) (me : RunLengthEncoder E)
      → e.beq x me.element ≡ true
      → me.count + n < word
      → append x n me ≡ (record { element = me.element; count = me.count + n }, [])
  unfolding append
  append_same x n me q h = ground (arith, q)

  append_other :
      (x : E) (n : ℕ) (me : RunLengthEncoder E)
      → e.beq x me.element ≡ false
      → append x n me ≡ (
        record { element = x; count = n },
        if me.count == 0 then [] else (me.element, me.count) ∷ [],
      )
  unfolding append
  append_other x n me q = ground (arith, q)

  -- What is emitted from a state on stands for the run that is open and what is appended.
  abbrev Stands : List (E × ℕ) → RunLengthEncoder E → List (E × ℕ) → Type 0
  Stands runs me xs = (expand runs ≡ replicate me.count me.element ++ expand xs) × NoneEmpty runs

  same_run :
      (xs runs : List (E × ℕ)) (x : E) (n : ℕ) (me : RunLengthEncoder E)
      → e.beq x me.element ≡ true
      → Stands runs (record { element = me.element; count = me.count + n }) xs
      → Stands runs me ((x, n) ∷ xs)
  same_run xs runs x n me q (a, b) =
      let same : x ≡ me.element = (e.beq_iff x me.element).0 q in
      (
        a
            ∙ ap (λ l. l ++ expand xs) (replicate-+ me.count n me.element)
            ∙ append_assoc (replicate me.count me.element) (replicate n me.element) (expand xs)
            ∙ ap (λ y. replicate me.count me.element ++ (replicate n y ++ expand xs)) (sym same),
        b,
      )

  other_run :
      (xs runs : List (E × ℕ)) (x : E) (n : ℕ) (me : RunLengthEncoder E)
      → Stands runs (record { element = x; count = n }) xs
      → Stands
          ((if me.count == 0 then [] else (me.element, me.count) ∷ []) ++ runs)
          me
          ((x, n) ∷ xs)
  other_run xs runs x n me (a, b) = elim (Bool-cases (me.count == 0)) [
    | inl z ↦
        let empty : 0 ≡ me.count = ground (arith, z) in
        rw (z) (a ∙ ap (λ k. replicate k me.element ++ (replicate n x ++ expand xs)) empty, b)
    | inr z ↦ rw (z) (ap (λ l. replicate me.count me.element ++ l) a, (ground (arith, z), b))
  ]

  append_all_nothing : (me : RunLengthEncoder E) → (me.count == 0) ≡ true → append_all [] me ≡ []
  unfolding append_all flush
  append_all_nothing me z = ground (arith, z)

  append_all_rest :
      (me : RunLengthEncoder E)
      → (me.count == 0) ≡ false
      → append_all [] me ≡ (me.element, me.count) ∷ []
  unfolding append_all flush
  append_all_rest me z = ground (arith, z)

  expand_all :
      (xs : List (E × ℕ)) (me : RunLengthEncoder E)
      → me.count + total xs < word
      → Stands (append_all xs me) me xs
  unfolding append_all flush
  expand_all [] me h = elim (Bool-cases (me.count == 0)) [
    | inl z ↦
        let empty : 0 ≡ me.count = ground (arith, z) in
        rw (append_all_nothing me z) (ap (λ k. replicate k me.element ++ []) empty, tt)
    | inr z ↦ rw (append_all_rest me z) (refl, (ground (arith, z), tt))
  ]
  expand_all ((x, n) ∷ xs) me h = elim (Bool-cases (e.beq x me.element)) [
    | inl q ↦ rw (append_same x n me q (omega arith)) (
        same_run xs _ x n me q
          (expand_all xs (record { element = me.element; count = me.count + n }) (omega arith)))
    | inr q ↦
        rw (append_other x n me q)
          (other_run xs _ x n me (expand_all xs (record { element = x; count = n }) (omega arith)))
  ]

  -- If the counts of the input sum to less than 2^64, the runs that the encoder emits, up to the
  -- flush, expand to the same sequence as the input, and none of them is empty.
  pub append_all-expand :
      (nil : E) (xs : List (E × ℕ))
      → total xs < word
      → (expand (append_all xs (new_encoder nil)) ≡ expand xs)
        × NoneEmpty (append_all xs (new_encoder nil))
  unfolding new_encoder
  append_all-expand nil xs h = expand_all xs (record { element = nil; count = 0 }) (omega arith)
