-- ===== src/Bitmap/Means.antt =====
-- What every operation of a bitmap does to the set of 32-bit values that it stands for.
use missinggo.Base.{
  ℕ, ◌≤◌, ◌≡◌, refl, Bool, true, false, ◌||◌, ◌&&◌, not, List, [], ◌∷◌, none, some, ◌==◌,
  if◌then◌else◌, arith, Bool-cases, inl, inr,
}
use missinggo.Base.Int.{ℤ, pos, negsuc, ltb_ℤ, ◌≤ℤ◌, beq_ℤ_iff}
use missinggo.Base.Outcome.{Outcome, done, Returns}
use missinggo.Bitmap.{
  Roaring, within, to_uint32, to_uint64, check_int, Bitmap, lazy_rb, add_all, add, add_range,
  remove, union, sub, clear, flip_range, set, remove_range,
}

abbrev pub InInt32 : ℤ → Type 0
InInt32 i = (negsuc 2147483647 ≤ℤ i) × (i ≤ℤ pos 2147483647)

abbrev pub AllInt32 : List ℤ → Type 0
AllInt32 [] = Unit {0}
AllInt32 (i ∷ is) = InInt32 i × AllInt32 is

-- One of the integers is stored as this value.
abbrev pub one_of : List ℤ → ℕ → Bool
one_of [] u = false
one_of (i ∷ is) u = to_uint32 i == u || one_of is u

InInt32-check : (i : ℤ) → InInt32 i → check_int i ≡ true
unfolding check_int
InInt32-check i h = ground arith

-- Ends of a range within the 32-bit values.
abbrev pub Ends : ℤ → ℤ → Type 0
Ends b e = (pos 0 ≤ℤ b) × (b ≤ℤ e) × (e ≤ℤ pos 4294967296)

abbrev pub between : ℤ → ℤ → ℕ → Bool
between b e u = not (ltb_ℤ (pos u) b) && ltb_ℤ (pos u) e

Ends-within : (b e : ℤ) (u : ℕ) → Ends b e → within (to_uint64 b) (to_uint64 e) u ≡ between b e u
unfolding to_uint64
Ends-within (pos b) (pos e) u h = ground arith
Ends-within (negsuc b) (pos e) u h = absurd (ground arith)
Ends-within (pos b) (negsuc e) u h = absurd (ground arith)
Ends-within (negsuc b) (negsuc e) u h = absurd (ground arith)

Ends-end : (b e : ℤ) → Ends b e → to_uint64 e ≤ 4294967296
unfolding to_uint64
Ends-end b (pos e) h = ground arith
Ends-end b (negsuc e) h = absurd (ground arith)

module _ (r : Roaring) where
  -- The values that a bitmap stands for.
  abbrev pub view : Bitmap r → ℕ → Bool
  view me u = r.contains u (lazy_rb r me)

  -- The operations, with an index in 32 bits where one is needed.
  pub data Op : Type 0 where
    adds : List ℤ → Op
    adds_range : ℤ → ℤ → Op
    removes : ℤ → Op
    unions : Bitmap r → Op
    subs : Bitmap r → Op
    clears : Op
    flips_range : ℤ → ℤ → Op
    sets : ℤ → Bool → Op
    removes_range : ℤ → ℤ → Op
    removes_to_end : ℤ → Op

  unfoldable pub step : Op → Bitmap r → Outcome (Bitmap r)
  unfolding add add_range remove union sub clear flip_range set remove_range
  step (adds is) me = add r is me
  step (adds_range b e) me = add_range r b e me
  step (removes i) me = done (remove r i me).1
  step (unions other) me = done (union r other me)
  step (subs other) me = done (sub r other me)
  step clears me = done (clear r me)
  step (flips_range b e) me = flip_range r b e me
  step (sets i value) me = done (set r i value me)
  step (removes_range b e) me = done (remove_range r b e me)
  step (removes_to_end b) me = done (remove_range r b (negsuc 0) me)

  abbrev pub Allowed : Op → Type 0
  Allowed (adds is) = AllInt32 is
  Allowed (adds_range b e) = Ends b e
  Allowed (removes i) = InInt32 i
  Allowed (unions other) = Unit {0}
  Allowed (subs other) = Unit {0}
  Allowed clears = Unit {0}
  Allowed (flips_range b e) = Ends b e
  Allowed (sets i value) = InInt32 i
  Allowed (removes_range b e) = Ends b e
  Allowed (removes_to_end b) = Ends b (pos 4294967296)

  -- The operation on the set of values.
  abbrev pub meant : Op → (ℕ → Bool) → ℕ → Bool
  meant (adds is) s u = one_of is u || s u
  meant (adds_range b e) s u = between b e u || s u
  meant (removes i) s u = not (to_uint32 i == u) && s u
  meant (unions other) s u = s u || view other u
  meant (subs other) s u = s u && not (view other u)
  meant clears s u = false
  meant (flips_range b e) s u = if between b e u then not (s u) else s u
  meant (sets i value) s u = if to_uint32 i == u then value else s u
  meant (removes_range b e) s u = not (between b e u) && s u
  meant (removes_to_end b) s u = not (between b (pos 4294967296) u) && s u

  add_all-Returns :
      (is : List ℤ) (rb : r.Rb)
      → AllInt32 is
      → Returns (λ c. (u : ℕ) → r.contains u c ≡ (one_of is u || r.contains u rb)) (add_all r is rb)
  unfolding add_all
  add_all-Returns [] rb h = (rb, refl, λ u. refl)
  add_all-Returns (i ∷ is) rb h =
      let (c, p, q) = add_all-Returns is (r.add (to_uint32 i) rb) h.1 in
      (
        c,
        ground (arith, InInt32-check i h.0, p),
        λ u. ground (arith, q u, r.contains_add (to_uint32 i) u rb),
      )

  abbrev Meets : Op → Bitmap r → Type 0
  Meets op me = Returns (λ me'. (u : ℕ) → view me' u ≡ meant op (view me) u) (step op me)

  add_range-Meets : (b e : ℤ) (me : Bitmap r) → Ends b e → Meets (adds_range b e) me
  unfolding step add_range
  add_range-Meets b e me h =
      let (c, p, q) =
        r.contains_add_range (to_uint64 b) (to_uint64 e) (lazy_rb r me) (Ends-end b e h) in
      elim (Bool-cases (ltb_ℤ b e)) [
        | inl t ↦ (some c, ground (arith, t, p), λ u. ground (arith, q u, Ends-within b e u h))
        | inr t ↦ (me, ground (arith, t), λ u. ground (arith, t))
      ]

  flip_range-Meets : (b e : ℤ) (me : Bitmap r) → Ends b e → Meets (flips_range b e) me
  unfolding step flip_range
  flip_range-Meets b e me h =
      let (c, p, q) = r.contains_flip (to_uint64 b) (to_uint64 e) (lazy_rb r me) (Ends-end b e h) in
      (some c, ground (arith, p), λ u. ground (arith, q u, Ends-within b e u h))

  remove_range-Meets : (b e : ℤ) (me : Bitmap r) → Ends b e → Meets (removes_range b e) me
  unfolding step remove_range
  remove_range-Meets b e none h = (none, refl, λ u. ground (arith, r.contains_new u))
  remove_range-Meets b e (some rb) h = (
    _,
    refl,
    λ u. ground (
      arith,
      Ends-within b e u h,
      r.contains_remove_range (to_uint64 b) (to_uint64 e) u rb,
      beq_ℤ_iff e (negsuc 0),
    ),
  )

  -- Over roaring bitmaps that do what their documentation says, each operation, with indices and ends
  -- of ranges that 32 bits hold, returns, and does to the set of values that the bitmap stands for what
  -- the operation on sets does: union and difference of sets, half-open ranges, negation within a
  -- range; -1 as the end of `RemoveRange` is the end of all values.
  pub step-Meets :
      (op : Op) (me : Bitmap r)
      → Allowed op
      → Returns (λ me'. (u : ℕ) → view me' u ≡ meant op (view me) u) (step op me)
  unfolding step add remove union sub clear set remove_range
  step-Meets (adds is) me h =
      let (c, p, q) = add_all-Returns is (lazy_rb r me) h in (some c, ground (arith, p), q)
  step-Meets (adds_range b e) me h = add_range-Meets b e me h
  step-Meets (removes i) none h = (none, refl, λ u. ground (arith, r.contains_new u))
  step-Meets (removes i) (some rb) h = (_, refl, λ u. r.contains_remove (to_uint32 i) u rb)
  step-Meets (unions other) me h = (_, refl, λ u. r.contains_or u (lazy_rb r me) (lazy_rb r other))
  step-Meets (subs none) me h = (me, refl, λ u. ground (arith, r.contains_new u))
  step-Meets (subs (some other)) none h = (none, refl, λ u. ground (arith, r.contains_new u))
  step-Meets (subs (some other)) (some rb) h = (_, refl, λ u. r.contains_and_not u rb other)
  step-Meets clears none h = (none, refl, λ u. r.contains_new u)
  step-Meets clears (some rb) h = (_, refl, λ u. r.contains_new u)
  step-Meets (flips_range b e) me h = flip_range-Meets b e me h
  step-Meets (sets i true) me h =
      (_, refl, λ u. ground (arith, r.contains_add (to_uint32 i) u (lazy_rb r me)))
  step-Meets (sets i false) none h = (none, refl, λ u. ground (arith, r.contains_new u))
  step-Meets (sets i false) (some rb) h =
      (_, refl, λ u. ground (arith, r.contains_remove (to_uint32 i) u rb))
  step-Meets (removes_range b e) me h = remove_range-Meets b e me h
  step-Meets (removes_to_end b) none h = (none, refl, λ u. ground (arith, r.contains_new u))
  step-Meets (removes_to_end b) (some rb) h = (
    _,
    refl,
    λ u. ground (
      arith,
      Ends-within b (pos 4294967296) u h,
      r.contains_remove_range (to_uint64 b) 4294967296 u rb,
    ),
  )
