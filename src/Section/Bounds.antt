-- ===== src/Section/Bounds.antt =====
-- Reads and writes of a section.
use missinggo.Base.{
  ℕ, ◌+◌, ◌≤◌, ◌-◌, ◌⊎◌, ◌≡◌, refl, sym, ◌∙◌, ap, Bool, true, false, List, [], ◌∷◌, ◌++◌, Option,
  none, some, length, take, length-take, arith, Bool-cases, inl, inr,
}
use missinggo.Base.Int.{ℤ, pos, negsuc, ◌+ℤ◌, ◌-ℤ◌, ◌≤ℤ◌, ltb_ℤ, int_laws, pos_part, neg_part}
use missinggo.Base.Outcome.{done, Returns}
use missinggo.Section.{
  current, ReadSeeker, min_int, limit_len, SectionReadSeeker, seek, ReadResult, eof, got, read,
  SectionWriter, write_at,
}

-- A file with a position and the bytes that stand from there on: a seek of no distance tells the
-- position, and a read gives the first of those bytes and moves the file behind them.
pub record Positioned (base : ReadSeeker) : Type 0 where
  pub position : base.State → ℤ
  pub rest : base.State → List ℕ
  pub tells :
      (b : base.State)
      → ((base.seek (pos 0) current b).0 ≡ (position b, false))
        × (position (base.seek (pos 0) current b).1 ≡ position b)
        × (rest (base.seek (pos 0) current b).1 ≡ rest b)
  pub reads :
      (n : ℕ) (b : base.State)
      → (length (base.read n b).0.0 ≤ n)
        × (position (base.read n b).1 ≡ position b +ℤ pos (length (base.read n b).0.0))
        × (rest b ≡ (base.read n b).0.0 ++ rest (base.read n b).1)

limit_len-le :
    (room : ℕ) (left : ℤ)
    → ltb_ℤ (pos 0) left ≡ true
    → (n : ℕ) × (limit_len room (left ∷ []) ≡ done n)
      × (pos n ≤ℤ left)
      × (n ≤ room)
      × ((n ≡ room) ⊎ (pos n ≡ left))
unfolding limit_len min_int
limit_len-le room (pos m) h = elim (Bool-cases (ltb_ℤ (pos m) (pos room))) [
  | inl q ↦ (m, ground (arith, q), omega arith, ground (arith, q), inr refl)
  | inr q ↦ (room, ground (arith, q), ground (arith, q), omega arith, inl refl)
]
limit_len-le room (negsuc m) h = absurd (ground (arith, h))

not_below : (a b : ℤ) → ltb_ℤ a b ≡ false → b ≤ℤ a
not_below a b h = ground (arith, h)

below : (a b : ℤ) → ltb_ℤ a b ≡ true → a ≤ℤ b
below a b h = ground (arith, h)

room : (len off : ℤ) → off ≤ℤ len → (n : ℕ) × (len -ℤ off ≡ pos n)
unfolding ◌-ℤ◌
room len off h = (pos_part len + neg_part off - (neg_part len + pos_part off), ground arith)

-- What was read at a place within a section ends within it.
stays :
    (at off size behind : ℤ) (n l : ℕ)
    → behind ≡ at +ℤ pos l
    → pos n ≤ℤ size -ℤ (at -ℤ off)
    → l ≤ n
    → behind ≤ℤ off +ℤ size
stays at off size behind n l e h k = omega (int_laws, ap pos_part e, ap neg_part e)

past : (at off size : ℤ) → ltb_ℤ (pos 0) (size -ℤ (at -ℤ off)) ≡ false → off +ℤ size ≤ℤ at
past at off size h = let k = not_below (pos 0) (size -ℤ (at -ℤ off)) h in omega int_laws

-- What is left of a section at a place, and its end.
reaches_end : (at off size : ℤ) (n : ℕ) → pos n ≡ size -ℤ (at -ℤ off) → at +ℤ pos n ≡ off +ℤ size
reaches_end at off size n e = omega (int_laws, ap pos_part e, ap neg_part e)

module _ (base : ReadSeeker) (p : Positioned base) where
  -- How a read into a buffer of `room` bytes ends. Before the section's end its result is that of a
  -- read below for `n` bytes, which are as many as there is room for or as are left of the section;
  -- at or after the end nothing was read.
  pub data Kept (room : ℕ) (me : SectionReadSeeker base) (b : base.State)
      : ReadResult base × base.State → Type 0 where
    inside :
        (n : ℕ) (told b' : base.State) (bytes : List ℕ) (err : Bool)
        → told ≡ (base.seek (pos 0) current b).1
        → base.read n told ≡ ((bytes, err), b')
        → n ≤ room
        → p.position b +ℤ pos n ≤ℤ me.off +ℤ me.size
        → ((n ≡ room) ⊎ (p.position b +ℤ pos n ≡ me.off +ℤ me.size))
        → length bytes ≤ n
        → p.rest b ≡ bytes ++ p.rest b'
        → p.position b' ≡ p.position b +ℤ pos (length bytes)
        → p.position b' ≤ℤ me.off +ℤ me.size
        → Kept room me b (got bytes err, b')
    at_end :
        (b' : base.State)
        → b' ≡ (base.seek (pos 0) current b).1
        → p.position b' ≡ p.position b
        → p.rest b' ≡ p.rest b
        → me.off +ℤ me.size ≤ℤ p.position b
        → Kept room me b (eof, b')

  -- Over a file that can tell its position and gives its bytes in order, a read of a section returns:
  -- at the section's end or after it the end of file, having read nothing; before it the bytes and the
  -- error that the file below gives, once it has told its position, for a read of as many bytes as the
  -- buffer has room for or, if that is less, as are left of the section. These bytes are the first of
  -- those that stand at the position, they end within the section, and the file below then stands
  -- behind them.
  pub read-Kept :
      (room : ℕ) (me : SectionReadSeeker base) (b : base.State)
      → Returns (Kept room me b) (read base room me b)
  unfolding read seek limit_len min_int
  read-Kept room me b =
      let (t, u, k) = p.tells b in
      let at = p.position b in
      let left = me.size -ℤ (at -ℤ me.off) in
      let told = (base.seek (pos 0) current b).1 in
      elim (Bool-cases (ltb_ℤ (pos 0) left)) [
        | inl q ↦
            let (n, l, m, fit, all) = limit_len-le room left q in
            let (f, w, c) = p.reads n told in
            let x = base.read n told in
            let moved = w ∙ ap (λ z. z +ℤ pos (length x.0.0)) u in
            let end = me.off +ℤ me.size in
            let full : (n ≡ room) ⊎ (at +ℤ pos n ≡ end) = elim all [
              | inl e ↦ inl e
              | inr e ↦ inr (reaches_end at me.off me.size n e)
            ] in
            (
              (got x.0.0 x.0.1, x.1),
              ground (arith, t, q, l),
              inside n told x.1 x.0.0 x.0.1 refl refl fit
                  (stays at me.off me.size (at +ℤ pos n) n n refl m (omega arith)) full f
                  (sym k ∙ c) moved
                  (stays at me.off me.size (p.position x.1) n (length x.0.0) moved m f),
            )
        | inr q ↦
            ((eof, told), ground (arith, t, q), at_end told refl u k (past at me.off me.size q))
      ]

-- What `WriteAt` does below: nothing at or behind the section's end; else it writes the start of the
-- buffer at the place in the section, within the section, and all of it or up to the section's end.
abbrev pub Written : List ℕ → ℤ → SectionWriter → Option (List ℕ × ℤ) → Type 0
Written b off me none = me.len ≤ℤ off
Written b off me (some (bytes, at)) =
    (at ≡ me.off +ℤ off)
    × (at +ℤ pos (length bytes) ≤ℤ me.off +ℤ me.len)
    × (bytes ≡ take (length bytes) b)
    × ((length bytes ≡ length b) ⊎ (me.len ≤ℤ off +ℤ pos (length bytes)))

take-length : (b : List ℕ) → take (length b) b ≡ b
take-length [] = refl
take-length (x ∷ b) = ap (λ z. x ∷ z) (take-length b)

cut-Written :
    (b : List ℕ) (off : ℤ) (me : SectionWriter) (n : ℕ)
    → me.len -ℤ off ≡ pos n
    → me.len ≤ℤ off +ℤ pos (length b)
    → Written b off me (some (take n b, me.off +ℤ off))
cut-Written b off me n e f =
    let all : length (take n b) ≡ n =
      omega (int_laws, length-take n b, ap pos_part e, ap neg_part e) in
    (
      refl,
      omega (int_laws, all, ap pos_part e, ap neg_part e),
      ap (λ i. take i b) (sym all),
      inr (omega (int_laws, all, ap pos_part e, ap neg_part e)),
    )

-- `WriteAt` of a section returns for every offset: behind the section's end it writes nothing; else it
-- writes the start of the buffer at the place in the section, all of it or up to the section's end, and
-- nothing beyond that end.
pub write_at-Written :
    (b : List ℕ) (off : ℤ) (me : SectionWriter) → Returns (Written b off me) (write_at b off me)
unfolding write_at
write_at-Written b off me = elim (Bool-cases (ltb_ℤ off me.len)) [
  | inr q ↦ (none, ground (arith, q), not_below off me.len q)
  | inl q ↦ elim (Bool-cases (ltb_ℤ me.len (off +ℤ pos (length b)))) [
    | inr r ↦
        let f = not_below me.len (off +ℤ pos (length b)) r in
        (
          some (b, me.off +ℤ off),
          ground (arith, q, r),
          (refl, omega int_laws, sym (take-length b), inl refl),
        )
    | inl r ↦
        let f = below me.len (off +ℤ pos (length b)) r in
        let (n, e) = room me.len off (below off me.len q) in
        (some (take n b, me.off +ℤ off), ground (arith, q, r, e), cut-Written b off me n e f)
  ]
]
