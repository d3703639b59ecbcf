-- ===== src/Section.antt =====
-- section_read_seeker.go, section_writer.go, limitlen.go and `MinInt` of minmax.go: a part of a file.
-- The file below is a parameter. A buffer is known by its length.
pub mod Bounds
mod Tests
use missinggo.Base.{
  ℕ, ◌≡◌, Bool, true, false, not, List, [], ◌∷◌, Option, none, some, if◌then◌else◌, length, take,
}
use missinggo.Base.Int.{ℤ, pos, negsuc, ◌+ℤ◌, ◌-ℤ◌, ltb_ℤ, beq_ℤ, pos_part}
use missinggo.Base.Outcome.{Outcome, done, panics, ◌>>=◌}

pub data SeekFrom : Type 0 where
  start : SeekFrom
  current : SeekFrom
  end : SeekFrom
  other : SeekFrom

-- `io.ReadSeeker`, whose results come with whether there was an error.
pub record ReadSeeker : Type 1 where
  pub State : Type 0
  pub seek : ℤ → SeekFrom → State → (ℤ × Bool) × State
  pub read : ℕ → State → (List ℕ × Bool) × State

-- `MinInt` and `LimitLen`, which slices its buffer.
unfoldable pub min_int : ℤ → List ℤ → ℤ
min_int first [] = first
min_int first (i ∷ rest) = min_int (if ltb_ℤ i first then i else first) rest

unfoldable pub limit_len : ℕ → List ℤ → Outcome ℕ
unfolding min_int
limit_len b max = elim (min_int (pos b) max) [ pos n ↦ done n | negsuc n ↦ panics ]

module _ (base : ReadSeeker) where
  open base use {State}

  pub record SectionReadSeeker : Type 0 where
    pub off : ℤ
    pub size : ℤ

  -- The result of the seek below, from the start of the section.
  abbrev pub relative : ℤ → (ℤ × Bool) × State → (ℤ × Bool) × State
  relative off ((ret, err), b) = ((ret -ℤ off, err), b)

  unfoldable pub seek : ℤ → SeekFrom → SectionReadSeeker → State → (ℤ × Bool) × State
  seek off start me b = relative me.off (base.seek (off +ℤ me.off) start b)
  seek off current me b = relative me.off (base.seek off current b)
  seek off end me b = relative me.off (base.seek (off +ℤ (me.off +ℤ me.size)) start b)
  seek off other me b = ((pos 0, true), b)

  pub data ReadResult : Type 0 where
    failed : ReadResult
    eof : ReadResult
    got : List ℕ → Bool → ReadResult

  -- `Read` and `ReadContext`, over a file that takes no context.
  unfoldable pub read : ℕ → SectionReadSeeker → State → Outcome (ReadResult × State)
  unfolding seek limit_len
  read room me b =
      let ((off, err), b') = seek (pos 0) current me b in
      if err
      then done (failed, b')
      else if not (ltb_ℤ (pos 0) (me.size -ℤ off))
      then done (eof, b')
      else (limit_len room ((me.size -ℤ off) ∷ []) >>= λ n.
          let (r, b'') = base.read n b' in done (got r.0 r.1, b''))

  -- An error of the first seek, or another place than the start, is a panic.
  unfoldable pub new_section_read_seeker : ℤ → ℤ → State → Outcome (SectionReadSeeker × State)
  unfolding seek
  new_section_read_seeker off size b =
      let ret : SectionReadSeeker = record { off = off; size = size } in
      let ((seek_off, err), b') = seek (pos 0) start ret b in
      if err then panics else if not (beq_ℤ seek_off (pos 0)) then panics else done (ret, b')

pub record SectionWriter : Type 0 where
  pub off : ℤ
  pub len : ℤ

-- What `WriteAt` writes below, and where; `none` is the end of the section. A slice of negative
-- length is a panic.
unfoldable pub write_at : List ℕ → ℤ → SectionWriter → Outcome (Option (List ℕ × ℤ))
write_at b off me =
    if not (ltb_ℤ off me.len)
    then done none
    else if not (ltb_ℤ me.len (off +ℤ pos (length b)))
    then done (some (b, me.off +ℤ off))
    else (elim (me.len -ℤ off) [
      | pos n ↦ done (some (take n b, me.off +ℤ off))
      | negsuc n ↦ panics
    ])
