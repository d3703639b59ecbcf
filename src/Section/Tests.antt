-- ===== src/Section/Tests.antt =====
-- A section of a file of five bytes.
use missinggo.Base.{
  ℕ, zero, suc, ◌+◌, ◌≡◌, ◌∙◌, refl, ap, ◌++◌, false, List, [], ◌∷◌, length, take, drop,
  length-take, arith,
}
use missinggo.Base.Int.{ℤ, pos, ◌+ℤ◌, pos_part}
use missinggo.Base.Outcome.{Returns}
use missinggo.Section.{
  SeekFrom, start, current, end, other, ReadSeeker, SectionReadSeeker, read, SectionWriter,
  write_at,
}
use missinggo.Section.Bounds.{Positioned, Kept, read-Kept, Written, write_at-Written}

abbrev content : List ℕ
content = 5 ∷ 6 ∷ 7 ∷ 8 ∷ 9 ∷ []

-- The place that a seek leads to.
abbrev target : ℤ → SeekFrom → ℕ → ℕ
target off start b = pos_part off
target off current b = pos_part (pos b +ℤ off)
target off end b = pos_part (pos 5 +ℤ off)
target off other b = b

abbrev file : ReadSeeker
file = record {
  State = ℕ;
  seek = λ off whence b. ((pos (target off whence b), false), target off whence b);
  read = λ n b. ((take n (drop b content), false), b + length (take n (drop b content)));
}

drop_empty : (n : ℕ) → drop {A = ℕ} n [] ≡ []
drop_empty zero = refl
drop_empty (suc n) = refl

-- What a read of a list at a place gives, and what stands behind that.
reads_on :
    (xs : List ℕ) (n b : ℕ)
    → drop b xs ≡ take n (drop b xs) ++ drop (b + length (take n (drop b xs))) xs
reads_on xs zero zero = refl
reads_on [] (suc n) zero = refl
reads_on (x ∷ xs) (suc n) zero = ground (arith, reads_on xs n zero)
reads_on [] zero (suc b) = ground (arith, drop_empty (suc b + 0))
reads_on [] (suc n) (suc b) = ground (arith, drop_empty (suc b + 0))
reads_on (x ∷ xs) n (suc b) =
    let got = take n (drop b xs) in
    let i : suc (b + length got) ≡ suc b + length got = omega arith in
    reads_on xs n b ∙ ap (λ j. got ++ drop j (x ∷ xs)) i

file-Positioned : Positioned file
unfolding ◌+ℤ◌
file-Positioned = record {
  position = pos;
  rest = λ b. drop b content;
  tells = λ b. (ground arith, ground arith, ground arith);
  reads =
      λ n b. (ground (arith, length-take n (drop b content)), ground arith, reads_on content n b);
}

abbrev part : SectionReadSeeker file
part = record { off = pos 1; size = pos 3 }

read-Kept_example : Returns (Kept file file-Positioned 10 part 2) (read file 10 part 2)
read-Kept_example = read-Kept file file-Positioned 10 part 2

abbrev written_part : SectionWriter
written_part = record { off = pos 100; len = pos 4 }

second_part : Returns (Written content (pos 2) written_part) (write_at content (pos 2) written_part)
second_part = write_at-Written content (pos 2) written_part
