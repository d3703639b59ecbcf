-- ===== src/HttpFile/Tests.antt =====
-- A server with four bytes, whose bodies give as much as is wanted.
use missinggo.Base.{
  ℕ, zero, suc, ◌+◌, ◌*◌, ◌/◌, ◌-◌, ◌<◌, ◌≤◌, ◌≡◌, ◌∙◌, ap, refl, false, List, [], ◌∷◌, ◌++◌, none,
  some, if◌then◌else◌, take, drop, arith, take-append-drop, length-take, ltb, inl, inr, List-cases,
}
use missinggo.Base.Int.{pos, negsuc, ◌+ℤ◌}
use missinggo.Base.Decimal.{
  Text, value, value-digits, digits, digits_before, print_int, parse_int, signed, read_digits,
}
use missinggo.Base.Outcome.{done, Returns}
use missinggo.ByteRange.{parse_bytes_content_range}
use missinggo.ByteRange.ContentRange.{content_range}
use missinggo.HttpFile.{
  Http, eof, Response, File, range_from, rdonly, Whence, head_length, get_length, instance_length,
  prepare_reader, open_reader, take_response, take_partial, take_whole,
}
use missinggo.HttpFile.Ops.{got, read, seek, open_file}
use missinggo.HttpFile.Reads
use missinggo.HttpFile.Reads.{Run, Run-Read, Run-seek}
use missinggo.HttpFile.Next.{Outcomes, place, sought}
use missinggo.HttpFile.Serves.{Serves}
use missinggo.HttpFile.Good.{Good}

abbrev content : List ℕ
content = 10 ∷ 11 ∷ 12 ∷ 13 ∷ []

-- The bytes from an offset on.
abbrev partial_of : ℕ → Response (List ℕ)
partial_of o = record {
  status = 206;
  content_range = content_range o 3 4;
  content_length = [];
  body = drop o content;
}

abbrev the_whole : Response (List ℕ)
the_whole = record { status = 200; content_range = []; content_length = digits 4; body = content }

abbrev not_satisfiable : Response (List ℕ)
not_satisfiable = record { status = 416; content_range = []; content_length = []; body = [] }

-- The offset in "bytes=off-". The dash counts as a digit of no value here.
abbrev asked : Text → ℕ
asked range = value 0 (drop 6 range) / 10

value-++ : (n : ℕ) (cs : Text) → value n (cs ++ 45 ∷ []) ≡ value n cs * 10
value-++ n [] = omega arith
value-++ n (c ∷ cs) = value-++ (n * 10 + (c - 48)) cs

asked-range_from : (o : ℕ) → asked (range_from (pos o)) ≡ o
unfolding print_int digits
asked-range_from o =
    let v = value-++ 0 (digits o) ∙ ap (λ n. n * 10) (value-digits o o [] (omega arith)) in
    ap (λ n. n / 10) v ∙ omega arith

abbrev answer : Text → Response (List ℕ)
answer [] = the_whole
answer (c ∷ cs) = let o = asked (c ∷ cs) in if ltb o 4 then partial_of o else not_satisfiable

abbrev server : Http
server = record {
  Server = Unit {0};
  Body = List ℕ;
  send = λ r w. (some (answer r.range), w);
  read = λ n b. ((take n b, elim (drop n b) [ [] ↦ some eof | _ ↦ none ]), drop n b);
}

answer-before : (o : ℕ) → o < 4 → answer (range_from (pos o)) ≡ partial_of o
answer-before o l = ground (arith, asked-range_from o, l)

answer-behind : (o : ℕ) → 4 ≤ o → answer (range_from (pos o)) ≡ not_satisfiable
answer-behind o l = ground (arith, asked-range_from o, l)

drop_all : (n : ℕ) → drop {A = ℕ} n [] ≡ []
drop_all zero = refl
drop_all (suc n) = refl

serves : Serves server [] content
serves = record {
  rest = λ b. b;
  read_rest = λ n b. ground (arith, take-append-drop n b);
  read_fits = λ n b. ground (arith, length-take n b);
  read_some = λ n b p q e. ground (arith, length-take n b);
  read_eof = λ n b e. elim (List-cases (drop n b)) [
    | inl p ↦ p
    | inr (x, xs, p) ↦ absurd (ground (arith, e, p))
  ];
  read_end = λ n b p q e. ground (arith, e, q, drop_all n);
  beyond = λ o w p l. (not_satisfiable, ap some (answer-behind o l), λ e. ground (arith, e));
  heads = λ w. (the_whole, refl, refl, refl);
  partial = λ o w p l. (partial_of o, ap some (answer-before o l), refl, refl, refl);
  whole = λ w. (the_whole, refl, refl, refl, refl);
  small = ground arith;
}

abbrev fresh_file : File server
fresh_file = record {
  off = pos 0;
  r = none;
  r_off = pos 0;
  length = pos 4;
  url = [];
  access = rdonly;
  create = false;
}

abbrev moved : File server
moved = record fresh_file { off = pos 2 }

-- The file after a read of one byte there.
abbrev read_once : File server
read_once = record moved { off = pos 3; r_off = pos 3; r = some (13 ∷ []) }

-- Then it goes two bytes back from the end, and reads the rest.
to_two : place server [] content serves (pos 2) Whence.seek_cur 0 ≡ pos 2
unfolding ◌+ℤ◌
to_two = refl

back_two : place server [] content serves (negsuc 1) Whence.seek_end 3 ≡ pos 2
unfolding ◌+ℤ◌
back_two = refl

back_one : place server [] content serves (negsuc 0) Whence.seek_end 4 ≡ pos 3
unfolding ◌+ℤ◌
back_one = refl

abbrev at_end : File server
at_end = record moved { off = pos 4; r_off = pos 4; r = some [] }

opens : open_file server [] rdonly false tt ≡ done ((none, fresh_file), tt)
unfolding open_file head_length get_length instance_length parse_int signed read_digits digits
    digits_before
opens = refl

seeks : seek server (pos 2) Whence.seek_cur fresh_file tt ≡ done (((none, pos 2), moved), tt)
unfolding seek ◌+ℤ◌
seeks = refl

reads_one : read server 1 moved tt ≡ done ((got (12 ∷ []) none, read_once), tt)
unfolding read prepare_reader open_reader take_response take_partial take_whole
    parse_bytes_content_range print_int digits digits_before ◌+ℤ◌
reads_one = refl

seeks_end :
    seek server (negsuc 1) Whence.seek_end read_once tt
    ≡ done (((none, pos 2), record read_once { off = pos 2 }), tt)
unfolding seek ◌+ℤ◌ head_length get_length instance_length parse_int signed read_digits digits
    digits_before
seeks_end = refl

reads_rest :
    read server 9 (record read_once { off = pos 2 }) tt
    ≡ done ((got (12 ∷ 13 ∷ []) (some eof), at_end), tt)
unfolding read prepare_reader open_reader take_response take_partial take_whole
    parse_bytes_content_range print_int digits digits_before ◌+ℤ◌
reads_rest = refl

abbrev to_end : Run server [] content serves at_end 4
to_end =
    Reads.reads (record read_once { off = pos 2 }) at_end 2 9 (got (12 ∷ 13 ∷ []) (some eof)) tt tt
      (Reads.seeks (negsuc 1) Whence.seek_end read_once (record read_once { off = pos 2 }) 3 2
        (none, pos 2) tt tt
        (Reads.reads moved read_once 2 1 (got (12 ∷ []) none) tt tt
          (Reads.seeks (pos 2) Whence.seek_cur fresh_file moved 0 2 (none, pos 2) tt tt
            (Reads.opens rdonly false tt tt fresh_file refl opens) to_two seeks)
          reads_one)
        back_two seeks_end)
      reads_rest

Run-Read_example : Returns (Outcomes server [] content serves 10 4) (read server 10 at_end tt)
Run-Read_example = Run-Read server [] content serves at_end 4 10 tt to_end

seek_back_one :
    Returns
      (λ x.
        (x.0.0 ≡ sought server [] content serves Whence.seek_end 3)
        × (Good server [] content serves) x.0.1 3)
      (seek server (negsuc 0) Whence.seek_end at_end tt)
seek_back_one =
    Run-seek server [] content serves (negsuc 0) Whence.seek_end at_end 4 3 tt to_end back_one
