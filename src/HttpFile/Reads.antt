-- ===== src/HttpFile/Reads.antt =====
-- The file of httpfile/file.go through opening, seeks and reads.
use missinggo.Base.{
  ℕ, ◌+◌, ◌≡◌, refl, subst, Bool, true, false, List, Option, none, length, arith, inl, inr,
  Bool-cases,
}
use missinggo.Base.Int.{ℤ, pos, negsuc, beq_ℤ}
use missinggo.Base.Decimal.{Text}
use missinggo.Base.Outcome.{Outcome, done, panics, out_of_fuel, ◌>>=◌, Returns, Returns_done}
use missinggo.HttpFile.{
  Http, Err, Access, File, Whence, Length, known, failed, learned, get_length, head_length,
}
use missinggo.HttpFile.Ops.{ReadResult, got, refused, read, seek, open_file}
use missinggo.HttpFile.Serves.{Serves}
use missinggo.HttpFile.Good.{readable, Good}
use missinggo.HttpFile.Next.{Outcomes, gives, behind, read-Outcomes, place, sought, seek-Good}

module _ (h : Http) (url : Text) (content : List ℕ) (s : Serves h url content) where
  -- Where a file stands after a read.
  abbrev pub after : ℕ → ReadResult h → ℕ
  after o (got bytes err) = o + length bytes
  after o (refused e) = o

  -- A file that was opened, and then moved and read from in any way, to places that are not before the
  -- start; and where it stands.
  pub data Run : File h → ℕ → Type 0 where
    opens :
        (access : Access) (create : Bool) (w w' : h.Server) (me : File h)
        → readable access ≡ true
        → open_file h url access create w ≡ done ((none, me), w')
        → Run me 0
    seeks :
        (offset : ℤ) (whence : Whence) (me me' : File h) (o p : ℕ) (x : Option Err × ℤ)
        (w w' : h.Server)
        → Run me o
        → place h url content s offset whence o ≡ pos p
        → seek h offset whence me w ≡ done ((x, me'), w')
        → Run me' p
    reads :
        (me me' : File h) (o room : ℕ) (x : ReadResult h) (w w' : h.Server)
        → Run me o
        → read h room me w ≡ done ((x, me'), w')
        → Run me' (after o x)

  learned-Good :
      (l : Length h) (me me' : File h) (o : ℕ)
      → (Good h url content s) me o
      → learned h l me ≡ (none, me')
      → (Good h url content s) me' o
  learned-Good (known n) me me' o g e = elim (Bool-cases (beq_ℤ n (negsuc 0))) [
    | inl q ↦
        let same : me ≡ me' = ground (arith, e, q) in subst (λ z. (Good h url content s) z o) same g
    | inr q ↦
        let same : record me { length = n } ≡ me' = ground (arith, e, q) in
        subst (λ z. (Good h url content s) z o) same
          (record { at = g.at; of_url = g.of_url; can_read = g.can_read; stream = g.stream })
  ]
  learned-Good (failed e') me me' o g e = absurd (ground (arith, e))

  length-Good :
      (m : Outcome (Length h × h.Server)) (f me : File h) (w' : h.Server)
      → (Good h url content s) f 0
      → ◌>>=◌ {B = (Option Err × File h) × h.Server} m (λ l. done (learned h l.0 f, l.1))
        ≡ done ((none, me), w')
      → (Good h url content s) me 0
  length-Good (done (l, v)) f me w' g e = learned-Good l f me 0 g (ground (arith, e))
  length-Good panics f me w' g e = absurd (ground (arith, e))
  length-Good out_of_fuel f me w' g e = absurd (ground (arith, e))

  abbrev new_file : Access → Bool → File h
  new_file access create = record {
    off = pos 0;
    r = none;
    r_off = pos 0;
    length = negsuc 0;
    url = url;
    access = access;
    create = create;
  }

  new_file-Good :
      (access : Access) (create : Bool)
      → readable access ≡ true
      → (Good h url content s) (new_file access create) 0
  new_file-Good access create c = record {
    at = refl;
    of_url = refl;
    can_read = c;
    stream = λ b e. absurd (ground (arith, e));
  }

  open-Good :
      (access : Access) (create : Bool) (w w' : h.Server) (me : File h)
      → readable access ≡ true
      → open_file h url access create w ≡ done ((none, me), w')
      → (Good h url content s) me 0
  unfolding open_file head_length
  open-Good access true w w' me c e =
      let same : new_file access true ≡ me = ground (arith, e) in
      subst (λ z. (Good h url content s) z 0) same (new_file-Good access true c)
  open-Good access false w w' me c e =
      length-Good (get_length h url w) (new_file access false) me w' (new_file-Good access false c)
        e

  after-Good :
      (room o : ℕ) (x : (ReadResult h × File h) × h.Server)
      → Outcomes h url content s room o x
      → (Good h url content s) x.0.1 (after o x.0.0)
  after-Good room o x (gives bytes err me w r) = r.good
  after-Good room o x (behind e me w l g) = g

  Run-Good : (me : File h) (o : ℕ) → Run me o → (Good h url content s) me o
  Run-Good me o (opens access create w w' me' c e) = open-Good access create w w' me c e
  Run-Good me o (seeks offset whence f f' q p x w w' r at e) =
      (Returns_done
        (λ y. (y.0.0 ≡ sought h url content s whence p) × (Good h url content s) y.0.1 p)
        (seek h offset whence f w)
        ((seek-Good h url content s) offset whence f q p w (Run-Good f q r) at) e).1
  Run-Good me o (reads f f' q room x w w' r e) =
      after-Good room q ((x, me), w')
        (Returns_done (Outcomes h url content s room q) (read h room f w)
          ((read-Outcomes h url content s) room q f w (Run-Good f q r)) e)

  -- Over a server that has bytes at the file's URL, tells their number and serves ranges of them, and
  -- however the file, opened for reading, was moved (from the start, from where it stood or from the
  -- end) and read from before, to whatever place not before the start: a read returns. Before the end
  -- of the bytes it gives the first of those that stand there, as many as the buffer has room for at
  -- most, at least one if it has room for one and the body does not break, and moves the file behind
  -- them. It gives `io.EOF` only if none is left behind them. At the end or behind it, it gives no
  -- bytes and, if the buffer has room, an error of the body, or it is refused and the file stays.
  pub Run-Read :
      (me : File h) (o room : ℕ) (w : h.Server)
      → Run me o
      → Returns (Outcomes h url content s room o) (read h room me w)
  Run-Read me o room w r = (read-Outcomes h url content s) room o me w (Run-Good me o r)

  -- After any such run a seek to a place that is not before the start returns that place.
  pub Run-seek :
      (offset : ℤ) (whence : Whence) (me : File h) (o p : ℕ) (w : h.Server)
      → Run me o
      → place h url content s offset whence o ≡ pos p
      → Returns
          (λ x. (x.0.0 ≡ sought h url content s whence p) × (Good h url content s) x.0.1 p)
          (seek h offset whence me w)
  Run-seek offset whence me o p w r e =
      (seek-Good h url content s) offset whence me o p w (Run-Good me o r) e
