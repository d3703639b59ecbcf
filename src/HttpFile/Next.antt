-- ===== src/HttpFile/Next.antt =====
-- One read and one seek of the file of httpfile/file.go.
use missinggo.Base.{
  ℕ, zero, suc, ◌+◌, ◌<◌, ◌≤◌, ◌≡◌, ◌≢◌, refl, sym, ◌∙◌, ap, List, [], ◌∷◌, ◌++◌, Option, none,
  some, length, drop, length-drop, arith,
}
use missinggo.Base.Int.{ℤ, pos, ◌+ℤ◌}
use missinggo.Base.Decimal.{Text, digits, parse_int, parse_int-digits}
use missinggo.Base.Outcome.{done, Returns}
use missinggo.HttpFile.{
  Http, BodyErr, eof, broken, request, head, Err, unhandled_whence, Whence, seek_set, seek_cur,
  seek_end, unhandled, File, instance_length, get_length, head_length,
}
use missinggo.HttpFile.Ops.{ReadResult, got, refused, read, advanced, seek}
use missinggo.HttpFile.Serves.{Serves}
use missinggo.HttpFile.Good.{Good, ready, refuses, prepare_reader-Prepared}

drop-++ : (o : ℕ) (xs ys zs : List ℕ) → drop o xs ≡ ys ++ zs → drop (o + length ys) xs ≡ zs
drop-++ zero xs [] zs e = e
drop-++ zero [] (y ∷ ys) zs e = absurd (ground (arith, e))
drop-++ zero (x ∷ xs) (y ∷ ys) zs e =
    let i : 0 + suc (length ys) ≡ suc (0 + length ys) = omega arith in
    ap (λ n. drop n (x ∷ xs)) i ∙ drop-++ zero xs ys zs (ground (arith, e))
drop-++ (suc o) [] [] zs e = let i : suc o + 0 ≡ suc o = omega arith in ap (λ n. drop n []) i ∙ e
drop-++ (suc o) [] (y ∷ ys) zs e = absurd (ground (arith, e))
drop-++ (suc o) (x ∷ xs) ys zs e =
    let i : suc o + length ys ≡ suc (o + length ys) = omega arith in
    ap (λ n. drop n (x ∷ xs)) i ∙ drop-++ o xs ys zs e

+ℤ-pos : (a b : ℕ) → pos a +ℤ pos b ≡ pos (a + b)
unfolding ◌+ℤ◌
+ℤ-pos a b = ground arith

drop_past : (o : ℕ) (xs : List ℕ) → length xs ≤ o → drop o xs ≡ []
drop_past zero [] l = refl
drop_past (suc o) [] l = refl
drop_past zero (x ∷ xs) l = absurd (omega (arith, l))
drop_past (suc o) (x ∷ xs) l = drop_past o xs (omega (arith, l))

module _ (h : Http) (url : Text) (content : List ℕ) (s : Serves h url content) where
  -- What a read into a buffer of `room` bytes at an offset leads to.
  pub record Read (room o : ℕ) (bytes : List ℕ) (err : Option BodyErr) (me : File h) : Type 0 where
    pub fits : length bytes ≤ room
    pub some_bytes : 0 < room → o < length content → err ≢ some broken → 0 < length bytes
    pub right : drop o content ≡ bytes ++ drop (o + length bytes) content
    pub eof_at_end : err ≡ some eof → length content ≤ o + length bytes
    pub ends : 0 < room → length content ≤ o → err ≢ none
    pub good : (Good h url content s) me (o + length bytes)

  pub data Outcomes (room o : ℕ) : (ReadResult h × File h) × h.Server → Type 0 where
    gives :
        (bytes : List ℕ) (err : Option BodyErr) (me : File h) (w : h.Server)
        → Read room o bytes err me
        → Outcomes room o ((got bytes err, me), w)
    behind :
        (e : Err) (me : File h) (w : h.Server)
        → length content ≤ o
        → (Good h url content s) me o
        → Outcomes room o ((refused e, me), w)

  given :
      (room o : ℕ) (me : File h) (b : h.Body)
      → s.rest b ≡ drop o content
      → me.off ≡ pos o
      → me.r_off ≡ pos o
      → (Good h url content s) (record me { r = none }) o
      → Read room o (h.read room b).0.0 (h.read room b).0.1 (advanced h (h.read room b) me)
  given room o me b c at reader_at g =
      let y = h.read room b in
      let split : drop o content ≡ y.0.0 ++ s.rest y.1 = sym c ∙ s.read_rest room b in
      let behind = drop-++ o content y.0.0 (s.rest y.1) split in
      let moved = +ℤ-pos o (length y.0.0) in
      record {
        fits = s.read_fits room b;
        some_bytes = λ z l e. s.read_some room b z (ground (arith, c, length-drop o content, l)) e;
        right = split ∙ ap (λ z. y.0.0 ++ z) (sym behind);
        eof_at_end = λ e.
            ground (arith, behind, s.read_eof room b e, length-drop (o + length y.0.0) content);
        ends = λ z l. s.read_end room b z (c ∙ drop_past o content l);
        good = record {
          at = ap (λ z. z +ℤ pos (length y.0.0)) at ∙ moved;
          of_url = g.of_url;
          can_read = g.can_read;
          stream = λ b' e. (
            o + length y.0.0,
            ap (λ z. z +ℤ pos (length y.0.0)) reader_at ∙ moved,
            ap s.rest (ground (arith, e)) ∙ sym behind,
          );
        };
      }

  pub read-Outcomes :
      (room o : ℕ) (me : File h) (w : h.Server)
      → (Good h url content s) me o
      → Returns (Outcomes room o) (read h room me w)
  unfolding read
  read-Outcomes room o me w g =
      let (((x, f), w'), p, v) = (prepare_reader-Prepared h url content s) o me w g in
      elim v [
        | ready a ↦
            let (b, q, c) = a.reader in
            let y = h.read room b in
            (
              ((got y.0.0 y.0.1, advanced h y f), w'),
              ground (arith, p, a.fine, q),
              gives y.0.0 y.0.1 (advanced h y f) w' (
                  given room o f b c a.at a.reader_at (record {
                    at = a.at;
                    of_url = a.of_url;
                    can_read = a.can_read;
                    stream = λ b' e. absurd (ground (arith, e));
                  })),
            )
        | refuses e l q k ↦ (((refused e, f), w'), ground (arith, p, q), behind e f w' l k)
      ]

  -- Where a seek leads to.
  abbrev pub place : ℤ → Whence → ℕ → ℤ
  place offset seek_set o = offset
  place offset seek_cur o = pos o +ℤ offset
  place offset seek_end o = pos (length content) +ℤ offset
  place offset unhandled o = pos o

  -- What it returns.
  abbrev pub sought : Whence → ℕ → Option Err × ℤ
  sought unhandled p = (some unhandled_whence, pos 0)
  sought seek_set p = (none, pos p)
  sought seek_cur p = (none, pos p)
  sought seek_end p = (none, pos p)

  moved-Good :
      (me : File h) (o p : ℕ) (len : ℤ)
      → (Good h url content s) me o
      → (Good h url content s) (record me { off = pos p; length = len }) p
  moved-Good me o p len g = record {
    at = refl;
    of_url = g.of_url;
    can_read = g.can_read;
    stream = g.stream;
  }

  head_length-known :
      (me : File h) (w : h.Server)
      → me.url ≡ url
      → (w' : h.Server) × (head_length h me w
          ≡ done ((none, record me { length = pos (length content) }), w'))
  unfolding head_length get_length instance_length digits
  head_length-known me w u =
      let (r, e, st, cl) = s.heads w in
      let sent = ap (λ z. (h.send (request head z) w).0) u ∙ e in
      let l = ap parse_int cl ∙ parse_int-digits (length content) s.small in
      ((h.send (request head me.url) w).1, ground (arith, sent, st, l))

  pub seek-Good :
      (offset : ℤ) (whence : Whence) (me : File h) (o p : ℕ) (w : h.Server)
      → (Good h url content s) me o
      → place offset whence o ≡ pos p
      → Returns
          (λ x. (x.0.0 ≡ sought whence p) × (Good h url content s) x.0.1 p)
          (seek h offset whence me w)
  unfolding seek
  seek-Good offset seek_set me o p w g e = (
    ((sought seek_set p, record me { off = pos p }), w),
    ground (arith, e),
    (refl, moved-Good me o p me.length g),
  )
  seek-Good offset seek_cur me o p w g e =
      let to : me.off +ℤ offset ≡ pos p = ap (λ z. z +ℤ offset) g.at ∙ e in
      (
        ((sought seek_cur p, record me { off = pos p }), w),
        ground (arith, to),
        (refl, moved-Good me o p me.length g),
      )
  seek-Good offset seek_end me o p w g e =
      let (w', k) = head_length-known me w g.of_url in
      let len = pos (length content) in
      (
        ((sought seek_end p, record me { off = pos p; length = len }), w'),
        ground (arith, k, e),
        (refl, moved-Good me o p len g),
      )
  seek-Good offset unhandled me o p w g e =
      let same : o ≡ p = ground (arith, e) in
      (((sought unhandled p, me), w), refl, (refl, rw (← same) g))
