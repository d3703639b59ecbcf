-- ===== src/HttpFile/Good.antt =====
-- The file of httpfile/file.go with its reader, and how a read gets one.
use missinggo.Base.{
  ℕ, zero, suc, ◌-◌, ◌<◌, ◌≤◌, ◌≡◌, ◌≢◌, refl, ◌∙◌, ap, Bool, true, false, List, [], Option, none,
  some, length, drop, arith, inl, inr, Option-cases, Bool-cases, ltb, ◌==◌,
}
use missinggo.Base.Int.{pos, beq_ℤ, beq_ℤ_iff}
use missinggo.Base.Decimal.{Text, digits, read_digits, value-digits, digits_before-all_digits}
use missinggo.Base.Outcome.{done, Returns}
use missinggo.ByteRange.{parse_bytes_content_range}
use missinggo.ByteRange.ContentRange.{content_range, parse_bytes_content_range-content_range}
use missinggo.HttpFile.Serves.{Serves}
use missinggo.HttpFile.{
  Http, Response, request, get, Err, bad_response, not_found, bad_status, range_from, Access,
  rdonly, wronly, rdwr, File, get_request, opened, take_partial, take_whole, take_response,
  open_reader, prepare_reader, to_int64, parse_uint,
}

abbrev pub readable : Access → Bool
readable wronly = false
readable rdonly = true
readable rdwr = true

parse_uint-digits : (n : ℕ) → n < 9223372036854775808 → parse_uint (digits n) ≡ some n
unfolding parse_uint read_digits digits
parse_uint-digits n h =
    let (d, ds, e, a) = digits_before-all_digits n n [] (omega arith) refl in
    ground (arith, e, a, value-digits n n [] (omega arith), h)

module _ (h : Http) (url : Text) (content : List ℕ) (s : Serves h url content) where
  -- The file stands at an offset, and its reader, if it has one, where the file takes it to be.
  pub record Good (me : File h) (o : ℕ) : Type 0 where
    pub at : me.off ≡ pos o
    pub of_url : me.url ≡ url
    pub can_read : readable me.access ≡ true
    pub stream :
        (b : h.Body) → me.r ≡ some b → (p : ℕ) × (me.r_off ≡ pos p) × (s.rest b ≡ drop p content)

  -- A reader at the offset of the file.
  pub record Ready (o : ℕ) (x : (Option Err × File h) × h.Server) : Type 0 where
    pub fine : x.0.0 ≡ none
    pub reader : (b : h.Body) × (x.0.1.r ≡ some b) × (s.rest b ≡ drop o content)
    pub at : x.0.1.off ≡ pos o
    pub reader_at : x.0.1.r_off ≡ pos o
    pub of_url : x.0.1.url ≡ url
    pub can_read : readable x.0.1.access ≡ true

  take_partial-Ready :
      (o : ℕ) (me : File h) (w : h.Server) (r : Response h.Body)
      → o < length content
      → me.off ≡ pos o
      → me.url ≡ url
      → readable me.access ≡ true
      → r.status ≡ 206
      → r.content_range ≡ content_range o (length content - 1) (length content)
      → s.rest r.body ≡ drop o content
      → Returns (λ t. Ready o (t, w)) (take_response h r me)
  unfolding take_response take_partial
  take_partial-Ready o me w r l at u c st cr b =
      let p =
        parse_bytes_content_range-content_range o (length content - 1) (length content)
          (omega (arith, s.small)) (omega (arith, s.small)) s.small in
      (
        (none, opened h r.body (pos (length content)) me),
        ground (arith, st, cr, p, at, ap parse_bytes_content_range cr, beq_ℤ_iff (pos o) me.off),
        record {
          fine = refl;
          reader = (r.body, refl, b);
          at = at;
          reader_at = at;
          of_url = u;
          can_read = c;
        },
      )

  take_whole-Ready :
      (me : File h) (w : h.Server) (r : Response h.Body)
      → me.off ≡ pos 0
      → me.url ≡ url
      → readable me.access ≡ true
      → r.status ≡ 200
      → r.content_length ≡ digits (length content)
      → s.rest r.body ≡ content
      → Returns (λ t. Ready 0 (t, w)) (take_response h r me)
  unfolding take_response take_whole to_int64 digits
  take_whole-Ready me w r at u c st cl b =
      let (d, ds, e, a) =
        digits_before-all_digits (length content) (length content) [] (omega arith) refl in
      let p = parse_uint-digits (length content) s.small in
      (
        (none, opened h r.body (pos (length content)) me),
        ground (arith, st, cl, e, ap parse_uint e, p, at, s.small, beq_ℤ_iff (pos 0) me.off),
        record {
          fine = refl;
          reader = (r.body, refl, b);
          at = at;
          reader_at = at;
          of_url = u;
          can_read = c;
        },
      )

  -- Another answer than partial content to a request for a part is refused.
  take_response_refused :
      (o : ℕ) (me : File h) (r : Response h.Body)
      → me.off ≡ pos (suc o)
      → r.status ≢ 206
      → (e : Err) × (take_response h r me ≡ done (some e, me))
  unfolding take_response take_whole
  take_response_refused o me r at n = elim (Bool-cases (r.status == 200)) [
    | inl p ↦ (bad_response, ground (arith, at, n, p))
    | inr p ↦ elim (Bool-cases (r.status == 404)) [
      | inl q ↦ (not_found, ground (arith, n, p, q))
      | inr q ↦ (bad_status r.status, ground (arith, n, p, q))
    ]
  ]

  -- There is a reader at the offset; or the offset is not before the end, and there is none.
  pub data Prepared (o : ℕ) (x : (Option Err × File h) × h.Server) : Type 0 where
    ready : Ready o x → Prepared o x
    refuses : (e : Err) → length content ≤ o → x.0.0 ≡ some e → Good x.0.1 o → Prepared o x

  -- A new request is made for the bytes from the offset on.
  open_reader-Prepared :
      (o : ℕ) (me : File h) (w : h.Server)
      → me.off ≡ pos o
      → me.url ≡ url
      → readable me.access ≡ true
      → me.r ≡ none
      → Returns (Prepared o) (open_reader h me w)
  unfolding open_reader
  open_reader-Prepared zero me w at u c n =
      let (r, e, st, cl, b) = s.whole w in
      let q : get_request h me ≡ request get url = ground (arith, at, u) in
      let sent = ap (λ z. (h.send z w).0) q ∙ e in
      let (t, p, v) = take_whole-Ready me (h.send (get_request h me) w).1 r at u c st cl b in
      ((t, (h.send (get_request h me) w).1), ground (arith, c, sent, p), ready v)
  open_reader-Prepared (suc o) me w at u c n =
      let q : get_request h me ≡ record (request get url) { range = range_from (pos (suc o)) } =
        ground (arith, at, u) in
      let w' = (h.send (get_request h me) w).1 in
      elim (Bool-cases (ltb (suc o) (length content))) [
        | inl l ↦
            let before : suc o < length content = ground (arith, l) in
            let (r, e, st, cr, b) = s.partial (suc o) w (omega arith) before in
            let sent = ap (λ z. (h.send z w).0) q ∙ e in
            let (t, p, v) = take_partial-Ready (suc o) me w' r before at u c st cr b in
            ((t, w'), ground (arith, c, sent, p), ready v)
        | inr l ↦
            let behind : length content ≤ suc o = ground (arith, l) in
            let (r, e, st) = s.beyond (suc o) w (omega arith) behind in
            let sent = ap (λ z. (h.send z w).0) q ∙ e in
            let (err, p) = take_response_refused o me r at st in
            (
              ((some err, me), w'),
              ground (arith, c, sent, p),
              refuses err behind refl (record {
                at = at;
                of_url = u;
                can_read = c;
                stream = λ b m. absurd (ground (arith, n, m));
              }),
            )
      ]

  pub prepare_reader-Prepared :
      (o : ℕ) (me : File h) (w : h.Server)
      → Good me o
      → Returns (Prepared o) (prepare_reader h me w)
  unfolding prepare_reader
  prepare_reader-Prepared o me w g = elim (Bool-cases (beq_ℤ me.off me.r_off)) [
    | inl q ↦ elim (Option-cases me.r) [
      | inl n ↦
          let (t, p, v) = open_reader-Prepared o me w g.at g.of_url g.can_read n in
          (t, ground (arith, q, n, p), v)
      | inr (b, n) ↦
          let (ro, z, c) = g.stream b n in
          let same : ro ≡ o = ground (arith, q, z, g.at, beq_ℤ_iff me.off me.r_off) in
          (
            ((none, me), w),
            ground (arith, q, n),
            ready (record {
              fine = refl;
              reader = (b, n, c ∙ ap (λ i. drop i content) same);
              at = g.at;
              reader_at = z ∙ ap pos same;
              of_url = g.of_url;
              can_read = g.can_read;
            }),
          )
    ]
    | inr q ↦
        let (t, p, v) =
          open_reader-Prepared o (record me { r = none }) w g.at g.of_url g.can_read refl in
        (t, ground (arith, q, p), v)
  ]
