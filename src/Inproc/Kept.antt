-- ===== src/Inproc/Kept.antt =====
-- Each step of a caller or a timer on packet connections.
use missinggo.Base.{
  ℕ, suc, ◌≡◌, ◌≢◌, refl, sym, ap, subst, false, List, [], ◌∷◌, ◌++◌, none, some, ◌==◌, put, take,
  arith, inl, inr, List-cases, Bool-cases, Option-cases,
}
use missinggo.Base.Int.{ℤ, pos, beq_ℤ, int_eq, beq_ℤ_iff}
use missinggo.Base.Dict.{lookup, insert, lookup-insert, lookup-erase}
use missinggo.Inproc.{
  Addr, Packet, new_packet_conn, PacketConn, World, init, AddrText, resolve_inproc_addr, listen_at,
  close, write_to, enqueue, read_from, got,
}
use missinggo.Inproc.Steps.{Reading, Log, reaches, log_write, log_read, Delivered, Inv, new_log}

carried_over :
    {rs rs' : List Reading} {ws ws' xs xs' : List Packet}
    → rs ≡ rs'
    → ws ≡ ws'
    → xs ≡ xs'
    → Delivered rs ws xs
    → Delivered rs' ws' xs'
carried_over {rs} {rs'} {ws} {ws'} {xs} {xs'} p q r d =
    subst (λ z. Delivered z ws' xs') p
      (subst (λ z. Delivered rs z xs') q (subst (λ z. Delivered rs ws z) r d))

-- A packet that is sent waits behind the others.
Delivered-write :
    (rs : List Reading) (ws xs : List Packet) (x : Packet)
    → Delivered rs ws xs
    → Delivered rs (ws ++ x ∷ []) (xs ++ x ∷ [])
Delivered-write [] ws xs x d = ap (λ z. z ++ x ∷ []) d
Delivered-write (r ∷ rs) ws [] x d = elim d [ ]
Delivered-write (r ∷ rs) ws (y ∷ ys) x d = (d.0, d.1, Delivered-write rs ws ys x d.2)

-- The packet that waits first is the one whose start is returned.
Delivered-read :
    (rs : List Reading) (ws xs : List Packet) (x : Packet) (r : Reading)
    → r.bytes ≡ take r.room x.bytes
    → r.addr ≡ x.addr
    → Delivered rs (x ∷ ws) xs
    → Delivered (rs ++ r ∷ []) ws xs
Delivered-read [] ws xs x r p q d = subst (λ z. Delivered (r ∷ []) ws z) (sym d) (p, q, refl)
Delivered-read (r' ∷ rs) ws [] x r p q d = elim d [ ]
Delivered-read (r' ∷ rs) ws (y ∷ ys) x r p q d = (d.0, d.1, Delivered-read rs ws ys x r p q d.2)

pub init-Inv : Inv init new_log
unfolding init
init-Inv = record {
  registered = λ a c h. absurd (ground arith);
  open_at = λ c me h. absurd (ground arith);
  queued = λ c me h. absurd (ground arith);
  absent = λ c h. refl;
  unlogged = λ c h. (refl, refl);
}

pub resolve-Inv :
    (w : World) (log : Log) (a : AddrText) → Inv w log → Inv (resolve_inproc_addr a w).1 log
unfolding resolve_inproc_addr
resolve-Inv w log AddrText.empty v = record {
  registered = v.registered;
  open_at = v.open_at;
  queued = v.queued;
  absent = v.absent;
  unlogged = v.unlogged;
}
resolve-Inv w log AddrText.malformed v = v
resolve-Inv w log (AddrText.port p) v = elim (Bool-cases (beq_ℤ p (pos 0))) [
  | inl q ↦
      rw (q, resolve_inproc_addr)
        (record {
          registered = v.registered;
          open_at = v.open_at;
          queued = v.queued;
          absent = v.absent;
          unlogged = v.unlogged;
        })
  | inr q ↦ rw (q, resolve_inproc_addr) v
]

-- A connection that changed, and is where it was.
pub put-Inv :
    (w : World) (log log' : Log) (c : ℕ) (me me' : PacketConn)
    → Inv w log
    → w.store c ≡ some me
    → me'.closed ≡ me.closed
    → me'.addr ≡ me.addr
    → ((d : ℕ) → c ≢ d → (log'.sent d ≡ log.sent d) × (log'.read d ≡ log.read d))
    → Delivered (log'.read c) me'.reads (log'.sent c)
    → Inv (record w { store = put c (some me') w.store }) log'
put-Inv w log log' c me me' v h k a same q = record {
  registered = λ b d r. elim (Bool-cases (c == d)) [
    | inl e ↦ (
      me',
      ground (arith, e),
      ground (arith, v.registered b d r, e, h, k),
      ground (arith, v.registered b d r, e, h, a),
    )
    | inr e ↦ let (m, s, o, t) = v.registered b d r in (m, ground (arith, s, e), o, t)
  ];
  open_at = λ d m r o.
      ground (arith, v.open_at d m, v.open_at c me, r, o, h, k, a, ap (λ z. lookup z w.conns) a);
  queued = λ d m r. elim (Bool-cases (c == d)) [
    | inl e ↦
        let at : c ≡ d = ground (arith, e) in
        carried_over (ap log'.read at) (ground (arith, r, e)) (ap log'.sent at) q
    | inr e ↦
        let (s, t) = same d (ground (arith, e)) in
        carried_over (sym t) refl (sym s) (v.queued d m (ground (arith, r, e)))
  ];
  absent = λ d l. ground (arith, v.absent d, v.absent c, l, h);
  unlogged = λ d r. ground (arith, v.unlogged d, same d, r);
}

unfoldable pub listened : Addr → World → World
listened a w = record w {
  conns = insert a w.fresh w.conns;
  store = put w.fresh (some (new_packet_conn a)) w.store;
  fresh = suc w.fresh;
}

listened-Inv :
    (w : World) (log : Log) (a : Addr)
    → Inv w log
    → lookup a w.conns ≡ none
    → Inv (listened a w) log
unfolding listened
listened-Inv w log a v n = record {
  registered = λ b d r. elim (Bool-cases (beq_ℤ a b)) [
    | inl e ↦ (
      new_packet_conn a,
      ground (arith, e, lookup-insert a b w.fresh w.conns, r),
      refl,
      ground (arith, e, beq_ℤ_iff a b),
    )
    | inr e ↦
        let (m, s, o, t) =
          v.registered b d (ground (arith, e, lookup-insert a b w.fresh w.conns, r)) in
        (m, ground (arith, s, v.absent w.fresh), o, t)
  ];
  open_at = λ d m r o. ground (
    arith,
    v.open_at d m,
    r,
    o,
    n,
    lookup-insert a m.addr w.fresh w.conns,
    beq_ℤ_iff a m.addr,
    beq_ℤ_iff a a,
    lookup-insert a a w.fresh w.conns,
  );
  queued = λ d m r. elim (Bool-cases (w.fresh == d)) [
    | inl e ↦
        let (s, t) = v.unlogged d (ground (arith, e, v.absent w.fresh)) in
        carried_over (sym t) (ground (arith, r, e)) (sym s) refl
    | inr e ↦ v.queued d m (ground (arith, r, e))
  ];
  absent = λ d l. ground (arith, v.absent d, l);
  unlogged = λ d r. ground (arith, v.unlogged d, r);
}

pub listen-Inv :
    (w w' : World) (log : Log) (a : Addr) (c : ℕ)
    → Inv w log
    → listen_at a w ≡ some (c, w')
    → Inv w' log
unfolding listen_at listened
listen-Inv w w' log a c v h = elim (Option-cases (lookup a w.conns)) [
  | inl n ↦ subst (λ z. Inv z log) (ground (arith, h, n)) (listened-Inv w log a v n)
  | inr (d, n) ↦ absurd (ground (arith, h, n))
]

pub close-Inv :
    (w : World) (log : Log) (c : ℕ) (me : PacketConn)
    → Inv w log
    → w.store c ≡ some me
    → me.closed ≡ false
    → Inv (close c me w) log
unfolding close
close-Inv w log c me v h k = record {
  registered = λ b d r.
      let at = lookup-erase me.addr b w.conns in
      let (m, s, o, t) = v.registered b d (ground (arith, at, r)) in
      (
        m,
        ground (
          arith,
          s,
          h,
          r,
          t,
          lookup-erase me.addr b w.conns,
          v.open_at c me h k,
          beq_ℤ_iff me.addr b,
        ),
        o,
        t,
      );
  open_at = λ d m r o. ground (
    arith,
    v.open_at d m,
    v.open_at c me,
    r,
    o,
    h,
    k,
    lookup-erase me.addr m.addr w.conns,
    beq_ℤ_iff me.addr m.addr,
  );
  queued = λ d m r. elim (Bool-cases (c == d)) [
    | inl e ↦
        let at : c ≡ d = ground (arith, e) in
        carried_over (ap log.read at) (ground (arith, r, e)) (ap log.sent at) (v.queued c me h)
    | inr e ↦ v.queued d m (ground (arith, r, e))
  ];
  absent = λ d l. ground (arith, v.absent d, l, h);
  unlogged = λ d r. ground (arith, v.unlogged d, r);
}

pub read-Inv :
    (w : World) (log : Log) (c : ℕ) (me : PacketConn) (room : ℕ)
    → Inv w log
    → w.store c ≡ some me
    → Inv (read_from c me room w).0 (log_read c room (read_from c me room w).1 log)
unfolding read_from
read-Inv w log c me room v h = elim (List-cases me.reads) [
  | inl e ↦ subst (λ (z : World × Log). Inv z.0 z.1) (ground (arith, e)) v
  | inr (x, rest, e) ↦
      let r : Reading = record { room = room; bytes = take room x.bytes; addr = x.addr } in
      let before = carried_over refl e refl (v.queued c me h) in
      let now = Delivered-read (log.read c) rest (log.sent c) x r refl refl before in
      let log' = log_read c room (got r.bytes r.addr) log in
      subst (λ (z : World × Log). Inv z.0 z.1) (ground (arith, e))
        (put-Inv w log log' c me (record me { reads = rest }) v h refl refl (λ d n. ground arith)
          (carried_over (ground arith) refl refl now))
]

pub write-Inv :
    (w : World) (log : Log) (c : ℕ) (me : PacketConn) (b : List ℕ) (to : ℤ)
    → Inv w log
    → w.store c ≡ some me
    → Inv
        (write_to me b to w).0
        (log_write (reaches me to w) (record { bytes = b; addr = me.addr }) log)
unfolding write_to
write-Inv w log c me b to v h = elim (Option-cases (reaches me to w)) [
  | inl e ↦ subst (λ (z : World × Log). Inv z.0 z.1) (ground (arith, e)) v
  | inr (d, e) ↦
      let x : Packet = record { bytes = b; addr = me.addr } in
      let (m, s, o, t) = v.registered to d (ground (arith, e)) in
      subst (λ (z : World × Log). Inv z.0 z.1) (ground (arith, e, s))
        (put-Inv w log (log_write (some d) x log) d m (enqueue x m) v s refl refl
          (λ j n. ground arith)
          (carried_over refl refl (ground arith)
            (Delivered-write (log.read d) m.reads (log.sent d) x (v.queued d m s))))
]
