-- ===== src/PubSub/Handing.antt =====
-- A subscription takes the item of its channel, puts it back and goes on to the next channel.
use missinggo.Base.{
  put, ℕ, ◌≡◌, true, false, ◌||◌, not, List, none, some, ◌≢◌, arith, ◌==◌, Option-cases, Bool-cases,
  inl, inr, ◌⊎◌,
}
use missinggo.PubSub.{
  is_nil, returning, giving, Subscription, World, goes, send_item, subscribe, give_back,
}
use missinggo.PubSub.Safe.{get_below, busy, Holds, Inv}

module _ (V : Type 0) where
  pub subscribe-Inv :
      (w : World V) (sent : List V) (s : ℕ)
      → (w.closed || not (is_nil w.next)) ≡ true
      → Inv V w sent
      → Inv V (subscribe V s w) sent
  unfolding subscribe
  subscribe-Inv w sent s r i = record {
    hub_none = i.hub_none;
    hub_some = i.hub_some;
    items = i.items;
    shut = i.shut;
    at_next = λ t me c h k. ground (arith, i.at_next t me c, h, k, i.hub_some c);
    no_next = λ t me h k. ground (arith, i.no_next t me, h, k, r);
    held = λ t c v d (me, h, k, l). i.held t c v d (me, ground (arith, h, l), k, l);
    alone = λ t u c v x d e (me, h, k, l) (me', h', k', l').
        i.alone t u c v x d e (me, ground (arith, h, l), k, l)
          (me', ground (arith, h', l'), k', l');
  }

  abbrev pub set_sub : ℕ → Subscription V → World V → World V
  set_sub s me w = record w { subs = put s (some me) w.subs }

  -- A subscription that stays at its channel and takes nothing.
  pub set_sub-Inv :
      (w : World V) (sent : List V) (s : ℕ) (me me' : Subscription V)
      → w.subs s ≡ some me
      → me'.next ≡ me.next
      → ((v : V) (d : ℕ) → me'.phase ≡ returning v d → me.phase ≡ returning v d)
      → (busy V me.phase ≡ false → busy V me'.phase ≡ false)
      → Inv V w sent
      → Inv V (set_sub s me' w) sent
  set_sub-Inv w sent s me me' p n r b i = record {
    hub_none = i.hub_none;
    hub_some = i.hub_some;
    items = i.items;
    shut = i.shut;
    at_next = λ t m c h k. ground (arith, i.at_next t m c, i.at_next s me c p, h, k, n);
    no_next = λ t m h k. ground (arith, i.no_next t m, i.no_next s me p, h, k, n, b);
    held = λ t c v d h. i.held t c v d (before t c v d h);
    alone = λ t u c v x d e h k. i.alone t u c v x d e (before t c v d h) (before u c x e k);
  }
    where
      before : (t c : ℕ) (v : V) (d : ℕ) → Holds V (set_sub s me' w) t c v d → Holds V w t c v d
      before t c v d (m, h, k, l) = elim (Bool-cases (s == t)) [
        | inl q ↦
            (me, ground (arith, p, q), ground (arith, h, k, q, n), r v d (ground (arith, h, l, q)))
        | inr q ↦ (m, ground (arith, h, q), k, l)
      ]

  abbrev pub received : ℕ → Subscription V → V → ℕ → ℕ → World V → World V
  received s me v d c w = record w {
    chans = put c (record { item = none; shut = (w.chans c).shut }) w.chans;
    subs = put s (some (record me { phase = returning v d })) w.subs;
  }

  pub received-Inv :
      (w : World V) (sent : List V) (s : ℕ) (me : Subscription V) (v : V) (d c : ℕ)
      → w.subs s ≡ some me
      → me.next ≡ some c
      → (w.chans c).item ≡ some (v, d)
      → Inv V w sent
      → Inv V (received s me v d c w) sent
  received-Inv w sent s me v d c p n q i = record {
    hub_none = i.hub_none;
    hub_some = i.hub_some;
    items = λ b x e h. ground (arith, i.items b x e, h);
    shut = λ b h. ground (arith, i.shut b, h);
    at_next = λ t m b h k. ground (arith, i.at_next t m b, i.at_next s me b p, h, k, n);
    no_next = λ t m h k. ground (arith, i.no_next t m, i.no_next s me p, h, k, n);
    held = λ t b x e h. elim (before t b x e h) [
      | inl (t', b', vx, de) ↦ ground (arith, i.items c v d q, t', b', vx, de)
      | inr g ↦ ground (arith, i.held t b x e g)
    ];
    alone = λ t u b x y e f h k. elim (before t b x e h) [
      | inl (t', b', vx, de) ↦ elim (before u b y f k) [
        | inl (u', b'', vy, df) ↦ ground (arith, t', u')
        | inr g ↦ absurd (ground (arith, i.held u b y f g, b', q))
      ]
      | inr g ↦ elim (before u b y f k) [
        | inl (u', b', vy, df) ↦ absurd (ground (arith, i.held t b x e g, b', q))
        | inr g' ↦ i.alone t u b x y e f g g'
      ]
    ];
  }
    where
      before :
          (t b : ℕ) (x : V) (e : ℕ)
          → Holds V (received s me v d c w) t b x e
          → ((t ≡ s) × (b ≡ c) × (x ≡ v) × (e ≡ d)) ⊎ Holds V w t b x e
      before t b x e (m, h, k, l) = elim (Bool-cases (s == t)) [
        | inl z ↦ inl (ground (arith, h, k, l, z, n))
        | inr z ↦ inr (m, ground (arith, h, z), k, l)
      ]

  abbrev pub given_back : ℕ → Subscription V → V → ℕ → ℕ → World V → World V
  given_back s me v d c w = record w {
    chans = put c (record { item = some (v, d); shut = false }) w.chans;
    subs = put s (some (record me { next = some d; phase = giving v })) w.subs;
  }

  pub give_back-goes :
      (w : World V) (sent : List V) (s : ℕ) (me : Subscription V) (v : V) (d : ℕ)
      → Inv V w sent
      → w.subs s ≡ some me
      → me.phase ≡ returning v d
      → (c : ℕ) × (me.next ≡ some c) × (give_back V s me v d w ≡ goes (given_back s me v d c w))
  unfolding give_back send_item
  give_back-goes w sent s me v d i p q = elim (Option-cases me.next) [
    | inl n ↦ absurd (ground (arith, i.no_next s me p n, q))
    | inr (c, n) ↦
        let (g, e, empty) = i.held s c v d (me, p, n, q) in
        (
          c,
          n,
          ground (
            arith,
            n,
            empty,
            Bool-cases (w.chans c).shut,
            i.shut c,
            i.hub_some c,
            get_below V sent v c g,
          ),
        )
  ]

  pub given_back-Inv :
      (w : World V) (sent : List V) (s : ℕ) (me : Subscription V) (v : V) (d c : ℕ)
      → w.subs s ≡ some me
      → me.next ≡ some c
      → me.phase ≡ returning v d
      → Inv V w sent
      → Inv V (given_back s me v d c w) sent
  given_back-Inv w sent s me v d c p n q i =
      let (g, e, empty) = i.held s c v d (me, p, n, q) in
      record {
        hub_none = i.hub_none;
        hub_some = i.hub_some;
        items = λ b x f h. ground (arith, i.items b x f, h, g, e);
        shut = λ b h. ground (arith, i.shut b, h);
        at_next = λ t m b h k.
            ground (arith, i.at_next t m b, i.at_next s me c p n, h, k, e, get_below V sent v c g);
        no_next = λ t m h k. ground (arith, i.no_next t m, h, k);
        held = λ t b x f h.
            let (old, other) = before t b x f h in
            ground (arith, i.held t b x f old, i.alone t s b x v f d old, other);
        alone =
            λ t u b x y f f' h k. i.alone t u b x y f f' (before t b x f h).0 (before u b y f' k).0;
      }
    where
      before :
          (t b : ℕ) (x : V) (f : ℕ)
          → Holds V (given_back s me v d c w) t b x f
          → Holds V w t b x f × (b ≢ c)
      before t b x f (m, h, k, l) = elim (Bool-cases (s == t)) [
        | inl z ↦ absurd (ground (arith, h, l, z))
        | inr z ↦ (
          (m, ground (arith, h, z), k, l),
          λ bc. ground (
            arith,
            i.alone t s c x v f d (m, ground (arith, h, z), ground (arith, k, bc), l) (me, p, n, q),
            z,
          ),
        )
      ]
