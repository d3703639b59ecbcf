-- ===== src/PubSub/Safe.antt =====
-- What holds of the channels of a PubSub in every interleaving.
use missinggo.Base.{
  put, ℕ, zero, suc, ◌≤◌, ◌<◌, ◌≡◌, refl, sym, Bool, true, false, List, [], ◌∷◌, ◌++◌, none, some,
  arith, length, get_elem?, Option-cases, Bool-cases, inl, inr, subst, length-append,
}
use missinggo.PubSub.{
  is_nil, new_chan, Phase, receiving, returning, giving, ended, Subscription, World, new_pub_sub,
  lazy_init, goes, send_item, publish, close,
}

module _ (V : Type 0) where
  pub get_snoc :
      (l : List V) (v x : V) (c : ℕ) → get_elem? l c ≡ some x → get_elem? (l ++ v ∷ []) c ≡ some x
  get_snoc [] v x c h = ground arith
  get_snoc (y ∷ l) v x zero h = h
  get_snoc (y ∷ l) v x (suc c) h = get_snoc l v x c h

  pub get_last : (l : List V) (v : V) → get_elem? (l ++ v ∷ []) (length l) ≡ some v
  get_last [] v = refl
  get_last (y ∷ l) v = get_last l v

  pub get_below : (l : List V) (x : V) (c : ℕ) → get_elem? l c ≡ some x → c < length l
  get_below [] x c h = ground arith
  get_below (y ∷ l) x zero h = omega arith
  get_below (y ∷ l) x (suc c) h = ground (arith, get_below l x c h)

  abbrev pub busy : Phase V → Bool
  busy receiving = false
  busy (returning v d) = true
  busy (giving v) = true
  busy ended = false

  -- A subscription holds the item of its channel.
  abbrev pub Holds : World V → ℕ → ℕ → V → ℕ → Type 0
  Holds w s c v d =
      (me : Subscription V) × (w.subs s ≡ some me) × (me.next ≡ some c) × (me.phase ≡ returning v d)

  pub record Inv (w : World V) (sent : List V) : Type 0 where
    pub hub_none : w.next ≡ none → (w.fresh ≡ 0) × (sent ≡ [])
    pub hub_some : (c : ℕ) → w.next ≡ some c → (c ≡ length sent) × (w.fresh ≡ suc c)
    pub items :
        (c : ℕ) (v : V) (d : ℕ)
        → (w.chans c).item ≡ some (v, d)
        → (get_elem? sent c ≡ some v) × (d ≡ suc c)
    pub shut : (c : ℕ) → (w.chans c).shut ≡ true → (w.closed ≡ true) × (w.next ≡ some c)
    pub at_next :
        (s : ℕ) (me : Subscription V) (c : ℕ)
        → w.subs s ≡ some me
        → me.next ≡ some c
        → (c ≤ length sent) × (is_nil w.next ≡ false)
    pub no_next :
        (s : ℕ) (me : Subscription V)
        → w.subs s ≡ some me
        → me.next ≡ none
        → (w.closed ≡ true) × (busy me.phase ≡ false)
    pub held :
        (s c : ℕ) (v : V) (d : ℕ)
        → Holds w s c v d
        → (get_elem? sent c ≡ some v) × (d ≡ suc c) × ((w.chans c).item ≡ none)
    pub alone : (s t c : ℕ) (v x : V) (d e : ℕ) → Holds w s c v d → Holds w t c x e → s ≡ t

  pub new_pub_sub-Inv : Inv (new_pub_sub V) []
  unfolding new_pub_sub
  new_pub_sub-Inv = record {
    hub_none = λ h. (refl, refl);
    hub_some = λ c h. ground arith;
    items = λ c v d h. ground arith;
    shut = λ c h. ground arith;
    at_next = λ s me c h k. ground arith;
    no_next = λ s me h k. ground arith;
    held = λ s c v d (me, h, k, l). absurd (ground arith);
    alone = λ s t c v x d e (me, h, k, l) n. absurd (ground arith);
  }

  lazy_init_first :
      (w : World V)
      → w.closed ≡ false
      → w.next ≡ none
      → lazy_init V w ≡ record w {
        chans = put w.fresh (new_chan V) w.chans;
        fresh = suc w.fresh;
        next = some w.fresh;
      }
  unfolding lazy_init
  lazy_init_first w p q = ground (arith, p, q)

  pub lazy_init-Inv : (w : World V) (sent : List V) → Inv w sent → Inv (lazy_init V w) sent
  unfolding lazy_init
  lazy_init-Inv w sent i = elim (Bool-cases w.closed) [
    | inl p ↦ subst (λ z. Inv z sent) (ground (arith, p)) i
    | inr p ↦ elim (Option-cases w.next) [
      | inr (c, q) ↦ subst (λ z. Inv z sent) (ground (arith, p, q)) i
      | inl q ↦
          subst (λ z. Inv z sent) (sym (lazy_init_first w p q))
            (record {
              hub_none = λ h. absurd (ground arith);
              hub_some = λ c h. ground (arith, i.hub_none q);
              items = λ c v d h. ground (arith, i.items c v d);
              shut = λ c h. absurd (ground (arith, i.shut c, p));
              at_next = λ s me c h k. ground (arith, i.at_next s me c h k);
              no_next = λ s me h k. ground (arith, i.no_next s me h k, p);
              held = λ s c v d (me, h, k, l). absurd (ground (arith, i.at_next s me c h k, q));
              alone = λ s t c v x d e h k. i.alone s t c v x d e h k;
            })
    ]
  ]

  -- The last channel is empty, so `Publish` sends at once.
  last_empty :
      (w : World V) (sent : List V) (c : ℕ) → Inv w sent → w.next ≡ some c → (w.chans c).item ≡ none
  last_empty w sent c i q = elim (Option-cases (w.chans c).item) [
    | inl p ↦ p
    | inr ((v, d), p) ↦ absurd (ground (arith, i.items c v d p, i.hub_some c q, get_below sent v c))
  ]

  abbrev pub published : V → ℕ → World V → World V
  published v c w = record w {
    chans =
        put w.fresh (new_chan V)
          (put c (record { item = some (v, w.fresh); shut = false }) w.chans);
    fresh = suc w.fresh;
    next = some w.fresh;
  }

  pub publish-goes :
      (w : World V) (sent : List V) (v : V) (c : ℕ)
      → Inv w sent
      → w.closed ≡ false
      → w.next ≡ some c
      → publish V v w ≡ goes (published v c w)
  unfolding publish send_item
  publish-goes w sent v c i p q = ground (arith, last_empty w sent c i q, i.shut c, p, q)

  pub published-Inv :
      (w : World V) (sent : List V) (v : V) (c : ℕ)
      → Inv w sent
      → w.closed ≡ false
      → w.next ≡ some c
      → Inv (published v c w) (sent ++ v ∷ [])
  published-Inv w sent v c i p q = record {
    hub_none = λ h. absurd (ground arith);
    hub_some = λ d h. ground (arith, i.hub_some c q, length-append sent (v ∷ []));
    items = λ d x e h.
        ground (arith, i.items d x e, h, i.hub_some c q, get_last sent v, get_snoc sent v x d);
    shut = λ d h. absurd (ground (arith, i.shut d, i.hub_some c q, p, h));
    at_next = λ s me d h k. ground (arith, i.at_next s me d h k, length-append sent (v ∷ []));
    no_next = λ s me h k. ground (arith, i.no_next s me h k, p);
    held = λ s d x e g.
        ground (arith, i.held s d x e g, get_snoc sent v x d, i.hub_some c q, get_below sent x d);
    alone = λ s t d x y e f h k. i.alone s t d x y e f h k;
  }

  pub close-Inv : (w : World V) (sent : List V) → Inv w sent → Inv (close V w) sent
  unfolding close
  close-Inv w sent i = elim (Bool-cases w.closed) [
    | inl p ↦ subst (λ z. Inv z sent) (ground (arith, p)) i
    | inr p ↦ elim (Option-cases w.next) [
      | inl q ↦
          subst (λ z. Inv z sent) (sym (close_nil w p q))
            (record {
              hub_none = i.hub_none;
              hub_some = i.hub_some;
              items = i.items;
              shut = λ c h. absurd (ground (arith, i.shut c h, p));
              at_next = i.at_next;
              no_next = λ s me h k. ground (arith, i.no_next s me h k);
              held = i.held;
              alone = i.alone;
            })
      | inr (c, q) ↦
          subst (λ z. Inv z sent) (sym (close_last w c p q))
            (record {
              hub_none = i.hub_none;
              hub_some = i.hub_some;
              items = λ d v e h. ground (arith, i.items d v e, h);
              shut = λ d h. ground (arith, i.shut d, h, q);
              at_next = i.at_next;
              no_next = λ s me h k. ground (arith, i.no_next s me h k);
              held = λ s d v e h. ground (arith, i.held s d v e h);
              alone = i.alone;
            })
    ]
  ]
    where
      close_nil :
          (w : World V) → w.closed ≡ false → w.next ≡ none → close V w ≡ record w { closed = true }
      close_nil w p q = ground (arith, p, q)

      close_last :
          (w : World V) (c : ℕ)
          → w.closed ≡ false
          → w.next ≡ some c
          → close V w ≡ record w {
            chans = put c (record { item = (w.chans c).item; shut = true }) w.chans;
            closed = true;
          }
      close_last w c p q = ground (arith, p, q)
