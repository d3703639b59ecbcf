-- ===== src/PubSub/Follow.antt =====
-- What a subscription still has to hand over.
use missinggo.Base.{
  put, ℕ, zero, suc, ◌≤◌, ◌≡◌, refl, sym, ap, false, List, [], ◌∷◌, ◌++◌, Option, none, some, arith,
  ◌==◌, length, get_elem?, drop, Bool-cases, inl, inr, ◌∙◌, subst, length-append,
}
use missinggo.PubSub.{
  Phase, receiving, returning, giving, ended, Subscription, World, subscribe, Step,
}
use missinggo.PubSub.Safe.{Inv, published}

module _ (V : Type 0) where
  drop_snoc :
      (n : ℕ) (l : List V) (v : V) → n ≤ length l → drop n (l ++ v ∷ []) ≡ drop n l ++ v ∷ []
  drop_snoc zero l v h = refl
  drop_snoc (suc n) [] v h = absurd (ground arith)
  drop_snoc (suc n) (x ∷ l) v h = drop_snoc n l v (ground arith)

  pub drop_at :
      (c : ℕ) (l : List V) (v : V) → get_elem? l c ≡ some v → drop c l ≡ v ∷ drop (suc c) l
  drop_at c [] v h = absurd (ground arith)
  drop_at zero (x ∷ l) v h = ground arith
  drop_at (suc c) (x ∷ l) v h = drop_at c l v h

  pub drop_all : (l : List V) → drop (length l) l ≡ []
  drop_all [] = refl
  drop_all (x ∷ l) = drop_all l

  append_nil : (l : List V) → l ++ [] ≡ l
  append_nil [] = refl
  append_nil (x ∷ l) = ground (arith, append_nil l)

  pub append_assoc : (a b c : List V) → (a ++ b) ++ c ≡ a ++ (b ++ c)
  append_assoc [] b c = refl
  append_assoc (x ∷ a) b c = ground (arith, append_assoc a b c)

  -- What a subscription at a channel has not received.
  abbrev pub ahead : Option ℕ → List V → List V
  ahead none sent = []
  ahead (some c) sent = drop c sent

  -- What it has not handed over.
  abbrev pub Left : Phase V → List V → List V → Type 0
  Left receiving rest after = rest ≡ after
  Left (returning v d) rest after = rest ≡ after
  Left (giving v) rest after = rest ≡ v ∷ after
  Left ended rest after = Unit

  pub record Follows (start : ℕ) (s : ℕ) (w : World V) (sent : List V) : Type 0 where
    pub me : Subscription V
    pub is_sub : w.subs s ≡ some me
    pub rest : List V
    pub in_order : drop start sent ≡ me.values ++ rest
    pub left : Left me.phase rest (ahead me.next sent)
    pub started : start ≤ length sent

  pub subscribe-Follows :
      (w : World V) (sent : List V) (s : ℕ)
      → Inv V w sent
      → Follows (length sent) s (subscribe V s w) sent
  unfolding subscribe
  subscribe-Follows w sent s i = record {
    me = record { next = w.next; phase = receiving; values = []; closed = false };
    is_sub = ground arith;
    rest = [];
    in_order = drop_all sent;
    left = at_end w.next refl;
    started = omega arith;
  }
    where
      at_end : (n : Option ℕ) → w.next ≡ n → [] ≡ ahead n sent
      at_end none h = refl
      at_end (some c) h = sym (ground (arith, i.hub_some c h, drop_all sent))

  -- A step that leaves the subscription and what was published as they are.
  pub unchanged :
      (start s : ℕ) (w w' : World V) (sent : List V)
      → w'.subs s ≡ w.subs s
      → Follows start s w sent
      → Follows start s w' sent
  unchanged start s w w' sent h f = record {
    me = f.me;
    is_sub = h ∙ f.is_sub;
    rest = f.rest;
    in_order = f.in_order;
    left = f.left;
    started = f.started;
  }

  Left-snoc :
      (ph : Phase V) (rest after : List V) (v : V)
      → Left ph rest after
      → Left ph (rest ++ v ∷ []) (after ++ v ∷ [])
  Left-snoc receiving rest after v h = ground arith
  Left-snoc (returning x d) rest after v h = ground arith
  Left-snoc (giving x) rest after v h = ground arith
  Left-snoc ended rest after v h = tt

  pub published-Follows :
      (start s : ℕ) (w : World V) (sent : List V) (v : V) (c : ℕ)
      → Inv V w sent
      → w.closed ≡ false
      → Follows start s w sent
      → Follows start s (published V v c w) (sent ++ v ∷ [])
  published-Follows start s w sent v c i p f = record {
    me = f.me;
    is_sub = f.is_sub;
    rest = f.rest ++ v ∷ [];
    in_order =
        drop_snoc start sent v f.started
        ∙ ap (λ z. z ++ v ∷ []) f.in_order
        ∙ append_assoc f.me.values f.rest (v ∷ []);
    left =
        subst (Left f.me.phase (f.rest ++ v ∷ [])) (grown f.me.next refl)
          (Left-snoc f.me.phase f.rest (ahead f.me.next sent) v f.left);
    started = ground (arith, f.started, length-append sent (v ∷ []));
  }
    where
      grown : (n : Option ℕ) → f.me.next ≡ n → ahead n sent ++ v ∷ [] ≡ ahead n (sent ++ v ∷ [])
      grown none h = absurd (ground (arith, i.no_next s f.me f.is_sub h, p))
      grown (some b) h = sym (drop_snoc b sent v (i.at_next s f.me b f.is_sub h).0)

  -- A subscription goes on: what it has left is still what it has not handed over.
  abbrev Goes : List V → Subscription V → Subscription V → Type 0
  Goes sent me m =
      (rest : List V)
      → Left me.phase rest (ahead me.next sent)
      → (rest' : List V) × (me.values ++ rest ≡ m.values ++ rest')
        × Left m.phase rest' (ahead m.next sent)

  pub sub_step :
      (start s t : ℕ) (w w' : World V) (sent : List V) (me m : Subscription V)
      → w.subs t ≡ some me
      → ((j : ℕ) → w'.subs j ≡ put t (some m) w.subs j)
      → Goes sent me m
      → Follows start s w sent
      → Follows start s w' sent
  sub_step start s t w w' sent me m p h g f = elim (Bool-cases (t == s)) [
    | inr q ↦ unchanged start s w w' sent (ground (arith, h s, q)) f
    | inl q ↦
        let same : f.me ≡ me = ground (arith, f.is_sub, p, q) in
        let (rest', e, l) =
          g f.rest (subst (λ z. Left z.phase f.rest (ahead z.next sent)) same f.left) in
        record {
          me = m;
          is_sub = ground (arith, h s, q);
          rest = rest';
          in_order = f.in_order ∙ ap (λ z. z.values ++ f.rest) same ∙ e;
          left = l;
          started = f.started;
        }
  ]

  -- The steps after a subscription.
  pub data Steps (w : World V) (sent : List V) : World V → List V → Type 0 where
    here : Steps w sent w sent
    next :
        {x y : World V} {mid later : List V}
        → Steps w sent x mid
        → Step V x mid y later
        → Steps w sent y later
