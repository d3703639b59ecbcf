-- ===== src/PubSub/Order.antt =====
-- What a subscription hands over, and in which order.
use missinggo.Base.{
  ℕ, suc, ◌≡◌, refl, sym, ap, true, ◌||◌, not, List, [], ◌∷◌, ◌++◌, Option, some, arith, length,
  drop, Option-cases, Bool-cases, inl, inr, ◌∙◌, subst,
}
use missinggo.PubSub.{
  is_nil, receiving, returning, giving, ended, Subscription, World, lazy_init, close, subscribe,
  deliver, unsubscribe, stop, Step, do_init, do_publish, too_late, do_close, do_subscribe,
  do_receive, do_give_back, do_deliver, do_unsubscribe, stop_receiving, stop_giving,
}
use missinggo.PubSub.Safe.{Inv, publish-goes}
use missinggo.PubSub.Handing.{give_back-goes, subscribe-Inv}
use missinggo.PubSub.Runs.{goes_inj, received_of, publish_nil, Step-Inv, Run, Run-Inv}
use missinggo.PubSub.Follow.{
  drop_at, drop_all, append_assoc, ahead, Left, Follows, subscribe-Follows, unchanged,
  published-Follows, sub_step, Steps, next, here,
}

module _ (V : Type 0) where
  lazy_subs : (w : World V) (s : ℕ) → (lazy_init V w).subs s ≡ w.subs s
  unfolding lazy_init
  lazy_subs w s = ground (arith, Bool-cases w.closed, Option-cases w.next)

  close_subs : (w : World V) (s : ℕ) → (close V w).subs s ≡ w.subs s
  unfolding close
  close_subs w s = ground (arith, Bool-cases w.closed)

  -- The value put back was the first that the subscription had not handed over.
  given :
      (w : World V) (sent : List V) (t : ℕ) (me : Subscription V) (v : V) (d c : ℕ)
      → Inv V w sent
      → w.subs t ≡ some me
      → me.next ≡ some c
      → me.phase ≡ returning v d
      → (r : List V) → (Left V) me.phase r ((ahead V) me.next sent)
      → r ≡ v ∷ drop d sent
  given w sent t me v d c i p n q r l =
      let (g, e, empty) = i.held t c v d (me, p, n, q) in
      subst (λ z. (Left V) z r ((ahead V) me.next sent)) q l
      ∙ ap (λ z. (ahead V) z sent) n
      ∙ (drop_at V) c sent v g
      ∙ rw (e) refl

  Step-Follows :
      (start s : ℕ) {w w' : World V} {sent sent' : List V}
      → Step V w sent w' sent'
      → Inv V w sent
      → (Follows V) start s w sent
      → (Follows V) start s w' sent'
  unfolding subscribe deliver unsubscribe stop
  Step-Follows start s {w} {w'} {sent} do_init i f =
      (unchanged V) start s w _ sent (lazy_subs w s) f
  Step-Follows start s {w} {w'} {sent} (do_publish v x p h) i f = elim (Option-cases w.next) [
    | inl n ↦ absurd (publish_nil V w x v p n h)
    | inr (c, n) ↦
        subst (λ z. (Follows V) start s z (sent ++ v ∷ []))
          (goes_inj V (sym (publish-goes V w sent v c i p n) ∙ h))
          ((published-Follows V) start s w sent v c i p f)
  ]
  Step-Follows start s (too_late v p) i f = f
  Step-Follows start s {w} {w'} {sent} do_close i f =
      (unchanged V) start s w _ sent (close_subs w s) f
  Step-Follows start s {w} {w'} {sent} (do_subscribe t g r) i f =
      (unchanged V) start s w _ sent (ground (arith, f.is_sub, g)) f
  Step-Follows start s {w} {w'} {sent} (do_receive t me x p q h) i f =
      elim (received_of V t me w x h) [
        | inl (c, v, d, n, k, e) ↦
            (sub_step V) start s t w x sent me (record me { phase = returning v d }) p
              (λ j. ap (λ z. z.subs j) e)
              (λ r l. (r, refl, subst (λ z. (Left V) z r ((ahead V) me.next sent)) q l)) f
        | inr e ↦
            (sub_step V) start s t w x sent me (record me { phase = ended; closed = true }) p
              (λ j. ap (λ z. z.subs j) e) (λ r l. (r, refl, tt)) f
      ]
  Step-Follows start s {w} {w'} {sent} (do_give_back t me v d x p q h) i f =
      let (c, n, e) = give_back-goes V w sent t me v d i p q in
      (sub_step V) start s t w x sent me (record me { next = some d; phase = giving v }) p
        (λ j. ap (λ z. z.subs j) (sym (goes_inj V (sym e ∙ h))))
        (λ r l. (r, refl, given w sent t me v d c i p n q r l)) f
  Step-Follows start s {w} {w'} {sent} (do_deliver t me v p q) i f =
      (sub_step V) start s t w _ sent me
        (record me { phase = receiving; values = me.values ++ v ∷ [] }) p (λ j. refl)
        (λ r l. (
          (ahead V) me.next sent,
          ap (λ z. me.values ++ z) (subst (λ z. (Left V) z r ((ahead V) me.next sent)) q l)
              ∙ sym ((append_assoc V) me.values (v ∷ []) ((ahead V) me.next sent)),
          refl,
        ))
        f
  Step-Follows start s {w} {w'} {sent} (do_unsubscribe t me p) i f =
      (sub_step V) start s t w _ sent me (record me { closed = true }) p (λ j. refl)
        (λ r l. (r, refl, l)) f
  Step-Follows start s {w} {w'} {sent} (stop_receiving t me p k q) i f =
      (sub_step V) start s t w _ sent me (record me { phase = ended }) p (λ j. refl)
        (λ r l. (r, refl, tt)) f
  Step-Follows start s {w} {w'} {sent} (stop_giving t me v p k q) i f =
      (sub_step V) start s t w _ sent me (record me { phase = ended }) p (λ j. refl)
        (λ r l. (r, refl, tt)) f

  Steps-Follows :
      (start s : ℕ) {w : World V} {sent : List V} {w' : World V} {sent' : List V}
      → (Steps V) w sent w' sent'
      → Inv V w sent
      → (Follows V) start s w sent
      → Inv V w' sent' × (Follows V) start s w' sent'
  Steps-Follows start s here i f = (i, f)
  Steps-Follows start s (next r x) i f =
      let (i', f') = Steps-Follows start s r i f in (Step-Inv V x i', Step-Follows start s x i' f')

  -- What a subscription has handed over of what was published since.
  pub record InOrder (s : ℕ) (w : World V) (since : List V) : Type 0 where
    pub me : Subscription V
    pub is_sub : w.subs s ≡ some me
    pub rest : List V
    pub in_order : since ≡ me.values ++ rest
    pub caught_up : me.phase ≡ receiving → me.next ≡ w.next → rest ≡ []

  -- Take any run up to a state in which the hub is initialised or closed, a subscription in it,
  -- and any steps after it. What came out of the subscription's `Values` is a prefix of what was
  -- published in between, in order; it is all of it if the subscription is receiving at the
  -- channel that is the hub's next.
  pub subscribe-InOrder :
      (w w' : World V) (sent sent' : List V) (s : ℕ)
      → Run V w sent
      → (w.closed || not (is_nil w.next)) ≡ true
      → (Steps V) (subscribe V s w) sent w' sent'
      → InOrder s w' (drop (length sent) sent')
  subscribe-InOrder w w' sent sent' s r ready x =
      let (i, f) =
        Steps-Follows (length sent) s x (subscribe-Inv V w sent s ready (Run-Inv V r))
          ((subscribe-Follows V) w sent s (Run-Inv V r)) in
      record {
        me = f.me;
        is_sub = f.is_sub;
        rest = f.rest;
        in_order = f.in_order;
        caught_up = λ p n.
            subst (λ z. (Left V) z f.rest ((ahead V) f.me.next sent')) p f.left
            ∙ ap (λ z. (ahead V) z sent') n
            ∙ at_end w'.next (i.hub_some);
      }
    where
      at_end :
          (n : Option ℕ)
          → ((c : ℕ) → w'.next ≡ some c → (c ≡ length sent') × (w'.fresh ≡ suc c))
          → (ahead V) w'.next sent' ≡ []
      at_end n h = elim (Option-cases w'.next) [
        | inl q ↦ rw (q) refl
        | inr (c, q) ↦ rw (q, (h c q).0) ((drop_all V) sent')
      ]
