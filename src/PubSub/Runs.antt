-- ===== src/PubSub/Runs.antt =====
-- The runs of a PubSub.
use missinggo.Base.{
  ℕ, ◌≡◌, refl, sym, true, false, List, [], ◌∷◌, ◌++◌, none, some, arith, Option-cases, inl, inr,
  ◌⊎◌, ◌∙◌, subst,
}
use missinggo.PubSub.{
  is_nil, returning, ended, Subscription, World, new_pub_sub, goes, publish, receive, give_back,
  deliver, unsubscribe, stop, Step, do_init, do_publish, too_late, do_close, do_subscribe,
  do_receive, do_give_back, do_deliver, do_unsubscribe, stop_receiving, stop_giving,
}
use missinggo.PubSub.Safe.{
  Inv, new_pub_sub-Inv, lazy_init-Inv, published, publish-goes, published-Inv, close-Inv,
}
use missinggo.PubSub.Handing.{
  subscribe-Inv, set_sub, set_sub-Inv, received, received-Inv, given_back, give_back-goes,
  given_back-Inv,
}

module _ (V : Type 0) where
  pub goes_inj : {w w' : World V} → goes w ≡ goes w' → w ≡ w'
  goes_inj h = ground arith

  pub received_of :
      (s : ℕ) (me : Subscription V) (w w' : World V)
      → receive V s me w ≡ some w'
      → ((c : ℕ) × (v : V) × (d : ℕ) × (me.next ≡ some c)
          × ((w.chans c).item ≡ some (v, d))
          × (w' ≡ received V s me v d c w))
        ⊎ (w' ≡ set_sub V s (record me { phase = ended; closed = true }) w)
  unfolding receive
  received_of s me w w' h = elim (Option-cases me.next) [
    | inl n ↦ absurd (ground (arith, h, n))
    | inr (c, n) ↦ elim (Option-cases (w.chans c).item) [
      | inl q ↦ inr (ground (arith, h, n, q))
      | inr ((v, d), q) ↦ inl (c, v, d, n, q, ground (arith, h, n, q))
    ]
  ]

  pub publish_nil :
      (w x : World V) (v : V) → w.closed ≡ false → w.next ≡ none → publish V v w ≡ goes x → ⊥
  unfolding publish
  publish_nil w x v p n h = ground (arith, p, n, h)

  -- Every step of every caller and subscription.
  pub Step-Inv :
      {w w' : World V} {sent sent' : List V}
      → Step V w sent w' sent'
      → Inv V w sent
      → Inv V w' sent'
  unfolding deliver unsubscribe stop
  Step-Inv {w} {w'} {sent} do_init i = lazy_init-Inv V w sent i
  Step-Inv {w} {w'} {sent} (do_publish v x p h) i = elim (Option-cases w.next) [
    | inl n ↦ absurd (publish_nil w x v p n h)
    | inr (c, n) ↦
        subst (λ z. Inv V z (sent ++ v ∷ [])) (goes_inj (sym (publish-goes V w sent v c i p n) ∙ h))
          (published-Inv V w sent v c i p n)
  ]
  Step-Inv (too_late v p) i = i
  Step-Inv {w} {w'} {sent} do_close i = close-Inv V w sent i
  Step-Inv {w} {w'} {sent} (do_subscribe s f r) i = subscribe-Inv V w sent s r i
  Step-Inv {w} {w'} {sent} (do_receive s me x p q h) i = elim (received_of s me w x h) [
    | inl (c, v, d, n, k, e) ↦
        subst (λ z. Inv V z sent) (sym e) (received-Inv V w sent s me v d c p n k i)
    | inr e ↦
        subst (λ z. Inv V z sent) (sym e)
          (set_sub-Inv V w sent s me _ p refl (λ v d k. absurd (ground (arith, k))) (λ k. refl) i)
  ]
  Step-Inv {w} {w'} {sent} (do_give_back s me v d x p q h) i =
      let (c, n, e) = give_back-goes V w sent s me v d i p q in
      subst (λ z. Inv V z sent) (goes_inj (sym e ∙ h)) (given_back-Inv V w sent s me v d c p n q i)
  Step-Inv {w} {w'} {sent} (do_deliver s me v p q) i =
      set_sub-Inv V w sent s me _ p refl (λ v d k. absurd (ground (arith, k))) (λ k. refl) i
  Step-Inv {w} {w'} {sent} (do_unsubscribe s me p) i =
      set_sub-Inv V w sent s me _ p refl (λ v d k. k) (λ k. k) i
  Step-Inv {w} {w'} {sent} (stop_receiving s me p k q) i =
      set_sub-Inv V w sent s me _ p refl (λ v d k. absurd (ground (arith, k))) (λ k. refl) i
  Step-Inv {w} {w'} {sent} (stop_giving s me v p k q) i =
      set_sub-Inv V w sent s me _ p refl (λ v d k. absurd (ground (arith, k))) (λ k. refl) i

  -- The states that callers can bring a new PubSub to, with what was published V.
  pub data Run : World V → List V → Type 0 where
    here : Run (new_pub_sub V) []
    next :
        {w w' : World V} {sent sent' : List V} → Run w sent → Step V w sent w' sent' → Run w' sent'

  pub Run-Inv : {w : World V} {sent : List V} → Run w sent → Inv V w sent
  Run-Inv here = new_pub_sub-Inv V
  Run-Inv (next r s) = Step-Inv s (Run-Inv r)

  -- No send of the package blocks or panics.
  pub record SendsGo (w : World V) : Type 0 where
    pub publishing :
        (v : V)
        → w.closed ≡ false
        → is_nil w.next ≡ false
        → (w' : World V) × (publish V v w ≡ goes w')
    pub giving_back :
        (s : ℕ) (me : Subscription V) (v : V) (d : ℕ)
        → w.subs s ≡ some me
        → me.phase ≡ returning v d
        → (w' : World V) × (give_back V s me v d w ≡ goes w')

  -- In every state of a run, `Publish` on an open hub that is initialised and a subscription that
  -- puts an item back send at once: neither send blocks or panics.
  pub Run-SendsGo : (w : World V) (sent : List V) → Run w sent → SendsGo w
  Run-SendsGo w sent r = record {
    publishing = λ v p n. elim (Option-cases w.next) [
      | inl q ↦ absurd (ground (arith, n, q))
      | inr (c, q) ↦ (published V v c w, publish-goes V w sent v c (Run-Inv r) p q)
    ];
    giving_back = λ s me v d p q.
        let (c, n, e) = give_back-goes V w sent s me v d (Run-Inv r) p q in
        (given_back V s me v d c w, e);
  }
