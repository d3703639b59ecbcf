-- ===== src/Event/Waiters.antt =====
-- The waiters of an event through any calls.
use missinggo.Base.{
  ℕ, suc, ◌≡◌, refl, sym, ◌∙◌, subst, true, false, ◌∷◌, Option, none, some, put, arith, Bool-cases,
  inl, inr,
}
use missinggo.Base.Outcome.{Returns, Returns_done}
use missinggo.Event.{Chans, no_chans, close_chan, chan_of, Event, new_event, c, clear, set}
use missinggo.Event.Kept.{
  Waiters, release, Released, Step, Run, Inv, all_released, Pending-release, Released-put,
  Released_same, settled-Pending, moved-Pending, idle-Pending, clears, waits, sets, next, here,
}

waits_at :
    (me : Event) (w : Chans) (ws : Waiters) (o : Option ℕ)
    → Inv me w ws
    → me.ch ≡ o
    → Inv
        (record { ch = some (chan_of o w).0; closed = me.closed })
        (chan_of o w).1
        (((chan_of o w).0, me.closed) ∷ ws)
waits_at me w ws none v e = record {
  current = λ ch q. ground (arith, q, v.unmade w.fresh, v.idle e);
  idle = λ q. absurd (ground (arith, q));
  unmade = λ ch l. v.unmade ch (omega arith);
  released = (
    v.unmade w.fresh (omega arith) ∙ sym (v.idle e),
    Released_same w (record w { fresh = suc w.fresh }) ws (λ ch. refl) v.released,
  );
  pending =
      (λ q. refl, idle-Pending me (record { ch = some w.fresh; closed = me.closed }) w ws v e);
}
waits_at me w ws (some d) v e = record {
  current = λ ch q. v.current ch (e ∙ q);
  idle = λ q. absurd (ground (arith, q));
  unmade = v.unmade;
  released = ((v.current d e).0, v.released);
  pending =
      (λ q. refl, moved-Pending me (record { ch = some d; closed = me.closed }) ws e v.pending);
}

waits-Inv :
    (me : Event) (w : Chans) (ws : Waiters)
    → Inv me w ws
    → Inv (c me w).1.0 (c me w).1.1 (((c me w).0, me.closed) ∷ ws)
unfolding c
waits-Inv me w ws v = waits_at me w ws me.ch v refl

closed_all :
    (me : Event) (w : Chans) (ws : Waiters) → Inv me w ws → me.closed ≡ true → release ws ≡ ws
closed_all me w ws v e = all_released me w ws (λ ch q. (v.current ch q).0 ∙ e) v.released v.pending

clears-Inv : (me : Event) (w : Chans) (ws : Waiters) → Inv me w ws → Inv (clear me) w ws
unfolding clear
clears-Inv me w ws v = elim (Bool-cases me.closed) [
  | inl q ↦ subst (λ z. Inv z w ws) (ground (arith, q)) (cleared q)
  | inr q ↦ subst (λ z. Inv z w ws) (ground (arith, q)) v
]
  where
    cleared : me.closed ≡ true → Inv new_event w ws
    cleared q = record {
      current = λ ch e. absurd (ground (arith, e));
      idle = λ e. refl;
      unmade = v.unmade;
      released = v.released;
      pending = settled-Pending me new_event ws (closed_all me w ws v q);
    }

-- The event's channel is closed, having been made if it was nil.
sets_at :
    (me : Event) (w : Chans) (ws : Waiters) (o : Option ℕ)
    → Inv me w ws
    → me.ch ≡ o
    → me.closed ≡ false
    → ((chan_of o w).1.is_closed (chan_of o w).0 ≡ false)
      × Inv
          (record { ch = some (chan_of o w).0; closed = true })
          (record {
            is_closed = put (chan_of o w).0 true (chan_of o w).1.is_closed;
            fresh = (chan_of o w).1.fresh;
          })
          (release ws)
sets_at me w ws none v e q = (
  v.unmade w.fresh (omega arith),
  record {
    current = λ ch z. ground (arith, z);
    idle = λ z. absurd (ground (arith, z));
    unmade = λ ch l. ground (arith, v.unmade ch, l);
    released =
        Released-put me w ws w.fresh (suc w.fresh) (λ d z. absurd (ground (arith, e, z))) v.released
          v.pending;
    pending = Pending-release (record { ch = some w.fresh; closed = true }) ws;
  },
)
sets_at me w ws (some d) v e q = (
  (v.current d e).0 ∙ q,
  record {
    current = λ ch z. ground (arith, z, v.current d e);
    idle = λ z. absurd (ground (arith, z));
    unmade = λ ch l. ground (arith, v.unmade ch, v.current d e, l);
    released = Released-put me w ws d w.fresh (λ j z. ground (arith, e, z)) v.released v.pending;
    pending = Pending-release (record { ch = some d; closed = true }) ws;
  },
)

sets-Inv :
    (me : Event) (w : Chans) (ws : Waiters)
    → Inv me w ws
    → Returns (λ r. Inv r.1.0 r.1.1 (release ws)) (set me w)
unfolding set close_chan
sets-Inv me w ws v = elim (Bool-cases me.closed) [
  | inl q ↦ (
    (false, (me, w)),
    ground (arith, q),
    subst (λ z. Inv me w z) (sym (closed_all me w ws v q)) v,
  )
  | inr q ↦
      let (still, i) = sets_at me w ws me.ch v refl q in
      (
        (
          true,
          (
            record { ch = some (chan_of me.ch w).0; closed = true },
            record {
              is_closed = put (chan_of me.ch w).0 true (chan_of me.ch w).1.is_closed;
              fresh = (chan_of me.ch w).1.fresh;
            },
          ),
        ),
        ground (arith, q, still),
        i,
      )
]

Step-Inv :
    {me : Event} {w : Chans} {ws : Waiters} {me' : Event} {w' : Chans} {ws' : Waiters}
    → Step me w ws me' w' ws'
    → Inv me w ws
    → Inv me' w' ws'
Step-Inv {me} {w} {ws} waits v = waits-Inv me w ws v
Step-Inv {me} {w} {ws} clears v = clears-Inv me w ws v
Step-Inv {me} {w} {ws} (sets first me' w' e) v =
    Returns_done (λ r. Inv r.1.0 r.1.1 (release ws)) (set me w) (sets-Inv me w ws v) e

Run-Inv : {me : Event} {w : Chans} {ws : Waiters} → Run me w ws → Inv me w ws
unfolding no_chans
Run-Inv here = record {
  current = λ ch e. absurd (ground (arith, e));
  idle = λ e. refl;
  unmade = λ ch l. refl;
  released = tt;
  pending = tt;
}
Run-Inv (next r s) = Step-Inv s (Run-Inv r)

-- After any calls of `C`, `Set` and `Clear` on an event, `Set` returns, and then the channel of
-- everyone who has asked for one is closed; and whatever is called, a channel that was handed out is
-- closed exactly if the event was set when it was handed out or has been set since, so that no
-- waiter is lost by a `Clear` that comes before it has gone on.
pub Run-set-Released :
    (me : Event) (w : Chans) (ws : Waiters)
    → Run me w ws
    → Released w ws × Returns (λ r. Released r.1.1 (release ws)) (set me w)
Run-set-Released me w ws r =
    let v = Run-Inv r in let (x, p, i) = sets-Inv me w ws v in (v.released, (x, p, i.released))
