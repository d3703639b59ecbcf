-- ===== src/Event/Tests.antt =====
-- An event with a waiter before it is set and one after.
use missinggo.Base.{◌≡◌, refl, true, false, [], ◌∷◌, some, put}
use missinggo.Base.Outcome.{done, Returns}
use missinggo.Event.{Chans, no_chans, close_chan, Event, c, set}
use missinggo.Event.Kept
use missinggo.Event.Waiters.{Run-set-Released}
use missinggo.Event.Kept.{Run, Waiters, release, Released}

abbrev waiting : Event
waiting = record { ch = some 0; closed = false }

abbrev one_chan : Chans
one_chan = record { is_closed = λ ch. false; fresh = 1 }

abbrev is_on : Event
is_on = record { ch = some 0; closed = true }

abbrev one_closed : Chans
one_closed = record { is_closed = put 0 true (λ ch. false); fresh = 1 }

one_waiter : Run waiting one_chan ((0, false) ∷ [])
unfolding c no_chans
one_waiter = Kept.next Kept.here Kept.waits

sets_it : set waiting one_chan ≡ done (true, (is_on, one_closed))
unfolding set close_chan
sets_it = refl

two_waiters : Run is_on one_closed ((0, true) ∷ (0, true) ∷ [])
unfolding c
two_waiters = Kept.next (Kept.next one_waiter (Kept.sets true is_on one_closed sets_it)) Kept.waits

Run-set-Released_example :
    Released one_closed ((0, true) ∷ (0, true) ∷ [])
    × Returns (λ r. Released r.1.1 ((0, true) ∷ (0, true) ∷ [])) (set is_on one_closed)
Run-set-Released_example =
    Run-set-Released is_on one_closed ((0, true) ∷ (0, true) ∷ []) two_waiters
