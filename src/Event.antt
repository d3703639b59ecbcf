-- ===== src/Event.antt =====
-- event.go, event_synchronized.go, wait_event.go and chancond.go: events that are waited for by
-- channels which are closed. A channel is known by its number; a receive goes on once it is closed.
-- A section under the owner's lock is one call; `SynchronizedEvent` makes these calls under its mutex.
pub mod Kept
pub mod Waiters
mod Tests
use missinggo.Base.{
  ℕ, suc, ◌≡◌, Bool, true, false, ◌||◌, List, [], ◌∷◌, Option, none, some, put, ltb, if◌then◌else◌,
}
use missinggo.Base.Outcome.{Outcome, done, panics, ◌>>=◌}

-- Which channels are closed, and the next to be made.
pub record Chans : Type 0 where
  pub is_closed : ℕ → Bool
  pub fresh : ℕ

unfoldable pub no_chans : Chans
no_chans = record { is_closed = λ c. false; fresh = 0 }

unfoldable pub close_chan : ℕ → Chans → Outcome Chans
close_chan c w =
    if w.is_closed c then panics else done (record w { is_closed = put c true w.is_closed })

-- The channel of a variable, made if it is nil.
abbrev pub chan_of : Option ℕ → Chans → ℕ × Chans
chan_of none w = (w.fresh, record w { fresh = suc w.fresh })
chan_of (some c) w = (c, w)

pub record Event : Type 0 where
  pub ch : Option ℕ
  pub closed : Bool

abbrev pub new_event : Event
new_event = record { ch = none; closed = false }

-- `C`; `LockedChan` is the same under a lock.
unfoldable pub c : Event → Chans → ℕ × (Event × Chans)
c me w = let (ch, w') = chan_of me.ch w in (ch, (record me { ch = some ch }, w'))

unfoldable pub clear : Event → Event
clear me = if me.closed then record { ch = none; closed = false } else me

-- With whether it was the first to set the event.
unfoldable pub set : Event → Chans → Outcome (Bool × (Event × Chans))
unfolding close_chan
set me w =
    let (ch, w') = chan_of me.ch w in
    if me.closed
    then done (false, (me, w))
    else (close_chan ch w' >>= λ w''. done (true, (record { ch = some ch; closed = true }, w'')))

unfoldable pub is_set : Event → Bool
is_set me = me.closed

unfoldable pub set_bool : Bool → Event → Chans → Outcome (Event × Chans)
unfolding set clear
set_bool true me w = set me w >>= λ r. done r.1
set_bool false me w = done (clear me, w)

-- `WaitEvents`: the channels that it selects from, and whether the selection goes on.
unfoldable pub wait_events : List Event → Chans → List ℕ × (List Event × Chans)
unfolding c
wait_events [] w = ([], ([], w))
wait_events (ev ∷ evs) w =
    let (ch, (ev', w')) = c ev w in
    let (chs, (evs', w'')) = wait_events evs w' in (ch ∷ chs, (ev' ∷ evs', w''))

unfoldable pub any_closed : List ℕ → Chans → Bool
any_closed [] w = false
any_closed (ch ∷ chs) w = w.is_closed ch || any_closed chs w

-- `ChanCond`, which is its channel.
abbrev pub ChanCond : Type 0
ChanCond = Option ℕ

unfoldable pub wait : ChanCond → Chans → ℕ × (ChanCond × Chans)
wait me w = let (ch, w') = chan_of me w in (ch, (some ch, w'))

-- With the channel on which one of the receivers that wait, of which there are as many as told, goes
-- on; a send on a nil channel is not ready.
unfoldable pub signal : (ℕ → ℕ) → ChanCond → Option ℕ
signal receivers none = none
signal receivers (some ch) = if ltb 0 (receivers ch) then some ch else none

unfoldable pub broadcast : ChanCond → Chans → Outcome (ChanCond × Chans)
unfolding close_chan
broadcast none w = done (none, w)
broadcast (some ch) w = close_chan ch w >>= λ w'. done (none, w')
