-- ===== src/Event/Kept.antt =====
-- The waiters of an event, and what holds between calls.
use missinggo.Base.{
  ℕ, ◌<◌, ◌≤◌, ◌≡◌, refl, sym, ◌∙◌, Bool, true, false, List, [], ◌∷◌, none, some, put, arith,
}
use missinggo.Base.Outcome.{done}
use missinggo.Event.{Chans, no_chans, Event, new_event, c, clear, set}

-- Each waiter has a channel, and has been released by the event or not: it was set when the waiter
-- came, or has been set since.
abbrev pub Waiters : Type 0
Waiters = List (ℕ × Bool)

abbrev pub release : Waiters → Waiters
release [] = []
release ((ch, b) ∷ ws) = (ch, true) ∷ release ws

-- A waiter's channel is closed exactly if it was released.
abbrev pub Released : Chans → Waiters → Type 0
Released w [] = Unit {0}
Released w ((ch, b) ∷ ws) = (w.is_closed ch ≡ b) × Released w ws

-- The calls on an event.
pub data Step (me : Event) (w : Chans) (ws : Waiters) : Event → Chans → Waiters → Type 0 where
  waits : Step me w ws (c me w).1.0 (c me w).1.1 (((c me w).0, me.closed) ∷ ws)
  clears : Step me w ws (clear me) w ws
  sets :
      (first : Bool) (me' : Event) (w' : Chans)
      → set me w ≡ done (first, (me', w'))
      → Step me w ws me' w' (release ws)

pub data Run : Event → Chans → Waiters → Type 0 where
  here : Run new_event no_chans []
  next :
      {me me' : Event} {w w' : Chans} {ws ws' : Waiters}
      → Run me w ws
      → Step me w ws me' w' ws'
      → Run me' w' ws'

-- A waiter that is not released waits on the event's channel.
abbrev Pending : Event → Waiters → Type 0
Pending me [] = Unit {0}
Pending me ((ch, b) ∷ ws) = (b ≡ false → me.ch ≡ some ch) × Pending me ws

pub record Inv (me : Event) (w : Chans) (ws : Waiters) : Type 0 where
  pub current : (ch : ℕ) → me.ch ≡ some ch → (w.is_closed ch ≡ me.closed) × (ch < w.fresh)
  pub idle : me.ch ≡ none → me.closed ≡ false
  pub unmade : (ch : ℕ) → w.fresh ≤ ch → w.is_closed ch ≡ false
  pub released : Released w ws
  pub pending : Pending me ws

-- With a set or a nil channel nobody is pending.
pub all_released :
    (me : Event) (w : Chans) (ws : Waiters)
    → ((ch : ℕ) → me.ch ≡ some ch → w.is_closed ch ≡ true)
    → Released w ws
    → Pending me ws
    → release ws ≡ ws
all_released me w [] h r p = refl
all_released me w ((ch, b) ∷ ws) h r p =
    ground (arith, h ch, r.0, p.0, all_released me w ws h r.1 p.1)

pub Pending-release : (me : Event) (ws : Waiters) → Pending me (release ws)
Pending-release me [] = tt
Pending-release me ((ch, b) ∷ ws) = (λ e. absurd (ground (arith, e)), Pending-release me ws)

-- Closing the event's channel releases everyone.
pub Released-put :
    (me : Event) (w : Chans) (ws : Waiters) (ch n : ℕ)
    → ((d : ℕ) → me.ch ≡ some d → d ≡ ch)
    → Released w ws
    → Pending me ws
    → Released (record { is_closed = put ch true w.is_closed; fresh = n }) (release ws)
Released-put me w [] ch n h r p = tt
Released-put me w ((d, b) ∷ ws) ch n h r p =
    (ground (arith, h d, r.0, p.0), Released-put me w ws ch n h r.1 p.1)

pub Released_same :
    (w w' : Chans) (ws : Waiters)
    → ((ch : ℕ) → w'.is_closed ch ≡ w.is_closed ch)
    → Released w ws
    → Released w' ws
Released_same w w' [] h r = tt
Released_same w w' ((ch, b) ∷ ws) h r = (h ch ∙ r.0, Released_same w w' ws h r.1)

pub settled-Pending : (me me' : Event) (ws : Waiters) → release ws ≡ ws → Pending me' ws
settled-Pending me me' [] h = tt
settled-Pending me me' ((ch, b) ∷ ws) h =
    (λ e. absurd (ground (arith, h, e)), settled-Pending me me' ws (ground (arith, h)))

pub moved-Pending :
    (me me' : Event) (ws : Waiters) → me.ch ≡ me'.ch → Pending me ws → Pending me' ws
moved-Pending me me' [] h p = tt
moved-Pending me me' ((ch, b) ∷ ws) h p = (λ e. sym h ∙ p.0 e, moved-Pending me me' ws h p.1)

-- With no channel nobody is pending.
pub idle-Pending :
    (me me' : Event) (w : Chans) (ws : Waiters) → Inv me w ws → me.ch ≡ none → Pending me' ws
idle-Pending me me' w ws v e =
    settled-Pending me me' ws
      (all_released me w ws (λ ch q. absurd (ground (arith, e, q))) v.released v.pending)
