-- ===== src/PubSub.antt =====
-- pubsub/pubsub.go. Each value is handed on in a channel of capacity one, together with the channel
-- of the next value; a subscription puts back what it takes. A step of the model is a section under
-- a mutex, or one receive or send of a subscription's `runner`; any interleaving is a run.
pub mod Safe
pub mod Handing
pub mod Runs
pub mod Follow
pub mod Order
mod Tests
use missinggo.Base.{
  ℕ, suc, ◌+◌, ◌≡◌, Bool, true, false, ◌||◌, not, List, [], ◌∷◌, ◌++◌, Option, none, some,
  if◌then◌else◌, put, ◌==◌,
}

abbrev pub is_nil : Option ℕ → Bool
is_nil none = true
is_nil (some c) = false

module _ (V : Type 0) where
  -- `chan item` of capacity one. Channels are numbered in the order in which they get in use.
  pub record Chan : Type 0 where
    pub item : Option (V × ℕ)
    pub shut : Bool

  abbrev pub new_chan : Chan
  new_chan = record { item = none; shut = false }

  -- Where `runner` stands.
  pub data Phase : Type 0 where
    -- in the first select
    receiving : Phase
    -- before `me.next <- i`
    returning : V → ℕ → Phase
    -- in the select on `me.Values`
    giving : V → Phase
    ended : Phase

  -- A subscription, with the values that came out of `Values`.
  pub record Subscription : Type 0 where
    pub next : Option ℕ
    pub phase : Phase
    pub values : List V
    pub closed : Bool

  pub record World : Type 0 where
    pub chans : ℕ → Chan
    pub fresh : ℕ
    pub next : Option ℕ
    pub closed : Bool
    pub subs : ℕ → Option Subscription

  unfoldable pub new_pub_sub : World
  new_pub_sub = record {
    chans = λ c. new_chan;
    fresh = 0;
    next = none;
    closed = false;
    subs = λ s. none;
  }

  unfoldable pub lazy_init : World → World
  lazy_init w = if w.closed then w else (elim w.next [
    | none ↦ record w {
      chans = put w.fresh new_chan w.chans;
      fresh = suc w.fresh;
      next = some w.fresh;
    }
    | some c ↦ w
  ])

  -- How a section under a mutex ends.
  pub data Effect : Type 0 where
    goes : World → Effect
    blocks : Effect
    panicked : Effect

  -- `c <- i`.
  unfoldable pub send_item : ℕ → V × ℕ → World → Effect
  send_item c i w = if (w.chans c).shut then panicked else (elim (w.chans c).item [
    | some j ↦ blocks
    | none ↦ goes (record w { chans = put c (record { item = some i; shut = false }) w.chans })
  ])

  -- The second section of `Publish`.
  unfoldable pub publish : V → World → Effect
  publish v w = if w.closed then goes w else (elim w.next [
    | none ↦ blocks
    | some c ↦ elim (send_item c (v, w.fresh) w) [
      | goes w' ↦ goes (record w' {
        chans = put w.fresh new_chan w'.chans;
        fresh = suc w.fresh;
        next = some w.fresh;
      })
      | blocks ↦ blocks
      | panicked ↦ panicked
    ]
  ])

  abbrev pub shut_next : Option ℕ → (ℕ → Chan) → ℕ → Chan
  shut_next none cs = cs
  shut_next (some c) cs = put c (record { item = (cs c).item; shut = true }) cs

  -- `PubSub.Close`.
  unfoldable pub close : World → World
  close w = if w.closed then w else record w { chans = shut_next w.next w.chans; closed = true }

  -- The second section of `Subscribe`.
  unfoldable pub subscribe : ℕ → World → World
  subscribe s w = record w {
    subs =
        put s (some (record { next = w.next; phase = receiving; values = []; closed = false }))
          w.subs;
  }

  -- `runner` in its first select, on the channel.
  unfoldable pub receive : ℕ → Subscription → World → Option World
  receive s me w = elim me.next [
    | none ↦ none
    | some c ↦ elim (w.chans c).item [
      | some (v, d) ↦ some (record w {
        chans = put c (record { item = none; shut = (w.chans c).shut }) w.chans;
        subs = put s (some (record me { phase = returning v d })) w.subs;
      })
      | none ↦
          if (w.chans c).shut
          then some
              (record w { subs = put s (some (record me { phase = ended; closed = true })) w.subs })
          else none
    ]
  ]

  -- `me.next <- i; me.next = i.next`.
  unfoldable pub give_back : ℕ → Subscription → V → ℕ → World → Effect
  give_back s me v d w = elim me.next [
    | none ↦ blocks
    | some c ↦ elim (send_item c (v, d) w) [
      | goes w' ↦ goes (record w' {
        subs = put s (some (record me { next = some d; phase = giving v })) w'.subs;
      })
      | blocks ↦ blocks
      | panicked ↦ panicked
    ]
  ]

  -- A receiver takes the value out of `Values`.
  unfoldable pub deliver : ℕ → Subscription → V → World → World
  deliver s me v w = record w {
    subs = put s (some (record me { phase = receiving; values = me.values ++ v ∷ [] })) w.subs;
  }

  -- `Subscription.Close`.
  unfoldable pub unsubscribe : ℕ → Subscription → World → World
  unsubscribe s me w = record w { subs = put s (some (record me { closed = true })) w.subs }

  -- `runner` returns, in either select.
  unfoldable pub stop : ℕ → Subscription → World → World
  stop s me w = record w { subs = put s (some (record me { phase = ended })) w.subs }

  -- The steps, with the values published before and after.
  pub data Step (w : World) (sent : List V) : World → List V → Type 0 where
    do_init : Step w sent (lazy_init w) sent
    do_publish :
        (v : V) (w' : World)
        → w.closed ≡ false
        → publish v w ≡ goes w'
        → Step w sent w' (sent ++ v ∷ [])
    too_late : (v : V) → w.closed ≡ true → Step w sent w sent
    do_close : Step w sent (close w) sent
    do_subscribe :
        (s : ℕ)
        → w.subs s ≡ none
        → (w.closed || not (is_nil w.next)) ≡ true
        → Step w sent (subscribe s w) sent
    do_receive :
        (s : ℕ) (me : Subscription) (w' : World)
        → w.subs s ≡ some me
        → me.phase ≡ receiving
        → receive s me w ≡ some w'
        → Step w sent w' sent
    do_give_back :
        (s : ℕ) (me : Subscription) (v : V) (d : ℕ) (w' : World)
        → w.subs s ≡ some me
        → me.phase ≡ returning v d
        → give_back s me v d w ≡ goes w'
        → Step w sent w' sent
    do_deliver :
        (s : ℕ) (me : Subscription) (v : V)
        → w.subs s ≡ some me
        → me.phase ≡ giving v
        → Step w sent (deliver s me v w) sent
    do_unsubscribe :
        (s : ℕ) (me : Subscription) → w.subs s ≡ some me → Step w sent (unsubscribe s me w) sent
    stop_receiving :
        (s : ℕ) (me : Subscription)
        → w.subs s ≡ some me
        → me.closed ≡ true
        → me.phase ≡ receiving
        → Step w sent (stop s me w) sent
    stop_giving :
        (s : ℕ) (me : Subscription) (v : V)
        → w.subs s ≡ some me
        → me.closed ≡ true
        → me.phase ≡ giving v
        → Step w sent (stop s me w) sent
