-- ===== src/PriorityBitmap.antt =====
-- prioritybitmap/prioritybitmap.go: a set of ints, each with a priority, walked in ascending order
-- of priority. An operation runs under the bitmap's mutex.
pub mod Deleted
pub mod Invariant
pub mod Walk
mod Tests
use missinggo.Base.{
  ℕ, ◌≡◌, Bool, true, false, not, List, [], ◌∷◌, Option, none, some, if◌then◌else◌, ◌==◌, length,
}
use missinggo.Base.Int.{ℤ, ltb_ℤ, beq_ℤ, int_eq}
use missinggo.Base.Dict.{lookup, insert, erase}
use missinggo.Base.Callbacks.{Callback, each_all}
use missinggo.Base.Outcome.{Outcome, done, panics, ◌>>=◌}
use missinggo.OrderedMap.Interface.{OrderedMap}

-- Go's `map[int]struct{}`.
abbrev pub IntSet : Type 0
IntSet = List (ℤ × Unit {0})

-- What the ordered map has at a priority: a lone bit, or a set of bits.
pub data Slot : Type 0 where
  lone : ℤ → Slot
  bits : IntSet → Slot

-- The slot that `Set` leaves at a priority for one more bit.
unfoldable pub add_bit : ℤ → Option Slot → Slot
add_bit bit none = lone bit
add_bit bit (some (lone v)) = bits (insert bit tt (insert v tt []))
add_bit bit (some (bits v)) = bits (insert bit tt v)

abbrev pub had : Option ℤ → ℤ → Bool
had none priority = false
had (some p) priority = beq_ℤ p priority

abbrev pub set_bits : IntSet → List ℤ
set_bits [] = []
set_bits ((b, u) ∷ v) = b ∷ set_bits v

-- The callback of `IterTyped` at one priority.
unfoldable pub iter_slot : {S : Type 0} → Callback ℤ S → Option Slot → S → S × Bool
iter_slot f none s = (s, true)
iter_slot f (some (lone v)) s = f v s
iter_slot f (some (bits v)) s = each_all (set_bits v) f s

module _ (maps : OrderedMap Slot ltb_ℤ) where
  -- Nil and empty maps read alike; `om` is nil or not empty.
  pub record PriorityBitmap : Type 0 where
    pub om : Option maps.Map
    pub priorities : List (ℤ × ℤ)

  unfoldable pub clear : PriorityBitmap
  clear = record { om = none; priorities = [] }

  unfoldable pub contains : PriorityBitmap → ℤ → Bool
  contains me bit = elim (lookup bit me.priorities) [ none ↦ false | some p ↦ true ]

  unfoldable pub get_priority : PriorityBitmap → ℤ → Option ℤ
  get_priority me bit = lookup bit me.priorities

  unfoldable pub len : PriorityBitmap → ℕ
  len me = length me.priorities

  unfoldable pub is_empty : PriorityBitmap → Bool
  is_empty me = elim me.om [ none ↦ true | some o ↦ maps.len o == 0 ]

  -- The ordered map after `Unset`, nil if nothing is left.
  abbrev pub unset_slot : ℤ → maps.Map → Option maps.Map
  unset_slot priority o =
      let o' = maps.unset priority o in if maps.len o' == 0 then none else some o'

  -- The switch of `deleteBit` on what stands at the bit's priority. A set changes in place.
  unfoldable pub delete_from : maps.Map → ℤ → ℤ → Option Slot → Outcome (Option maps.Map)
  delete_from o priority bit none = done (unset_slot priority o)
  delete_from o priority bit (some (lone v)) =
      if beq_ℤ v bit then done (unset_slot priority o) else panics
  delete_from o priority bit (some (bits v)) = elim (lookup bit v) [
    | none ↦ panics
    | some u ↦
        if length (erase bit v) == 0
        then done (unset_slot priority o)
        else done (some (maps.set priority (bits (erase bit v)) o))
  ]

  -- `deleteBit`: the ordered map without the bit, and the priority that the bit had, if any.
  unfoldable pub delete_bit : PriorityBitmap → ℤ → Outcome (Option maps.Map × Option ℤ)
  unfolding delete_from
  delete_bit me bit = elim (lookup bit me.priorities) [
    | none ↦ done (me.om, none)
    | some priority ↦ elim me.om [
      | none ↦ panics
      | some o ↦ do
        o' ← delete_from o priority bit (maps.get_ok priority o)
        done (o', some priority)
    ]
  ]

  abbrev pub or_new : Option maps.Map → maps.Map
  or_new none = maps.new
  or_new (some o) = o

  -- `Set`, with whether the priority changed or the bit was not there.
  unfoldable pub set : PriorityBitmap → ℤ → ℤ → Outcome (PriorityBitmap × Bool)
  set me bit priority =
      let write : Outcome (PriorityBitmap × Bool) = (do
        (o, old) ← delete_bit me bit
        let o' = or_new o
        if had old priority
            then panics
            else done (
              record {
                om = some (maps.set priority (add_bit bit (maps.get_ok priority o')) o');
                priorities = insert bit priority me.priorities;
              },
              true,
            )) in
      elim (lookup bit me.priorities) [
        | none ↦ write
        | some p ↦ if beq_ℤ p priority then done (me, false) else write
      ]

  unfoldable pub remove : PriorityBitmap → ℤ → Outcome (PriorityBitmap × Bool)
  remove me bit = do
    (o, old) ← delete_bit me bit
    elim old [
      | none ↦ done (me, false)
      | some p ↦ done (record { om = o; priorities = erase bit me.priorities }, true)
    ]

  -- `iter.All` over the one walk of the ordered map: whether every call asked for more.
  unfoldable pub iter_typed : {S : Type 0} → PriorityBitmap → Callback ℤ S → S → S × Bool
  iter_typed {S} me f s = elim me.om [
    | none ↦ (s, true)
    | some o ↦
        maps.iter (S × Bool) o
          (λ key r. elim r.1 [
            | true ↦ let (s', all) = iter_slot f (maps.get_ok key o) r.0 in ((s', all), all)
            | false ↦ (r, false)
          ])
          (s, true)
  ]
