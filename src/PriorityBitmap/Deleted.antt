-- ===== src/PriorityBitmap/Deleted.antt =====
-- The two maps of prioritybitmap.go, and `deleteBit`.
use missinggo.Base.{
  ◌≡◌, refl, sym, Bool, true, false, ◌||◌, List, [], ◌∷◌, Option, none, some, arith, if◌then◌else◌,
  ◌==◌, length, inl, inr, Bool-cases, Option-cases,
}
use missinggo.Base.Int.{ℤ, ltb_ℤ, beq_ℤ, int_eq, beq_ℤ_iff, same-ltb_ℤ}
use missinggo.Base.Dict.{lookup, insert, erase, lookup-insert, lookup-erase}
use missinggo.Base.Outcome.{Returns}
use missinggo.OrderedMap.Interface.{OrderedMap, is_some}
use missinggo.OrderedMap.Sorted.{find_item}
use missinggo.PriorityBitmap.{
  IntSet, Slot, lone, bits, PriorityBitmap, unset_slot, delete_from, delete_bit, add_bit, or_new,
}

abbrev pub slot_has : Option Slot → ℤ → Bool
slot_has none b = false
slot_has (some (lone v)) b = beq_ℤ v b
slot_has (some (bits v)) b = is_some (lookup b v)

abbrev pub has_priority : Option ℤ → ℤ → Bool
has_priority none p = false
has_priority (some q) p = beq_ℤ q p

module _ (maps : OrderedMap Slot ltb_ℤ) where
  abbrev pub slot_at : Option maps.Map → ℤ → Option Slot
  slot_at none p = none
  slot_at (some o) p = maps.get_ok p o

  -- The ordered map has each bit at its priority and nowhere else.
  pub record Inv (me : PriorityBitmap maps) : Type 0 where
    pub agree : (p b : ℤ) → slot_has (slot_at me.om p) b ≡ has_priority (lookup b me.priorities) p

  pub get_ok-set :
      (p q : ℤ) (v : Slot) (o : maps.Map)
      → maps.get_ok q (maps.set p v o) ≡ (if beq_ℤ q p then some v else maps.get_ok q o)
  get_ok-set p q v o = rw (← same-ltb_ℤ q p) (maps.get_ok_set p q v o)

  get_ok-unset :
      (p q : ℤ) (o : maps.Map)
      → maps.get_ok q (maps.unset p o) ≡ (if beq_ℤ q p then none else maps.get_ok q o)
  get_ok-unset p q o = rw (← same-ltb_ℤ q p) (maps.get_ok_unset p q o)

  -- An ordered map of length 0 finds nothing, so nil may stand for it.
  get_ok-empty : (p : ℤ) (o : maps.Map) → maps.len o ≡ 0 → maps.get_ok p o ≡ none
  unfolding find_item
  get_ok-empty p o h = from (maps.keys o) refl
    where
      from : (l : List ℤ) → maps.keys o ≡ l → maps.get_ok p o ≡ none
      from [] e = ground (arith, maps.keys_get_ok p o)
      from (k ∷ ks) e = absurd (ground (arith, maps.len_keys o))

  slot_at-unset :
      (p q : ℤ) (o : maps.Map)
      → slot_at (unset_slot maps p o) q ≡ (if beq_ℤ q p then none else maps.get_ok q o)
  slot_at-unset p q o = ground (arith, get_ok-unset p q o, get_ok-empty q (maps.unset p o))

  -- The slots after a bit is taken from one priority.
  abbrev Deleted : maps.Map → ℤ → ℤ → Option maps.Map → Type 0
  Deleted o p b o' =
      (q j : ℤ)
      → slot_has (slot_at o' q) j ≡ (
          if beq_ℤ q p
          then (if beq_ℤ b j then false else slot_has (maps.get_ok q o) j)
          else slot_has (maps.get_ok q o) j)

  unset-Deleted :
      (o : maps.Map) (p b : ℤ)
      → ((j : ℤ) → beq_ℤ b j ≡ false → slot_has (maps.get_ok p o) j ≡ false)
      → Deleted o p b (unset_slot maps p o)
  unset-Deleted o p b only q j = ground (arith, slot_at-unset p q o, only j, beq_ℤ_iff q p)

  set-Deleted :
      (o : maps.Map) (p b : ℤ) (v : IntSet)
      → maps.get_ok p o ≡ some (bits v)
      → Deleted o p b (some (maps.set p (bits (erase b v)) o))
  set-Deleted o p b v e q j =
      ground (arith, get_ok-set p q (bits (erase b v)) o, lookup-erase b j v, beq_ℤ_iff q p)

  lookup_last :
      (b j : ℤ) (v : IntSet) → length (erase b v) ≡ 0 → beq_ℤ b j ≡ false → lookup j v ≡ none
  lookup_last b j v h ne = from (erase b v) refl h
    where
      from : (w : IntSet) → erase b v ≡ w → length w ≡ 0 → lookup j v ≡ none
      from [] e h = ground (arith, lookup-erase b j v)
      from (x ∷ w) e h = absurd (omega arith)

  delete_from-Deleted :
      (o : maps.Map) (p b : ℤ) (slot : Option Slot)
      → maps.get_ok p o ≡ slot
      → slot_has slot b ≡ true
      → Returns (Deleted o p b) (delete_from maps o p b slot)
  unfolding delete_from
  delete_from-Deleted o p b none e h = cc
  delete_from-Deleted o p b (some (lone v)) e h = (
    unset_slot maps p o,
    rw h,
    unset-Deleted o p b (λ j ne. ground (arith, beq_ℤ_iff v b, beq_ℤ_iff b j, beq_ℤ_iff v j)),
  )
  delete_from-Deleted o p b (some (bits v)) e h = elim (Option-cases (lookup b v)) [
    | inl q ↦ absurd (ground arith)
    | inr (u, q) ↦ elim (Bool-cases (length (erase b v) == 0)) [
      | inl last ↦ (
        unset_slot maps p o,
        rw (q, last, delete_from),
        unset-Deleted o p b (λ j ne. ground (arith, lookup_last b j v)),
      )
      | inr more ↦
          (some (maps.set p (bits (erase b v)) o), rw (q, more, delete_from), set-Deleted o p b v e)
    ]
  ]

  -- `deleteBit` finds the bit where its priority says, and takes it from there only.
  pub delete_bit-Deleted :
      (me : PriorityBitmap maps) (b : ℤ)
      → Inv me
      → Returns
          (λ r.
            (r.1 ≡ lookup b me.priorities)
            × ((q j : ℤ)
                → slot_has (slot_at r.0 q) j
                  ≡ (if beq_ℤ b j then false else slot_has (slot_at me.om q) j)))
          (delete_bit maps me b)
  unfolding delete_bit
  delete_bit-Deleted me b v = elim (Option-cases (lookup b me.priorities)) [
    | inl absent ↦ (
      (me.om, none),
      rw (absent, delete_bit),
      (sym absent, λ q j. ground (arith, v.agree q j, beq_ℤ_iff b j)),
    )
    | inr (p, found) ↦ elim (Option-cases me.om) [
      | inl empty ↦ absurd (ground (arith, v.agree p b, beq_ℤ_iff p p))
      | inr (o, held) ↦
          let (o', e, d) =
            delete_from-Deleted o p b (maps.get_ok p o) refl
              (ground (arith, v.agree p b, beq_ℤ_iff p p)) in
          (
            (o', some p),
            rw (found, held, e, delete_bit),
            (
              sym found,
              λ q j.
                  ground (arith, d q j, v.agree q j, beq_ℤ_iff b j, beq_ℤ_iff p q, beq_ℤ_iff q p),
            ),
          )
    ]
  ]

  pub add_bit-has :
      (b j : ℤ) (slot : Option Slot)
      → slot_has (some (add_bit b slot)) j ≡ (beq_ℤ b j || slot_has slot j)
  unfolding add_bit
  add_bit-has b j none = ground arith
  add_bit-has b j (some (lone v)) =
      ground (arith, lookup-insert b j tt (insert v tt []), lookup-insert v j tt [])
  add_bit-has b j (some (bits v)) = ground (arith, lookup-insert b j tt v)

  pub or_new-slot : (o : Option maps.Map) (q : ℤ) → maps.get_ok q (or_new maps o) ≡ slot_at o q
  or_new-slot none q = maps.get_ok_new q
  or_new-slot (some o) q = refl
