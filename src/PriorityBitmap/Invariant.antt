-- ===== src/PriorityBitmap/Invariant.antt =====
-- The operations of prioritybitmap.go on its two maps.
use missinggo.Base.{
  ◌≡◌, refl, ap, ◌∙◌, Bool, true, false, not, Option, none, some, arith, if◌then◌else◌, inl, inr,
  Bool-cases, Option-cases,
}
use missinggo.Base.Int.{ℤ, ltb_ℤ, beq_ℤ, int_eq, beq_ℤ_iff}
use missinggo.Base.Dict.{lookup, insert, erase, lookup-insert, lookup-erase}
use missinggo.Base.Outcome.{done, Returns}
use missinggo.OrderedMap.Interface.{OrderedMap}
use missinggo.PriorityBitmap.{
  Slot, PriorityBitmap, contains, delete_bit, add_bit, or_new, had, set, remove, clear,
}
use missinggo.PriorityBitmap.Deleted.{
  slot_has, has_priority, slot_at, Inv, get_ok-set, delete_bit-Deleted, add_bit-has, or_new-slot,
}

module _ (maps : OrderedMap Slot ltb_ℤ) where
  -- The bitmap after `Set` has written.
  written : PriorityBitmap maps → Option maps.Map → ℤ → ℤ → PriorityBitmap maps
  written me o b p = record {
    om = some (maps.set p (add_bit b (maps.get_ok p (or_new maps o))) (or_new maps o));
    priorities = insert b p me.priorities;
  }

  written-Inv :
      (me : PriorityBitmap maps) (o : Option maps.Map) (b p : ℤ)
      → (Inv maps) me
      → ((q j : ℤ)
          → slot_has ((slot_at maps) o q) j
            ≡ (if beq_ℤ b j then false else slot_has ((slot_at maps) me.om q) j))
      → (Inv maps) (written me o b p)
  unfolding written
  written-Inv me o b p v d = record {
    agree = λ q j. ground (
      arith,
      (get_ok-set maps) p q (add_bit b (maps.get_ok p (or_new maps o))) (or_new maps o),
      (add_bit-has maps) b j (maps.get_ok p (or_new maps o)),
      (or_new-slot maps) o q,
      d q j,
      v.agree q j,
      lookup-insert b j p me.priorities,
      beq_ℤ_iff q p,
      beq_ℤ_iff p q,
    );
  }

  -- What `Set` promises of its result.
  pub record WasSet (me : PriorityBitmap maps) (b p : ℤ) (r : PriorityBitmap maps × Bool)
      : Type 0 where
    pub inv : (Inv maps) r.0
    pub changed : r.1 ≡ not (has_priority (lookup b me.priorities) p)
    pub priorities :
        (j : ℤ) → lookup j r.0.priorities ≡ (if beq_ℤ b j then some p else lookup j me.priorities)

  has_priority_iff : (o : Option ℤ) (p : ℤ) → has_priority o p ≡ true → o ≡ some p
  has_priority_iff none p h = cc
  has_priority_iff (some q) p h = ap some ((beq_ℤ_iff q p).0 h)

  set_same :
      (me : PriorityBitmap maps) (b p : ℤ)
      → lookup b me.priorities ≡ some p
      → set maps me b p ≡ done (me, false)
  unfolding set
  set_same me b p h = rw (h, set) (rw ((beq_ℤ_iff p p).1 refl) refl)

  had_not : (o : Option ℤ) (p : ℤ) → has_priority o p ≡ false → had o p ≡ false
  had_not none p h = refl
  had_not (some q) p h = h

  set_other :
      (me : PriorityBitmap maps) (b p : ℤ) (o : Option maps.Map) (old : Option ℤ)
      → has_priority (lookup b me.priorities) p ≡ false
      → delete_bit maps me b ≡ done (o, old)
      → old ≡ lookup b me.priorities
      → set maps me b p ≡ done (written me o b p, true)
  unfolding set written
  set_other me b p o old h e was = elim (Option-cases (lookup b me.priorities)) [
    | inl q ↦ rw (q, set, e, was) (rw q refl)
    | inr (z, q) ↦ rw (q, set, e, was) (ground (arith, had_not (lookup b me.priorities) p h))
  ]

  -- On a bitmap whose two maps agree `Set` does not panic: afterwards they agree, the bit has the
  -- priority, the other bits have theirs, and the result says whether the bit had not that
  -- priority.
  pub set-WasSet :
      (me : PriorityBitmap maps) (b p : ℤ)
      → (Inv maps) me
      → Returns (WasSet me b p) (set maps me b p)
  set-WasSet me b p v = elim (Bool-cases (has_priority (lookup b me.priorities) p)) [
    | inl old ↦
        let found = has_priority_iff _ p old in
        (
          (me, false),
          set_same me b p found,
          record {
            inv = v;
            changed = rw old;
            priorities = λ j. ground (arith, beq_ℤ_iff b j, found);
          },
        )
    | inr differs ↦
        let ((o, old), e, (was, d)) = (delete_bit-Deleted maps) me b v in
        (
          (written me o b p, true),
          set_other me b p o old differs e was,
          record {
            inv = written-Inv me o b p v d;
            changed = rw differs;
            priorities = λ j. unfold written in lookup-insert b j p me.priorities;
          },
        )
  ]

  -- What `Remove` promises of its result.
  pub record WasRemoved (me : PriorityBitmap maps) (b : ℤ) (r : PriorityBitmap maps × Bool)
      : Type 0 where
    pub inv : (Inv maps) r.0
    pub present : r.1 ≡ contains maps me b
    pub priorities :
        (j : ℤ) → lookup j r.0.priorities ≡ (if beq_ℤ b j then none else lookup j me.priorities)

  module _ (me : PriorityBitmap maps) (b : ℤ) (o : Option maps.Map) (old : Option ℤ) where
    remove_absent :
        delete_bit maps me b ≡ done (o, old) → old ≡ none → remove maps me b ≡ done (me, false)
    unfolding remove
    remove_absent e h = rw e (rw h refl)

    remove_found :
        (p : ℤ)
        → delete_bit maps me b ≡ done (o, old)
        → old ≡ some p
        → remove maps me b ≡ done (record { om = o; priorities = erase b me.priorities }, true)
    unfolding remove
    remove_found p e h = rw e (rw h refl)

  -- On a bitmap whose two maps agree `Remove` does not panic: afterwards they agree, the bit has
  -- no priority, the other bits have theirs, and the result says whether the bit was there.
  pub remove-WasRemoved :
      (me : PriorityBitmap maps) (b : ℤ)
      → (Inv maps) me
      → Returns (WasRemoved me b) (remove maps me b)
  unfolding contains
  remove-WasRemoved me b v =
      let ((o, old), e, (was, d)) = (delete_bit-Deleted maps) me b v in
      elim (Option-cases (lookup b me.priorities)) [
        | inl absent ↦ (
          (me, false),
          remove_absent me b o old e (was ∙ absent),
          record {
            inv = v;
            present = rw (absent, contains);
            priorities = λ j. ground (arith, beq_ℤ_iff b j, absent);
          },
        )
        | inr (p, found) ↦ (
          (record { om = o; priorities = erase b me.priorities }, true),
          remove_found me b o old p e (was ∙ found),
          record {
            inv = record {
              agree = λ q j. ground (arith, d q j, v.agree q j, lookup-erase b j me.priorities);
            };
            present = rw (found, contains);
            priorities = λ j. lookup-erase b j me.priorities;
          },
        )
      ]

  pub clear-Inv : (Inv maps) (clear maps)
  unfolding clear
  clear-Inv = record { agree = λ p b. refl }
