-- ===== src/Conntrack/Instance/Waiters.antt =====
-- The four views of who waits in conntrack/instance.go.
use missinggo.Base.{
  ◌≡◌, refl, sym, subst, Bool, true, false, ◌&&◌, List, [], ◌∷◌, Option, none, some, arith, inl,
  inr, Bool-cases, Option-cases,
}
use missinggo.Base.Callbacks.{each, each_all}
use missinggo.Base.Int.{ℤ, ltb_ℤ, beq_ℤ, int_eq, beq_ℤ_iff}
use missinggo.OrderedMap.Interface.{is_some}
use missinggo.OrderedMap.Sorted.{find_item, head_least, same_refl, Sorted}
use missinggo.Conntrack.Maps.{
  higher, ordered, holds, NoEmpty, holds-add, holds-delete, add-NoEmpty, delete-NoEmpty,
}
use missinggo.Conntrack.Instance.{
  Setup, Instance, new_instance, set_no_max_entries, set_max_entries, remove, add_waiter,
  delete_waiter, top_priority, granted, attempt, allow, Step, unlimit, limit, enter, grant, leave,
  permit, release,
}

module _ (u : Setup) where
  open u use {Handle, Entry, Reason, handle_eq, entry_eq, reason_eq, reason, entry, priority}
  open u use {sets, by_entry, by_reason, by_priority}

  abbrev pub waits : Instance u → Handle → Bool
  waits i eh = is_some (sets.get eh i.waiters)

  abbrev pub at_priority : Instance u → ℤ → Handle → Bool
  at_priority i = holds ⦃h = handle_eq⦄ sets (ordered by_priority) i.waiters_by_priority

  abbrev pub at_reason : Instance u → Reason → Handle → Bool
  at_reason i = holds ⦃e = reason_eq⦄ ⦃h = handle_eq⦄ sets by_reason i.waiters_by_reason

  abbrev pub at_entry : Instance u → Entry → Handle → Bool
  at_entry i = holds ⦃e = entry_eq⦄ ⦃h = handle_eq⦄ sets by_entry i.waiters_by_entry

  -- Each view holds the waiters, each under its own key; no priority is listed without a waiter.
  pub record Views (i : Instance u) : Type 0 where
    pub priorities : (p : ℤ) (x : Handle) → at_priority i p x ≡ (waits i x && beq_ℤ (priority x) p)
    pub reasons :
        (r : Reason) (x : Handle) → at_reason i r x ≡ (waits i x && reason_eq.beq (reason x) r)
    pub entries :
        (e : Entry) (x : Handle) → at_entry i e x ≡ (waits i x && entry_eq.beq (entry x) e)
    pub no_empty : NoEmpty ⦃h = handle_eq⦄ sets (ordered by_priority) i.waiters_by_priority

  new_instance-Views : Views (new_instance u)
  unfolding new_instance
  new_instance-Views = record {
    priorities = λ p x. ground (arith, by_priority.get_ok_new p, sets.get_new x);
    reasons = λ r x. ground (arith, by_reason.get_new r, sets.get_new x);
    entries = λ e x. ground (arith, by_entry.get_new e, sets.get_new x);
    no_empty = λ k t p. absurd (ground (arith, by_priority.get_ok_new k));
  }

  add_waiter-Views : (i : Instance u) (eh : Handle) → Views i → Views (add_waiter u eh i)
  unfolding add_waiter
  add_waiter-Views i eh v = record {
    priorities = λ p x. ground (
      arith,
      v.priorities p x,
      sets.get_set eh x tt i.waiters,
      handle_eq.beq_iff eh x,
      holds-add ⦃h = handle_eq⦄ sets (ordered by_priority) (priority eh) p eh x
          i.waiters_by_priority,
    );
    reasons = λ r x. ground (
      arith,
      v.reasons r x,
      sets.get_set eh x tt i.waiters,
      handle_eq.beq_iff eh x,
      holds-add ⦃e = reason_eq⦄ ⦃h = handle_eq⦄ sets by_reason (reason eh) r eh x
          i.waiters_by_reason,
    );
    entries = λ e x. ground (
      arith,
      v.entries e x,
      sets.get_set eh x tt i.waiters,
      handle_eq.beq_iff eh x,
      holds-add ⦃e = entry_eq⦄ ⦃h = handle_eq⦄ sets by_entry (entry eh) e eh x i.waiters_by_entry,
    );
    no_empty =
        add-NoEmpty ⦃h = handle_eq⦄ sets (ordered by_priority) (priority eh) eh
          i.waiters_by_priority v.no_empty;
  }

  delete_waiter-Views : (i : Instance u) (eh : Handle) → Views i → Views (delete_waiter u eh i)
  unfolding delete_waiter
  delete_waiter-Views i eh v = record {
    priorities = λ p x. ground (
      arith,
      v.priorities p x,
      sets.get_delete eh x i.waiters,
      handle_eq.beq_iff eh x,
      holds-delete ⦃h = handle_eq⦄ sets (ordered by_priority) (priority eh) p eh x
          i.waiters_by_priority,
    );
    reasons = λ r x. ground (
      arith,
      v.reasons r x,
      sets.get_delete eh x i.waiters,
      handle_eq.beq_iff eh x,
      holds-delete ⦃e = reason_eq⦄ ⦃h = handle_eq⦄ sets by_reason (reason eh) r eh x
          i.waiters_by_reason,
    );
    entries = λ e x. ground (
      arith,
      v.entries e x,
      sets.get_delete eh x i.waiters,
      handle_eq.beq_iff eh x,
      holds-delete ⦃e = entry_eq⦄ ⦃h = handle_eq⦄ sets by_entry (entry eh) e eh x
          i.waiters_by_entry,
    );
    no_empty =
        delete-NoEmpty ⦃h = handle_eq⦄ sets (ordered by_priority) (priority eh) eh
          i.waiters_by_priority v.no_empty;
  }

  -- The slots and their limit are no part of the views.
  at_slots :
      (i : Instance u) (max : ℤ) (n : Bool) (m : by_entry.Map)
      → Views i
      → Views (record i { max_entries = max; no_max_entries = n; entries = m })
  at_slots i max n m v = record {
    priorities = v.priorities;
    reasons = v.reasons;
    entries = v.entries;
    no_empty = v.no_empty;
  }

  slots_of_attempt :
      (eh : Handle) (c : Bool) (i j : Instance u)
      → attempt u eh c i ≡ granted j
      → j ≡ record i { entries = j.entries }
  unfolding attempt
  slots_of_attempt eh c i j h = ground arith

  slots_of_allow :
      (eh : Handle) (i j : Instance u)
      → allow u eh i ≡ some j
      → j ≡ record i { entries = j.entries }
  unfolding allow
  slots_of_allow eh i j h = ground arith

  -- Every step of every caller keeps the views of the waiters in agreement.
  pub Step-Views : {i j : Instance u} → Step u i j → Views i → Views j
  unfolding set_no_max_entries set_max_entries remove
  Step-Views {i} unlimit v = at_slots i i.max_entries true i.entries v
  Step-Views {i} (limit max) v = at_slots i max false i.entries v
  Step-Views {i} (enter eh) v = add_waiter-Views i eh v
  Step-Views {i} (grant eh c k h) v =
      subst Views (sym (slots_of_attempt eh c i k h))
        (at_slots i i.max_entries i.no_max_entries k.entries v)
  Step-Views {i} (leave eh) v = delete_waiter-Views i eh v
  Step-Views {i} (permit eh k h) v =
      subst Views (sym (slots_of_allow eh i k h))
        (at_slots i i.max_entries i.no_max_entries k.entries v)
  Step-Views {i} (release eh) v = at_slots i i.max_entries i.no_max_entries _ v

  pub data Reach (i : Instance u) : Instance u → Type 0 where
    here : Reach i i
    next : {j k : Instance u} → Reach i j → Step u j k → Reach i k

  -- In every state that callers can bring a new instance to, the maps of waiters by priority,
  -- reason and entry hold exactly the waiters, each under its own key, and no priority has an
  -- empty set.
  pub Reach-Views : {i : Instance u} → Reach (new_instance u) i → Views i
  Reach-Views here = new_instance-Views
  Reach-Views (next r s) = Step-Views s (Reach-Views r)

  -- The highest priority of a waiter, if anyone waits.
  abbrev pub IsTop : Instance u → Option ℤ → Type 0
  IsTop i none = (x : Handle) → waits i x ≡ false
  IsTop i (some p) =
      ((x : Handle) × (waits i x ≡ true) × (priority x ≡ p))
      × ((x : Handle) → waits i x ≡ true → ltb_ℤ p (priority x) ≡ false)

  listed :
      (i : Instance u) (v : Views i) (x : Handle)
      → waits i x ≡ true
      → is_some (find_item higher (priority x) (by_priority.keys i.waiters_by_priority)) ≡ true
  listed i v x h = ground (
    arith,
    v.priorities (priority x) x,
    by_priority.keys_get_ok (priority x) i.waiters_by_priority,
    beq_ℤ_iff (priority x) (priority x),
  )

  -- A priority that is listed has a waiter.
  top_waits :
      (i : Instance u) (v : Views i) (p : ℤ)
      → is_some (by_priority.get_ok p i.waiters_by_priority) ≡ true
      → (x : Handle) × (waits i x ≡ true) × (priority x ≡ p)
  top_waits i v p h = elim (Option-cases (by_priority.get_ok p i.waiters_by_priority)) [
    | inl q ↦ absurd (ground (arith, h, q))
    | inr (t, q) ↦
        let (x, o, g) = sets.len_pos t (v.no_empty p t q) in
        (
          x,
          ground (arith, v.priorities p x, q, g),
          ground (arith, v.priorities p x, q, g, beq_ℤ_iff (priority x) p),
        )
  ]

  -- Where the views of the waiters agree, the first priority that the walk of the map by priority
  -- yields is one of a waiter and no waiter has a higher one; it yields none if nobody waits.
  pub top_priority-IsTop : (i : Instance u) → Views i → IsTop i (top_priority u i)
  unfolding top_priority each each_all find_item
  top_priority-IsTop i v =
      rw (by_priority.iter_keys (Option ℤ) i.waiters_by_priority (λ p s. (some p, false)) none)
        (from (by_priority.keys i.waiters_by_priority) refl)
    where
      first : List ℤ → Option ℤ
      first l = each l (λ p s. (some p, false)) none

      from : (l : List ℤ) → by_priority.keys i.waiters_by_priority ≡ l → IsTop i (first l)
      from [] e = λ x. elim (Bool-cases (waits i x)) [
        | inl w ↦ absurd (ground (arith, listed i v x w))
        | inr w ↦ w
      ]
      from (p ∷ ps) e = (
        top_waits i v p (
            ground (
              arith,
              by_priority.keys_get_ok p i.waiters_by_priority,
              e,
              same_refl by_priority.order p,
            )),
        λ x w. none_higher p ps e x w,
      )
        where
          none_higher :
              (p : ℤ) (ps : List ℤ)
              → by_priority.keys i.waiters_by_priority ≡ p ∷ ps
              → (x : Handle) → waits i x ≡ true
              → ltb_ℤ p (priority x) ≡ false
          none_higher p ps e x w = elim (Option-cases (find_item higher (priority x) (p ∷ ps))) [
            | inl q ↦ absurd (ground (arith, rw (e) at (listed i v x w), q))
            | inr (z, q) ↦
                head_least by_priority.order p (priority x) z ps
                  (subst (Sorted higher) e (by_priority.keys_sorted i.waiters_by_priority)) q
          ]
