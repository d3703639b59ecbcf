-- ===== src/Conntrack/Instance/Slots.antt =====
-- Who has the slots of conntrack/instance.go, in reachable states.
use missinggo.Base.{◌≡◌, sym, subst, Bool, some, arith, inl, inr, Bool-cases, Option-cases, ◌⊎◌}
use missinggo.Base.Int.{int_eq}
use missinggo.Conntrack.Maps.{NoEmpty, add-NoEmpty, delete-NoEmpty}
use missinggo.Conntrack.Instance.{
  Setup, Instance, granted, attempt, add_at_entry, new_instance, allow, Step, unlimit, limit, enter,
  grant, leave, permit, release, set_no_max_entries, set_max_entries, remove, add_waiter,
  delete_waiter,
}
use missinggo.Conntrack.Instance.Waiters.{Reach, here, next}

module _ (u : Setup) where
  open u use {Handle, Entry, Reason, handle_eq, entry_eq, reason_eq, reason, entry, priority}
  open u use {sets, by_entry, by_reason, by_priority}

  -- No slot is taken by nobody.
  abbrev pub Used : Instance u → Type 0
  Used i = NoEmpty ⦃e = entry_eq⦄ ⦃h = handle_eq⦄ sets by_entry i.entries

  renewal_in_use :
      (i : Instance u) (eh : Handle) (s : sets.Map)
      → by_entry.get (entry eh) i.entries ≡ some s
      → Used i
      → Used (record i { entries = by_entry.set (entry eh) (sets.set eh tt s) i.entries })
  renewal_in_use i eh s p v k t q z = elim (Bool-cases (entry_eq.beq (entry eh) k)) [
    | inl same ↦ ground (
      arith,
      q,
      same,
      z,
      by_entry.get_set (entry eh) k (sets.set eh tt s) i.entries,
      sets.get_set eh eh tt s,
      handle_eq.beq_iff eh eh,
      sets.len_zero eh t,
    )
    | inr other ↦
        v k t (ground (arith, q, other, by_entry.get_set (entry eh) k (sets.set eh tt s) i.entries))
          z
  ]

  first_in_use :
      (i : Instance u) (eh : Handle)
      → Used i
      → Used (record i { entries = add_at_entry u eh i.entries })
  first_in_use i eh v =
      add-NoEmpty ⦃e = entry_eq⦄ ⦃h = handle_eq⦄ sets by_entry (entry eh) eh i.entries v

  entries_of_attempt :
      (i j : Instance u) (eh : Handle) (c : Bool)
      → attempt u eh c i ≡ granted j
      → ((s : sets.Map) × (by_entry.get (entry eh) i.entries ≡ some s)
          × (j ≡ record i { entries = by_entry.set (entry eh) (sets.set eh tt s) i.entries }))
        ⊎ (j ≡ record i { entries = add_at_entry u eh i.entries })
  unfolding attempt
  entries_of_attempt i j eh c h = elim (Option-cases (by_entry.get (entry eh) i.entries)) [
    | inl p ↦ inr (ground (arith, rw (p, attempt) at h, p))
    | inr (s, p) ↦ inl (s, p, ground (arith, rw (p, attempt) at h, p))
  ]

  entries_of_allow :
      (i j : Instance u) (eh : Handle)
      → allow u eh i ≡ some j
      → ((s : sets.Map) × (by_entry.get (entry eh) i.entries ≡ some s)
          × (j ≡ record i { entries = by_entry.set (entry eh) (sets.set eh tt s) i.entries }))
        ⊎ (j ≡ record i { entries = add_at_entry u eh i.entries })
  unfolding allow
  entries_of_allow i j eh h = elim (Option-cases (by_entry.get (entry eh) i.entries)) [
    | inl p ↦ inr (ground (arith, rw (p, allow) at h, p))
    | inr (s, p) ↦ inl (s, p, ground (arith, rw (p, allow) at h, p))
  ]

  grant_in_use :
      (i j : Instance u) (eh : Handle)
      → ((s : sets.Map) × (by_entry.get (entry eh) i.entries ≡ some s)
          × (j ≡ record i { entries = by_entry.set (entry eh) (sets.set eh tt s) i.entries }))
        ⊎ (j ≡ record i { entries = add_at_entry u eh i.entries })
      → Used i
      → Used j
  grant_in_use i j eh (inl (s, p, q)) v = subst Used (sym q) (renewal_in_use i eh s p v)
  grant_in_use i j eh (inr q) v = subst Used (sym q) (first_in_use i eh v)

  -- Every step keeps every taken slot in use.
  Step-Used : {i j : Instance u} → Step u i j → Used i → Used j
  unfolding set_no_max_entries set_max_entries remove add_waiter delete_waiter
  Step-Used unlimit v = v
  Step-Used (limit max) v = v
  Step-Used (enter eh) v = v
  Step-Used {i} (grant eh c k h) v = grant_in_use i k eh (entries_of_attempt i k eh c h) v
  Step-Used (leave eh) v = v
  Step-Used {i} (permit eh k h) v = grant_in_use i k eh (entries_of_allow i k eh h) v
  Step-Used {i} (release eh) v =
      delete-NoEmpty ⦃e = entry_eq⦄ ⦃h = handle_eq⦄ sets by_entry (entry eh) eh i.entries v

  -- In every state that callers can bring a new instance to, an entry that has a slot has some
  -- handle that keeps it.
  pub Reach-Used : {i : Instance u} → Reach u (new_instance u) i → Used i
  unfolding new_instance
  Reach-Used here = λ k t q. absurd (ground (arith, q, by_entry.get_new k))
  Reach-Used (next r s) = Step-Used s (Reach-Used r)
