-- ===== src/Conntrack/Instance/Room.antt =====
-- `Wait`, `Allow` and the limit of entries of conntrack/instance.go.
use missinggo.Base.{
  ◌+◌, ◌≤◌, ◌≡◌, refl, ap, Bool, true, false, ◌&&◌, Option, none, some, arith, if◌then◌else◌, inl,
  inr, Bool-cases, Option-cases, ◌⊎◌,
}
use missinggo.Base.Int.{
  ℤ, pos, pos_part, neg_part, ltb_ℤ, beq_ℤ, int_eq, beq_ℤ_iff, same-ltb_ℤ, ◌≤ℤ◌,
}
use missinggo.Conntrack.Maps.{holds, holds-add, Counts, len-add, len-delete_from}
use missinggo.Conntrack.Instance.{
  Setup, Instance, top_priority, have_room, Attempt, granted, cancelled, retry, panicked, attempt,
  give_up_or_retry, add_at_entry, allow, Step, unlimit, limit, enter, grant, leave, permit, release,
  set_no_max_entries, set_max_entries, remove, add_waiter, delete_waiter,
}
use missinggo.Conntrack.Instance.Waiters.{waits, Views, IsTop, top_priority-IsTop}

module _ (u : Setup) where
  open u use {Handle, Entry, Reason, handle_eq, entry_eq, reason_eq, reason, entry, priority}
  open u use {sets, by_entry, by_reason, by_priority}

  -- Whether a handle is among those that keep an entry tracked.
  abbrev pub keeps : Instance u → Entry → Handle → Bool
  keeps i = holds ⦃e = entry_eq⦄ ⦃h = handle_eq⦄ sets by_entry i.entries

  -- The entry has a slot, whoever took it.
  abbrev pub tracked : Instance u → Handle → Bool
  tracked i eh = elim (by_entry.get (entry eh) i.entries) [ none ↦ false | some s ↦ true ]

  abbrev pub NoneHigher : Instance u → Handle → Type 0
  NoneHigher i eh = (x : Handle) → waits u i x ≡ true → ltb_ℤ (priority eh) (priority x) ≡ false

  abbrev pub SomeHigher : Instance u → Handle → Type 0
  SomeHigher i eh = (x : Handle) × (waits u i x ≡ true) × (ltb_ℤ (priority eh) (priority x) ≡ true)

  -- The handle joined its entry, and nobody else moved.
  abbrev pub Joined : Handle → Instance u → Instance u → Type 0
  Joined eh i j =
      (e : Entry) (x : Handle)
      → keeps j e x
        ≡ (if entry_eq.beq (entry eh) e && handle_eq.beq eh x then true else keeps i e x)

  abbrev pub Entitled : Instance u → Handle → Type 0
  Entitled i eh = (tracked i eh ≡ true) ⊎ ((have_room u i ≡ true) × NoneHigher i eh)

  abbrev pub Blocked : Instance u → Handle → Type 0
  Blocked i eh = (tracked i eh ≡ false) × ((have_room u i ≡ false) ⊎ SomeHigher i eh)

  abbrev pub AttemptOk : Handle → Bool → Instance u → Attempt u → Type 0
  AttemptOk eh c i (granted j) = Entitled i eh × Joined eh i j
  AttemptOk eh c i cancelled = (c ≡ true) × Blocked i eh
  AttemptOk eh c i retry = (c ≡ false) × Blocked i eh
  AttemptOk eh c i panicked = ⊥

  joins_again :
      (i : Instance u) (eh : Handle) (s : sets.Map)
      → by_entry.get (entry eh) i.entries ≡ some s
      → Joined eh i (record i { entries = by_entry.set (entry eh) (sets.set eh tt s) i.entries })
  joins_again i eh s p e x = ground (
    arith,
    p,
    by_entry.get_set (entry eh) e (sets.set eh tt s) i.entries,
    sets.get_set eh x tt s,
    entry_eq.beq_iff (entry eh) e,
  )

  blocked :
      (eh : Handle) (c : Bool) (i : Instance u)
      → Blocked i eh
      → AttemptOk eh c i (give_up_or_retry u c)
  blocked eh true i b = (refl, b)
  blocked eh false i b = (refl, b)

  joins_first :
      (i : Instance u) (eh : Handle)
      → Joined eh i (record i { entries = add_at_entry u eh i.entries })
  joins_first i eh e x =
      holds-add ⦃e = entry_eq⦄ ⦃h = handle_eq⦄ sets by_entry (entry eh) e eh x i.entries

  above : (a t : ℤ) {b : ℤ} → ltb_ℤ t a ≡ false → beq_ℤ a t ≡ false → b ≡ t → ltb_ℤ a b ≡ true
  above a t l n e = rw (e) (ground (arith, l, n, same-ltb_ℤ a t))

  -- The transaction of `Wait` for a handle that waits, where the views agree, does not panic. It
  -- grants only where the entry has a slot already, or there is room and no waiter has
  -- a higher priority; then the handle joins its entry and nobody else moves. It gives up if the
  -- context is done, and else retries, only where the entry has no slot and there is no room or a
  -- waiter of a higher priority.
  pub attempt-Outcome :
      (i : Instance u) (eh : Handle) (ctx_done : Bool)
      → Views u i
      → waits u i eh ≡ true
      → AttemptOk eh ctx_done i (attempt u eh ctx_done i)
  unfolding attempt
  attempt-Outcome i eh c v w = elim (Option-cases (by_entry.get (entry eh) i.entries)) [
    | inr (s, p) ↦ rw (p, attempt) (inl (ground (arith, p)), joins_again i eh s p)
    | inl p ↦ rw (p, attempt) (decide (top_priority u i) (top_priority-IsTop u i v) p)
  ]
    where
      decide :
          (t : Option ℤ)
          → IsTop u i t
          → by_entry.get (entry eh) i.entries ≡ none
          → AttemptOk eh c i (elim t [
            | none ↦ panicked
            | some top ↦
                if have_room u i && beq_ℤ (priority eh) top
                then granted (record i { entries = add_at_entry u eh i.entries })
                else give_up_or_retry u c
          ])
      decide none top p = absurd (ground (arith, top eh, w))
      decide (some t) ((x, wx, px), top) p =
          elim (Bool-cases (have_room u i && beq_ℤ (priority eh) t)) [
            | inl q ↦ rw (q) (
              inr (
                ground (arith, q),
                λ y wy. ground (arith, top y wy, q, beq_ℤ_iff (priority eh) t),
              ),
              joins_first i eh,
            )
            | inr q ↦ rw (q) (
                blocked eh c i (
                  ground (arith, p),
                  elim (Bool-cases (have_room u i)) [
                    | inr full ↦ inl full
                    | inl room ↦
                        inr (x, wx, above (priority eh) t (top eh w) (ground (arith, q, room)) px)
                  ],
                ))
          ]

  -- A waiter at another priority, and none above it.
  abbrev pub OtherFirst : Instance u → Handle → Type 0
  OtherFirst i eh =
      (x : Handle) × (waits u i x ≡ true)
      × (beq_ℤ (priority eh) (priority x) ≡ false)
      × ((y : Handle) → waits u i y ≡ true → ltb_ℤ (priority x) (priority y) ≡ false)

  abbrev pub AllowOk : Handle → Instance u → Option (Instance u) → Type 0
  AllowOk eh i (some j) = Entitled i eh × Joined eh i j
  AllowOk eh i none = (tracked i eh ≡ false) × ((have_room u i ≡ false) ⊎ OtherFirst i eh)

  -- `Allow`, where the views agree, grants only where the entry has a slot already, or there is
  -- room and no waiter has a higher priority; then the handle joins its entry and nobody else
  -- moves. It returns nil only where the entry has no slot and there is no room or the highest
  -- priority of a waiter is another than the handle's.
  pub allow-Outcome : (i : Instance u) (eh : Handle) → Views u i → AllowOk eh i (allow u eh i)
  unfolding allow
  allow-Outcome i eh v = elim (Option-cases (by_entry.get (entry eh) i.entries)) [
    | inr (s, p) ↦ rw (p, allow) (inl (ground (arith, p)), joins_again i eh s p)
    | inl p ↦ rw (p, allow) (decide (top_priority u i) (top_priority-IsTop u i v) p)
  ]
    where
      decide :
          (t : Option ℤ)
          → IsTop u i t
          → by_entry.get (entry eh) i.entries ≡ none
          → AllowOk eh i (elim t [
            | none ↦
                if have_room u i
                then some (record i { entries = add_at_entry u eh i.entries })
                else none
            | some top ↦
                if have_room u i && beq_ℤ (priority eh) top
                then some (record i { entries = add_at_entry u eh i.entries })
                else none
          ])
      decide none top p = elim (Bool-cases (have_room u i)) [
        | inl q ↦ rw (q) (inr (q, λ y wy. absurd (ground (arith, top y, wy))), joins_first i eh)
        | inr q ↦ rw (q) (ground (arith, p), inl q)
      ]
      decide (some t) ((x, wx, px), top) p =
          elim (Bool-cases (have_room u i && beq_ℤ (priority eh) t)) [
            | inl q ↦ rw (q) (
              inr (
                ground (arith, q),
                λ y wy. ground (arith, top y wy, q, beq_ℤ_iff (priority eh) t),
              ),
              joins_first i eh,
            )
            | inr q ↦ rw (q) (
              ground (arith, p),
              elim (Bool-cases (have_room u i)) [
                | inr full ↦ inl full
                | inl room ↦
                    inr (x, wx, rw (px) (ground (arith, q, room)), λ y wy. rw (px) (top y wy))
              ],
            )
          ]

  -- Slots taken are within the limit, if there is one.
  abbrev pub Fits : Instance u → Type 0
  Fits i = (i.no_max_entries ≡ true) ⊎ (pos (by_entry.len i.entries) ≤ℤ i.max_entries)

  -- One more slot is taken only where there is room.
  abbrev pub Grown : Instance u → Instance u → Type 0
  Grown i j =
      (by_entry.len j.entries ≤ by_entry.len i.entries)
      ⊎ ((have_room u i ≡ true) × (by_entry.len j.entries ≤ by_entry.len i.entries + 1))

  Grown-Fits :
      (i j : Instance u)
      → Grown i j
      → Fits i
      → j.max_entries ≡ i.max_entries
      → j.no_max_entries ≡ i.no_max_entries
      → Fits j
  unfolding have_room
  Grown-Fits i j g f a b = ground (arith, g, f, a, b, ap pos_part a, ap neg_part a)

  module _ (n : Counts ⦃e = entry_eq⦄ by_entry) where
    attempt-Grown :
        (i j : Instance u) (eh : Handle) (c : Bool) → attempt u eh c i ≡ granted j → Grown i j
    unfolding attempt
    attempt-Grown i j eh c h = elim (Option-cases (by_entry.get (entry eh) i.entries)) [
      | inl p ↦ ground (
        arith,
        rw (p, attempt) at h,
        p,
        len-add ⦃e = entry_eq⦄ ⦃h = handle_eq⦄ sets by_entry n (entry eh) eh i.entries,
      )
      | inr (s, p) ↦ ground (
        arith,
        rw (p, attempt) at h,
        p,
        n.len_set_old (entry eh) (sets.set eh tt s) s i.entries p,
      )
    ]

    allow-Grown : (i j : Instance u) (eh : Handle) → allow u eh i ≡ some j → Grown i j
    unfolding allow
    allow-Grown i j eh h = elim (Option-cases (by_entry.get (entry eh) i.entries)) [
      | inl p ↦ ground (
        arith,
        rw (p, allow) at h,
        p,
        len-add ⦃e = entry_eq⦄ ⦃h = handle_eq⦄ sets by_entry n (entry eh) eh i.entries,
      )
      | inr (s, p) ↦
          ground (
            arith,
            rw (p, allow) at h,
            p,
            n.len_set_old (entry eh) (sets.set eh tt s) s i.entries p,
          )
    ]

    -- If the map of entries counts its keys, a step that leaves the limit as it is keeps the
    -- number of slots taken within the limit.
    pub Step-Fits :
        {i j : Instance u}
        → Step u i j
        → Fits i
        → j.max_entries ≡ i.max_entries
        → j.no_max_entries ≡ i.no_max_entries
        → Fits j
    unfolding set_no_max_entries set_max_entries remove add_waiter delete_waiter
    Step-Fits {i} unlimit f a b = inl refl
    Step-Fits {i} (limit max) f a b = ground (arith, f, b, ap pos_part a, ap neg_part a)
    Step-Fits {i} (enter eh) f a b = f
    Step-Fits {i} (grant eh c k h) f a b = Grown-Fits i k (attempt-Grown i k eh c h) f a b
    Step-Fits {i} (leave eh) f a b = f
    Step-Fits {i} (permit eh k h) f a b = Grown-Fits i k (allow-Grown i k eh h) f a b
    Step-Fits {i} (release eh) f a b = ground (
      arith,
      f,
      len-delete_from ⦃e = entry_eq⦄ ⦃h = handle_eq⦄ sets by_entry n (entry eh) eh i.entries,
    )
