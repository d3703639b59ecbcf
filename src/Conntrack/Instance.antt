-- ===== src/Conntrack/Instance.antt =====
-- conntrack/instance.go and conntrack/entryhandle.go. An `EntryHandle` is a pointer; its reason,
-- entry and priority are fixed when it is made, so they are functions of it. Each `stm.Atomically`
-- is one step on the variables of the instance.
pub mod Waiters
pub mod Room
pub mod Slots
use missinggo.Base.{
  ℕ, ◌≡◌, Bool, true, false, ◌||◌, ◌&&◌, List, [], ◌∷◌, Option, none, some, if◌then◌else◌, length,
}
use missinggo.Base.Int.{ℤ, pos, ltb_ℤ, beq_ℤ, int_eq}
use missinggo.Base.Keys.{Eq, same}
use missinggo.OrderedMap.Interface.{OrderedMap}
use missinggo.Conntrack.Maps.{Mappish, higher, ordered, delete_from_map_to_set, add_to_map_to_set}

-- What an instance is made over: the pointers and their fields, and the maps of stmutil.
pub record Setup : Type 1 where
  pub Handle : Type 0
  pub Entry : Type 0
  pub Reason : Type 0
  pub handle_eq : Eq Handle
  pub entry_eq : Eq Entry
  pub reason_eq : Eq Reason
  pub reason : Handle → Reason
  pub entry : Handle → Entry
  pub priority : Handle → ℤ
  pub sets : Mappish Handle (Unit {0}) ⦃e = handle_eq⦄
  pub by_entry : Mappish Entry sets.Map ⦃e = entry_eq⦄
  pub by_reason : Mappish Reason sets.Map ⦃e = reason_eq⦄
  pub by_priority : OrderedMap sets.Map higher

module _ (u : Setup) where
  open u use {Handle, Entry, Reason, handle_eq, entry_eq, reason_eq, reason, entry, priority}
  open u use {sets, by_entry, by_reason, by_priority}

  pub record Instance : Type 0 where
    pub max_entries : ℤ
    pub no_max_entries : Bool
    pub entries : by_entry.Map
    pub waiters_by_priority : by_priority.Map
    pub waiters_by_reason : by_reason.Map
    pub waiters_by_entry : by_entry.Map
    pub waiters : sets.Map

  unfoldable pub new_instance : Instance
  new_instance = record {
    max_entries = pos 16384;
    no_max_entries = false;
    entries = by_entry.new;
    waiters_by_priority = by_priority.new;
    waiters_by_reason = by_reason.new;
    waiters_by_entry = by_entry.new;
    waiters = sets.new;
  }

  unfoldable pub set_no_max_entries : Instance → Instance
  set_no_max_entries i = record i { no_max_entries = true }

  unfoldable pub set_max_entries : ℤ → Instance → Instance
  set_max_entries max i = record i { no_max_entries = false; max_entries = max }

  abbrev pub add_at_entry : Handle → by_entry.Map → by_entry.Map
  add_at_entry eh = add_to_map_to_set ⦃e = entry_eq⦄ ⦃h = handle_eq⦄ sets by_entry (entry eh) eh

  abbrev pub delete_at_entry : Handle → by_entry.Map → by_entry.Map
  delete_at_entry eh =
      delete_from_map_to_set ⦃e = entry_eq⦄ ⦃h = handle_eq⦄ sets by_entry (entry eh) eh

  abbrev pub add_at_reason : Handle → by_reason.Map → by_reason.Map
  add_at_reason eh = add_to_map_to_set ⦃e = reason_eq⦄ ⦃h = handle_eq⦄ sets by_reason (reason eh) eh

  abbrev pub delete_at_reason : Handle → by_reason.Map → by_reason.Map
  delete_at_reason eh =
      delete_from_map_to_set ⦃e = reason_eq⦄ ⦃h = handle_eq⦄ sets by_reason (reason eh) eh

  abbrev pub add_at_priority : Handle → by_priority.Map → by_priority.Map
  add_at_priority eh = add_to_map_to_set ⦃h = handle_eq⦄ sets (ordered by_priority) (priority eh) eh

  abbrev pub delete_at_priority : Handle → by_priority.Map → by_priority.Map
  delete_at_priority eh =
      delete_from_map_to_set ⦃h = handle_eq⦄ sets (ordered by_priority) (priority eh) eh

  -- `remove`, of the instance and of a handle.
  unfoldable pub remove : Handle → Instance → Instance
  remove eh i = record i { entries = delete_at_entry eh i.entries }

  -- `EntryHandle.Done`, with the time after which `remove` runs if it does not run at once, and
  -- `EntryHandle.Forget`; `timeout` is the instance's `Timeout`.
  unfoldable handle_done : (Entry → ℤ) → Handle → Instance → Instance × Option ℤ
  unfolding remove
  handle_done timeout eh i =
      if ltb_ℤ (pos 0) (timeout (entry eh))
      then (i, some (timeout (entry eh)))
      else (remove eh i, none)

  unfoldable forget : Handle → Instance → Instance
  unfolding remove
  forget eh i = remove eh i

  unfoldable pub delete_waiter : Handle → Instance → Instance
  delete_waiter eh i = record i {
    waiters = sets.delete eh i.waiters;
    waiters_by_priority = delete_at_priority eh i.waiters_by_priority;
    waiters_by_reason = delete_at_reason eh i.waiters_by_reason;
    waiters_by_entry = delete_at_entry eh i.waiters_by_entry;
  }

  unfoldable pub add_waiter : Handle → Instance → Instance
  add_waiter eh i = record i {
    waiters_by_priority = add_at_priority eh i.waiters_by_priority;
    waiters_by_reason = add_at_reason eh i.waiters_by_reason;
    waiters_by_entry = add_at_entry eh i.waiters_by_entry;
    waiters = sets.set eh tt i.waiters;
  }

  -- `iter.First` of the waiters by priority.
  unfoldable pub top_priority : Instance → Option ℤ
  top_priority i = by_priority.iter (Option ℤ) i.waiters_by_priority (λ p s. (some p, false)) none

  unfoldable pub have_room : Instance → Bool
  have_room i = i.no_max_entries || ltb_ℤ (pos (by_entry.len i.entries)) i.max_entries

  -- The outcome of the transaction in `Wait`.
  pub data Attempt : Type 0 where
    granted : Instance → Attempt
    cancelled : Attempt
    retry : Attempt
    panicked : Attempt

  -- Without a slot: the caller gives up if its context is done, or tries again later.
  abbrev pub give_up_or_retry : Bool → Attempt
  give_up_or_retry true = cancelled
  give_up_or_retry false = retry

  unfoldable pub attempt : Handle → Bool → Instance → Attempt
  attempt eh ctx_done i = elim (by_entry.get (entry eh) i.entries) [
    | some s ↦ granted (record i { entries = by_entry.set (entry eh) (sets.set eh tt s) i.entries })
    | none ↦ elim (top_priority i) [
      | none ↦ panicked
      | some top ↦
          if have_room i && beq_ℤ (priority eh) top
          then granted (record i { entries = add_at_entry eh i.entries })
          else give_up_or_retry ctx_done
    ]
  ]

  -- `Allow`, inside the caller's transaction; `none` is its nil result.
  unfoldable pub allow : Handle → Instance → Option Instance
  allow eh i = elim (by_entry.get (entry eh) i.entries) [
    | some s ↦ some (record i { entries = by_entry.set (entry eh) (sets.set eh tt s) i.entries })
    | none ↦ elim (top_priority i) [
      | none ↦ if have_room i then some (record i { entries = add_at_entry eh i.entries }) else none
      | some top ↦
          if have_room i && beq_ℤ (priority eh) top
          then some (record i { entries = add_at_entry eh i.entries })
          else none
    ]
  ]

  -- The steps that callers of the instance take, in any interleaving. A `Wait` is `enter`, then
  -- `grant`, unless it gives up, and `leave`; a transaction that ends in `retry` changes nothing.
  pub data Step (i : Instance) : Instance → Type 0 where
    unlimit : Step i (set_no_max_entries i)
    limit : (max : ℤ) → Step i (set_max_entries max i)
    enter : (eh : Handle) → Step i (add_waiter eh i)
    grant : (eh : Handle) (c : Bool) (j : Instance) → attempt eh c i ≡ granted j → Step i j
    leave : (eh : Handle) → Step i (delete_waiter eh i)
    permit : (eh : Handle) (j : Instance) → allow eh i ≡ some j → Step i j
    release : (eh : Handle) → Step i (remove eh i)
