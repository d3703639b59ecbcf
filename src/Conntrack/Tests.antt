-- ===== src/Conntrack/Tests.antt =====
-- The connection tracker over association lists, and its theorems at a concrete instance.
use missinggo.Base.{
  ℕ, ◌+◌, ◌≤◌, ◌≡◌, ◌≢◌, refl, Bool, true, false, List, [], ◌∷◌, none, some, arith, length, ◌%◌,
  ◌==◌, not, ◌↔◌, inr,
}
use missinggo.Base.Int.{pos}
use missinggo.Base.Keys.{Eq, nat_eq, StrictOrder}
use missinggo.Base.Dict.{lookup, insert, erase, lookup-insert, lookup-erase}
use missinggo.Base.Callbacks.{each}
use missinggo.OrderedMap.Sorted.{find_item, insert_item}
use missinggo.OrderedMap.Defs.{item_less}
use missinggo.OrderedMap.Reference.{sorted_list}
use missinggo.OrderedMap.Laws.{google_btree, item_less-StrictOrder}
use missinggo.Conntrack.Maps.{Mappish, Counts, higher, add_to_map_to_set}
use missinggo.Conntrack.Instance.{
  Setup, Instance, new_instance, set_max_entries, add_waiter, attempt, Attempt, granted, cancelled,
  retry, panicked, allow, limit, enter, grant, top_priority, have_room, add_at_entry,
}
use missinggo.Conntrack.Instance.Waiters.{
  Views, Reach, here, next, Reach-Views, IsTop, top_priority-IsTop, waits,
}
use missinggo.Conntrack.Instance.Slots.{Used, Reach-Used}
use missinggo.Conntrack.Instance.Room.{
  AttemptOk, attempt-Outcome, AllowOk, allow-Outcome, Fits, Step-Fits,
}

module _ {K : Type 0} ⦃e : Eq K⦄ {V : Type 0} where
  insert_not_empty : (k : K) (v : V) (m : List (K × V)) → length (insert k v m) ≢ 0
  insert_not_empty k v [] = ground arith
  insert_not_empty k v ((j, w) ∷ m) = ground arith

  length-insert-new :
      (k : K) (v : V) (m : List (K × V)) → lookup k m ≡ none → length (insert k v m) ≡ length m + 1
  length-insert-new k v [] h = refl
  length-insert-new k v ((j, w) ∷ m) h = ground (arith, length-insert-new k v m)

  length-insert-old :
      (k : K) (v w : V) (m : List (K × V)) → lookup k m ≡ some w → length (insert k v m) ≡ length m
  length-insert-old k v w [] h = ground arith
  length-insert-old k v w ((j, x) ∷ m) h = ground (arith, length-insert-old k v w m)

  length-erase : (k : K) (m : List (K × V)) → length (erase k m) ≤ length m
  length-erase k [] = omega arith
  length-erase k ((j, x) ∷ m) = ground (arith, length-erase k m)

  first_found : (m : List (K × V)) → length m ≢ 0 → (k : K) × (v : V) × (lookup k m ≡ some v)
  first_found [] h = absurd (h refl)
  first_found ((j, x) ∷ m) h = (j, x, ground (arith, e.beq_iff j j))

  none_found : (k : K) (m : List (K × V)) → length m ≡ 0 → lookup k m ≡ none
  none_found k [] h = refl
  none_found k (x ∷ m) h = ground arith

abbrev dict : (K V : Type 0) ⦃e : Eq K⦄ → Mappish K V
dict K V = record {
  Map = List (K × V);
  new = [];
  get = lookup;
  set = insert;
  delete = erase;
  len = length;
  get_new = λ k. refl;
  get_set = lookup-insert;
  get_delete = lookup-erase;
  len_zero = none_found;
  len_pos = first_found;
}

dict-Counts : (K V : Type 0) ⦃e : Eq K⦄ → Counts (dict K V)
dict-Counts K V = record {
  len_set_new = length-insert-new;
  len_set_old = length-insert-old;
  len_delete = length-erase;
}

higher-StrictOrder : StrictOrder higher
higher-StrictOrder = record {
  irrefl = λ a. ground arith;
  trans = λ a b c p q. ground arith;
  neg_trans = λ a b c p q. ground arith;
}

abbrev bool_eq : Eq Bool
bool_eq = record { beq = beq; beq_iff = beq_iff }
  where
    beq : Bool → Bool → Bool
    beq true b = b
    beq false b = not b

    beq_iff : (a b : Bool) → (beq a b ≡ true) ↔ (a ≡ b)
    beq_iff true b = ground arith
    beq_iff false b = ground arith

-- Handles are numbers: the priority is the number, and its last bit the entry.
abbrev setup : Setup
setup = record {
  Handle = ℕ;
  Entry = Bool;
  Reason = ℕ;
  handle_eq = nat_eq;
  entry_eq = bool_eq;
  reason_eq = nat_eq;
  reason = λ x. 0;
  entry = λ x. x % 2 == 0;
  priority = pos;
  sets = dict ℕ (Unit {0});
  by_entry = dict Bool (List (ℕ × Unit {0})) ⦃e = bool_eq⦄;
  by_reason = dict ℕ (List (ℕ × Unit {0}));
  by_priority =
      google_btree higher higher-StrictOrder
        (sorted_list (item_less higher) (item_less-StrictOrder higher higher-StrictOrder)) [];
}

abbrev is_granted : Attempt setup → Bool
is_granted (granted i) = true
is_granted cancelled = false
is_granted retry = false
is_granted panicked = false

-- Two callers wait for the only slot.
abbrev start : Instance setup
start = set_max_entries setup (pos 1) (new_instance setup)

abbrev waiting : Instance setup
waiting = add_waiter setup 2 (add_waiter setup 1 start)

abbrev to_waiting : Reach setup (new_instance setup) waiting
to_waiting = next (next (next here (limit (pos 1))) (enter 1)) (enter 2)

attempt_by_higher : is_granted (attempt setup 2 false waiting) ≡ true
unfolding attempt add_waiter set_max_entries new_instance top_priority google_btree each sorted_list
    add_to_map_to_set find_item insert_item have_room
attempt_by_higher = refl

attempt_by_lower : is_granted (attempt setup 1 false waiting) ≡ false
unfolding attempt add_waiter set_max_entries new_instance top_priority google_btree each sorted_list
    add_to_map_to_set find_item insert_item have_room
attempt_by_lower = refl

Reach-Views_example : Views setup waiting
Reach-Views_example = Reach-Views setup {i = waiting} to_waiting

waiting-Views : Views setup waiting
waiting-Views = Reach-Views setup to_waiting

top_priority-IsTop_example : IsTop setup waiting (top_priority setup waiting)
top_priority-IsTop_example = top_priority-IsTop setup waiting waiting-Views

waits_two : waits setup waiting 2 ≡ true
unfolding attempt add_waiter set_max_entries new_instance top_priority google_btree each sorted_list
    add_to_map_to_set find_item insert_item have_room
waits_two = refl

attempt-Outcome_example : AttemptOk setup 2 false waiting (attempt setup 2 false waiting)
attempt-Outcome_example = attempt-Outcome setup waiting 2 false waiting-Views waits_two

allow-Outcome_example : AllowOk setup 1 waiting (allow setup 1 waiting)
allow-Outcome_example = allow-Outcome setup waiting 1 waiting-Views

-- The state once the slot is taken.
abbrev taken : Instance setup
taken = record waiting { entries = add_at_entry setup 2 waiting.entries }

take : attempt setup 2 false waiting ≡ granted taken
unfolding attempt add_waiter set_max_entries new_instance top_priority google_btree each sorted_list
    add_to_map_to_set find_item insert_item have_room
take = refl

abbrev to_taken : Reach setup (new_instance setup) taken
to_taken = next to_waiting (grant 2 false taken take)

Reach-Used_example : Used setup taken
Reach-Used_example = Reach-Used setup {i = taken} to_taken

waiting-Fits : Fits setup waiting
unfolding attempt add_waiter set_max_entries new_instance top_priority google_btree each sorted_list
    add_to_map_to_set find_item insert_item have_room
waiting-Fits = inr (ground arith)

Step-Fits_example : Fits setup taken
Step-Fits_example =
    Step-Fits setup (dict-Counts Bool (List (ℕ × Unit {0})) ⦃e = bool_eq⦄) {i = waiting} {j = taken}
      (grant 2 false taken take) waiting-Fits refl refl
