-- ===== src/SingleFlight/Tests.antt =====
-- Two threads want one identifier.
use missinggo.Base.{ℕ, ◌≡◌, refl, true, [], ◌∷◌, none, some, get_elem?, put}
use missinggo.Base.Keys.{nat_eq}
use missinggo.SingleFlight.{
  idle, locking, holding, SingleFlight, new_single_flight, lock, do_lock, enter, acquire,
}
use missinggo.SingleFlight.Safe.{Reach, here, next, Safe, Reach-Safe}

abbrev both_wait : SingleFlight ℕ
both_wait = lock ℕ 7 1 (lock ℕ 7 0 (new_single_flight ℕ 2))

abbrev first_holds : SingleFlight ℕ
first_holds = record both_wait {
  objects = put 0 (record { do_locked = true; users = 2 }) both_wait.objects;
  threads = holding 7 0 ∷ locking 7 0 ∷ [];
}

start_idle : get_elem? (new_single_flight ℕ 2).threads 0 ≡ some idle
unfolding new_single_flight
start_idle = refl

second_idle : get_elem? (lock ℕ 7 0 (new_single_flight ℕ 2)).threads 1 ≡ some idle
unfolding new_single_flight lock
second_idle = refl

first_waits : get_elem? both_wait.threads 0 ≡ some (locking 7 0)
unfolding new_single_flight lock
first_waits = refl

first_takes : do_lock ℕ 7 0 0 both_wait ≡ some first_holds
unfolding new_single_flight lock do_lock
first_takes = refl

second_blocked : do_lock ℕ 7 0 1 first_holds ≡ none
unfolding new_single_flight lock do_lock
second_blocked = refl

abbrev to_first_holds : Reach ℕ 2 first_holds
to_first_holds =
    next (next (next here (enter 7 0 start_idle)) (enter 7 1 second_idle))
      (acquire 7 0 0 first_holds first_waits first_takes)

Reach-Safe_example : Safe ℕ first_holds
Reach-Safe_example = Reach-Safe ℕ 2 first_holds to_first_holds
