-- ===== src/SingleFlight.antt =====
-- singleflight.go: a lock for each identifier, made when it is first wanted and dropped when its
-- last user leaves. A step is a section under the mutex, or the lock of `do`; a thread that calls
-- `Lock` is in `locking` between the two. `ongoing` objects are shared by pointer, so they live in a
-- store.
pub mod Invariant
pub mod Unlocks
pub mod Safe
mod Tests
use missinggo.Base.{
  ℕ, suc, ◌+◌, ◌-◌, ◌<◌, ◌≡◌, Bool, true, false, ◌&&◌, not, List, [], ◌∷◌, Option, none, some, ◌==◌,
  if◌then◌else◌, length, get_elem?, set, put, replicate,
}
use missinggo.Base.Keys.{Eq}
use missinggo.Base.Dict.{lookup, insert, erase}
use missinggo.Base.Outcome.{Outcome, done, panics}

pub record Ongoing : Type 0 where
  pub do_locked : Bool
  pub users : ℕ

-- Where a thread stands.
pub data Phase (K : Type 0) : Type 0 where
  idle : Phase K
  locking : K → ℕ → Phase K
  holding : K → ℕ → Phase K

module _ (K : Type 0) ⦃e : Eq K⦄ where
  pub record SingleFlight : Type 0 where
    pub ongoing : List (K × ℕ)
    pub objects : ℕ → Ongoing
    pub fresh : ℕ
    pub threads : List (Phase K)

  abbrev pub new_ongoing : Ongoing
  new_ongoing = record { do_locked = false; users = 0 }

  -- No identifier locked, and `n` threads.
  unfoldable pub new_single_flight : ℕ → SingleFlight
  new_single_flight n = record {
    ongoing = [];
    objects = λ o. new_ongoing;
    fresh = 0;
    threads = replicate n idle;
  }

  abbrev pub add_user : ℕ → (ℕ → Ongoing) → ℕ → Ongoing
  add_user o f = put o (record { do_locked = (f o).do_locked; users = (f o).users + 1 }) f

  -- `Lock`, up to the lock of `do`, by a thread.
  unfoldable pub lock : K → ℕ → SingleFlight → SingleFlight
  lock id i me = elim (lookup id me.ongoing) [
    | some o ↦ record me {
      objects = add_user o me.objects;
      threads = set me.threads i (locking id o);
    }
    | none ↦ record {
      ongoing = insert id me.fresh me.ongoing;
      objects = add_user me.fresh (put me.fresh new_ongoing me.objects);
      fresh = suc me.fresh;
      threads = set me.threads i (locking id me.fresh);
    }
  ]

  -- `on.do.Lock()` returns; it waits while the lock is taken.
  unfoldable pub do_lock : K → ℕ → ℕ → SingleFlight → Option SingleFlight
  do_lock id o i me =
      if (me.objects o).do_locked
      then none
      else some (record me {
        objects = put o (record { do_locked = true; users = (me.objects o).users }) me.objects;
        threads = set me.threads i (holding id o);
      })

  -- `Unlock`. A missing entry is a nil pointer, and a lock that is not taken a fatal error; an entry
  -- that is there has a user, so `users` does not fall below zero.
  unfoldable pub unlock : K → ℕ → SingleFlight → Outcome SingleFlight
  unlock id i me = elim (lookup id me.ongoing) [
    | none ↦ panics
    | some o ↦ elim (me.objects o).do_locked [
      | false ↦ panics
      | true ↦ done (record me {
        objects = put o (record { do_locked = false; users = (me.objects o).users - 1 }) me.objects;
        ongoing = if (me.objects o).users - 1 == 0 then erase id me.ongoing else me.ongoing;
        threads = set me.threads i idle;
      })
    ]
  ]

  -- Threads lock what they like and unlock what they hold.
  pub data Step (me : SingleFlight) : SingleFlight → Type 0 where
    enter : (id : K) (i : ℕ) → get_elem? me.threads i ≡ some idle → Step me (lock id i me)
    acquire :
        (id : K) (o i : ℕ) (me' : SingleFlight)
        → get_elem? me.threads i ≡ some (locking id o)
        → do_lock id o i me ≡ some me'
        → Step me me'
    leave :
        (id : K) (o i : ℕ) (me' : SingleFlight)
        → get_elem? me.threads i ≡ some (holding id o)
        → unlock id i me ≡ done me'
        → Step me me'
