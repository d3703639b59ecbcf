-- ===== src/SingleFlight/Safe.antt =====
-- Runs of the threads of a single flight.
use missinggo.Base.{
  ℕ, ◌-◌, ◌≡◌, refl, sym, ◌∙◌, ◌↔◌, subst, true, false, none, some, ◌==◌, get_elem?, set, put,
  arith, Bool-cases, Option-cases, inl, inr,
}
use missinggo.Base.Keys.{Eq}
use missinggo.Base.Dict.{lookup}
use missinggo.Base.Outcome.{Returns}
use missinggo.SingleFlight.{
  idle, holding, SingleFlight, lock, do_lock, unlock, Step, enter, acquire, leave,
  new_single_flight,
}
use missinggo.Base.Count.{count, count-two}
use missinggo.SingleFlight.Invariant.{uses, holds, Inv, done_inj, lock_new, lock_old, none_use}
use missinggo.SingleFlight.Unlocks.{do_lock-Inv, unlock-taken, unlocked_left, unlocked_last}

module _ (K : Type 0) ⦃e : Eq K⦄ where
  locked_of :
      (id : K) (o i : ℕ) (me me' : SingleFlight K)
      → do_lock K id o i me ≡ some me'
      → ((me.objects o).do_locked ≡ false)
        × (me' ≡ record me {
          objects = put o (record { do_locked = true; users = (me.objects o).users }) me.objects;
          threads = set me.threads i (holding id o);
        })
  unfolding do_lock
  locked_of id o i me me' h = elim (Bool-cases (me.objects o).do_locked) [
    | inl q ↦ absurd (ground (arith, h, q))
    | inr q ↦ (q, ground (arith, h, q))
  ]

  lock-Inv :
      (me : SingleFlight K) (id : K) (i : ℕ)
      → Inv K me
      → get_elem? me.threads i ≡ some idle
      → Inv K (lock K id i me)
  unfolding lock
  lock-Inv me id i v h = elim (Option-cases (lookup id me.ongoing)) [
    | inl q ↦ subst (Inv K) (ground (arith, q)) (lock_new K me v i id h q)
    | inr (o, q) ↦ subst (Inv K) (ground (arith, q)) (lock_old K me v i id o h q)
  ]

  -- A thread that holds an identifier unlocks it without a panic.
  unlock-Inv :
      (me : SingleFlight K) (id : K) (o i : ℕ)
      → Inv K me
      → get_elem? me.threads i ≡ some (holding id o)
      → Returns (Inv K) (unlock K id i me)
  unfolding unlock
  unlock-Inv me id o i v h =
      let (q, taken) = unlock-taken K me v i id o h in
      elim (Bool-cases ((me.objects o).users - 1 == 0)) [
        | inl last ↦ (_, ground (arith, q, taken, last), unlocked_last K me v i id o h last)
        | inr more ↦ (_, ground (arith, q, taken, more), unlocked_left K me v i id o h more)
      ]

  -- Every step of every thread keeps the entries in agreement with the threads.
  Step-Inv : {me me' : SingleFlight K} → Step K me me' → Inv K me → Inv K me'
  Step-Inv {me} (enter id i h) v = lock-Inv me id i v h
  Step-Inv {me} (acquire id o i me' h l) v =
      let (free, q) = locked_of id o i me me' l in
      subst (Inv K) (sym q) (do_lock-Inv K me v i id o h free)
  Step-Inv {me} (leave id o i me' h l) v =
      let (r, q, w) = unlock-Inv me id o i v h in subst (Inv K) (done_inj K (sym q ∙ l)) w

  new_single_flight-Inv : (n : ℕ) → Inv K (new_single_flight K n)
  unfolding new_single_flight
  new_single_flight-Inv n = record {
    unused = λ id q. none_use K id n;
    users = λ id o q. absurd (ground arith);
    shared = λ i ph id o h q. absurd (ground arith);
    apart = λ id j o q. absurd (ground arith);
  }

  pub data Reach (n : ℕ) : SingleFlight K → Type 0 where
    here : Reach n (new_single_flight K n)
    next : {me me' : SingleFlight K} → Reach n me → Step K me me' → Reach n me'

  pub Reach-Inv : {n : ℕ} {me : SingleFlight K} → Reach n me → Inv K me
  Reach-Inv {n} here = new_single_flight-Inv n
  Reach-Inv (next r s) = Step-Inv s (Reach-Inv r)

  -- What callers rely on.
  pub record Safe (me : SingleFlight K) : Type 0 where
    pub exclusive :
        (i j o p : ℕ) (id : K)
        → get_elem? me.threads i ≡ some (holding id o)
        → get_elem? me.threads j ≡ some (holding id p)
        → i ≡ j
    pub unlocks :
        (i o : ℕ) (id : K)
        → get_elem? me.threads i ≡ some (holding id o)
        → Returns (Inv K) (unlock K id i me)
    pub forgotten : (id : K) → (lookup id me.ongoing ≡ none) ↔ (count (uses K id) me.threads ≡ 0)

  -- After any interleaving of the steps of `n` threads that lock what they like and unlock what they
  -- hold: no two threads hold the same identifier, a thread that holds one unlocks it without a panic
  -- or a fatal error, and an identifier has no entry exactly when no thread waits for or holds it.
  pub Reach-Safe : (n : ℕ) (me : SingleFlight K) → Reach n me → Safe me
  Reach-Safe n me r =
      let v = Reach-Inv r in
      record {
        exclusive = λ i j o p id h k.
            let (q, taken) = unlock-taken K me v i id o h in
            count-two (holds K id) me.threads i j (holding id o) (holding id p) h k
              ((e.beq_iff id id).1 refl) ((e.beq_iff id id).1 refl)
              (ground (arith, v.users id o q, taken));
        unlocks = λ i o id h. unlock-Inv me id o i v h;
        forgotten = λ id. (
          v.unused id,
          λ z. elim (Option-cases (lookup id me.ongoing)) [
            | inl q ↦ q
            | inr (o, q) ↦ absurd (ground (arith, v.users id o q, z))
          ],
        );
      }
