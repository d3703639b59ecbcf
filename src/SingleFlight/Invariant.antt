-- ===== src/SingleFlight/Invariant.antt =====
-- The entries of single flights and the threads.
use missinggo.Base.{
  ℕ, zero, suc, ◌<◌, ◌≤◌, ◌≡◌, refl, Bool, true, false, List, [], ◌∷◌, none, some, ◌==◌, get_elem?,
  set, put, arith, Bool-cases, Option-cases, inl, inr, replicate,
}
use missinggo.Base.Keys.{Eq}
use missinggo.Base.Dict.{lookup, insert, lookup-insert}
use missinggo.Base.Outcome.{done}
use missinggo.SingleFlight.{Phase, idle, locking, holding, SingleFlight, new_ongoing, add_user}
use missinggo.Base.Count.{one_if, count, count-set, count-pos, get_set}

module _ (K : Type 0) ⦃e : Eq K⦄ where
  abbrev pub uses : K → Phase K → Bool
  uses id idle = false
  uses id (locking j o) = e.beq id j
  uses id (holding j o) = e.beq id j

  abbrev pub holds : K → Phase K → Bool
  holds id idle = false
  holds id (locking j o) = false
  holds id (holding j o) = e.beq id j

  abbrev pub at_object : ℕ → Phase K → Bool
  at_object o idle = true
  at_object o (locking j p) = p == o
  at_object o (holding j p) = p == o

  -- Who holds an identifier uses it.
  holds-le-uses : (id : K) (ts : List (Phase K)) → count (holds id) ts ≤ count (uses id) ts
  holds-le-uses id [] = omega arith
  holds-le-uses id (idle ∷ ts) = omega (arith, holds-le-uses id ts)
  holds-le-uses id (locking j o ∷ ts) = omega (arith, holds-le-uses id ts)
  holds-le-uses id (holding j o ∷ ts) = omega (arith, holds-le-uses id ts)

  pub none_use : (id : K) (n : ℕ) → count (uses id) (replicate n idle) ≡ 0
  none_use id zero = refl
  none_use id (suc n) = omega (arith, none_use id n)

  pub done_inj : {a b : SingleFlight K} → done a ≡ done b → a ≡ b
  done_inj h = ground arith

  -- The entries agree with what the threads are at.
  pub record Inv (me : SingleFlight K) : Type 0 where
    pub unused : (id : K) → lookup id me.ongoing ≡ none → count (uses id) me.threads ≡ 0
    pub users :
        (id : K) (o : ℕ)
        → lookup id me.ongoing ≡ some o
        → ((me.objects o).users ≡ count (uses id) me.threads)
          × (0 < (me.objects o).users)
          × (o < me.fresh)
          × (count (holds id) me.threads ≡ one_if (me.objects o).do_locked)
    pub shared :
        (i : ℕ) (ph : Phase K) (id : K) (o : ℕ)
        → get_elem? me.threads i ≡ some ph
        → lookup id me.ongoing ≡ some o
        → uses id ph ≡ true
        → at_object o ph ≡ true
    pub apart :
        (id j : K) (o : ℕ) → lookup id me.ongoing ≡ some o → lookup j me.ongoing ≡ some o → id ≡ j

  -- The object that a thread is at is its identifier's entry.
  pub entry_of :
      (me : SingleFlight K) (v : Inv me) (i : ℕ) (id : K) (ph : Phase K)
      → get_elem? me.threads i ≡ some ph
      → uses id ph ≡ true
      → (p : ℕ) × (lookup id me.ongoing ≡ some p) × (at_object p ph ≡ true)
  entry_of me v i id ph h u = elim (Option-cases (lookup id me.ongoing)) [
    | inl n ↦ absurd (ground (arith, v.unused id n, count-pos (uses id) me.threads i ph h u))
    | inr (p, q) ↦ (p, q, v.shared i ph id p h q u)
  ]

  module _ (me : SingleFlight K) (v : Inv me) (i : ℕ) where
    -- An idle thread wants an identifier that has an entry.
    pub lock_old :
        (id : K) (o : ℕ)
        → get_elem? me.threads i ≡ some idle
        → lookup id me.ongoing ≡ some o
        → Inv (record me {
          objects = add_user K o me.objects;
          threads = set me.threads i (locking id o);
        })
    lock_old id o h q = record {
      unused = λ j n. ground (
        arith,
        v.unused j n,
        count-set (uses j) me.threads i idle (locking id o) h,
        e.beq_iff j id,
        q,
        n,
      );
      users = λ j p k. ground (
        arith,
        v.users j p k,
        v.users id o q,
        v.apart id j o q,
        k,
        q,
        count-set (uses j) me.threads i idle (locking id o) h,
        count-set (holds j) me.threads i idle (locking id o) h,
        e.beq_iff j id,
      );
      shared = λ t ph j p k l u. ground (
        arith,
        get_set me.threads i t idle (locking id o) ph h k,
        v.shared t ph j p,
        l,
        u,
        q,
        e.beq_iff j id,
      );
      apart = v.apart;
    }

    -- The same, where it has none.
    pub lock_new :
        (id : K)
        → get_elem? me.threads i ≡ some idle
        → lookup id me.ongoing ≡ none
        → Inv (record {
          ongoing = insert id me.fresh me.ongoing;
          objects = add_user K me.fresh (put me.fresh (new_ongoing K) me.objects);
          fresh = suc me.fresh;
          threads = set me.threads i (locking id me.fresh);
        })
    lock_new id h q = record {
      unused = λ j n. ground (
        arith,
        v.unused j,
        n,
        count-set (uses j) me.threads i idle (locking id me.fresh) h,
        e.beq_iff j id,
        e.beq_iff id j,
        lookup-insert id j me.fresh me.ongoing,
      );
      users = λ j p k. elim (Bool-cases (e.beq id j)) [
        | inl same ↦ ground (
          arith,
          v.unused id q,
          holds-le-uses j me.threads,
          same,
          e.beq_iff id j,
          k,
          count-set (uses j) me.threads i idle (locking id me.fresh) h,
          count-set (holds j) me.threads i idle (locking id me.fresh) h,
          lookup-insert id j me.fresh me.ongoing,
        )
        | inr other ↦ ground (
          arith,
          v.users j p,
          other,
          k,
          e.beq_iff j id,
          e.beq_iff id j,
          count-set (uses j) me.threads i idle (locking id me.fresh) h,
          count-set (holds j) me.threads i idle (locking id me.fresh) h,
          lookup-insert id j me.fresh me.ongoing,
        )
      ];
      shared = λ t ph j p k l u. ground (
        arith,
        get_set me.threads i t idle (locking id me.fresh) ph h k,
        v.shared t ph j p,
        l,
        u,
        q,
        e.beq_iff id j,
        e.beq_iff j id,
        v.unused id q,
        count-pos (uses j) me.threads t ph,
        lookup-insert id j me.fresh me.ongoing,
      );
      apart = λ j k o a b. ground (
        arith,
        v.apart j k o,
        v.users j o,
        v.users k o,
        a,
        b,
        e.beq_iff id j,
        e.beq_iff id k,
        lookup-insert id j me.fresh me.ongoing,
        lookup-insert id k me.fresh me.ongoing,
      );
    }
