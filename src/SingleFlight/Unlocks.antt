-- ===== src/SingleFlight/Unlocks.antt =====
-- The lock of an ongoing object is taken and given back.
use missinggo.Base.{
  ℕ, ◌-◌, ◌≡◌, refl, true, false, some, ◌==◌, get_elem?, set, put, arith, Bool-cases,
}
use missinggo.Base.Keys.{Eq}
use missinggo.Base.Dict.{lookup, erase, lookup-erase}
use missinggo.SingleFlight.{idle, locking, holding, SingleFlight}
use missinggo.Base.Count.{count-set, count-pos, get_set}
use missinggo.SingleFlight.Invariant.{Inv, uses, holds, entry_of}

module _ (K : Type 0) ⦃e : Eq K⦄ where
  module _ (me : SingleFlight K) (v : Inv K me) (i : ℕ) where
    -- A thread takes the lock of the object that it is at.
    pub do_lock-Inv :
        (id : K) (o : ℕ)
        → get_elem? me.threads i ≡ some (locking id o)
        → (me.objects o).do_locked ≡ false
        → Inv K (record me {
          objects = put o (record { do_locked = true; users = (me.objects o).users }) me.objects;
          threads = set me.threads i (holding id o);
        })
    do_lock-Inv id o h free =
        let (p, q, at) = entry_of K me v i id (locking id o) h ((e.beq_iff id id).1 refl) in
        record {
          unused = λ j n. ground (
            arith,
            v.unused j n,
            count-set (uses K j) me.threads i (locking id o) (holding id o) h,
          );
          users = λ j r k. ground (
            arith,
            v.users j r k,
            v.users id p q,
            v.apart id j p q,
            k,
            at,
            free,
            e.beq_iff j id,
            count-set (uses K j) me.threads i (locking id o) (holding id o) h,
            count-set (holds K j) me.threads i (locking id o) (holding id o) h,
          );
          shared = λ t ph j r k l u. ground (
            arith,
            get_set me.threads i t (locking id o) (holding id o) ph h k,
            v.shared t ph j r,
            v.shared i (locking id o) j r h l,
            l,
            u,
          );
          apart = v.apart;
        }

    -- A thread that holds an identifier may unlock it: the entry is there and its lock taken.
    pub unlock-taken :
        (id : K) (o : ℕ)
        → get_elem? me.threads i ≡ some (holding id o)
        → (lookup id me.ongoing ≡ some o) × ((me.objects o).do_locked ≡ true)
    unlock-taken id o h =
        let (p, q, at) = entry_of K me v i id (holding id o) h ((e.beq_iff id id).1 refl) in
        (
          ground (arith, q, at),
          ground (
            arith,
            at,
            v.users id p q,
            Bool-cases (me.objects o).do_locked,
            count-pos (holds K id) me.threads i (holding id o) h,
            (e.beq_iff id id).1 refl,
          ),
        )

    pub unlocked_left :
        (id : K) (o : ℕ)
        → get_elem? me.threads i ≡ some (holding id o)
        → ((me.objects o).users - 1 == 0) ≡ false
        → Inv K (record me {
          objects =
              put o (record { do_locked = false; users = (me.objects o).users - 1 }) me.objects;
          threads = set me.threads i idle;
        })
    unlocked_left id o h more =
        let (q, taken) = unlock-taken id o h in
        record {
          unused = λ j n.
              ground (arith, v.unused j n, count-set (uses K j) me.threads i (holding id o) idle h);
          users = λ j r k. ground (
            arith,
            v.users j r k,
            v.users id o q,
            v.apart id j o q,
            k,
            taken,
            more,
            e.beq_iff j id,
            count-set (uses K j) me.threads i (holding id o) idle h,
            count-set (holds K j) me.threads i (holding id o) idle h,
          );
          shared = λ t ph j r k l u.
              ground
                (arith, get_set me.threads i t (holding id o) idle ph h k, v.shared t ph j r, l, u);
          apart = v.apart;
        }

    pub unlocked_last :
        (id : K) (o : ℕ)
        → get_elem? me.threads i ≡ some (holding id o)
        → ((me.objects o).users - 1 == 0) ≡ true
        → Inv K (record me {
          objects =
              put o (record { do_locked = false; users = (me.objects o).users - 1 }) me.objects;
          ongoing = erase id me.ongoing;
          threads = set me.threads i idle;
        })
    unlocked_last id o h last =
        let (q, taken) = unlock-taken id o h in
        record {
          unused = λ j n. ground (
            arith,
            v.unused j,
            v.users id o q,
            n,
            last,
            e.beq_iff id j,
            lookup-erase id j me.ongoing,
            count-set (uses K j) me.threads i (holding id o) idle h,
          );
          users = λ j r k. ground (
            arith,
            v.users j r,
            v.apart id j o q,
            k,
            lookup-erase id j me.ongoing,
            e.beq_iff id j,
            e.beq_iff j id,
            count-set (uses K j) me.threads i (holding id o) idle h,
            count-set (holds K j) me.threads i (holding id o) idle h,
          );
          shared = λ t ph j r k l u. ground (
            arith,
            get_set me.threads i t (holding id o) idle ph h k,
            v.shared t ph j r,
            l,
            u,
            lookup-erase id j me.ongoing,
          );
          apart = λ j k r a b. ground (
            arith,
            v.apart j k r,
            a,
            b,
            lookup-erase id j me.ongoing,
            lookup-erase id k me.ongoing,
          );
        }
