-- ===== src/RefClose.antt =====
-- refclose/refclose.go: resources that are closed with the last reference to them. An operation
-- runs under the pool's mutex; a closer, any function of the caller's, is known by what stands for it.
pub mod Counts
mod Tests
use missinggo.Base.{
  ℕ, zero, suc, ◌≡◌, Bool, true, false, List, [], Option, none, some, if◌then◌else◌,
}
use missinggo.Base.Keys.{Eq}
use missinggo.Base.Dict.{lookup, insert, erase}
use missinggo.Base.Outcome.{Outcome, done, panics, ◌>>=◌}

pub record Resource (C : Type 0) : Type 0 where
  pub closer : Option C
  pub num_refs : ℕ

-- `rs`; a nil map reads as an empty one.
abbrev pub RefPool : Type 0 → Type 0 → Type 0
RefPool K C = List (K × Resource C)

pub record Ref (K : Type 0) : Type 0 where
  pub key : K
  pub closed : Bool

abbrev pub panic_if_closed : {K : Type 0} → Ref K → Outcome (Unit {0})
panic_if_closed me = if me.closed then panics else done tt

abbrev pub or_new : {C : Type 0} → Option (Resource C) → Resource C
or_new none = record { closer = none; num_refs = 0 }
or_new (some r) = r

module _ {K C : Type 0} ⦃e : Eq K⦄ where
  unfoldable pub inc : K → RefPool K C → RefPool K C
  inc key rs =
      let r = or_new (lookup key rs) in insert key (record r { num_refs = suc r.num_refs }) rs

  -- The last reference's closer, called if it is not nil, and the pool without the resource.
  unfoldable pub run_closer : K → Option C → RefPool K C → Outcome (Option C × RefPool K C)
  run_closer key none rs = panics
  run_closer key (some c) rs = done (some c, erase key rs)

  -- `numRefs--` and what follows: below zero is a panic.
  unfoldable pub count_down : K → Resource C → RefPool K C → Outcome (Option C × RefPool K C)
  unfolding run_closer
  count_down key r rs = elim r.num_refs [
    | zero ↦ panics
    | suc zero ↦ run_closer key r.closer rs
    | suc (suc n) ↦ done (none, insert key (record r { num_refs = suc n }) rs)
  ]

  -- The closer that was called, if any; a key that is not there is a nil pointer.
  unfoldable pub dec : K → RefPool K C → Outcome (Option C × RefPool K C)
  unfolding count_down
  dec key rs = elim (lookup key rs) [ none ↦ panics | some r ↦ count_down key r rs ]

  unfoldable pub new_ref : K → RefPool K C → Ref K × RefPool K C
  unfolding inc
  new_ref key rs = (record { key = key; closed = false }, inc key rs)

  unfoldable pub set_closer : C → Ref K → RefPool K C → Outcome (RefPool K C)
  set_closer c me rs = elim (lookup me.key rs) [
    | none ↦ panics
    | some r ↦ done (insert me.key (record r { closer = some c }) rs)
  ]

  -- Nothing sets `closed`.
  unfoldable pub release : Ref K → RefPool K C → Outcome (Option C × RefPool K C)
  unfolding dec
  release me rs = panic_if_closed me >>= λ u. dec me.key rs

-- `Key`.
unfoldable pub key : {K : Type 0} → Ref K → Outcome K
key me = panic_if_closed me >>= λ u. done me.key
