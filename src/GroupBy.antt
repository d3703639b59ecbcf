-- ===== src/GroupBy.antt =====
-- iter/groupby.go over the slice iterator of iter/iterator.go: an iterator of groups of consecutive
-- values with one key. A group and the iterator that it comes from share the latter's state, which
-- the group's methods take and return.
pub mod Runs
mod Tests
use missinggo.Base.{
  ℕ, zero, suc, ◌≡◌, Bool, true, false, ◌&&◌, not, List, [], ◌∷◌, ◌++◌, Option, none, some,
  if◌then◌else◌,
}
use missinggo.Base.Keys.{Eq}
use missinggo.Base.Outcome.{Outcome, done, panics, out_of_fuel, ◌>>=◌}

pub record SliceIterator (V : Type 0) : Type 0 where
  pub slice : List V
  pub value : Option V

-- `Slice`.
abbrev pub slice_iterator : {V : Type 0} → List V → SliceIterator V
slice_iterator a = record { slice = a; value = none }

-- `Next` and `Value` of a slice iterator.
unfoldable pub slice_next : {V : Type 0} → SliceIterator V → Bool × SliceIterator V
slice_next me = elim me.slice [
  | [] ↦ (false, me)
  | x ∷ xs ↦ (true, record { slice = xs; value = some x })
]

unfoldable pub slice_value : {V : Type 0} → SliceIterator V → Outcome V
slice_value me = elim me.value [ none ↦ panics | some v ↦ done v ]

-- A key of `none` is `uniqueKey`, which no key function returns.
abbrev pub same_key : {K : Type 0} ⦃e : Eq K⦄ → Option K → Option K → Bool
same_key none none = true
same_key none (some k) = false
same_key (some k) none = false
same_key ⦃e⦄ (some k) (some j) = e.beq k j

module _ {K V : Type 0} ⦃e : Eq K⦄ (key_func : V → K) where
  pub record GroupBy : Type 0 where
    pub cur_key : Option K
    pub cur_key_ok : Bool
    pub cur_value : Option V
    pub input : SliceIterator V
    pub group_key : Option K
    pub group_key_ok : Bool

  pub record Group : Type 0 where
    pub key : Option K
    pub first : Bool
    pub stopped : Bool

  -- `GroupBy` of a slice's iterator; a nil key function stands for the identity.
  unfoldable pub group_by : List V → GroupBy
  group_by input = record {
    cur_key = none;
    cur_key_ok = false;
    cur_value = none;
    input = slice_iterator input;
    group_key = none;
    group_key_ok = false;
  }

  -- The value that `input.Next` has moved to.
  abbrev pub took : V → List V → GroupBy → GroupBy
  took x xs me = record me {
    cur_key = some (key_func x);
    cur_key_ok = true;
    cur_value = some x;
    input = record { slice = xs; value = some x };
  }

  unfoldable pub advance : GroupBy → GroupBy
  advance me = elim me.input.slice [ [] ↦ record me { cur_key_ok = false } | x ∷ xs ↦ took x xs me ]

  abbrev pub enter : GroupBy → GroupBy
  enter me = record me { group_key = me.cur_key; group_key_ok = true }

  -- The loop of `Next`, on what is left of the input.
  unfoldable pub next_from : List V → GroupBy → Bool × GroupBy
  next_from [] me = if same_key me.cur_key me.group_key then (false, me) else (true, enter me)
  next_from (x ∷ xs) me =
      let rest = next_from xs (took x xs me) in
      if same_key me.cur_key me.group_key then rest else (true, enter me)

  unfoldable pub next : GroupBy → Bool × GroupBy
  unfolding next_from
  next me = next_from me.input.slice me

  -- `Value` of the iterator of groups.
  unfoldable pub value : GroupBy → Group
  value me = record { key = me.group_key; first = true; stopped = false }

  unfoldable pub stop : Group → Group
  stop me = record me { stopped = true }

  unfoldable pub group_next : Group → GroupBy → Bool × (Group × GroupBy)
  unfolding advance stop
  group_next me gb =
      let gb' = advance gb in
      if me.stopped
      then (false, (me, gb))
      else if me.first
      then (true, (record me { first = false }, gb))
      else if not gb'.cur_key_ok
      then (false, (stop me, gb'))
      else if not (same_key gb'.cur_key me.key)
      then (false, (stop me, gb'))
      else (true, (me, gb'))

  unfoldable pub group_value : Group → GroupBy → Outcome V
  group_value me gb =
      if me.stopped then panics else (elim gb.cur_value [ none ↦ panics | some v ↦ done v ])

  -- A caller that takes all values of a group, and one that takes all groups in turn.
  unfoldable pub take_group : ℕ → Group → GroupBy → Outcome (List V × GroupBy)
  unfolding group_next group_value
  take_group zero g gb = out_of_fuel
  take_group (suc n) g gb =
      let (more, (g', gb')) = group_next g gb in
      elim more [
        | false ↦ done ([], gb')
        | true ↦ group_value g' gb' >>= λ v. take_group n g' gb' >>= λ r. done (v ∷ r.0, r.1)
      ]

  unfoldable pub take_groups : ℕ → GroupBy → Outcome (List (Option K × List V))
  unfolding next value take_group
  take_groups zero gb = out_of_fuel
  take_groups (suc n) gb =
      let (more, gb') = next gb in
      elim more [
        | false ↦ done []
        | true ↦ take_group n (value gb') gb' >>= λ r.
            take_groups n r.1 >>= λ rest. done ((gb'.group_key, r.0) ∷ rest)
      ]
