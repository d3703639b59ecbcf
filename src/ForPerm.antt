-- ===== src/ForPerm.antt =====
-- iter/iterutils.go: a walk of the numbers below `n` in a random order, from a sequence in which a
-- zero stands for the index that it is at. The random numbers are an argument.
pub mod Once
mod Tests
use missinggo.Base.{
  ℕ, zero, suc, ◌-◌, ◌≡◌, Bool, true, false, List, [], ◌∷◌, ◌==◌, if◌then◌else◌, length, get_or,
  set, take, replicate,
}
use missinggo.Base.Callbacks.{Callback}

-- `seq`.
abbrev pub Seq : Type 0
Seq = List ℕ

unfoldable pub new_seq : ℕ → Seq
new_seq n = replicate n 0

abbrev pub or_index : ℕ → ℕ → ℕ
or_index i v = if v == 0 then i else v

unfoldable pub index : Seq → ℕ → ℕ
index me i = or_index i (get_or me i 0)

-- The last value takes the place of the one that is removed.
unfoldable pub delete_index : ℕ → Seq → Seq
unfolding index
delete_index i me = take (length me - 1) (set me i (index me (length me - 1)))

-- The loop of `ForPerm`, in as many rounds as the sequence is long; `intn` is the random number of a
-- round, below the bound that it is given.
unfoldable pub walk : {S : Type 0} → ((round bound : ℕ) → ℕ) → ℕ → Seq → Callback ℕ S → S → S × Bool
unfolding index delete_index
walk intn zero s callback st = (st, true)
walk intn (suc n) s callback st =
    let r = intn n (length s) in
    let (st', more) = callback (index s r) st in
    elim more [ false ↦ (st', false) | true ↦ walk intn n (delete_index r s) callback st' ]

unfoldable pub for_perm : {S : Type 0} → ((round bound : ℕ) → ℕ) → ℕ → Callback ℕ S → S → S × Bool
unfolding walk new_seq
for_perm intn n callback st = walk intn n (new_seq n) callback st
