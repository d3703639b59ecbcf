-- ===== src/Rle.antt =====
-- rle.go: the run-length encoder. `eachRun` is called in order; its calls are the list that an
-- operation returns. Counts are `uint64`.
pub mod Expand
mod Tests
use missinggo.Base.{ℕ, ◌+◌, ◌%◌, ◌^◌, ◌==◌, Bool, true, false, List, [], ◌∷◌, ◌++◌, if◌then◌else◌}
use missinggo.Base.Keys.{Eq}

abbrev pub word : ℕ
word = 2 ^ 64

pub record RunLengthEncoder (E : Type 0) : Type 0 where
  pub element : E
  pub count : ℕ

-- `interface{}` values that `==` compares, with nil.
module _ {E : Type 0} ⦃e : Eq E⦄ where
  -- `Append`.
  unfoldable pub append : E → ℕ → RunLengthEncoder E → RunLengthEncoder E × List (E × ℕ)
  append x n me =
      if e.beq x me.element then (record me { count = (me.count + n) % word }, []) else (
        record { element = x; count = n },
        (if me.count == 0 then [] else (me.element, me.count) ∷ []),
      )

  unfoldable pub flush : RunLengthEncoder E → RunLengthEncoder E × List (E × ℕ)
  flush me =
      if me.count == 0 then (me, []) else (record me { count = 0 }, (me.element, me.count) ∷ [])

  -- A caller that appends each series and flushes.
  unfoldable pub append_all : List (E × ℕ) → RunLengthEncoder E → List (E × ℕ)
  append_all [] me = (flush me).1
  append_all ((x, n) ∷ xs) me = let (me', runs) = append x n me in runs ++ append_all xs me'

  -- `NewRunLengthEncoder`; its element is nil.
  unfoldable pub new_encoder : E → RunLengthEncoder E
  new_encoder nil = record { element = nil; count = 0 }
