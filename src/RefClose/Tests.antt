-- ===== src/RefClose/Tests.antt =====
-- Two references to one resource.
use missinggo.Base.{ℕ, arith, ◌≡◌, refl, [], ◌∷◌, none, some}
use missinggo.Base.Keys.{nat_eq}
use missinggo.Base.Dict.{lookup, erase}
use missinggo.Base.Outcome.{done}
use missinggo.RefClose.{Resource, RefPool, inc, new_ref, set_closer, release}
use missinggo.RefClose.Counts
use missinggo.RefClose.Counts.{more, ref_of, Run, released, Run-release, release-release}

abbrev none_live : ℕ → ℕ
none_live k = 0

abbrev two_refs : RefPool ℕ ℕ
two_refs = (new_ref 7 (new_ref 7 []).1).1

abbrev with_closer : RefPool ℕ ℕ
with_closer = (7, record { closer = some 5; num_refs = 2 }) ∷ []

closer_set : set_closer 5 (ref_of ℕ 7) two_refs ≡ done with_closer
unfolding set_closer new_ref inc
closer_set = refl

abbrev one_live : ℕ → ℕ
one_live = more ℕ 7 none_live

abbrev two_live : ℕ → ℕ
two_live = more ℕ 7 one_live

abbrev to_two : Run ℕ with_closer two_live
to_two =
    Counts.next
      (Counts.next (Counts.next Counts.here (Counts.do_new 7 none_live)) (Counts.do_new 7 one_live))
      (Counts.do_set 7 5 two_live with_closer (ground arith) closer_set)

Run-release_example :
    (r : Resource ℕ) × (lookup 7 with_closer ≡ some r)
    × (release (ref_of ℕ 7) with_closer ≡ released ℕ 7 r 1 with_closer)
    × ((j : ℕ) → two_live j ≡ 0 → lookup j with_closer ≡ none)
Run-release_example = Run-release ℕ with_closer two_live 7 1 to_two refl

release-release_example :
    (o : RefPool ℕ ℕ) × (release (ref_of ℕ 7) with_closer ≡ done (none, o))
    × (release (ref_of ℕ 7) o ≡ done (some 5, erase 7 o))
release-release_example =
    release-release ℕ with_closer (ref_of ℕ 7) (record { closer = some 5; num_refs = 2 }) 5 refl
      refl refl refl
