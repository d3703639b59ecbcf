-- ===== src/FileCache/Cache/Ends.antt =====
-- When `trimToCapacity` ends, and when it does not.
use missinggo.Base.{
  ℕ, zero, suc, ◌+◌, ◌<◌, ◌≡◌, ◌≢◌, refl, ◌∙◌, true, false, [], ◌∷◌, Option, none, some, arith, ◌⊎◌,
  inl, inr, Bool-cases, Option-cases, length,
}
use missinggo.Base.Int.{pos, ltb_ℤ}
use missinggo.Base.Keys.{bytes_less, bytes_key}
use missinggo.Base.Dict.{lookup, lookup-erase, length-erase-lt}
use missinggo.Base.Outcome.{
  Outcome, done, out_of_fuel, ◌>>=◌, Ensures_done, Returns, is_done, done_of-is_done,
}
use missinggo.OrderedMap.Interface.{OrderedMap}
use missinggo.FileCache.Paths.{Bytes, FilePath, realpath}
use missinggo.FileCache.Lru.{LruKey, before}
use missinggo.FileCache.Lru.Invariant.{TotalOrder}
use missinggo.FileCache.Lru.Choice.{IsOldest}
use missinggo.FileCache.Os.{Os, not_exist, other, FileInfo, err, result-cases}
use missinggo.FileCache.Cache.{
  ItemState, Cache, update_item_then, remove_then, forget_then, trim_to_capacity, prune_from,
  prune_empty_dirs,
}
use missinggo.FileCache.Cache.Invariant.{Inv, drop-Inv}
use missinggo.FileCache.Cache.Trim.{
  Trimmed, Fits, without, trim_unlimited, trim_within, trim_above, trim_to_capacity-Trimmed,
  candidate,
}

-- The root directory of the machine is there and cannot be removed.
pub record RootStays (os : Os) : Type 0 where
  pub stat : (w : os.World) → os.stat [] w ≢ err not_exist
  pub remove : (w : os.World) → (os.remove [] w).1 ≢ none

module _ (om : OrderedMap (Option (LruKey Bytes)) (before bytes_less)) (os : Os) where
  open os use {World}

  -- The walk up from a removed file ends at the root at the latest.
  prune_from-is_done :
      RootStays os
      → (fuel : ℕ) (root_info : FileInfo) (leaf : FilePath) (w : World) → length leaf < fuel
      → is_done (prune_from om os fuel root_info leaf w) ≡ true
  unfolding prune_from
  prune_from-is_done rs zero root_info leaf w h = absurd (omega arith)
  prune_from-is_done rs (suc fuel) root_info [] w h = ground (arith, rs.stat w, rs.remove w)
  prune_from-is_done rs (suc fuel) root_info (s ∷ ss) w h = ground (
    arith,
    prune_from-is_done rs fuel root_info ss w,
    prune_from-is_done rs fuel root_info ss (os.remove (s ∷ ss) w).0,
  )

  pub prune_empty_dirs-is_done :
      RootStays os
      → (root leaf : FilePath) (w : World) → is_done (prune_empty_dirs om os root leaf w) ≡ true
  unfolding prune_empty_dirs
  prune_empty_dirs-is_done rs root leaf w = elim (result-cases (os.stat root w)) [
    | inl p ↦ rw (p, prune_empty_dirs)
    | inr (inl (n, p)) ↦ rw (p, prune_empty_dirs)
    | inr (inr (info, p)) ↦
        rw (p, prune_empty_dirs) (prune_from-is_done rs (length leaf + 1) info leaf w (omega arith))
  ]

  -- The machine removes the file of each item, or finds it gone.
  abbrev pub Removable : Cache om os → Type 0
  Removable me =
      (k : Bytes) (i : ItemState) (w : World)
      → lookup k me.items ≡ some i
      → ((os.remove (realpath me.root k) w).1 ≡ none)
        ⊎ ((os.remove (realpath me.root k) w).1 ≡ some not_exist)

module _ (t : TotalOrder bytes_less) (om : OrderedMap (Option (LruKey Bytes)) (before bytes_less))
    (os : Os) where
  open os use {World}

  forget_then-done :
      RootStays os
      → (trim : Cache om os → World → Outcome (Cache om os × World))
      → (me : Cache om os) (k : Bytes) (w : World)
      → ((w' : World) → is_done (trim (without t om os me k) w') ≡ true)
      → (r : Cache om os × World) × (w' : World) × (trim (without t om os me k) w' ≡ done r)
        × (forget_then om os trim k me w ≡ done (none, r.0, r.1))
  unfolding forget_then update_item_then
  forget_then-done rs trim me k w ends =
      let (w1, p) =
        done_of-is_done _ (prune_empty_dirs-is_done om os rs me.root (realpath me.root k) w) in
      let (r, q) = done_of-is_done _ (ends w1) in (r, w1, q, rw (p, q))

  remove_then-done :
      RootStays os
      → (trim : Cache om os → World → Outcome (Cache om os × World))
      → (me : Cache om os) (k : Bytes) (w : World)
      → ((os.remove (realpath me.root k) w).1 ≡ none)
        ⊎ ((os.remove (realpath me.root k) w).1 ≡ some not_exist)
      → ((w' : World) → is_done (trim (without t om os me k) w') ≡ true)
      → (r : Cache om os × World) × (w' : World) × (trim (without t om os me k) w' ≡ done r)
        × (remove_then om os trim k me w ≡ done (none, r.0, r.1))
  unfolding remove_then
  remove_then-done rs trim me k w gone ends =
      let (r, w1, p, q) = forget_then-done rs trim me k (os.remove (realpath me.root k) w).0 ends in
      elim gone [
        | inl g ↦ (r, w1, p, rw (g, remove_then) q)
        | inr g ↦ (r, w1, p, rw (g, remove_then) q)
      ]

  trim_of-Fits :
      (fuel : ℕ) (me : Cache om os) (w : World)
      → 0 < fuel
      → Fits t om os me
      → trim_to_capacity om os fuel me w ≡ done (me, w)
  trim_of-Fits zero me w h f = absurd (omega arith)
  trim_of-Fits (suc fuel) me w h (inl p) = trim_unlimited t om os fuel me w p
  trim_of-Fits (suc fuel) me w h (inr p) = elim (Bool-cases (ltb_ℤ me.capacity (pos 0))) [
    | inl q ↦ trim_unlimited t om os fuel me w q
    | inr q ↦ trim_within t om os fuel me w q p
  ]

  -- One round above the capacity, given that the trim within it ends.
  round-is_done :
      RootStays os
      → (fuel : ℕ) (me : Cache om os) (k : Bytes) (i : ItemState) (w : World) → Inv t om os me
      → lookup k me.items ≡ some i
      → Removable om os me
      → 0 < fuel
      → ((w' : World) → is_done (trim_to_capacity om os fuel (without t om os me k) w') ≡ true)
      → is_done (
          remove_then om os (trim_to_capacity om os fuel) k me w >>= λ r.
          trim_to_capacity om os fuel r.1 r.2)
        ≡ true
  round-is_done rs fuel me k i w v found rm h ends =
      let (r, w1, p, q) =
        remove_then-done rs (trim_to_capacity om os fuel) me k w (rm k i w found) ends in
      let trimmed =
        Ensures_done (λ s. Trimmed t om os (without t om os me k) s.0) _
          (trim_to_capacity-Trimmed t om os fuel (without t om os me k) w1
            (drop-Inv t om os me k v))
          p in
      rw (q, trim_of-Fits fuel r.0 r.1 h trimmed.fits) refl

  without-Removable :
      (me : Cache om os) (k : Bytes) → Removable om os me → Removable om os (without t om os me k)
  without-Removable me k rm j i w h = rm j i w (ground (arith, lookup-erase k j me.items))

  recorded :
      (me : Cache om os) (k : Bytes)
      → Inv t om os me
      → IsOldest bytes_less t om me.policy.o_keys k
      → (i : ItemState) × (lookup k me.items ≡ some i)
  recorded me k v o = elim (Option-cases (lookup k me.items)) [
    | inl p ↦ absurd (ground (arith, v.agree k, o.kept))
    | inr found ↦ found
  ]

  refused_remove :
      (fuel : ℕ) (me : Cache om os) (k : Bytes) (w : World) (n : ℕ)
      → (os.remove (realpath me.root k) w).1 ≡ some (other n)
      → remove_then om os (trim_to_capacity om os fuel) k me w
        ≡ done (some (other n), me, (os.remove (realpath me.root k) w).0)
  unfolding remove_then
  refused_remove fuel me k w n h = rw (h, remove_then)

  trim-is_done :
      RootStays os
      → (fuel : ℕ) (me : Cache om os) (w : World) → Inv t om os me
      → Removable om os me
      → length me.items < fuel
      → is_done (trim_to_capacity om os fuel me w) ≡ true
  trim-is_done rs zero me w v rm h = absurd (omega arith)
  trim-is_done rs (suc fuel) me w v rm h = elim (Bool-cases (ltb_ℤ me.capacity (pos 0))) [
    | inl p ↦ rw (trim_unlimited t om os fuel me w p)
    | inr p ↦ elim (Bool-cases (ltb_ℤ me.capacity me.filled)) [
      | inr q ↦ rw (trim_within t om os fuel me w p q)
      | inl q ↦
          let (k, chosen, oldest) = candidate t om os me v p q in
          let (i, found) = recorded me k v oldest in
          let shorter = length-erase-lt k i me.items found in
          rw (trim_above t om os fuel me w p q chosen) (
            round-is_done rs fuel me k i w v found rm (omega (arith, shorter)) (λ w'.
              trim-is_done rs fuel (without t om os me k) w' (drop-Inv t om os me k v)
                (without-Removable me k rm) (omega (arith, shorter))))
    ]
  ]

  -- If the root directory cannot be removed and every recorded file can be (or is gone already), a
  -- trim of a cache whose accounts are in order returns once it has more fuel than there are
  -- items. Then the cache has no limit or is within it, its accounts are in order, and what it
  -- evicted was not used after anything that it kept, nor at the same time with a greater path.
  pub trim_to_capacity-Returns :
      (fuel : ℕ) (me : Cache om os) (w : World)
      → RootStays os
      → Inv t om os me
      → Removable om os me
      → length me.items < fuel
      → Returns (λ r. Trimmed t om os me r.0) (trim_to_capacity om os fuel me w)
  trim_to_capacity-Returns fuel me w rs v rm h =
      let (r, p) = done_of-is_done _ (trim-is_done rs fuel me w v rm h) in
      (
        r,
        p,
        Ensures_done (λ s. Trimmed t om os me s.0) _ (trim_to_capacity-Trimmed t om os fuel me w v)
            p,
      )

  -- If the machine refuses every removal with an error other than not-exist, a cache with a limit
  -- that is over it is never done trimming: no amount of fuel suffices.
  pub trim_to_capacity_refused :
      (fuel : ℕ) (me : Cache om os) (w : World)
      → ((p : FilePath) (w' : World) → (n : ℕ) × ((os.remove p w').1 ≡ some (other n)))
      → Inv t om os me
      → ltb_ℤ me.capacity (pos 0) ≡ false
      → ltb_ℤ me.capacity me.filled ≡ true
      → trim_to_capacity om os fuel me w ≡ out_of_fuel
  unfolding trim_to_capacity
  trim_to_capacity_refused zero me w r v p q = refl
  trim_to_capacity_refused (suc fuel) me w r v p q =
      let (k, chosen, oldest) = candidate t om os me v p q in
      let (n, refused) = r (realpath me.root k) w in
      trim_above t om os fuel me w p q chosen
      ∙ rw (refused_remove fuel me k w n refused)
          (trim_to_capacity_refused fuel me (os.remove (realpath me.root k) w).0 r v p q)
