-- ===== src/RefClose/Counts.antt =====
-- The counts of a pool of references.
use missinggo.Base.{
  ℕ, zero, suc, ◌<◌, ◌≡◌, refl, sym, ◌∙◌, ap, subst, false, [], Option, none, some, if◌then◌else◌,
  arith, Option-cases, inl, inr,
}
use missinggo.Base.Keys.{Eq}
use missinggo.Base.Dict.{lookup, insert, erase, lookup-insert, lookup-erase}
use missinggo.Base.Outcome.{Outcome, done, panics}
use missinggo.RefClose.{
  Resource, RefPool, Ref, or_new, inc, run_closer, count_down, dec, new_ref, set_closer, release,
}

abbrev num : {C : Type 0} → Option (Resource C) → ℕ
num o = (or_new o).num_refs

module _ {K : Type 0} ⦃e : Eq K⦄ (C : Type 0) where
  -- One more, or one fewer, reference of a key.
  abbrev pub more : K → (K → ℕ) → K → ℕ
  more k live j = if e.beq k j then suc (live j) else live j

  abbrev pub ref_of : K → Ref K
  ref_of k = record { key = k; closed = false }

  -- The calls on references that are not released, of which there are `live k` of a key `k`.
  pub data Step (rs : RefPool K C) : (K → ℕ) → RefPool K C → (K → ℕ) → Type 0 where
    do_new : (k : K) (live : K → ℕ) → Step rs live (new_ref k rs).1 (more k live)
    do_set :
        (k : K) (c : C) (live : K → ℕ) (rs' : RefPool K C)
        → 0 < live k
        → set_closer c (ref_of k) rs ≡ done rs'
        → Step rs live rs' live
    do_release :
        (k : K) (live : K → ℕ) (o : Option C) (rs' : RefPool K C)
        → release (ref_of k) rs ≡ done (o, rs')
        → Step rs (more k live) rs' live

  pub data Run : RefPool K C → (K → ℕ) → Type 0 where
    here : Run [] (λ k. 0)
    next :
        {rs rs' : RefPool K C} {live live' : K → ℕ}
        → Run rs live
        → Step rs live rs' live'
        → Run rs' live'

  record Inv (rs : RefPool K C) (live : K → ℕ) : Type 0 where
    counted : (k : K) → num (lookup k rs) ≡ live k
    needed : (k : K) (r : Resource C) → lookup k rs ≡ some r → 0 < r.num_refs

  -- What `release` does for a resource that has a number of references.
  abbrev pub released : K → Resource C → ℕ → RefPool K C → Outcome (Option C × RefPool K C)
  released k r n rs = elim n [
    | zero ↦ elim r.closer [ none ↦ panics | some c ↦ done (some c, erase k rs) ]
    | suc m ↦ done (none, insert k (record r { num_refs = suc m }) rs)
  ]

  release_at :
      (k : K) (n : ℕ) (r : Resource C) (rs : RefPool K C)
      → lookup k rs ≡ some r
      → r.num_refs ≡ suc n
      → release (ref_of k) rs ≡ released k r n rs
  unfolding release dec count_down run_closer
  release_at k zero r rs h q = ground (arith, h, q)
  release_at k (suc n) r rs h q = ground (arith, h, q)

  there :
      (k : K) (n : ℕ) (rs : RefPool K C) (live : K → ℕ)
      → Inv rs live
      → live k ≡ suc n
      → (r : Resource C) × (lookup k rs ≡ some r) × (r.num_refs ≡ suc n)
  there k n rs live v h = elim (Option-cases (lookup k rs)) [
    | inl q ↦ absurd (ground (arith, v.counted k, h, q))
    | inr (r, q) ↦ (r, q, ground (arith, v.counted k, h, q))
  ]

  new_ref-Inv :
      (k : K) (rs : RefPool K C) (live : K → ℕ) → Inv rs live → Inv (new_ref k rs).1 (more k live)
  unfolding new_ref inc
  new_ref-Inv k rs live v = record {
    counted = λ j. ground (
      arith,
      lookup-insert k j (record (or_new (lookup k rs)) { num_refs = suc (num (lookup k rs)) }) rs,
      v.counted j,
      e.beq_iff k j,
      ap live,
      ap (λ i. num (lookup i rs)),
    );
    needed = λ j r h. ground (
      arith,
      lookup-insert k j (record (or_new (lookup k rs)) { num_refs = suc (num (lookup k rs)) }) rs,
      v.needed j r,
      h,
    );
  }

  -- A resource that is written, with as many references as are live.
  write-Inv :
      (k : K) (r : Resource C) (rs : RefPool K C) (live live' : K → ℕ)
      → Inv rs live
      → 0 < r.num_refs
      → ((j : K) → (if e.beq k j then r.num_refs else live j) ≡ live' j)
      → Inv (insert k r rs) live'
  write-Inv k r rs live live' v p h = record {
    counted = λ j. ground (arith, lookup-insert k j r rs, v.counted j, h j);
    needed = λ j s t. ground (arith, lookup-insert k j r rs, v.needed j s, t);
  }

  drop-Inv :
      (k : K) (rs : RefPool K C) (live live' : K → ℕ)
      → Inv rs live
      → ((j : K) → (if e.beq k j then 0 else live j) ≡ live' j)
      → Inv (erase k rs) live'
  drop-Inv k rs live live' v h = record {
    counted = λ j. ground (arith, lookup-erase k j rs, v.counted j, h j);
    needed = λ j s t. ground (arith, lookup-erase k j rs, v.needed j s, t);
  }

  set_closer-Inv :
      (k : K) (c : C) (rs rs' : RefPool K C) (live : K → ℕ)
      → Inv rs live
      → set_closer c (ref_of k) rs ≡ done rs'
      → Inv rs' live
  unfolding set_closer
  set_closer-Inv k c rs rs' live v h = elim (Option-cases (lookup k rs)) [
    | inl q ↦ absurd (ground (arith, h, q))
    | inr (r, q) ↦
        let p : insert k (record r { closer = some c }) rs ≡ rs' = ground (arith, h, q) in
        subst (λ z. Inv z live) p
          (write-Inv k (record r { closer = some c }) rs live live v (v.needed k r q)
            (λ j. ground (arith, v.counted k, ap live, e.beq_iff k j, q)))
  ]

  released-Inv :
      (k : K) (o : Option C) (rs rs' : RefPool K C) (live : K → ℕ) (n : ℕ) (r : Resource C)
      → Inv rs (more k live)
      → live k ≡ n
      → released k r n rs ≡ done (o, rs')
      → Inv rs' live
  released-Inv k o rs rs' live zero r v z t =
      let p : erase k rs ≡ rs' = ground (arith, t) in
      subst (λ z. Inv z live) p
        (drop-Inv k rs (more k live) live v (λ j. ground (arith, e.beq_iff k j, z, ap live)))
  released-Inv k o rs rs' live (suc m) r v z t =
      let p : insert k (record r { num_refs = suc m }) rs ≡ rs' = ground (arith, t) in
      subst (λ z. Inv z live) p
        (write-Inv k (record r { num_refs = suc m }) rs (more k live) live v (omega arith)
          (λ j. ground (arith, e.beq_iff k j, z, ap live)))

  release-Inv :
      (k : K) (o : Option C) (rs rs' : RefPool K C) (live : K → ℕ)
      → Inv rs (more k live)
      → release (ref_of k) rs ≡ done (o, rs')
      → Inv rs' live
  release-Inv k o rs rs' live v h =
      let (r, q, n) = there k (live k) rs (more k live) v (ground (arith, e.beq_iff k k)) in
      released-Inv k o rs rs' live (live k) r v refl (sym (release_at k (live k) r rs q n) ∙ h)

  Step-Inv :
      {rs rs' : RefPool K C} {live live' : K → ℕ}
      → Step rs live rs' live'
      → Inv rs live
      → Inv rs' live'
  Step-Inv {rs} (do_new k live) v = new_ref-Inv k rs live v
  Step-Inv {rs} (do_set k c live rs' p h) v = set_closer-Inv k c rs rs' live v h
  Step-Inv {rs} (do_release k live o rs' h) v = release-Inv k o rs rs' live v h

  Run-Inv : {rs : RefPool K C} {live : K → ℕ} → Run rs live → Inv rs live
  Run-Inv here = record { counted = λ k. refl; needed = λ k r h. absurd (ground (arith, h)) }
  Run-Inv (next r s) = Step-Inv s (Run-Inv r)

  -- After any calls on references that are not released: a key has a resource exactly when it has
  -- such references, and `release` of one of them leaves the others counted and calls no closer while
  -- there are others; for the last one it calls the closer and drops the resource, or panics if no
  -- closer was set.
  pub Run-release :
      (rs : RefPool K C) (live : K → ℕ) (k : K) (n : ℕ)
      → Run rs live
      → live k ≡ suc n
      → (r : Resource C) × (lookup k rs ≡ some r)
        × (release (ref_of k) rs ≡ released k r n rs)
        × ((j : K) → live j ≡ 0 → lookup j rs ≡ none)
  Run-release rs live k n run h =
      let v = Run-Inv run in
      let (r, q, m) = there k n rs live v h in
      (
        r,
        q,
        release_at k n r rs q m,
        λ j z. elim (Option-cases (lookup j rs)) [
          | inl a ↦ a
          | inr (s, a) ↦ absurd (ground (arith, v.counted j, v.needed j s a, a, z))
        ],
      )

  -- Releasing one reference twice, where there is one other: neither call panics, and the second
  -- calls the closer and drops the resource although the other reference was not released.
  pub release-release :
      (rs : RefPool K C) (me : Ref K) (r : Resource C) (c : C)
      → me.closed ≡ false
      → lookup me.key rs ≡ some r
      → r.num_refs ≡ 2
      → r.closer ≡ some c
      → (o : RefPool K C) × (release me rs ≡ done (none, o))
        × (release me o ≡ done (some c, erase me.key o))
  unfolding release dec count_down run_closer
  release-release rs me r c open_still h n q =
      let o = insert me.key (record r { num_refs = 1 }) rs in
      let at = lookup-insert me.key me.key (record r { num_refs = 1 }) rs in
      (
        o,
        ground (arith, open_still, h, n),
        ground (arith, open_still, at, e.beq_iff me.key me.key, q),
      )
