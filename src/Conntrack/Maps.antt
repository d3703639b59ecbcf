-- ===== src/Conntrack/Maps.antt =====
-- The maps and sets of maps that conntrack/instance.go keeps in its transactional variables. The
-- persistent maps are those of stmutil, which the repository only calls.
use missinggo.Base.{
  ℕ, ◌+◌, ◌≤◌, ◌≡◌, ◌≢◌, refl, Bool, true, false, ◌&&◌, List, [], ◌∷◌, Option, none, some, arith,
  if◌then◌else◌, ◌==◌, inl, inr, Bool-cases, Option-cases,
}
use missinggo.Base.Keys.{Eq, same}
use missinggo.Base.Int.{ℤ, int_eq, ltb_ℤ, same-ltb_ℤ}
use missinggo.OrderedMap.Interface.{OrderedMap, is_some}
use missinggo.OrderedMap.Sorted.{find_item, same_refl}

-- `stmutil.Mappish`, and `stmutil.Settish` where the values are the unit.
pub record Mappish (K V : Type 0) ⦃e : Eq K⦄ : Type 1 where
  pub Map : Type 0
  pub new : Map
  pub get : K → Map → Option V
  pub set : K → V → Map → Map
  pub delete : K → Map → Map
  pub len : Map → ℕ
  pub get_new : (k : K) → get k new ≡ none
  pub get_set :
      (k j : K) (v : V) (m : Map) → get j (set k v m) ≡ (if e.beq k j then some v else get j m)
  pub get_delete : (k j : K) (m : Map) → get j (delete k m) ≡ (if e.beq k j then none else get j m)
  pub len_zero : (k : K) (m : Map) → len m ≡ 0 → get k m ≡ none
  pub len_pos : (m : Map) → len m ≢ 0 → (k : K) × (v : V) × (get k m ≡ some v)

-- What `Len` says after a `Set` and a `Delete`.
pub record Counts {K V : Type 0} ⦃e : Eq K⦄ (m : Mappish K V) : Type 0 where
  pub len_set_new :
      (k : K) (v : V) (s : m.Map) → m.get k s ≡ none → m.len (m.set k v s) ≡ m.len s + 1
  pub len_set_old :
      (k : K) (v w : V) (s : m.Map) → m.get k s ≡ some w → m.len (m.set k v s) ≡ m.len s
  pub len_delete : (k : K) (s : m.Map) → m.len (m.delete k s) ≤ m.len s

-- An ordered map over integers, seen as a plain one (`stmutil.NewSortedMap`).
module _ {V : Type 0} {lesser : ℤ → ℤ → Bool} (m : OrderedMap V lesser) where
  pub ordered_len_zero : (k : ℤ) (s : m.Map) → m.len s ≡ 0 → m.get_ok k s ≡ none
  unfolding find_item
  ordered_len_zero k s h = from (m.keys s) refl
    where
      from : (l : List ℤ) → m.keys s ≡ l → m.get_ok k s ≡ none
      from [] e = ground (arith, m.keys_get_ok k s)
      from (x ∷ l) e = absurd (ground (arith, m.len_keys s))

  pub ordered_len_pos : (s : m.Map) → m.len s ≢ 0 → (k : ℤ) × (v : V) × (m.get_ok k s ≡ some v)
  unfolding find_item
  ordered_len_pos s h = from (m.keys s) refl
    where
      from : (l : List ℤ) → m.keys s ≡ l → (k : ℤ) × (v : V) × (m.get_ok k s ≡ some v)
      from [] e = absurd (ground (arith, m.len_keys s))
      from (x ∷ l) e = elim (Option-cases (m.get_ok x s)) [
        | inl p ↦ absurd (ground (arith, m.keys_get_ok x s, same_refl m.order x))
        | inr (v, p) ↦ (x, v, p)
      ]

-- The order of `waitersByPriority`.
abbrev pub higher : ℤ → ℤ → Bool
higher l r = ltb_ℤ r l

abbrev pub ordered : {V : Type 0} → OrderedMap V higher → Mappish ℤ V
ordered m = record {
  Map = m.Map;
  new = m.new;
  get = m.get_ok;
  set = m.set;
  delete = m.unset;
  len = m.len;
  get_new = m.get_ok_new;
  get_set = λ k j v s. rw (← same-ltb_ℤ k j) (m.get_ok_set k j v s);
  get_delete = λ k j s. rw (← same-ltb_ℤ k j) (m.get_ok_unset k j s);
  len_zero = ordered_len_zero m;
  len_pos = ordered_len_pos m;
}

module _ {K H : Type 0} ⦃e : Eq K⦄ ⦃h : Eq H⦄ (sets : Mappish H (Unit {0}))
    (m : Mappish K sets.Map) where
  unfoldable pub delete_from_map_to_set : K → H → m.Map → m.Map
  delete_from_map_to_set key elem s = elim (m.get key s) [
    | none ↦ s
    | some t ↦
        if sets.len (sets.delete elem t) == 0
        then m.delete key s
        else m.set key (sets.delete elem t) s
  ]

  unfoldable pub add_to_map_to_set : K → H → m.Map → m.Map
  add_to_map_to_set key elem s = elim (m.get key s) [
    | none ↦ m.set key (sets.set elem tt sets.new) s
    | some t ↦ m.set key (sets.set elem tt t) s
  ]

  abbrev pub set_has : Option sets.Map → H → Bool
  set_has none x = false
  set_has (some t) x = is_some (sets.get x t)

  -- Whether the set at a key has an element.
  abbrev pub holds : m.Map → K → H → Bool
  holds s key x = set_has (m.get key s) x

  -- No set in the map is empty.
  abbrev pub NoEmpty : m.Map → Type 0
  NoEmpty s = (k : K) (t : sets.Map) → m.get k s ≡ some t → sets.len t ≢ 0

  pub holds-add :
      (key k : K) (elem x : H) (s : m.Map)
      → holds (add_to_map_to_set key elem s) k x
        ≡ (if e.beq key k && h.beq elem x then true else holds s k x)
  unfolding add_to_map_to_set
  holds-add key k elem x s = elim (Option-cases (m.get key s)) [
    | inl p ↦
        rw (p, add_to_map_to_set)
          (ground (
            arith,
            p,
            e.beq_iff key k,
            m.get_set key k (sets.set elem tt sets.new) s,
            sets.get_set elem x tt sets.new,
            sets.get_new x,
          ))
    | inr (t, p) ↦
        rw (p, add_to_map_to_set)
          (ground (
            arith,
            p,
            e.beq_iff key k,
            m.get_set key k (sets.set elem tt t) s,
            sets.get_set elem x tt t,
          ))
  ]

  pub holds-delete :
      (key k : K) (elem x : H) (s : m.Map)
      → holds (delete_from_map_to_set key elem s) k x
        ≡ (if e.beq key k && h.beq elem x then false else holds s k x)
  unfolding delete_from_map_to_set
  holds-delete key k elem x s = elim (Option-cases (m.get key s)) [
    | inl p ↦ rw (p, delete_from_map_to_set) (ground (arith, p, e.beq_iff key k))
    | inr (t, p) ↦
        rw (p, delete_from_map_to_set)
          (ground (
            arith,
            p,
            e.beq_iff key k,
            m.get_set key k (sets.delete elem t) s,
            m.get_delete key k s,
            sets.get_delete elem x t,
            sets.len_zero x (sets.delete elem t),
          ))
  ]

  pub add-NoEmpty :
      (key : K) (elem : H) (s : m.Map) → NoEmpty s → NoEmpty (add_to_map_to_set key elem s)
  unfolding add_to_map_to_set
  add-NoEmpty key elem s ne k t p z = elim (Bool-cases (e.beq key k)) [
    | inl same ↦ absurd (
        ground (
          arith,
          holds-add key k elem elem s,
          h.beq_iff elem elem,
          sets.len_zero elem t z,
          p,
          same,
        ))
    | inr other ↦
        ne k t
          (elim (Option-cases (m.get key s)) [
            | inl q ↦ ground (
              arith,
              rw (q, add_to_map_to_set) at p,
              m.get_set key k (sets.set elem tt sets.new) s,
            )
            | inr (u, q) ↦
                ground
                  (arith, rw (q, add_to_map_to_set) at p, m.get_set key k (sets.set elem tt u) s)
          ])
          z
  ]

  pub delete-NoEmpty :
      (key : K) (elem : H) (s : m.Map) → NoEmpty s → NoEmpty (delete_from_map_to_set key elem s)
  unfolding delete_from_map_to_set
  delete-NoEmpty key elem s ne k t p z = elim (Option-cases (m.get key s)) [
    | inl q ↦ ne k t (rw (q, delete_from_map_to_set) at p) z
    | inr (u, q) ↦ elim (Bool-cases (sets.len (sets.delete elem u) == 0)) [
      | inl gone ↦
          ne k t (ground (arith, rw (q, gone, delete_from_map_to_set) at p, m.get_delete key k s)) z
      | inr left ↦ elim (Bool-cases (e.beq key k)) [
        | inl same ↦ absurd (
            ground (
              arith,
              rw (q, left, delete_from_map_to_set) at p,
              z,
              m.get_set key k (sets.delete elem u) s,
            ))
        | inr other ↦
            ne k t
              (ground (
                arith,
                rw (q, left, delete_from_map_to_set) at p,
                m.get_set key k (sets.delete elem u) s,
              ))
              z
      ]
    ]
  ]

  -- A set that exists takes a slot of its map once more only if its key is new.
  pub len-add :
      (n : Counts m) (key : K) (elem : H) (s : m.Map)
      → m.len (add_to_map_to_set key elem s) ≤ m.len s + 1
  unfolding add_to_map_to_set
  len-add n key elem s = elim (Option-cases (m.get key s)) [
    | inl p ↦
        rw (p, add_to_map_to_set)
          (ground (arith, n.len_set_new key (sets.set elem tt sets.new) s p))
    | inr (t, p) ↦
        rw (p, add_to_map_to_set) (ground (arith, n.len_set_old key (sets.set elem tt t) t s p))
  ]

  pub len-delete_from :
      (n : Counts m) (key : K) (elem : H) (s : m.Map)
      → m.len (delete_from_map_to_set key elem s) ≤ m.len s
  unfolding delete_from_map_to_set
  len-delete_from n key elem s = elim (Option-cases (m.get key s)) [
    | inl p ↦ rw (p, delete_from_map_to_set) (omega arith)
    | inr (t, p) ↦
        rw (p, delete_from_map_to_set)
          (ground (arith, n.len_delete key s, n.len_set_old key (sets.delete elem t) t s p))
  ]
