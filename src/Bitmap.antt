-- ===== src/Bitmap.antt =====
-- bitmap/bitmap.go, bitmap/iter.go and bitmap/global.go: sets of 32-bit values, over the bitmaps of
-- github.com/RoaringBitmap/roaring. A `Bitmap` holds a pointer to such a bitmap, or nil; two values
-- that hold one pointer are not modelled, and `Copy` makes none.
pub mod Means
mod Tests
use missinggo.Base.{
  ℕ, ◌+◌, ◌-◌, ◌%◌, ◌<◌, ◌≤◌, ◌≡◌, Bool, true, false, ◌||◌, ◌&&◌, not, List, [], ◌∷◌, Option, none,
  some, ◌==◌, ltb, leb, if◌then◌else◌, length, map,
}
use missinggo.Base.Int.{ℤ, pos, negsuc, ltb_ℤ, beq_ℤ}
use missinggo.Base.Callbacks.{Callback, each_all, each}
use missinggo.Base.Outcome.{Outcome, done, panics, ◌>>=◌, Returns}

abbrev pub elem : ℕ → List ℕ → Bool
elem u [] = false
elem u (x ∷ xs) = x == u || elem u xs

abbrev pub within : ℕ → ℕ → ℕ → Bool
within a b u = leb a u && ltb u b

-- `roaring.Bitmap` by its documentation: a set of 32-bit values, whose ranges are half open and have
-- 64-bit ends. `AddRange` and `Flip` want ends of 2^32 at most; `RemoveRange` removes what there is.
pub record Roaring : Type 1 where
  pub Rb : Type 0
  pub new : Rb
  pub add : ℕ → Rb → Rb
  pub remove : ℕ → Rb → Rb
  pub add_range : ℕ → ℕ → Rb → Outcome Rb
  pub remove_range : ℕ → ℕ → Rb → Rb
  pub flip : ℕ → ℕ → Rb → Outcome Rb
  pub or : Rb → Rb → Rb
  pub and_not : Rb → Rb → Rb
  pub contains : ℕ → Rb → Bool
  pub to_array : Rb → List ℕ
  pub contains_new : (u : ℕ) → contains u new ≡ false
  pub contains_add : (v u : ℕ) (b : Rb) → contains u (add v b) ≡ (v == u || contains u b)
  pub contains_remove :
      (v u : ℕ) (b : Rb) → contains u (remove v b) ≡ (not (v == u) && contains u b)
  pub contains_add_range :
      (v w : ℕ) (b : Rb)
      → w ≤ 4294967296
      → Returns (λ c. (u : ℕ) → contains u c ≡ (within v w u || contains u b)) (add_range v w b)
  pub contains_remove_range :
      (v w u : ℕ) (b : Rb) → contains u (remove_range v w b) ≡ (not (within v w u) && contains u b)
  pub contains_flip :
      (v w : ℕ) (b : Rb)
      → w ≤ 4294967296
      → Returns
          (λ c.
            (u : ℕ) → contains u c ≡ (if within v w u then not (contains u b) else contains u b))
          (flip v w b)
  pub contains_or : (u : ℕ) (b c : Rb) → contains u (or b c) ≡ (contains u b || contains u c)
  pub contains_and_not :
      (u : ℕ) (b c : Rb) → contains u (and_not b c) ≡ (contains u b && not (contains u c))
  pub to_array_elem : (u : ℕ) (b : Rb) → elem u (to_array b) ≡ contains u b

-- `uint32(i)`, `uint64(i)` and `int(int32(u))`.
unfoldable pub to_uint32 : ℤ → ℕ
to_uint32 (pos n) = n % 4294967296
to_uint32 (negsuc n) = 4294967295 - n % 4294967296

unfoldable pub to_uint64 : ℤ → ℕ
to_uint64 (pos n) = n % 18446744073709551616
to_uint64 (negsuc n) = 18446744073709551615 - n % 18446744073709551616

unfoldable pub from_uint32 : ℕ → ℤ
from_uint32 u = if ltb u 2147483648 then pos u else negsuc (4294967295 - u)

-- `checkInt`: whether it returns.
unfoldable pub check_int : ℤ → Bool
check_int i = not (ltb_ℤ i (negsuc 2147483647) || ltb_ℤ (pos 2147483647) i)

module _ (r : Roaring) where
  open r use {Rb}

  abbrev pub Bitmap : Type 0
  Bitmap = Option Rb

  abbrev pub lazy_rb : Bitmap → Rb
  lazy_rb none = r.new
  lazy_rb (some rb) = rb

  unfoldable pub len : Bitmap → ℕ
  len none = 0
  len (some rb) = length (r.to_array rb)

  unfoldable pub to_sorted_slice : Bitmap → List ℤ
  to_sorted_slice none = []
  to_sorted_slice (some rb) = map from_uint32 (r.to_array rb)

  unfoldable pub iter_typed : {S : Type 0} → Callback ℤ S → Bitmap → S → S × Bool
  iter_typed f none s = (s, true)
  iter_typed f (some rb) s = each_all (map pos (r.to_array rb)) f s

  unfoldable pub iter : {S : Type 0} → Callback ℤ S → Bitmap → S → S
  unfolding iter_typed
  iter cb me s = (iter_typed cb me s).0

  -- The loop of `Add`.
  unfoldable pub add_all : List ℤ → Rb → Outcome Rb
  unfolding check_int to_uint32
  add_all [] rb = done rb
  add_all (i ∷ is) rb =
      let rest = add_all is (r.add (to_uint32 i) rb) in if check_int i then rest else panics

  unfoldable pub add : List ℤ → Bitmap → Outcome Bitmap
  unfolding add_all
  add is me = add_all is (lazy_rb me) >>= λ rb. done (some rb)

  unfoldable pub add_range : ℤ → ℤ → Bitmap → Outcome Bitmap
  unfolding to_uint64
  add_range begin end me =
      if not (ltb_ℤ begin end)
      then done me
      else (r.add_range (to_uint64 begin) (to_uint64 end) (lazy_rb me) >>= λ rb. done (some rb))

  -- With whether the bit was there.
  unfoldable pub remove : ℤ → Bitmap → Bool × Bitmap
  unfolding to_uint32
  remove i none = (false, none)
  remove i (some rb) = (r.contains (to_uint32 i) rb, some (r.remove (to_uint32 i) rb))

  -- The other bitmap is passed by value, so a pointer that is made for it is dropped.
  unfoldable pub union : Bitmap → Bitmap → Bitmap
  union other me = some (r.or (lazy_rb me) (lazy_rb other))

  unfoldable pub contains : ℤ → Bitmap → Bool
  unfolding to_uint32
  contains i none = false
  contains i (some rb) = r.contains (to_uint32 i) rb

  unfoldable pub sub : Bitmap → Bitmap → Bitmap
  sub none me = me
  sub (some other) none = none
  sub (some other) (some rb) = some (r.and_not rb other)

  unfoldable pub clear : Bitmap → Bitmap
  clear none = none
  clear (some rb) = some r.new

  -- `Copy`; a clone has the same values.
  abbrev pub copy : Bitmap → Bitmap
  copy me = me

  unfoldable pub flip_range : ℤ → ℤ → Bitmap → Outcome Bitmap
  unfolding to_uint64
  flip_range begin end me =
      r.flip (to_uint64 begin) (to_uint64 end) (lazy_rb me) >>= λ rb. done (some rb)

  unfoldable pub get : ℤ → Bitmap → Bool
  unfolding to_uint32
  get bit none = false
  get bit (some rb) = r.contains (to_uint32 bit) rb

  unfoldable pub set : ℤ → Bool → Bitmap → Bitmap
  unfolding to_uint32
  set bit true me = some (r.add (to_uint32 bit) (lazy_rb me))
  set bit false none = none
  set bit false (some rb) = some (r.remove (to_uint32 bit) rb)

  unfoldable pub remove_range : ℤ → ℤ → Bitmap → Bitmap
  unfolding to_uint64
  remove_range begin end none = none
  remove_range begin end (some rb) = some (
      r.remove_range (to_uint64 begin) (if beq_ℤ end (negsuc 0) then 4294967296 else to_uint64 end)
        rb)

  unfoldable pub is_empty : Bitmap → Bool
  is_empty none = true
  is_empty (some rb) = length (r.to_array rb) == 0

  -- `Sub` and `Flip` of global.go make new bitmaps.
  unfoldable pub sub_of : Bitmap → Bitmap → Bitmap
  sub_of left right = some (r.and_not (lazy_rb left) (lazy_rb right))

  unfoldable pub flip_of : Bitmap → ℤ → ℤ → Outcome Bitmap
  unfolding to_uint64
  flip_of bm start end =
      r.flip (to_uint64 start) (to_uint64 end) (lazy_rb bm) >>= λ rb. done (some rb)
