-- ===== src/FileCache/Tests.antt =====
-- The file cache on a small machine: its theorems at concrete inputs.
use missinggo.Base.{
  ℕ, ◌+◌, ◌≡◌, refl, true, [], ◌∷◌, Option, none, some, arith, inl, inr, Bool-cases, ◌++◌,
}
use missinggo.Base.Int.{pos, ◌+ℤ◌, ◌-ℤ◌}
use missinggo.Base.Keys.{
  bytes_less, bytes_key, bytes_less-StrictOrder, same-bytes_less, bytes_eq_iff, bytes_eq,
}
use missinggo.Base.Dict.{lookup, insert}
use missinggo.Base.Outcome.{out_of_fuel, ◌>>=◌, Ensures, Returns}
use missinggo.OrderedMap.Interface.{OrderedMap}
use missinggo.OrderedMap.Defs.{item_less}
use missinggo.OrderedMap.Reference.{sorted_list}
use missinggo.OrderedMap.Laws.{google_btree, item_less-StrictOrder}
use missinggo.FileCache.Paths.{
  Bytes, AllPlain, elements, realpath, sanitize_path, realpath-sanitize_path, sanitize_path_twice,
}
use missinggo.FileCache.Lru.{LruKey, before, new_lru, used, choose}
use missinggo.FileCache.Lru.Invariant.{TotalOrder, before-StrictOrder, new_lru-Inv}
use missinggo.FileCache.Lru.Choice.{IsOldest, choose-IsOldest}
use missinggo.FileCache.Os.{Os, not_exist, other, ok, err}
use missinggo.FileCache.Cache.{ItemState, or_zero, Cache, drop_item, trim_to_capacity}
use missinggo.FileCache.Cache.Invariant.{Inv, keep-Inv}
use missinggo.FileCache.Cache.Trim.{Trimmed}
use missinggo.FileCache.Cache.Ends.{
  RootStays, Removable, trim_to_capacity-Returns, trim_to_capacity_refused,
}
use missinggo.FileCache.Operations.{new_cache, run, open_call, update_item}
use missinggo.FileCache.Operations.Accounts.{Settled, update_item-Settled, new_cache-run-Inv}

abbrev byte_order : TotalOrder bytes_less
byte_order = record { strict = bytes_less-StrictOrder; total = same-bytes_less }

abbrev key_order : OrderedMap (Option (LruKey Bytes)) (before bytes_less)
key_order =
    google_btree (before bytes_less) (before-StrictOrder bytes_less byte_order)
      (sorted_list (item_less (before bytes_less))
        (item_less-StrictOrder (before bytes_less) (before-StrictOrder bytes_less byte_order)))
      none

-- A machine with only its root directory left, and a clock.
abbrev machine : Os
machine = record {
  World = ℕ;
  stat = λ p w. elim p [
    | [] ↦ ok (record { size = 0; mod_time = 0; access_time = 0; is_dir = true; inode = 2 })
    | s ∷ ss ↦ err not_exist
  ];
  remove = λ p w. elim p [ [] ↦ (w, some (other 16)) | s ∷ ss ↦ (w, some not_exist) ];
  mkdir_all = λ p w. (w, none);
  rename = λ p q w. (w, none);
  open_file = λ p flag w. (w, ok 3);
  now = λ w. (w + 1, w);
  creates = λ flag. true;
  walk = λ p w. [];
}

abbrev a_txt : Bytes
a_txt = b'a' ∷ []

abbrev b_txt : Bytes
b_txt = b'b' ∷ []

realpath-sanitize_path_example :
    (realpath ((b'c' ∷ []) ∷ []) (sanitize_path (b'.' ∷ b'.' ∷ b'/' ∷ b'a' ∷ []))
      ≡ elements (b'.' ∷ b'.' ∷ b'/' ∷ b'a' ∷ []) ++ (b'c' ∷ []) ∷ [])
    × AllPlain (elements (b'.' ∷ b'.' ∷ b'/' ∷ b'a' ∷ []))
realpath-sanitize_path_example =
    realpath-sanitize_path ((b'c' ∷ []) ∷ []) (b'.' ∷ b'.' ∷ b'/' ∷ b'a' ∷ [])

sanitized_again :
    sanitize_path (sanitize_path (b'/' ∷ b'a' ∷ b'/' ∷ []))
    ≡ sanitize_path (b'/' ∷ b'a' ∷ b'/' ∷ [])
sanitized_again = sanitize_path_twice (b'/' ∷ b'a' ∷ b'/' ∷ [])

sanitize_path_up : sanitize_path (b'.' ∷ b'.' ∷ b'/' ∷ b'a' ∷ b'/' ∷ []) ≡ a_txt
unfolding sanitize_path
sanitize_path_up = refl

abbrev empty : Cache key_order machine
empty = record {
  root = (b'c' ∷ []) ∷ [];
  capacity = pos 15;
  filled = pos 0;
  policy = new_lru bytes_less key_order;
  items = [];
}

empty-Inv : Inv byte_order key_order machine empty
unfolding new_lru
empty-Inv = record {
  filled = refl;
  distinct = tt;
  policy = new_lru-Inv bytes_less byte_order key_order;
  agree = λ k. refl;
}

-- The cache after `updateItem` has kept an item.
abbrev with_item : Cache key_order machine → Bytes → ItemState → Cache key_order machine
with_item me k i = record me {
  filled = me.filled -ℤ (or_zero (lookup k me.items)).size +ℤ i.size;
  policy = used bytes_less key_order k i.accessed me.policy;
  items = insert k i me.items;
}

-- Two files of 10 and 20 bytes in a cache for 15.
abbrev two : Cache key_order machine
two =
    with_item (with_item empty a_txt (record { accessed = 1; size = pos 10 })) b_txt
      (record { accessed = 2; size = pos 20 })

two-Inv : Inv byte_order key_order machine two
two-Inv =
    keep-Inv byte_order key_order machine _ b_txt (record { accessed = 2; size = pos 20 })
      (keep-Inv byte_order key_order machine empty a_txt (record { accessed = 1; size = pos 10 })
        empty-Inv)

machine-RootStays : RootStays machine
machine-RootStays = record { stat = λ w h. cc; remove = λ w h. cc }

two-Removable : Removable key_order machine two
unfolding realpath
two-Removable k i w h = elim (Bool-cases (bytes_eq a_txt k)) [
  | inl p ↦ rw (← (bytes_eq_iff a_txt k).0 p) (inr refl)
  | inr p ↦ elim (Bool-cases (bytes_eq b_txt k)) [
    | inl q ↦ rw (← (bytes_eq_iff b_txt k).0 q) (inr refl)
    | inr q ↦ absurd (ground arith)
  ]
]

trim_to_capacity-Returns_example :
    Returns
      (λ r. Trimmed byte_order key_order machine two r.0)
      (trim_to_capacity key_order machine 3 two 7)
trim_to_capacity-Returns_example =
    trim_to_capacity-Returns byte_order key_order machine 3 two 7 machine-RootStays two-Inv
      two-Removable (omega arith)

choose-IsOldest_example :
    Returns
      (IsOldest bytes_less byte_order key_order two.policy.o_keys)
      (choose bytes_less key_order two.policy)
unfolding used new_lru
choose-IsOldest_example =
    choose-IsOldest bytes_less byte_order key_order two.policy b_txt
      (record { item = some b_txt; used = 2 }) two-Inv.policy refl

new_cache-run-Inv_example :
    Ensures
      (λ r. Inv byte_order key_order machine r.0)
      (new_cache key_order machine 9 ((b'c' ∷ []) ∷ []) 7 >>= λ r.
        run key_order machine 9 (open_call a_txt 66 ∷ []) r.0 r.1)
new_cache-run-Inv_example =
    new_cache-run-Inv byte_order key_order machine 9 ((b'c' ∷ []) ∷ []) (open_call a_txt 66 ∷ []) 7

update_item-Settled_example :
    Ensures
      (λ r. Settled byte_order key_order machine r.0)
      (update_item key_order machine 3 a_txt (drop_item key_order machine) two 7)
update_item-Settled_example =
    update_item-Settled byte_order key_order machine 3 a_txt (drop_item key_order machine) two 7
      two-Inv

-- The same machine, which lets nobody remove a file.
abbrev read_only : Os
read_only = record machine { remove = λ p w. (w, some (other 30)) }

abbrev two_read_only : Cache key_order read_only
two_read_only = record {
  root = two.root;
  capacity = two.capacity;
  filled = two.filled;
  policy = two.policy;
  items = two.items;
}

two_read_only-Inv : Inv byte_order key_order read_only two_read_only
two_read_only-Inv = record {
  filled = two-Inv.filled;
  distinct = two-Inv.distinct;
  policy = two-Inv.policy;
  agree = two-Inv.agree;
}

trim_to_capacity_refused_example :
    trim_to_capacity key_order read_only 100 two_read_only 7 ≡ out_of_fuel
unfolding ◌+ℤ◌ ◌-ℤ◌
trim_to_capacity_refused_example =
    trim_to_capacity_refused byte_order key_order read_only 100 two_read_only 7 (λ p w. (30, refl))
      two_read_only-Inv refl refl
