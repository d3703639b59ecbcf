-- ===== src/FileCache/Cache.antt =====
-- filecache/cache.go and filecache/itemstate.go: the cache's state and its operations. An operation
-- runs under the cache's mutex, so it is a function of the state and of the machine's.
pub mod Invariant
pub mod Trim
pub mod Ends
use missinggo.Base.{
  ℕ, zero, suc, ◌+◌, ◌≡◌, Bool, true, false, List, [], ◌∷◌, Option, none, some, if◌then◌else◌, ltb,
  ◌==◌, length,
}
use missinggo.Base.Int.{ℤ, pos, negsuc, ◌+ℤ◌, ◌-ℤ◌, ltb_ℤ}
use missinggo.Base.Keys.{Eq, bytes_less, bytes_key}
use missinggo.Base.Dict.{lookup, insert, erase}
use missinggo.Base.Outcome.{Outcome, done, panics, out_of_fuel, ◌>>=◌}
use missinggo.OrderedMap.Interface.{OrderedMap}
use missinggo.FileCache.Paths.{Bytes, FilePath, dir, realpath, sanitize_path, is_empty}
use missinggo.FileCache.Lru
use missinggo.FileCache.Lru.{Lru, LruKey, before, new_lru, choose}
use missinggo.FileCache.Os.{Os, OsError, not_exist, other, OsResult, ok, err, FileInfo}

-- Sizes are int64 in the source; no sum here reaches 2^63 bytes, so they do not wrap.
pub record ItemState : Type 0 where
  pub accessed : ℕ
  pub size : ℤ

-- The later of the access and the modification time.
unfoldable pub from_os_file_info : FileInfo → ItemState
from_os_file_info fi = record {
  accessed = if ltb fi.access_time fi.mod_time then fi.mod_time else fi.access_time;
  size = pos fi.size;
}

abbrev pub zero_item : ItemState
zero_item = record { accessed = 0; size = pos 0 }

abbrev pub or_zero : Option ItemState → ItemState
or_zero none = zero_item
or_zero (some i) = i

abbrev pub present : Option ItemState → Bool
present none = false
present (some i) = true

module _ (om : OrderedMap (Option (LruKey Bytes)) (before bytes_less)) (os : Os) where
  open os use {World}

  pub record Cache : Type 0 where
    pub root : FilePath
    pub capacity : ℤ
    pub filled : ℤ
    pub policy : Lru bytes_less om
    pub items : List (Bytes × ItemState)

  -- What an operation leaves behind.
  abbrev pub After : Type 0 → Type 0
  After A = Outcome (A × Cache × World)

  -- The callbacks of `updateItem`: the item (zero if there is none) and whether there is one, to
  -- the new item and whether to keep it.
  abbrev pub Update : Type 0
  Update = ItemState → Bool → World → Outcome (ItemState × Bool × World)

  -- The loop of `pruneEmptyDirs`: up from `leaf`, until a directory cannot be removed.
  unfoldable pub prune_from : ℕ → FileInfo → FilePath → World → Outcome World
  prune_from zero root_info leaf w = out_of_fuel
  prune_from (suc fuel) root_info leaf w = elim (os.stat leaf w) [
    | err not_exist ↦ prune_from fuel root_info (dir leaf) w
    | err (other n) ↦ done w
    | ok info ↦ elim info.is_dir [
      | false ↦ done w
      | true ↦ elim (root_info.inode == info.inode) [
        | true ↦ done w
        | false ↦ elim (os.remove leaf w).1 [
          | some e ↦ done (os.remove leaf w).0
          | none ↦ prune_from fuel root_info (dir leaf) (os.remove leaf w).0
        ]
      ]
    ]
  ]

  unfoldable pub prune_empty_dirs : FilePath → FilePath → World → Outcome World
  prune_empty_dirs root leaf w = elim (os.stat root w) [
    | err e ↦ done w
    | ok root_info ↦ prune_from (length leaf + 1) root_info leaf w
  ]

  -- The callback that `remove` and `Rename` drop an item by.
  abbrev pub drop_item : Update
  drop_item i present w = done (i, false, w)

  -- The end of `updateItem`, with what its callback returned.
  unfoldable pub settle :
      (Cache → World → Outcome (Cache × World))
      → Bytes
      → Cache
      → ItemState × Bool × World
      → Outcome (Cache × World)
  settle trim k me (i, true, w) =
      trim
        (record me {
          filled = me.filled -ℤ (or_zero (lookup k me.items)).size +ℤ i.size;
          policy = Lru.used bytes_less om k i.accessed me.policy;
          items = insert k i me.items;
        })
        w
  settle trim k me (i, false, w) =
      trim
        (record me {
          filled = me.filled -ℤ (or_zero (lookup k me.items)).size;
          policy = Lru.forget bytes_less om k me.policy;
          items = erase k me.items;
        })
        w

  -- `updateItem`, given the `trimToCapacity` that it ends with.
  unfoldable pub update_item_then :
      (Cache → World → Outcome (Cache × World))
      → Bytes
      → Update
      → Cache
      → World
      → Outcome (Cache × World)
  unfolding settle
  update_item_then trim k u me w = do
    let old = lookup k me.items
    r ← u (or_zero old) (present old) w
    settle trim k me r

  -- The end of `remove`, once the file is gone.
  unfoldable pub forget_then :
      (Cache → World → Outcome (Cache × World)) → Bytes → Cache → World → After (Option OsError)
  forget_then trim k me w = do
    w' ← prune_empty_dirs me.root (realpath me.root k) w
    (me', w'') ← update_item_then trim k drop_item me w'
    done (none, me', w'')

  -- `remove`, likewise. The first component is the error that it returns.
  unfoldable pub remove_then :
      (Cache → World → Outcome (Cache × World)) → Bytes → Cache → World → After (Option OsError)
  remove_then trim k me w = elim (os.remove (realpath me.root k) w).1 [
    | none ↦ forget_then trim k me (os.remove (realpath me.root k) w).0
    | some e ↦ elim e [
      | not_exist ↦ forget_then trim k me (os.remove (realpath me.root k) w).0
      | other n ↦ done (some (other n), me, (os.remove (realpath me.root k) w).0)
    ]
  ]

  -- `trimToCapacity`. The call that `remove` makes of it and the next round of the loop take one
  -- unit of fuel less.
  unfoldable pub trim_to_capacity : ℕ → Cache → World → Outcome (Cache × World)
  trim_to_capacity zero me w = out_of_fuel
  trim_to_capacity (suc fuel) me w = elim (ltb_ℤ me.capacity (pos 0)) [
    | true ↦ done (me, w)
    | false ↦ elim (ltb_ℤ me.capacity me.filled) [
      | false ↦ done (me, w)
      | true ↦ do
        k ← choose bytes_less om me.policy
        (e, me', w') ← remove_then (trim_to_capacity fuel) k me w
        trim_to_capacity fuel me' w'
    ]
  ]
