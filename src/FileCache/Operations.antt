-- ===== src/FileCache/Operations.antt =====
-- The public operations of filecache/cache.go and filecache/file.go, over `updateItem`. `fuel`
-- bounds the trimming that an operation may cause.
pub mod Accounts
use missinggo.Base.{
  ℕ, ◌≡◌, Bool, true, false, ◌&&◌, List, [], ◌∷◌, Option, none, some, if◌then◌else◌, length,
}
use missinggo.Base.Int.{ℤ, pos, negsuc, ltb_ℤ, ◌+ℤ◌}
use missinggo.Base.Keys.{bytes_less, bytes_key}
use missinggo.Base.Dict.{lookup}
use missinggo.Base.Outcome.{Outcome, done, panics, ◌>>=◌}
use missinggo.OrderedMap.Interface.{OrderedMap}
use missinggo.FileCache.Paths.{Bytes, FilePath, dir, realpath, sanitize_path, is_empty}
use missinggo.FileCache.Lru.{LruKey, before, new_lru}
use missinggo.FileCache.Os.{Os, OsError, not_exist, other, OsResult, ok, err, FileInfo}
use missinggo.FileCache.Cache.{
  ItemState, zero_item, or_zero, from_os_file_info, Cache, After, Update, drop_item,
  update_item_then, remove_then, trim_to_capacity,
}

pub record CacheInfo : Type 0 where
  pub capacity : ℤ
  pub filled : ℤ
  pub num_items : ℕ

record ItemInfo : Type 0 where
  path : Bytes
  accessed : ℕ
  size : ℤ

pub record File : Type 0 where
  pub path : Bytes
  pub f : ℕ
  pub offset : ℤ

-- What `OpenFile` returns; `os_error e b` also says whether it leaves a goroutine behind that
-- prunes the directories.
pub data Opened : Type 0 where
  is_dir_error : Opened
  os_error : OsError → Bool → Opened
  opened : File → Opened

module _ (om : OrderedMap (Option (LruKey Bytes)) (before bytes_less)) (os : Os) where
  open os use {World}

  -- The loop of `WalkItems` over the items, and `WalkItems`, for a callback that changes `S`.
  unfoldable walk_from : {S : Type 0} → List (Bytes × ItemState) → (ItemInfo → S → S) → S → S
  walk_from [] cb s = s
  walk_from ((k, ii) ∷ items) cb s =
      walk_from items cb (cb (record { path = k; accessed = ii.accessed; size = ii.size }) s)

  unfoldable walk_items : {S : Type 0} → (ItemInfo → S → S) → Cache om os → S → S
  unfolding walk_from
  walk_items cb me s = walk_from me.items cb s

  unfoldable pub info : Cache om os → CacheInfo
  info me = record { capacity = me.capacity; filled = me.filled; num_items = length me.items }

  unfoldable pub set_capacity : ℤ → Cache om os → Cache om os
  set_capacity capacity me = record me { capacity = capacity }

  unfoldable pub update_item :
      ℕ → Bytes → Update om os → Cache om os → World → Outcome (Cache om os × World)
  update_item fuel = update_item_then om os (trim_to_capacity om os fuel)

  unfoldable pub remove : ℕ → Bytes → Cache om os → World → After om os (Option OsError)
  remove fuel path = remove_then om os (trim_to_capacity om os fuel) (sanitize_path path)

  -- `statKey`; `none` where its `ok` is false.
  unfoldable pub stat_key : FilePath → Bytes → World → Outcome (Option ItemState)
  stat_key root k w = elim (os.stat (realpath root k) w) [
    | ok fi ↦ done (some (from_os_file_info fi))
    | err e ↦ elim e [ not_exist ↦ done none | other n ↦ panics ]
  ]

  -- The callbacks of `updateItem`, by what they serve.
  unfoldable pub read_update : Update om os
  read_update i present w = done (record i { accessed = (os.now w).1 }, present, (os.now w).0)

  unfoldable pub write_update : ℤ → Update om os
  write_update end_off i present w = done (
    record { accessed = (os.now w).1; size = if ltb_ℤ i.size end_off then end_off else i.size },
    present,
    (os.now w).0,
  )

  unfoldable pub stat_update : FilePath → Bytes → Update om os
  stat_update root k i present w =
      stat_key root k w >>= elim [ none ↦ done (zero_item, false, w) | some s ↦ done (s, true, w) ]

  unfoldable pub open_update : FilePath → Bytes → Update om os
  open_update root k i present w = elim present [
    | true ↦ read_update i true w
    | false ↦
        stat_key root k w
        >>= elim [ none ↦ read_update zero_item false w | some s ↦ read_update s true w ]
  ]

  -- A file found by `rescan`; one found twice panics.
  unfoldable pub scan_update : FilePath → Bytes → Update om os
  scan_update root k i present w = elim present [
    | true ↦ panics
    | false ↦ stat_update root k i false w
  ]

  -- `os.OpenFile`, once more after making the directories if the file may be created.
  unfoldable pub open_or_create : FilePath → ℕ → World → World × OsResult ℕ × Bool
  open_or_create path flag w =
      let (w1, first) = os.open_file path flag w in
      elim first [
        | ok f ↦ (w1, ok f, false)
        | err (other n) ↦ (w1, err (other n), false)
        | err not_exist ↦ elim (os.creates flag) [
          | false ↦ (w1, err not_exist, false)
          | true ↦
              let (w2, dir_err) = os.mkdir_all (dir path) w1 in
              let (w3, again) = os.open_file path flag w2 in
              elim again [
                | ok f ↦ (w3, ok f, false)
                | err (other n) ↦ (w3, err (other n), true)
                | err not_exist ↦ elim dir_err [
                  | none ↦ (w3, err not_exist, true)
                  | some e ↦ (w3, err e, false)
                ]
              ]
        ]
      ]

  -- `OpenFile` after the machine's answer.
  unfoldable pub finish_open :
      ℕ → Bytes → Cache om os → World × OsResult ℕ × Bool → After om os Opened
  finish_open fuel key me (w, err e, pruning) = done (os_error e pruning, me, w)
  finish_open fuel key me (w, ok f, pruning) = do
    (me', w') ← update_item fuel key (open_update me.root key) me w
    done (opened (record { path = key; f = f; offset = pos 0 }), me', w')

  unfoldable pub open_file : ℕ → Bytes → ℕ → Cache om os → World → After om os Opened
  open_file fuel path flag me w =
      let key = sanitize_path path in
      elim (is_empty key) [
        | true ↦ done (is_dir_error, me, w)
        | false ↦ finish_open fuel key me (open_or_create (realpath me.root key) flag w)
      ]

  -- `Rename` after the machine's answer to os.Rename, and to os.MkdirAll.
  unfoldable pub finish_rename :
      ℕ → Bytes → Bytes → Cache om os → World × Option OsError → After om os (Option OsError)
  finish_rename fuel from to me (w, some e) = done (some e, me, w)
  finish_rename fuel from to me (w, none) = do
    (me1, w1) ← update_item fuel from (drop_item om os) me w
    (me2, w2) ← update_item fuel to (stat_update me1.root to) me1 w1
    done (none, me2, w2)

  unfoldable pub rename_into :
      ℕ → Bytes → Bytes → Cache om os → World × Option OsError → After om os (Option OsError)
  rename_into fuel from to me (w, some e) = done (some e, me, w)
  rename_into fuel from to me (w, none) =
      finish_rename fuel from to me (os.rename (realpath me.root from) (realpath me.root to) w)

  unfoldable pub rename : ℕ → Bytes → Bytes → Cache om os → World → After om os (Option OsError)
  rename fuel from to me w =
      rename_into fuel (sanitize_path from) (sanitize_path to) me
        (os.mkdir_all (dir (realpath me.root (sanitize_path to))) w)

  -- The callback of `filepath.Walk` over what it is called with; an error that it passes on panics.
  unfoldable pub scan :
      ℕ
      → List (Option Bytes × OsResult FileInfo)
      → Cache om os
      → World
      → Outcome (Cache om os × World)
  scan fuel [] me w = done (me, w)
  scan fuel ((path, found) ∷ rest) me w = elim found [
    | err e ↦ elim e [ not_exist ↦ scan fuel rest me w | other n ↦ panics ]
    | ok fi ↦ elim fi.is_dir [
      | true ↦ scan fuel rest me w
      | false ↦ elim path [
        | none ↦ scan fuel rest me w
        | some p ↦ do
          let key = sanitize_path p
          (me', w') ← update_item fuel key (scan_update me.root key) me w
          scan fuel rest me' w'
      ]
    ]
  ]

  unfoldable pub rescan : ℕ → Cache om os → World → Outcome (Cache om os × World)
  rescan fuel me w =
      scan fuel (os.walk me.root w)
        (record me { filled = pos 0; policy = new_lru bytes_less om; items = [] }) w

  -- `NewCache`, up to the end of the scan that it starts: no operation runs before it.
  unfoldable pub new_cache : ℕ → FilePath → World → Outcome (Cache om os × World)
  new_cache fuel root w =
      rescan fuel
        (record {
          root = root;
          capacity = negsuc 0;
          filled = pos 0;
          policy = new_lru bytes_less om;
          items = [];
        })
        w

  -- `File.Write` and `File.WriteAt`, where the machine wrote `n` bytes: the file and the cache after.
  unfoldable pub write : ℕ → File → ℕ → Cache om os → World → Outcome (File × Cache om os × World)
  write fuel me n c w = do
    let end_off = me.offset +ℤ pos n
    (c', w') ← update_item fuel me.path (write_update end_off) c w
    done (record me { offset = end_off }, c', w')

  unfoldable pub write_at : ℕ → File → ℤ → ℕ → Cache om os → World → Outcome (Cache om os × World)
  write_at fuel me off n c w = update_item fuel me.path (write_update (off +ℤ pos n)) c w

  -- `File.Read` and `File.ReadAt`.
  unfoldable pub read : ℕ → File → Cache om os → World → Outcome (Cache om os × World)
  read fuel me c w = update_item fuel me.path read_update c w

  -- `File.Seek`, where the machine's seek ended as `result`.
  unfoldable pub seek : File → OsResult ℕ → File
  seek me (ok ret) = record me { offset = pos ret }
  seek me (err e) = me

  -- A call on the cache or on one of its files, with what the machine decides of it.
  pub data Call : Type 0 where
    set_capacity_call : ℤ → Call
    remove_call : Bytes → Call
    trim_call : Call
    open_call : Bytes → ℕ → Call
    rename_call : Bytes → Bytes → Call
    write_call : File → ℕ → Call
    write_at_call : File → ℤ → ℕ → Call
    read_call : File → Call

  unfoldable pub step : ℕ → Call → Cache om os → World → Outcome (Cache om os × World)
  step fuel (set_capacity_call capacity) me w = done (set_capacity capacity me, w)
  step fuel (remove_call path) me w = do (e, me', w') ← remove fuel path me w; done (me', w')
  step fuel trim_call me w = trim_to_capacity om os fuel me w
  step fuel (open_call path flag) me w = do
    (r, me', w') ← open_file fuel path flag me w
    done (me', w')
  step fuel (rename_call from to) me w = do (e, me', w') ← rename fuel from to me w; done (me', w')
  step fuel (write_call f n) me w = do (f', me', w') ← write fuel f n me w; done (me', w')
  step fuel (write_at_call f off n) me w = write_at fuel f off n me w
  step fuel (read_call f) me w = read fuel f me w

  unfoldable pub run : ℕ → List Call → Cache om os → World → Outcome (Cache om os × World)
  run fuel [] me w = done (me, w)
  run fuel (c ∷ cs) me w = do (me', w') ← step fuel c me w; run fuel cs me' w'
