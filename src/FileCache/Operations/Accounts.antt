-- ===== src/FileCache/Operations/Accounts.antt =====
-- The operations of filecache/ and the accounts of the cache.
use missinggo.Base.{
  ℕ, refl, Bool, true, false, List, [], ◌∷◌, Option, none, some, inl, inr, Bool-cases,
}
use missinggo.Base.Int.{pos, ◌+ℤ◌}
use missinggo.Base.Keys.{bytes_less, bytes_key}
use missinggo.Base.Dict.{lookup}
use missinggo.Base.Outcome.{done, ◌>>=◌, Ensures, Ensures-bind, Ensures-mono, Ensures-trivial}
use missinggo.OrderedMap.Interface.{OrderedMap}
use missinggo.FileCache.Paths.{Bytes, FilePath, realpath, sanitize_path, is_empty}
use missinggo.FileCache.Lru.{LruKey, before, new_lru}
use missinggo.FileCache.Lru.Invariant.{TotalOrder, new_lru-Inv}
use missinggo.FileCache.Os.{Os, OsError, not_exist, other, OsResult, ok, err, FileInfo, error-cases}
use missinggo.FileCache.Cache.{
  ItemState, or_zero, Cache, Update, drop_item, update_item_then, remove_then, forget_then,
  trim_to_capacity, prune_empty_dirs, settle, present,
}
use missinggo.FileCache.Cache.Invariant.{Inv, keep-Inv, drop-Inv}
use missinggo.FileCache.Cache.Trim.{Fits, trim_to_capacity-Trimmed}
use missinggo.FileCache.Operations.{
  File, set_capacity, update_item, remove, open_file, rename, finish_open, finish_rename,
  rename_into, scan, rescan, new_cache, write, write_at, read, Call, set_capacity_call, remove_call,
  trim_call, open_call, rename_call, write_call, write_at_call, read_call, step, run, scan_update,
  open_update, stat_update, write_update,
}

module _ (t : TotalOrder bytes_less) (om : OrderedMap (Option (LruKey Bytes)) (before bytes_less))
    (os : Os) where
  open os use {World}

  -- The accounts are kept and the fill level is within the capacity.
  pub record Settled (me : Cache om os) : Type 0 where
    pub inv : Inv t om os me
    pub fits : Fits t om os me

  trim-Settled :
      (fuel : ℕ) (me : Cache om os) (w : World)
      → Inv t om os me
      → Ensures (λ r. Settled r.0) (trim_to_capacity om os fuel me w)
  trim-Settled fuel me w v =
      Ensures-mono _ (λ r. Settled r.0) (trim_to_capacity om os fuel me w)
        (trim_to_capacity-Trimmed t om os fuel me w v)
        (λ r h. record { inv = h.evicts.inv; fits = h.fits })

  settle-Settled :
      (fuel : ℕ) (k : Bytes) (me : Cache om os) (r : ItemState × Bool × World)
      → Inv t om os me
      → Ensures (λ r. Settled r.0) (settle om os (trim_to_capacity om os fuel) k me r)
  unfolding settle
  settle-Settled fuel k me (i, true, w) v = trim-Settled fuel _ w (keep-Inv t om os me k i v)
  settle-Settled fuel k me (i, false, w) v = trim-Settled fuel _ w (drop-Inv t om os me k v)

  -- Whatever its callback does to the item, an `updateItem` that returns leaves the accounts in
  -- order and the cache without a limit or within it, if the accounts were in order before.
  pub update_item-Settled :
      (fuel : ℕ) (k : Bytes) (u : Update om os) (me : Cache om os) (w : World)
      → Inv t om os me
      → Ensures (λ r. Settled r.0) (update_item om os fuel k u me w)
  unfolding update_item update_item_then
  update_item-Settled fuel k u me w v =
      Ensures-bind (λ x. Unit {0}) (λ r. Settled r.0)
        (u (or_zero (lookup k me.items)) (present (lookup k me.items)) w)
        (settle om os (trim_to_capacity om os fuel) k me) (Ensures-trivial _)
        (λ r _. settle-Settled fuel k me r v)

  update_item-Inv :
      (fuel : ℕ) (k : Bytes) (u : Update om os) (me : Cache om os) (w : World)
      → Inv t om os me
      → Ensures (λ r. Inv t om os r.0) (update_item om os fuel k u me w)
  update_item-Inv fuel k u me w v =
      Ensures-mono (λ r. Settled r.0) (λ r. Inv t om os r.0) _ (update_item-Settled fuel k u me w v)
        (λ r h. h.inv)

  forget_then-Inv :
      (fuel : ℕ) (k : Bytes) (me : Cache om os) (w : World)
      → Inv t om os me
      → Ensures (λ r. Inv t om os r.1) (forget_then om os (trim_to_capacity om os fuel) k me w)
  unfolding forget_then update_item
  forget_then-Inv fuel k me w v =
      Ensures-bind (λ (x : World). Unit {0}) (λ r. Inv t om os r.1)
        (prune_empty_dirs om os me.root (realpath me.root k) w) _ (Ensures-trivial _)
        (λ w1 _.
          Ensures-bind (λ r. Inv t om os r.0) (λ r. Inv t om os r.1)
            (update_item om os fuel k (drop_item om os) me w1) (λ r. done (none, r.0, r.1))
            (update_item-Inv fuel k (drop_item om os) me w1 v) (λ r h. h))

  remove_then-Inv :
      (fuel : ℕ) (k : Bytes) (me : Cache om os) (w : World)
      → Inv t om os me
      → Ensures (λ r. Inv t om os r.1) (remove_then om os (trim_to_capacity om os fuel) k me w)
  unfolding remove_then
  remove_then-Inv fuel k me w v = elim (error-cases (os.remove (realpath me.root k) w).1) [
    | inl (inl p) ↦ rw (p, remove_then) forgotten
    | inl (inr p) ↦ rw (p, remove_then) forgotten
    | inr (n, p) ↦ rw (p, remove_then) v
  ]
    where
      forgotten :
          Ensures
            (λ r. Inv t om os r.1)
            (forget_then om os
              (trim_to_capacity om os fuel)
              k
              me
              (os.remove (realpath me.root k) w).0)
      forgotten = forget_then-Inv fuel k me (os.remove (realpath me.root k) w).0 v

  finish_open-Inv :
      (fuel : ℕ) (key : Bytes) (me : Cache om os) (r : World × OsResult ℕ × Bool)
      → Inv t om os me
      → Ensures (λ r. Inv t om os r.1) (finish_open om os fuel key me r)
  unfolding finish_open
  finish_open-Inv fuel key me (w, err e, pruning) v = v
  finish_open-Inv fuel key me (w, ok f, pruning) v =
      Ensures-bind (λ r. Inv t om os r.0) (λ r. Inv t om os r.1)
        (update_item om os fuel key (open_update om os me.root key) me w) _
        (update_item-Inv fuel key (open_update om os me.root key) me w v) (λ r h. h)

  open_file-Inv :
      (fuel : ℕ) (path : Bytes) (flag : ℕ) (me : Cache om os) (w : World)
      → Inv t om os me
      → Ensures (λ r. Inv t om os r.1) (open_file om os fuel path flag me w)
  unfolding open_file
  open_file-Inv fuel path flag me w v = elim (Bool-cases (is_empty (sanitize_path path))) [
    | inl p ↦ rw (p, open_file) v
    | inr p ↦ rw (p, open_file) (finish_open-Inv fuel (sanitize_path path) me _ v)
  ]

  finish_rename-Inv :
      (fuel : ℕ) (from to : Bytes) (me : Cache om os) (r : World × Option OsError)
      → Inv t om os me
      → Ensures (λ r. Inv t om os r.1) (finish_rename om os fuel from to me r)
  unfolding finish_rename
  finish_rename-Inv fuel from to me (w, some e) v = v
  finish_rename-Inv fuel from to me (w, none) v =
      Ensures-bind (λ r. Inv t om os r.0) (λ r. Inv t om os r.1)
        (update_item om os fuel from (drop_item om os) me w) _
        (update_item-Inv fuel from (drop_item om os) me w v)
        (λ r h.
          Ensures-bind (λ s. Inv t om os s.0) (λ s. Inv t om os s.1)
            (update_item om os fuel to (stat_update om os r.0.root to) r.0 r.1)
            (λ s. done (none, s.0, s.1))
            (update_item-Inv fuel to (stat_update om os r.0.root to) r.0 r.1 h) (λ s g. g))

  rename_into-Inv :
      (fuel : ℕ) (from to : Bytes) (me : Cache om os) (r : World × Option OsError)
      → Inv t om os me
      → Ensures (λ r. Inv t om os r.1) (rename_into om os fuel from to me r)
  unfolding rename_into
  rename_into-Inv fuel from to me (w, some e) v = v
  rename_into-Inv fuel from to me (w, none) v = finish_rename-Inv fuel from to me _ v

  scan-Inv :
      (fuel : ℕ) (l : List (Option Bytes × OsResult FileInfo)) (me : Cache om os) (w : World)
      → Inv t om os me
      → Ensures (λ r. Inv t om os r.0) (scan om os fuel l me w)
  unfolding scan
  scan-Inv fuel [] me w v = v
  scan-Inv fuel ((path, err not_exist) ∷ l) me w v = scan-Inv fuel l me w v
  scan-Inv fuel ((path, err (other n)) ∷ l) me w v = tt
  scan-Inv fuel ((none, ok fi) ∷ l) me w v = elim (Bool-cases fi.is_dir) [
    | inl p ↦ rw (p, scan) (scan-Inv fuel l me w v)
    | inr p ↦ rw (p, scan) (scan-Inv fuel l me w v)
  ]
  scan-Inv fuel ((some path, ok fi) ∷ l) me w v = elim (Bool-cases fi.is_dir) [
    | inl p ↦ rw (p, scan) (scan-Inv fuel l me w v)
    | inr p ↦
        rw (p, scan)
          (Ensures-bind (λ r. Inv t om os r.0) (λ r. Inv t om os r.0)
            (update_item om os fuel (sanitize_path path)
              (scan_update om os me.root (sanitize_path path)) me w)
            (λ r. scan om os fuel l r.0 r.1)
            (update_item-Inv fuel (sanitize_path path)
              (scan_update om os me.root (sanitize_path path)) me w v)
            (λ r h. scan-Inv fuel l r.0 r.1 h))
  ]

  -- A new cache's accounts are in order once its scan of the directory is over.
  pub new_cache-Inv :
      (fuel : ℕ) (root : FilePath) (w : World)
      → Ensures (λ r. Inv t om os r.0) (new_cache om os fuel root w)
  unfolding new_cache rescan
  new_cache-Inv fuel root w = scan-Inv fuel (os.walk root w) _ w (record {
    filled = refl;
    distinct = tt;
    policy = new_lru-Inv bytes_less t om;
    agree = λ k. unfold new_lru in refl;
  })

  write-Inv :
      (fuel : ℕ) (f : File) (n : ℕ) (me : Cache om os) (w : World)
      → Inv t om os me
      → Ensures (λ r. Inv t om os r.1) (write om os fuel f n me w)
  unfolding write
  write-Inv fuel f n me w v =
      let u = write_update om os (f.offset +ℤ pos n) in
      Ensures-bind (λ r. Inv t om os r.0) (λ r. Inv t om os r.1)
        (update_item om os fuel f.path u me w) _ (update_item-Inv fuel f.path u me w v) (λ r h. h)

  -- Each call keeps the accounts: the fill level is the total of the recorded sizes, no path is
  -- recorded twice, and the policy keeps exactly the recorded items with their access times.
  pub step-Inv :
      (fuel : ℕ) (c : Call om os) (me : Cache om os) (w : World)
      → Inv t om os me
      → Ensures (λ r. Inv t om os r.0) (step om os fuel c me w)
  unfolding step set_capacity remove rename write_at read
  step-Inv fuel (set_capacity_call capacity) me w v = record {
    filled = v.filled;
    distinct = v.distinct;
    policy = v.policy;
    agree = v.agree;
  }
  step-Inv fuel (remove_call path) me w v =
      Ensures-bind (λ r. Inv t om os r.1) (λ r. Inv t om os r.0) _ (λ r. done (r.1, r.2))
        (remove_then-Inv fuel (sanitize_path path) me w v) (λ r h. h)
  step-Inv fuel trim_call me w v =
      Ensures-mono (λ r. Settled r.0) (λ r. Inv t om os r.0) _ (trim-Settled fuel me w v)
        (λ r h. h.inv)
  step-Inv fuel (open_call path flag) me w v =
      Ensures-bind (λ r. Inv t om os r.1) (λ r. Inv t om os r.0) _ (λ r. done (r.1, r.2))
        (open_file-Inv fuel path flag me w v) (λ r h. h)
  step-Inv fuel (rename_call from to) me w v =
      Ensures-bind (λ r. Inv t om os r.1) (λ r. Inv t om os r.0) _ (λ r. done (r.1, r.2))
        (rename_into-Inv fuel (sanitize_path from) (sanitize_path to) me _ v) (λ r h. h)
  step-Inv fuel (write_call f n) me w v =
      Ensures-bind (λ r. Inv t om os r.1) (λ r. Inv t om os r.0) _ (λ r. done (r.1, r.2))
        (write-Inv fuel f n me w v) (λ r h. h)
  step-Inv fuel (write_at_call f off n) me w v = update_item-Inv fuel f.path _ me w v
  step-Inv fuel (read_call f) me w v = update_item-Inv fuel f.path _ me w v

  run-Inv :
      (fuel : ℕ) (cs : List (Call om os)) (me : Cache om os) (w : World)
      → Inv t om os me
      → Ensures (λ r. Inv t om os r.0) (run om os fuel cs me w)
  unfolding run
  run-Inv fuel [] me w v = v
  run-Inv fuel (c ∷ cs) me w v =
      Ensures-bind (λ r. Inv t om os r.0) (λ r. Inv t om os r.0) (step om os fuel c me w)
        (λ r. run om os fuel cs r.0 r.1) (step-Inv fuel c me w v) (λ r h. run-Inv fuel cs r.0 r.1 h)

  -- After any calls on a new cache, whatever the machine answered, if they return: the fill level
  -- is the total of the recorded sizes, no path is recorded twice, and the policy keeps exactly
  -- the recorded items with their access times.
  pub new_cache-run-Inv :
      (fuel : ℕ) (root : FilePath) (cs : List (Call om os)) (w : World)
      → Ensures
          (λ r. Inv t om os r.0)
          (new_cache om os fuel root w >>= λ r. run om os fuel cs r.0 r.1)
  new_cache-run-Inv fuel root cs w =
      Ensures-bind (λ r. Inv t om os r.0) (λ r. Inv t om os r.0) (new_cache om os fuel root w)
        (λ r. run om os fuel cs r.0 r.1) (new_cache-Inv fuel root w)
        (λ r h. run-Inv fuel cs r.0 r.1 h)
