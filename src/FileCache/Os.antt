-- ===== src/FileCache/Os.antt =====
-- What filecache/ uses of package os and of the clock, over a state `World` of the machine.
use missinggo.Base.{ℕ, ◌≡◌, refl, ◌⊎◌, inl, inr, Bool, List, Option, none, some}
use missinggo.FileCache.Paths.{Bytes, FilePath}

-- An error, sorted by `os.IsNotExist`.
pub data OsError : Type 0 where
  not_exist : OsError
  other : ℕ → OsError

pub data OsResult (A : Type 0) : Type 0 where
  ok : A → OsResult A
  err : OsError → OsResult A

pub result-cases :
    {A : Type 0} (r : OsResult A)
    → (r ≡ err not_exist) ⊎ (((n : ℕ) × (r ≡ err (other n))) ⊎ ((a : A) × (r ≡ ok a)))
result-cases (ok a) = inr (inr (a, refl))
result-cases (err not_exist) = inl refl
result-cases (err (other n)) = inr (inl (n, refl))

-- `os.FileInfo`; `inode` is what `os.SameFile` compares.
pub record FileInfo : Type 0 where
  pub size : ℕ
  pub mod_time : ℕ
  pub access_time : ℕ
  pub is_dir : Bool
  pub inode : ℕ

-- The results of os.Remove that `remove` takes for success, and the others.
pub error-cases :
    (e : Option OsError) → ((e ≡ none) ⊎ (e ≡ some not_exist)) ⊎ ((n : ℕ) × (e ≡ some (other n)))
error-cases none = inl (inl refl)
error-cases (some not_exist) = inl (inr refl)
error-cases (some (other n)) = inr (n, refl)

-- Each call may read and change the machine; a call that can fail says how. `creates` is the test
-- `flag&os.O_CREATE != 0`. `walk` lists the calls that `filepath.Walk` makes of its callback, each
-- path as `filepath.Rel` gives it, if it does.
pub record Os : Type 1 where
  pub World : Type 0
  pub stat : FilePath → World → OsResult FileInfo
  pub remove : FilePath → World → World × Option OsError
  pub mkdir_all : FilePath → World → World × Option OsError
  pub rename : FilePath → FilePath → World → World × Option OsError
  pub open_file : FilePath → ℕ → World → World × OsResult ℕ
  pub now : World → World × ℕ
  pub creates : ℕ → Bool
  pub walk : FilePath → World → List (Option Bytes × OsResult FileInfo)
