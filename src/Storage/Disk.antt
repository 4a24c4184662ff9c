-- ===== src/Storage/Disk.antt =====
-- The files below the service: `FileUtil` of src/server/Util.hpp, and the calls of the C and C++
-- libraries that the handlers make (`std::remove`, `std::rename`, `fs::remove_all`).
pub mod Frame
pub mod Atomic
mod Tests
use kama_asyn_log_system_clo.Base.{
  if◌then◌else◌, lookup, insert, erase, Bytes, codes, length, take, ℕ, ◌+◌, Bool, true, false, not,
  ◌&&◌, ◌||◌, Option, none, some, List, [], ◌∷◌, ◌++◌,
}
use kama_asyn_log_system_clo.Storage.Path.{FilePath, resolve, left, path_eq, is_inside}
use kama_asyn_log_system_clo.Storage.Path.Inside.{path_key}

-- What a call of the system comes to; a write that fails has put down `k` bytes.
pub data Outcome : Type 0 where
  done : Outcome
  fails : ℕ → Outcome

-- `outcome n` is what the `n`-th fallible call comes to, and `calls` counts them: every theorem
-- holds whatever fails. Directories are listed beside the files; the parent of a file is the tail
-- of its path. `sweeps` says which entries a recursive removal still reaches whose path goes through
-- a directory and back by `..`, and which may take that directory away under its feet.
pub record Disk : Type 0 where
  pub files : List (FilePath × Bytes)
  pub dirs : List FilePath
  pub outcome : ℕ → Outcome
  pub calls : ℕ
  pub sweeps : FilePath → Bool

abbrev pub tick : Disk → Disk
tick d = record d { calls = d.calls + 1 }

abbrev pub next : Disk → Outcome
next d = d.outcome d.calls

unfoldable pub has_dir : List FilePath → FilePath → Bool
has_dir [] p = false
has_dir (q ∷ ds) p = path_eq q p || has_dir ds p

-- The content of the file at a resolved path.
unfoldable pub file_at : Disk → FilePath → Option Bytes
file_at d p = lookup path_key p d.files

abbrev pub is_some {ℓ} : {A : Type ℓ} → Option A → Bool
is_some none = false
is_some (some a) = true

-- `Exists()`
unfoldable pub exists : Disk → Bytes → Bool
unfolding file_at has_dir
exists d p = is_some (file_at d (resolve p)) || has_dir d.dirs (resolve p)

-- `FileSize()` of a file; `none` is -1.
unfoldable pub file_size : Disk → Bytes → Option ℕ
unfolding file_at
file_size d p = elim (file_at d (resolve p)) [ none ↦ none | some v ↦ some (length v) ]

-- `std::remove(p) == 0`, of a file.
unfoldable pub remove : Disk → Bytes → Bool × Disk
unfolding file_at
remove d p = elim (file_at d (resolve p)) [
  | none ↦ (false, tick d)
  | some v ↦ elim (next d) [
    | done ↦ (true, record (tick d) { files = erase path_key (resolve p) d.files })
    | fails k ↦ (false, tick d)
  ]
]

-- `std::rename(p, q) == 0`, of a file; a directory is not replaced.
unfoldable pub rename : Disk → Bytes → Bytes → Bool × Disk
unfolding file_at has_dir
rename d p q = elim (file_at d (resolve p)) [
  | none ↦ (false, tick d)
  | some v ↦ elim (next d) [
    | done ↦ if has_dir d.dirs (resolve q) then (false, tick d) else (
      true,
      record (tick d) {
        files = insert path_key (resolve q) v (erase path_key (resolve p) d.files);
      },
    )
    | fails k ↦ (false, tick d)
  ]
]

-- The directory of a path, or the working directory.
unfoldable pub parent_exists : Disk → FilePath → Bool
unfolding has_dir
parent_exists d [] = false
parent_exists d (c ∷ []) = true
parent_exists d (c ∷ dir ∷ p) = has_dir d.dirs (dir ∷ p)

-- `SetContent`: the file is emptied when it is opened, and then written; `close` is a part of the
-- write.
unfoldable pub write_opened : Disk → FilePath → Bytes → Bool × Disk
write_opened d p content = elim (next d) [
  | done ↦ (true, record (tick d) { files = insert path_key p content d.files })
  | fails k ↦ (false, record (tick d) { files = insert path_key p (take k content) d.files })
]

-- The stream opens: the path is no directory, its directory is there, and the system lets it.
unfoldable pub opens : Disk → FilePath → Bool
unfolding parent_exists has_dir
opens d p =
    not (has_dir d.dirs p) && parent_exists d p && elim (next d) [ done ↦ true | fails k ↦ false ]

unfoldable pub set_content : Disk → Bytes → Bytes → Bool × Disk
unfolding opens write_opened
set_content d p content =
    if opens d (resolve p)
    then (write_opened (record (tick d) { files = insert path_key (resolve p) [] d.files })
        (resolve p) content)
    else (false, tick d)

-- `GetContent`: the size of a missing file is -1, which passes the size test, and then the file
-- cannot be opened.
unfoldable pub get_content : Disk → Bytes → Option Bytes × Disk
unfolding file_at
get_content d p = elim (file_at d (resolve p)) [
  | none ↦ (none, tick d)
  | some v ↦ elim (next d) [ done ↦ (some v, tick d) | fails k ↦ (none, tick d) ]
]

-- A path and all directories above it.
unfoldable pub with_parents : FilePath → List FilePath
with_parents [] = []
with_parents (c ∷ p) = (c ∷ p) ∷ with_parents p

-- `CreateDirectory()`. `fs::create_directories` throws where it fails, which ends the process: such
-- a run is not one of the model's.
unfoldable pub create_directory : Disk → Bytes → Bool × Disk
unfolding exists with_parents
create_directory d p =
    if exists d p then (true, d) else (true, record d { dirs = d.dirs ++ with_parents (resolve p) })

unfoldable pub files_left :
    (FilePath → Bool) → FilePath → List (FilePath × Bytes) → List (FilePath × Bytes)
files_left reached dir [] = []
files_left reached dir ((p, v) ∷ fs) =
    let rest = files_left reached dir fs in
    if is_inside dir p && reached p then rest else (p, v) ∷ rest

unfoldable pub dirs_left : (FilePath → Bool) → FilePath → List FilePath → List FilePath
dirs_left reached dir [] = []
dirs_left reached dir (p ∷ ds) =
    let rest = dirs_left reached dir ds in if is_inside dir p && reached p then rest else p ∷ rest

abbrev pub remove_below : (FilePath → Bool) → FilePath → Disk → Disk
remove_below reached dir d = record d {
  files = files_left reached dir d.files;
  dirs = dirs_left reached dir d.dirs;
}

-- The working directory is there.
unfoldable pub all_there : List FilePath → List FilePath → Bool
all_there ds [] = true
all_there ds ([] ∷ ps) = all_there ds ps
all_there ds ((c ∷ p) ∷ ps) = has_dir ds (c ∷ p) && all_there ds ps

-- `fs::remove_all(p)`, by the directories that the path leaves by `..`; it too throws where it
-- fails.
unfoldable pub remove_through : List FilePath → FilePath → Disk → Disk
remove_through [] dir d = remove_below (λ p. true) dir d
remove_through (q ∷ qs) dir d = if all_there d.dirs (q ∷ qs) then remove_below d.sweeps dir d else d

unfoldable pub remove_all : Disk → Bytes → Disk
remove_all d p = remove_through (left p [] []) (resolve p) d

abbrev pub uploading : Bytes
uploading = codes ".uploading"

-- `WriteFileAtomically` of src/server/HttpUtil.hpp.
unfoldable pub write_file_atomically : Disk → Bytes → Bytes → Bool × Disk
write_file_atomically d storage_path content =
    let tmp_path = storage_path ++ uploading in
    let d1 = (remove d tmp_path).1 in
    let (written, d2) = set_content d1 tmp_path content in
    if not written
    then (false, (remove d2 tmp_path).1)
    else (let (renamed, d3) = rename d2 tmp_path storage_path in
        if not renamed then (false, (remove d3 tmp_path).1) else (true, d3))
