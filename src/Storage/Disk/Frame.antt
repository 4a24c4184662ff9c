-- ===== src/Storage/Disk/Frame.antt =====
-- What each call does to the files, at every path: `FileUtil` of src/server/Util.hpp.
use kama_asyn_log_system_clo.Base.{
  if◌then◌else◌, Bool-cases, Option-cases, lookup, insert, erase, lookup-insert, lookup-erase,
  Bytes, take, ℕ, ◌≡◌, refl, ap, ◌∙◌, ◌≢◌, ◌⊎◌, inl, inr, Bool, true, false, ◌&&◌, none, some, List,
  [], ◌∷◌, arith,
}
use kama_asyn_log_system_clo.Storage.Disk.{
  files_left, remove_through, Outcome, done, fails, Disk, file_at, remove, rename, set_content,
  write_opened, remove_all, tick, create_directory,
}
use kama_asyn_log_system_clo.Storage.Path.{left, FilePath, resolve, path_eq, is_inside}
use kama_asyn_log_system_clo.Storage.Path.Inside.{path_key, path_eq_iff, path_eq_refl}

-- Where keys differ the test says so.
pub path_eq_ne : {p q : FilePath} → p ≢ q → path_eq p q ≡ false
path_eq_ne {p} {q} ne = ground (arith, path_eq_iff p q)

pub path_eq_apart : {p q : FilePath} → path_eq p q ≡ false → p ≢ q
path_eq_apart {p} {q} h e = ground (arith, path_eq_iff p q)

-- A removal reports success exactly when the file was there and is gone, and touches no other.
pub remove-file_at :
    (d : Disk) (p : Bytes) (k : FilePath)
    → file_at (remove d p).1 k
      ≡ (if (remove d p).0 && path_eq (resolve p) k then none else file_at d k)
unfolding remove
remove-file_at d p k = ground (arith, lookup-erase path_key (resolve p) k d.files)

-- A renaming that reports success moves the content; one that does not changes nothing.
pub rename-file_at :
    (d : Disk) (p q : Bytes) (k : FilePath)
    → file_at (rename d p q).1 k ≡ (
        if (rename d p q).0
        then (if path_eq (resolve q) k
            then file_at d (resolve p)
            else if path_eq (resolve p) k
            then none
            else file_at d k)
        else file_at d k)
unfolding rename
rename-file_at d p q k = elim (Option-cases (lookup path_key (resolve p) d.files)) [
  | inl e ↦ ground arith
  | inr (v, e) ↦ ground (
    arith,
    lookup-erase path_key (resolve p) k d.files,
    lookup-insert path_key (resolve q) k v (erase path_key (resolve p) d.files),
  )
]

pub Outcome-cases : (o : Outcome) → (o ≡ done) ⊎ ((n : ℕ) × (o ≡ fails n))
Outcome-cases done = inl refl
Outcome-cases (fails n) = inr (n, refl)

-- A write that reports success has put the whole content down.
write_opened-file_at :
    (d : Disk) (p : FilePath) (content : Bytes)
    → (write_opened d p content).0 ≡ true
    → file_at (write_opened d p content).1 p ≡ some content
unfolding write_opened file_at
write_opened-file_at d p content h =
    ground (arith, lookup-insert path_key p p content d.files, path_eq_refl p)

-- A write touches no other file.
write_opened-file_at_other :
    (d : Disk) (p : FilePath) (content : Bytes) (k : FilePath)
    → p ≢ k
    → file_at (write_opened d p content).1 k ≡ file_at d k
unfolding write_opened file_at
write_opened-file_at_other d p content k ne = elim (Outcome-cases (d.outcome d.calls)) [
  | inl e ↦ ground (arith, lookup-insert path_key p k content d.files, path_eq_ne ne)
  | inr (n, e) ↦ ground (arith, lookup-insert path_key p k (take n content) d.files, path_eq_ne ne)
]

-- `SetContent` that reports success has put the whole content into the file.
pub set_content-file_at :
    (d : Disk) (p content : Bytes)
    → (set_content d p content).0 ≡ true
    → file_at (set_content d p content).1 (resolve p) ≡ some content
unfolding set_content
set_content-file_at d p content h = ground (
  arith,
  write_opened-file_at (record (tick d) { files = insert path_key (resolve p) [] d.files })
      (resolve p) content,
)

-- `SetContent` touches no other file, whether it succeeds or not.
pub set_content-file_at_other :
    (d : Disk) (p content : Bytes) (k : FilePath)
    → resolve p ≢ k
    → file_at (set_content d p content).1 k ≡ file_at d k
unfolding set_content file_at
set_content-file_at_other d p content k ne = ground (
  arith,
  write_opened-file_at_other (record (tick d) { files = insert path_key (resolve p) [] d.files })
      (resolve p) content k ne,
  lookup-insert path_key (resolve p) k [] d.files,
  path_eq_ne ne,
)

lookup-files_left :
    (reached : FilePath → Bool) (dir k : FilePath) (fs : List (FilePath × Bytes))
    → lookup path_key k (files_left reached dir fs)
      ≡ (if is_inside dir k && reached k then none else lookup path_key k fs)
unfolding lookup files_left
lookup-files_left reached dir k [] = ground arith
lookup-files_left reached dir k ((p, v) ∷ fs) = elim (Bool-cases (path_eq p k)) [
  | inl e ↦ rw ((path_eq_iff p k).0 e) (ground (arith, lookup-files_left reached dir k fs))
  | inr e ↦ ground (arith, e, lookup-files_left reached dir k fs)
]

remove_through-outside :
    (qs : List FilePath) (dir k : FilePath) (d : Disk)
    → is_inside dir k ≡ false
    → file_at (remove_through qs dir d) k ≡ file_at d k
unfolding remove_through file_at
remove_through-outside [] dir k d h = ground (arith, h, lookup-files_left (λ p. true) dir k d.files)
remove_through-outside (q ∷ qs) dir k d h =
    ground (arith, h, lookup-files_left d.sweeps dir k d.files)

-- A recursive removal takes away no file outside the directory.
pub remove_all-outside :
    (d : Disk) (p : Bytes) (k : FilePath)
    → is_inside (resolve p) k ≡ false
    → file_at (remove_all d p) k ≡ file_at d k
unfolding remove_all
remove_all-outside d p k h = remove_through-outside (left p [] []) (resolve p) k d h

-- By a path that leaves no directory, it takes away every file in the directory.
pub remove_all-inside :
    (d : Disk) (p : Bytes) (k : FilePath)
    → left p [] [] ≡ []
    → is_inside (resolve p) k ≡ true
    → file_at (remove_all d p) k ≡ none
unfolding remove_all remove_through file_at
remove_all-inside d p k plain h =
    ap (λ qs. file_at (remove_through qs (resolve p) d) k) plain
    ∙ (lookup-files_left (λ q. true) (resolve p) k d.files
        ∙ ap (λ b. if b && true then none else lookup path_key k d.files) h)

pub create_directory-file_at :
    (d : Disk) (p : Bytes) (k : FilePath) → file_at (create_directory d p).1 k ≡ file_at d k
unfolding create_directory file_at
create_directory-file_at d p k = ground arith
