-- ===== src/Storage/Disk/Atomic.antt =====
-- `WriteFileAtomically` of src/server/HttpUtil.hpp: all or nothing, whatever call fails.
use kama_asyn_log_system_clo.Base.{Bytes, ◌≡◌, sym, ◌≢◌, true, false, none, some, ◌++◌, arith}
use kama_asyn_log_system_clo.Storage.Path.{FilePath, resolve}
use kama_asyn_log_system_clo.Storage.Path.Inside.{path_eq_refl}
use kama_asyn_log_system_clo.Storage.Disk.{
  Disk, file_at, remove, rename, set_content, uploading, write_file_atomically,
}
use kama_asyn_log_system_clo.Storage.Disk.Frame.{
  path_eq_ne, remove-file_at, rename-file_at, set_content-file_at, set_content-file_at_other,
}

-- The file that is written first.
abbrev pub tmp_path : Bytes → Bytes
tmp_path storage_path = storage_path ++ uploading

module _ (d : Disk) (path content : Bytes) where
  abbrev cleared : Disk
  cleared = (remove d (tmp_path path)).1

  abbrev filled : Disk
  filled = (set_content cleared (tmp_path path) content).1

  abbrev moved : Disk
  moved = (rename filled (tmp_path path) path).1

  -- If `WriteFileAtomically` returns true, the file holds the content and the temporary file is
  -- gone, provided the two paths name different files.
  pub write_file_atomically-done :
      resolve (tmp_path path) ≢ resolve path
      → (write_file_atomically d path content).0 ≡ true
      → let d' = (write_file_atomically d path content).1 in
        (file_at d' (resolve path) ≡ some content) × (file_at d' (resolve (tmp_path path)) ≡ none)
  unfolding write_file_atomically
  write_file_atomically-done ne h = ground (
    arith,
    path_eq_refl (resolve path),
    path_eq_refl (resolve (tmp_path path)),
    path_eq_ne ne,
    path_eq_ne (λ e. ne (sym e)),
    set_content-file_at cleared (tmp_path path) content,
    rename-file_at filled (tmp_path path) path (resolve path),
    rename-file_at filled (tmp_path path) path (resolve (tmp_path path)),
  )

  -- If `WriteFileAtomically` returns false, the file is what it was before, complete or absent,
  -- provided the temporary path names another file.
  pub write_file_atomically-failed :
      resolve (tmp_path path) ≢ resolve path
      → (write_file_atomically d path content).0 ≡ false
      → file_at (write_file_atomically d path content).1 (resolve path) ≡ file_at d (resolve path)
  unfolding write_file_atomically
  write_file_atomically-failed ne h = ground (
    arith,
    path_eq_ne ne,
    remove-file_at d (tmp_path path) (resolve path),
    set_content-file_at_other cleared (tmp_path path) content (resolve path) ne,
    remove-file_at filled (tmp_path path) (resolve path),
    rename-file_at filled (tmp_path path) path (resolve path),
    remove-file_at moved (tmp_path path) (resolve path),
  )

  -- Every other file is untouched, in every case.
  pub write_file_atomically-other :
      (k : FilePath)
      → resolve (tmp_path path) ≢ k
      → resolve path ≢ k
      → file_at (write_file_atomically d path content).1 k ≡ file_at d k
  unfolding write_file_atomically
  write_file_atomically-other k ne ne' = ground (
    arith,
    path_eq_ne ne,
    path_eq_ne ne',
    remove-file_at d (tmp_path path) k,
    set_content-file_at_other cleared (tmp_path path) content k ne,
    remove-file_at filled (tmp_path path) k,
    rename-file_at filled (tmp_path path) path k,
    remove-file_at moved (tmp_path path) k,
  )
