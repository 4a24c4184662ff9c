-- ===== src/Storage/Complete/Finalize.antt =====
-- `FinalizeFile` of src/server/MultipartUploadHandler.hpp moves the merged file to its place.
use kama_asyn_log_system_clo.Base.{Bytes, ◌≡◌, ◌≢◌, true, ◌++◌, arith}
use kama_asyn_log_system_clo.Storage.Path.{resolve}
use kama_asyn_log_system_clo.Storage.Path.Inside.{path_eq_refl}
use kama_asyn_log_system_clo.Storage.Disk.{
  Disk, file_at, create_directory, remove, rename, uploading,
}
use kama_asyn_log_system_clo.Storage.Disk.Frame.{
  create_directory-file_at, remove-file_at, rename-file_at, path_eq_ne,
}
use kama_asyn_log_system_clo.Storage.Http.{Env, UploadSession}
use kama_asyn_log_system_clo.Storage.Multipart.{finalize_file}

module _ (env : Env) (session : UploadSession) (merged_path : Bytes) (d : Disk) where
  abbrev storage_path : Bytes
  storage_path = env.storage_dir ++ session.filename

  abbrev tmp_path : Bytes
  tmp_path = storage_path ++ uploading

  abbrev made : Disk
  made = (create_directory d env.storage_dir).1

  abbrev cleared : Disk
  cleared = (remove made storage_path).1

  abbrev cleared_tmp : Disk
  cleared_tmp = (remove cleared tmp_path).1

  abbrev moved : Disk
  moved = (rename cleared_tmp merged_path tmp_path).1

  -- Where both renamings succeed, the merged content stands under the name of the file.
  pub finalize_file-file_at :
      resolve storage_path ≢ resolve merged_path
      → resolve tmp_path ≢ resolve merged_path
      → (finalize_file env session merged_path d).0 ≡ true
      → file_at (finalize_file env session merged_path d).1 (resolve storage_path)
        ≡ file_at d (resolve merged_path)
  unfolding finalize_file
  finalize_file-file_at ne ne' h = ground (
    arith,
    path_eq_ne ne,
    path_eq_ne ne',
    path_eq_refl (resolve storage_path),
    path_eq_refl (resolve tmp_path),
    create_directory-file_at d env.storage_dir (resolve merged_path),
    remove-file_at made storage_path (resolve merged_path),
    remove-file_at cleared tmp_path (resolve merged_path),
    rename-file_at cleared_tmp merged_path tmp_path (resolve tmp_path),
    rename-file_at moved tmp_path storage_path (resolve storage_path),
  )
