-- ===== src/Storage/Delete/Registered.antt =====
-- The part of src/server/DeleteHandler.hpp that changes disk and metadata.
use kama_asyn_log_system_clo.Base.{
  ◌==◌, if◌then◌else◌, Bool-cases, Option-cases, Bytes, bytes_eq_refl, bytes_eq_iff, ◌≡◌, subst,
  ◌⊎◌, inl, inr, ◌&&◌, none, some, arith,
}
use kama_asyn_log_system_clo.Storage.Path.{FilePath, resolve, path_eq}
use kama_asyn_log_system_clo.Storage.Path.Inside.{path_eq_iff, path_eq_refl}
use kama_asyn_log_system_clo.Storage.Disk.{Disk, file_at, exists}
use kama_asyn_log_system_clo.Storage.Disk.Frame.{remove-file_at}
use kama_asyn_log_system_clo.Storage.Meta.{StorageInfo, MetadataStore, delete_info}
use kama_asyn_log_system_clo.Storage.Meta.Store.{IsLawful}
use kama_asyn_log_system_clo.Storage.Meta.Coherent.{
  IsCoherent, delete_info-IsCoherent, insert_info-IsCoherent,
}
use kama_asyn_log_system_clo.Storage.Meta.Transparent.{delete_info-row, insert_info-row}
use kama_asyn_log_system_clo.Storage.Http.{
  HttpResult, http_ok, Env, Service, delete_file_failed_metadata_rollback_failed,
}
use kama_asyn_log_system_clo.Storage.Delete.{remove_stored, delete_registered}

remove_stored-file_at :
    (d : Disk) (p : Bytes) (k : FilePath)
    → file_at (remove_stored d p).1 k
      ≡ (if (remove_stored d p).0 && path_eq (resolve p) k then none else file_at d k)
unfolding remove_stored exists
remove_stored-file_at d p k = elim (Bool-cases (path_eq (resolve p) k)) [
  | inl e ↦
      subst
        (λ q.
          file_at (remove_stored d p).1 q
          ≡ (if (remove_stored d p).0 && path_eq (resolve p) q then none else file_at d q))
        ((path_eq_iff (resolve p) k).0 e)
        (ground (
          arith,
          remove-file_at d p (resolve p),
          path_eq_refl (resolve p),
          Option-cases (file_at d (resolve p)),
        ))
  | inr e ↦ ground (arith, remove-file_at d p k)
]

module _ {S : Type 0} (ops : MetadataStore S) (laws : IsLawful ops) (env : Env) where
  open laws use {row}

  abbrev after : StorageInfo → Bytes → Service S → HttpResult × Service S
  after info url s = delete_registered ops env info url s

  -- Only the row of the URL can go, and it stays unless the reply says so.
  pub delete_registered-row :
      (info : StorageInfo) (url : Bytes) (s : Service S) (k : Bytes)
      → IsCoherent ops laws s.manager
      → info.url ≡ url
      → row s.manager.store url ≡ some info
      → row (after info url s).1.manager.store k ≡ row s.manager.store k
        ⊎ ((url ≡ k)
            × (row (after info url s).1.manager.store k ≡ none)
            × (((after info url s).0.status ≡ http_ok)
                ⊎ ((after info url s).0.reason ≡ delete_file_failed_metadata_rollback_failed)))
  unfolding delete_registered
  delete_registered-row info url s k c u r =
      let m = (delete_info ops url s.manager).1 in
      ground (
        arith,
        bytes_eq_iff url k,
        delete_info-row ops laws url s.manager k,
        insert_info-row ops laws info m k
            (delete_info-IsCoherent ops laws url s.manager c).persists,
      )

  -- Only the file of the row can go, and it does where success is reported and nowhere else.
  pub delete_registered-file_at :
      (info : StorageInfo) (url : Bytes) (s : Service S) (k : FilePath)
      → file_at (after info url s).1.disk k ≡ (
          if ((after info url s).0.status == http_ok) && path_eq (resolve info.storage_path) k
          then none
          else file_at s.disk k)
  unfolding delete_registered
  delete_registered-file_at info url s k =
      ground (arith, remove_stored-file_at s.disk info.storage_path k)

  pub delete_registered-IsCoherent :
      (info : StorageInfo) (url : Bytes) (s : Service S)
      → IsCoherent ops laws s.manager
      → IsCoherent ops laws (after info url s).1.manager
  unfolding delete_registered
  delete_registered-IsCoherent info url s c = ground (
    arith,
    delete_info-IsCoherent ops laws url s.manager c,
    insert_info-IsCoherent ops laws info (delete_info ops url s.manager).1
        (delete_info-IsCoherent ops laws url s.manager c),
  )

  -- Where success is reported the row is gone.
  pub delete_registered-gone :
      (info : StorageInfo) (url : Bytes) (s : Service S)
      → (after info url s).0.status ≡ http_ok
      → row (after info url s).1.manager.store url ≡ none
  unfolding delete_registered
  delete_registered-gone info url s ok =
      ground (arith, delete_info-row ops laws url s.manager url, bytes_eq_refl url)
