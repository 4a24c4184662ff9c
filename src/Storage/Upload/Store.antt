-- ===== src/Storage/Upload/Store.antt =====
-- The part of src/server/UploadHandler.hpp that writes: what it changes and what it leaves alone.
use kama_asyn_log_system_clo.Base.{
  Bool-cases, Bytes, codes, length, length-append, ◌≡◌, sym, ap, ◌∙◌, ◌≢◌, ◌⊎◌, inl, inr, true,
  Option, some, ◌∷◌, ◌++◌, arith,
}
use kama_asyn_log_system_clo.Storage.FileName.{is_safe_file_name}
use kama_asyn_log_system_clo.Storage.Path.{resolve}
use kama_asyn_log_system_clo.Storage.Disk.{
  Disk, file_at, create_directory, write_file_atomically, uploading,
}
use kama_asyn_log_system_clo.Storage.Disk.Frame.{
  create_directory-file_at, remove-file_at, path_eq_ne,
}
use kama_asyn_log_system_clo.Storage.Disk.Atomic.{
  write_file_atomically-done, write_file_atomically-other,
}
use kama_asyn_log_system_clo.Storage.Meta.{StorageInfo, MetadataStore, get_info}
use kama_asyn_log_system_clo.Storage.Meta.Store.{IsLawful}
use kama_asyn_log_system_clo.Storage.Http.{http_ok, Env, Times, Service, new_storage_info}
use kama_asyn_log_system_clo.Storage.Session.Files.{cleanup_sessions_by_filename-file_at}
use kama_asyn_log_system_clo.Storage.Upload.{save_metadata, store_upload}
use kama_asyn_log_system_clo.Storage.Backed.{Describes, resolve_stored, resolve_temporary}
use kama_asyn_log_system_clo.Storage.Meta.Coherent.{IsCoherent}
use kama_asyn_log_system_clo.Storage.Upload.Metadata.{
  new_storage_info-Describes, save_metadata-row_other, save_metadata-row_saved, save_metadata-found,
  save_metadata-IsCoherent,
}

module _ {S : Type 0} (ops : MetadataStore S) (laws : IsLawful ops) (env : Env) (t : Times) where
  open laws use {row}

  module _ (dir : Bytes) (h : env.storage_dir ≡ dir ++ codes "/")
      (content filename content_type : Bytes) (safe : is_safe_file_name filename ≡ true)
      (s : Service S) where
    abbrev path : Bytes
    path = env.storage_dir ++ filename

    abbrev made : Disk
    made = (create_directory s.disk env.storage_dir).1

    abbrev written : Disk
    written = (write_file_atomically made path content).1

    abbrev info : Option StorageInfo
    info = new_storage_info env t written path (length content) content_type

    abbrev after : Service S
    after = (store_upload ops env t content filename content_type s).1

    apart_uploading : resolve (path ++ uploading) ≢ resolve path
    apart_uploading e =
        let k : (filename ++ uploading) ∷ resolve dir ≡ filename ∷ resolve dir =
          sym (resolve_temporary env dir h filename safe)
          ∙ e
          ∙ resolve_stored env dir h filename safe in
        let l : length (filename ++ uploading) ≡ length filename = ap length (cc k) in
        omega (arith, length-append filename uploading)

    -- Only the file of that name and its temporary file can change.
    pub store_upload-file_at_other :
        (name : Bytes)
        → filename ≢ name
        → filename ++ uploading ≢ name
        → file_at after.disk (name ∷ resolve dir) ≡ file_at s.disk (name ∷ resolve dir)
    unfolding store_upload
    store_upload-file_at_other name ne ne' =
        let a : resolve path ≢ name ∷ resolve dir =
          λ e. ne (cc (sym (resolve_stored env dir h filename safe) ∙ e)) in
        let b : resolve (path ++ uploading) ≢ name ∷ resolve dir =
          λ e. ne' (cc (sym (resolve_temporary env dir h filename safe) ∙ e)) in
        ground (
          arith,
          create_directory-file_at s.disk env.storage_dir (name ∷ resolve dir),
          write_file_atomically-other made path content (name ∷ resolve dir) b a,
          remove-file_at written path (name ∷ resolve dir),
          path_eq_ne a,
          cleanup_sessions_by_filename-file_at env dir h written filename name,
        )

    written-file_at :
        (write_file_atomically made path content).0 ≡ true
        → file_at written (filename ∷ resolve dir) ≡ some content
    written-file_at w =
        ap (file_at written) (sym (resolve_stored env dir h filename safe))
        ∙ (write_file_atomically-done made path content apart_uploading w).0

    info-Describes :
        (write_file_atomically made path content).0 ≡ true
        → (i : StorageInfo) → info ≡ some i
        → Describes env filename content i
    info-Describes w i e =
        new_storage_info-Describes env dir h t written filename content (length content)
          content_type i safe (written-file_at w) e

    -- A reply of success means that the file holds the content, and that its row describes it and
    -- is found.
    pub store_upload-stored :
        IsCoherent ops laws s.manager
        → (store_upload ops env t content filename content_type s).0.status ≡ http_ok
        → (file_at after.disk (filename ∷ resolve dir) ≡ some content)
          × ((i : StorageInfo) × Describes env filename content i
              × (row after.manager.store (env.download_prefix ++ filename) ≡ some i)
              × ((get_info ops (env.download_prefix ++ filename) after.manager).0 ≡ some i))
    unfolding store_upload
    store_upload-stored c ok =
        let w : (write_file_atomically made path content).0 ≡ true = ground arith in
        let v : (save_metadata ops info s.manager).0 ≡ true = ground arith in
        let (i, e, r) = save_metadata-row_saved ops laws info s.manager c.persists v in
        let d = info-Describes w i e in
        (
          ground (
            arith,
            written-file_at w,
            cleanup_sessions_by_filename-file_at env dir h written filename filename,
          ),
          (
            i,
            d,
            ground (arith, r, d.url),
            ground (arith, d.url, save_metadata-found ops laws info s.manager i c e v),
          ),
        )

    -- Only the row of that URL can change, and it does not where success is not reported.
    pub store_upload-row_other :
        (k : Bytes)
        → s.manager.need_persist ≡ true
        → (env.download_prefix ++ filename ≢ k)
          ⊎ ((store_upload ops env t content filename content_type s).0.status ≢ http_ok)
        → row after.manager.store k ≡ row s.manager.store k
    unfolding store_upload
    store_upload-row_other k p c = elim (Bool-cases (write_file_atomically made path content).0) [
      | inr w ↦ ground arith
      | inl w ↦ ground (
        arith,
        save_metadata-row_other ops laws info s.manager (env.download_prefix ++ filename) k p
            (λ i e. (info-Describes w i e).url),
      )
    ]

    pub store_upload-IsCoherent : IsCoherent ops laws s.manager → IsCoherent ops laws after.manager
    unfolding store_upload
    store_upload-IsCoherent c =
        ground (arith, c, save_metadata-IsCoherent ops laws info s.manager c)
