-- ===== src/Storage/Delete/Tests.antt =====
-- Removals from the small service.
use kama_asyn_log_system_clo.Storage.Url.{url_decode}
use kama_asyn_log_system_clo.Storage.Session.{cleanup_sessions_by_filename}
use kama_asyn_log_system_clo.Storage.Meta.Memory.{collect, memory, memory-IsLawful}
use kama_asyn_log_system_clo.Storage.Disk.{
  create_directory, file_size, has_dir, opens, rename, set_content, write_file_atomically,
  write_opened, remove, exists, file_at,
}
use kama_asyn_log_system_clo.Storage.Meta.{delete_info, insert_info, new_data_manager, get_info}
use kama_asyn_log_system_clo.Storage.FileName.{is_safe_file_name, file_name}
use kama_asyn_log_system_clo.Storage.Http.{new_storage_info}
use kama_asyn_log_system_clo.Storage.ContentType.{normalize_content_type}
use kama_asyn_log_system_clo.Storage.Path.{path_eq, FilePath, resolve, upload_root}
use kama_asyn_log_system_clo.Base.{
  ◌==◌, lookup, insert, erase, Bytes, codes, bytes_eq, has_byte, starts_with, ℕ, ◌≡◌, refl, ◌≢◌,
  inr, true, false, none, ◌∷◌, ◌++◌, arith,
}
use kama_asyn_log_system_clo.Storage.Upload.{
  save_metadata, handle_upload, check_upload, save_upload, store_upload,
}
use kama_asyn_log_system_clo.Storage.Backed.{IsBacked}
use kama_asyn_log_system_clo.Storage.Delete.{
  DeleteRequest, check_delete, handle_delete, delete_named, delete_registered, remove_stored,
}
use kama_asyn_log_system_clo.Storage.Delete.Replies.{handle_delete-gone, handle_delete-kept}
use kama_asyn_log_system_clo.Storage.Delete.Backed.{handle_delete-IsBacked}
use kama_asyn_log_system_clo.Storage.Sample.{
  sample, sample-IsBacked, sample_env, sample_a, sample_a-IsBacked,
}

abbrev delete_a : DeleteRequest
delete_a = record { is_delete = true; uri_path = codes "/delete/%61" }

abbrev delete_b : DeleteRequest
delete_b = record { is_delete = true; uri_path = codes "/delete/b" }

differ : {n m : ℕ} → (n == m) ≡ false → n ≢ m
differ h e = ground arith

decoded : check_delete delete_a ≡ inr (codes "a")
unfolding check_delete url_decode starts_with is_safe_file_name
decoded = refl

handle_delete-IsBacked_example :
    IsBacked memory memory-IsLawful sample_env
      (codes "./storage")
      (handle_delete memory sample_env delete_a sample_a).1
handle_delete-IsBacked_example =
    handle_delete-IsBacked memory memory-IsLawful sample_env (codes "./storage") refl delete_a
      sample_a sample_a-IsBacked

handle_delete-gone_example :
    (filename : Bytes) × (check_delete delete_a ≡ inr filename)
    × (file_at
          (handle_delete memory sample_env delete_a sample_a).1.disk
          (filename ∷ resolve (codes "./storage"))
        ≡ none)
    × ((get_info memory
          (codes "/download/" ++ filename)
          (handle_delete memory sample_env delete_a sample_a).1.manager).0
        ≡ none)
unfolding handle_delete check_delete delete_named delete_registered remove_stored url_decode
    handle_upload check_upload save_upload store_upload is_safe_file_name get_info delete_info
    new_data_manager collect write_file_atomically set_content write_opened opens remove rename
    create_directory path_eq resolve lookup insert erase save_metadata insert_info new_storage_info
    exists file_size file_at has_dir cleanup_sessions_by_filename bytes_eq has_byte
    normalize_content_type starts_with file_name upload_root
handle_delete-gone_example =
    handle_delete-gone memory memory-IsLawful sample_env (codes "./storage") refl delete_a sample_a
      sample_a-IsBacked refl

handle_delete-kept_example :
    ((k : FilePath)
      → file_at (handle_delete memory sample_env delete_b sample).1.disk k ≡ file_at sample.disk k)
    × ((k : Bytes)
        → memory-IsLawful.row (handle_delete memory sample_env delete_b sample).1.manager.store k
          ≡ memory-IsLawful.row sample.manager.store k)
unfolding handle_delete check_delete delete_named delete_registered remove_stored url_decode
    handle_upload check_upload save_upload store_upload is_safe_file_name get_info delete_info
    new_data_manager collect write_file_atomically set_content write_opened opens remove rename
    create_directory path_eq resolve lookup insert erase save_metadata insert_info new_storage_info
    exists file_size file_at has_dir cleanup_sessions_by_filename bytes_eq has_byte
    normalize_content_type starts_with
handle_delete-kept_example =
    handle_delete-kept memory memory-IsLawful sample_env (codes "./storage") refl delete_b sample
      sample-IsBacked (differ refl) (λ e. cc)
