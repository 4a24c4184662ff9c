-- ===== src/Storage/Upload/Tests.antt =====
-- Uploads to the small service.
use kama_asyn_log_system_clo.Storage.Session.{cleanup_sessions_by_filename}
use kama_asyn_log_system_clo.Storage.ContentType.{normalize_content_type}
use kama_asyn_log_system_clo.Base.{
  lookup, insert, erase, Bytes, codes, bytes_eq, has_byte, ◌≡◌, refl, inl, inr, some, ◌∷◌, ◌++◌,
}
use kama_asyn_log_system_clo.Storage.Disk.{
  remove, file_at, uploading, write_file_atomically, set_content, write_opened, opens, rename,
  create_directory, exists, file_size, has_dir,
}
use kama_asyn_log_system_clo.Storage.Path.{resolve, path_eq}
use kama_asyn_log_system_clo.Storage.Meta.{StorageInfo, get_info, new_data_manager, insert_info}
use kama_asyn_log_system_clo.Storage.Meta.Memory.{memory, memory-IsLawful, collect}
use kama_asyn_log_system_clo.Storage.Http.{
  reply, http_badrequest, http_conflict, illegal_filename, file_already_exists, new_storage_info,
}
use kama_asyn_log_system_clo.Storage.Backed.{Describes, IsBacked}
use kama_asyn_log_system_clo.Storage.Upload.{
  check_upload, handle_upload, save_metadata, save_upload, store_upload,
}
use kama_asyn_log_system_clo.Storage.Upload.Replies.{handle_upload-stored}
use kama_asyn_log_system_clo.Storage.Upload.Backed.{handle_upload-IsBacked}
use kama_asyn_log_system_clo.Storage.Sample.{
  sample_env, sample_times, sample, sample_a, upload_a, sample-IsCoherent, sample-IsBacked,
  sample_no_row,
}
use kama_asyn_log_system_clo.Storage.FileName.{is_safe_file_name, file_name}

climbing :
    check_upload sample_env (record upload_a { filename_header = some (codes "../a") })
    ≡ inl (reply http_badrequest illegal_filename 5)
unfolding check_upload is_safe_file_name
climbing = refl

again :
    (handle_upload memory sample_env sample_times upload_a sample_a).0
    ≡ reply http_conflict file_already_exists 5
unfolding handle_upload check_upload save_upload store_upload is_safe_file_name get_info
    new_data_manager collect write_file_atomically set_content write_opened opens remove rename
    create_directory path_eq resolve lookup insert erase save_metadata insert_info new_storage_info
    exists file_size file_at has_dir cleanup_sessions_by_filename bytes_eq has_byte
    normalize_content_type file_name
again = refl

handle_upload-stored_example :
    (content : Bytes) × (filename : Bytes) × (check_upload sample_env upload_a
      ≡ inr (content, filename))
    × (file_at sample_a.disk (filename ∷ resolve (codes "./storage")) ≡ some content)
    × ((i : StorageInfo) × Describes sample_env filename content i
        × ((get_info memory (codes "/download/" ++ filename) sample_a.manager).0 ≡ some i))
unfolding handle_upload check_upload save_upload store_upload is_safe_file_name get_info
    new_data_manager collect write_file_atomically set_content write_opened opens remove rename
    create_directory path_eq resolve lookup insert erase save_metadata insert_info new_storage_info
    exists file_size file_at has_dir cleanup_sessions_by_filename bytes_eq has_byte
    normalize_content_type
handle_upload-stored_example =
    handle_upload-stored memory memory-IsLawful sample_env sample_times (codes "./storage") refl
      upload_a sample sample-IsCoherent refl

handle_upload-IsBacked_example :
    IsBacked memory memory-IsLawful sample_env (codes "./storage") sample_a
handle_upload-IsBacked_example =
    handle_upload-IsBacked memory memory-IsLawful sample_env sample_times (codes "./storage") refl
      upload_a sample sample-IsBacked
      (λ content filename e. sample_no_row (codes "/download/" ++ (filename ++ uploading)))
      (λ key e. sample_no_row key)
