-- ===== src/Storage/Complete/Tests.antt =====
-- A multipart upload that is completed.
use kama_asyn_log_system_clo.Storage.Session.{accept_session, load_session, uploaded_chunks}
use kama_asyn_log_system_clo.Storage.Complete.{
  complete_session, has_size, register_merged, merge_session, handle_complete,
}
use kama_asyn_log_system_clo.Storage.Path.{
  meta_path, chunk_path, path_eq, session_dir, resolve, chunk_name,
}
use kama_asyn_log_system_clo.Storage.Merge.{
  append_to, copy_loop, merge_chunks, merge_from, merge_into, moved_bytes, write_all,
}
use kama_asyn_log_system_clo.Storage.Meta.Memory.{collect, Rows, memory, memory-IsLawful}
use kama_asyn_log_system_clo.Storage.Disk.{
  create_directory, exists, file_size, get_content, has_dir, opens, remove, rename, Disk, file_at,
}
use kama_asyn_log_system_clo.Storage.Multipart.{finalize_file}
use kama_asyn_log_system_clo.Storage.Meta.{insert_info, new_data_manager, StorageInfo, get_info}
use kama_asyn_log_system_clo.Storage.FileName.{is_safe_file_name}
use kama_asyn_log_system_clo.Storage.Http.{new_storage_info, UploadSession, Service, Env}
use kama_asyn_log_system_clo.Storage.Upload.{save_metadata}
use kama_asyn_log_system_clo.Base.{
  lookup, insert, erase, codes, bytes_eq, has_byte, length, ◌≡◌, refl, none, some, [], ◌∷◌, ◌++◌,
}
use kama_asyn_log_system_clo.Storage.Path.Resolve.{uploads}
use kama_asyn_log_system_clo.Storage.Backed.{Describes}
use kama_asyn_log_system_clo.Storage.Sample.{
  sample, sample_env, sample_times, sample_disk, sample-IsCoherent,
}
use kama_asyn_log_system_clo.Storage.Complete.Handled.{handle_complete-stored}
use kama_asyn_log_system_clo.Storage.Complete.Stored.{assembled}

abbrev session : UploadSession
session = record {
  upload_id = codes "17-5";
  filename = codes "a";
  content_type = codes "text/plain";
  total_size = 5;
  chunk_size = 2;
  total_chunks = 3;
  created_at = 1;
  updated_at = 1;
}

-- The disk with the three chunks.
abbrev disk : Disk
disk = record sample_disk {
  files =
      (codes "meta.json" ∷ codes "17-5" ∷ uploads (codes "./storage"), codes "{}")
      ∷ (chunk_name 0 ∷ codes "17-5" ∷ uploads (codes "./storage"), codes "ab")
      ∷ (chunk_name 1 ∷ codes "17-5" ∷ uploads (codes "./storage"), codes "cd")
      ∷ (chunk_name 2 ∷ codes "17-5" ∷ uploads (codes "./storage"), codes "e")
      ∷ [];
  dirs = (codes "17-5" ∷ uploads (codes "./storage")) ∷ (codes "storage" ∷ []) ∷ [];
}

abbrev service : Service Rows
service = record sample { disk = disk }

-- A JSON library that reads the session back.
abbrev env : Env
env = record sample_env { decode_session = λ s. some session }

handle_complete-stored_example :
    (found : UploadSession) × ((load_session env disk (codes "17-5")).0 ≡ some found)
    × (length (uploaded_chunks env (load_session env disk (codes "17-5")).1 found)
        ≡ found.total_chunks)
    × ((get_info memory (codes "/download/" ++ found.filename) service.manager).0 ≡ none)
    × (file_at
          (handle_complete memory env sample_times (some (codes "17-5")) service).1.disk
          (found.filename ∷ resolve (codes "./storage"))
        ≡ some
            (assembled memory memory-IsLawful env sample_times (codes "./storage") refl found disk))
    × (length
          (assembled memory memory-IsLawful env sample_times (codes "./storage") refl found disk)
        ≡ found.total_size)
    × ((i : StorageInfo) × Describes env found.filename
          (assembled memory memory-IsLawful env sample_times (codes "./storage") refl found disk)
          i
        × ((get_info memory
              (codes "/download/" ++ found.filename)
              (handle_complete memory env sample_times (some (codes "17-5")) service).1.manager).0
            ≡ some i))
unfolding handle_complete complete_session uploaded_chunks load_session accept_session merge_session
    register_merged finalize_file merge_chunks merge_into merge_from copy_loop write_all append_to
    moved_bytes has_size is_safe_file_name get_info new_data_manager collect get_content opens
    remove rename create_directory path_eq resolve lookup insert erase save_metadata insert_info
    new_storage_info exists file_size file_at has_dir bytes_eq has_byte chunk_path session_dir
    meta_path
handle_complete-stored_example =
    handle_complete-stored memory memory-IsLawful env sample_times (codes "./storage") refl
      (codes "17-5") service (λ e. cc) (λ e. cc) sample-IsCoherent refl
