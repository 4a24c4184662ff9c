-- ===== src/Storage/Multipart/Tests.antt =====
-- Chunks and sessions at small sizes.
use kama_asyn_log_system_clo.Storage.Disk.{
  has_dir, opens, parent_exists, set_content, write_opened, Disk, file_at,
}
use kama_asyn_log_system_clo.Base.{
  lookup, insert, Bytes, codes, bytes_eq, length, ◌-◌, ◌^◌, ◌<◌, ◌≡◌, refl, none, some, [], ◌∷◌,
  arith,
}
use kama_asyn_log_system_clo.Storage.Path.{
  chunk_name, left, left_by, enter, resolve, chunk_path, path_eq,
}
use kama_asyn_log_system_clo.Storage.Path.Resolve.{uploads}
use kama_asyn_log_system_clo.Storage.Http.{UploadSession, http_ok}
use kama_asyn_log_system_clo.Storage.Sample.{sample_env, sample_times, sample_disk}
use kama_asyn_log_system_clo.Storage.Multipart.{
  chunks_needed, valid_init, expected_size, save_chunk, handle_abort,
}
use kama_asyn_log_system_clo.Storage.Multipart.Sizes.{IsSized, sizes_sum, valid_init-IsSized}
use kama_asyn_log_system_clo.Storage.Multipart.Chunk.{save_chunk-stored, handle_abort-file_at}
use kama_asyn_log_system_clo.Storage.FileName.{is_safe_file_name}

abbrev session : UploadSession
session = record {
  upload_id = codes "17-5";
  filename = codes "a";
  content_type = codes "text/plain";
  total_size = 5;
  chunk_size = 2;
  total_chunks = 3;
  created_at = 1;
  updated_at = 1;
}

-- The disk with the directory of the session and a stored file.
abbrev disk : Disk
disk = record sample_disk {
  files = (codes "b" ∷ resolve (codes "./storage"), codes "kept") ∷ [];
  dirs = (codes "17-5" ∷ uploads (codes "./storage")) ∷ (codes "storage" ∷ []) ∷ [];
}

rounded : (chunks_needed 5 2 ≡ 3) × (chunks_needed 4 2 ≡ 2) × (chunks_needed 1 (2 ^ 64 - 1) ≡ 1)
unfolding chunks_needed
rounded = (refl, refl, refl)

due : (expected_size session 1 ≡ 2) × (expected_size session 2 ≡ 1)
unfolding expected_size
due = (refl, refl)

valid_init-IsSized_example : IsSized session × (sizes_sum session 3 ≡ 5)
unfolding valid_init is_safe_file_name chunks_needed
valid_init-IsSized_example = valid_init-IsSized sample_env session (omega arith) (omega arith) refl

save_chunk-stored_example :
    (content : Bytes) × (some (codes "xy") ≡ some content)
    × (length content ≡ expected_size session 1)
    × (1 < 3)
    × (file_at
          (save_chunk sample_env sample_times session 1 (some (codes "xy")) disk).1
          (resolve (chunk_path (codes "./storage/") (codes "17-5") 1))
        ≡ some content)
unfolding save_chunk expected_size set_content write_opened opens has_dir parent_exists path_eq
    resolve chunk_path lookup insert
save_chunk-stored_example =
    save_chunk-stored sample_env (codes "./storage") refl sample_times session 1 (some (codes "xy"))
      disk refl

-- The session with its first chunk, beside the stored file.
abbrev begun : Disk
begun = record disk {
  files =
      (chunk_name 0 ∷ (codes "17-5" ∷ uploads (codes "./storage")), codes "xy")
      ∷ (codes "b" ∷ resolve (codes "./storage"), codes "kept")
      ∷ [];
}

handle_abort-file_at_example :
    ((handle_abort sample_env (some (codes "17-5")) begun).0.status ≡ http_ok)
    × (file_at
          (handle_abort sample_env (some (codes "17-5")) begun).1
          (codes "b" ∷ resolve (codes "./storage"))
        ≡ file_at begun (codes "b" ∷ resolve (codes "./storage")))
    × (file_at
          (handle_abort sample_env (some (codes "17-5")) begun).1
          (chunk_name 0 ∷ (codes "17-5" ∷ uploads (codes "./storage")))
        ≡ none)
unfolding left left_by bytes_eq enter
handle_abort-file_at_example =
    handle_abort-file_at sample_env (codes "./storage") refl (codes "17-5") begun (codes "b") 0 refl
      (omega arith) (λ e. cc) (λ e. cc) (λ e. cc)
