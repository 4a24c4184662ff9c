-- ===== src/Storage/Http.antt =====
-- What the handlers of src/server share: `HttpUtil::HttpResult`, the configuration of
-- src/server/Config.hpp, the state of the service, and `NewStorageInfo` of
-- src/server/StorageInfo.hpp.

use kama_asyn_log_system_clo.Base.{
  ◌==◌, if◌then◌else◌, Bytes, bytes_eq, ℕ, ◌-◌, ◌^◌, not, Option, none, some, [], ◌++◌,
}
use kama_asyn_log_system_clo.Storage.FileName.{file_name}
use kama_asyn_log_system_clo.Storage.ContentType.{octet_stream}
use kama_asyn_log_system_clo.Storage.Disk.{Disk, exists, file_size}
use kama_asyn_log_system_clo.Storage.Meta.{StorageInfo, DataManager}

-- The `reason` strings that the handlers return.
pub data Reason : Type 0 where
  ok_ : Reason
  empty_input_buffer file_empty file_too_large copyout_failed missing_filename : Reason
  invalid_base64_filename illegal_filename file_already_exists file_write_failed : Reason
  save_metadata_failed : Reason
  method_not_allowed bad_url bad_delete_url file_not_found delete_metadata_failed : Reason
  delete_file_failed_metadata_restored delete_file_failed_metadata_rollback_failed : Reason
  file_missing open_failed add_file_failed : Reason
  missing_multipart_headers invalid_multipart_init save_upload_session_failed : Reason
  upload_session_not_found missing_chunk_headers invalid_chunk_index invalid_chunk_body : Reason
  chunk_size_mismatch save_chunk_failed missing_upload_id chunks_incomplete : Reason
  merge_chunks_failed merged_file_size_mismatch finalize_file_failed : Reason
  not_found bad_query query_list_failed : Reason

-- `HttpResult`, with the status of the reply that `evhttp_send_reply` was given, if it was called.
pub record HttpResult : Type 0 where
  pub status : ℕ
  pub reason : Reason
  pub bytes : ℕ
  pub sent : Option ℕ

-- A reply is sent and the same status is returned.
abbrev pub reply : ℕ → Reason → ℕ → HttpResult
reply status reason bytes = record {
  status = status;
  reason = reason;
  bytes = bytes;
  sent = some status;
}

abbrev pub http_ok : ℕ
http_ok = 200

abbrev pub http_badrequest : ℕ
http_badrequest = 400

abbrev pub http_notfound : ℕ
http_notfound = 404

abbrev pub http_badmethod : ℕ
http_badmethod = 405

abbrev pub http_conflict : ℕ
http_conflict = 409

abbrev pub http_internal : ℕ
http_internal = 500

-- `MultipartUploadHandler::UploadSession`
pub record UploadSession : Type 0 where
  pub upload_id : Bytes
  pub filename : Bytes
  pub content_type : Bytes
  pub total_size : ℕ
  pub chunk_size : ℕ
  pub total_chunks : ℕ
  pub created_at : ℕ
  pub updated_at : ℕ

-- The configuration, and the code that is not part of the service: the base64 library (`none` is
-- the exception of a bad text) and the JSON library with the fields of a session (`none` is a
-- failed `Serialize` or `UnSerialize`).
pub record Env : Type 0 where
  pub storage_dir : Bytes
  pub download_prefix : Bytes
  pub max_upload_size : ℕ
  pub base64_decode : Bytes → Option Bytes
  pub encode_session : UploadSession → Option Bytes
  pub decode_session : Bytes → Option UploadSession

-- The times that a handler reads: `time(nullptr)` and those of the file that it has written.
pub record Times : Type 0 where
  pub now : ℕ
  pub accessed : ℕ
  pub modified : ℕ

pub record Service (S : Type 0) : Type 0 where
  pub disk : Disk
  pub manager : DataManager S

-- A size of -1, converted to a `size_t`.
abbrev pub no_size : ℕ
no_size = 2 ^ 64 - 1

-- `NewStorageInfo`; `none` is `return false`.
unfoldable pub new_storage_info : Env → Times → Disk → Bytes → ℕ → Bytes → Option StorageInfo
new_storage_info env t d storage_path original_size content_type =
    if not (exists d storage_path)
    then none
    else (let stored : ℕ = elim (file_size d storage_path) [ none ↦ no_size | some n ↦ n ] in
        some (record {
          mtime = t.modified;
          atime = t.accessed;
          upload_time = t.now;
          fsize = stored;
          original_size = if original_size == 0 then stored else original_size;
          stored_size = stored;
          storage_path = storage_path;
          url = env.download_prefix ++ file_name storage_path;
          content_type = if bytes_eq content_type [] then octet_stream else content_type;
        }))
