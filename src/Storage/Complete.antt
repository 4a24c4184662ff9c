-- ===== src/Storage/Complete.antt =====
-- The end of a multipart upload: `Complete` of src/server/MultipartUploadHandler.hpp.
pub mod Finalize
pub mod Places
pub mod Stored
pub mod Handled
mod Tests
use kama_asyn_log_system_clo.Base.{
  ◌==◌, if◌then◌else◌, Bytes, codes, length, ℕ, ◌-◌, ◌^◌, Bool, not, Option, none, some, ◌++◌,
}
use kama_asyn_log_system_clo.Storage.Path.{session_dir}
use kama_asyn_log_system_clo.Storage.Disk.{file_size, remove, remove_all}
use kama_asyn_log_system_clo.Storage.Meta.{MetadataStore, get_info}
use kama_asyn_log_system_clo.Storage.Http.{
  HttpResult, reply, http_ok, http_badrequest, http_notfound, http_conflict, http_internal, Env,
  Times, Service, UploadSession, new_storage_info, ok_, file_already_exists, save_metadata_failed,
  upload_session_not_found, missing_upload_id, chunks_incomplete, merge_chunks_failed,
  merged_file_size_mismatch, finalize_file_failed,
}
use kama_asyn_log_system_clo.Storage.Session.{load_session, uploaded_chunks}
use kama_asyn_log_system_clo.Storage.Upload.{save_metadata}
use kama_asyn_log_system_clo.Storage.Multipart.{finalize_file}
use kama_asyn_log_system_clo.Storage.Merge.{merge_chunks}

-- `merged.FileSize() != (int64_t)total_size`, negated: both are read as a signed number of 64 bits,
-- and -1 is the size of a missing file.
unfoldable pub has_size : Option ℕ → ℕ → Bool
has_size none total_size = total_size == 2 ^ 64 - 1
has_size (some n) total_size = n == total_size

abbrev pub merged_name : Bytes
merged_name = codes "merged.uploading"

module _ {S : Type 0} (ops : MetadataStore S) (env : Env) (t : Times) where
  -- From the row on, once the file stands at its place.
  unfoldable pub register_merged : UploadSession → Service S → HttpResult × Service S
  register_merged session s =
      let path = env.storage_dir ++ session.filename in
      let (saved, m) =
        save_metadata ops
          (new_storage_info env t s.disk path session.total_size session.content_type) s.manager in
      if not saved
      then (
        reply http_internal save_metadata_failed 0,
        record { disk = (remove s.disk path).1; manager = m },
      )
      else (
        reply http_ok ok_ session.total_size,
        record {
          disk = remove_all s.disk (session_dir env.storage_dir session.upload_id);
          manager = m;
        },
      )

  -- From the merge on, of a session with all its chunks and a name that is not registered.
  unfoldable pub merge_session : UploadSession → Service S → HttpResult × Service S
  merge_session session s =
      let merged_path = session_dir env.storage_dir session.upload_id ++ merged_name in
      let d1 = (remove s.disk merged_path).1 in
      let (merged, d2) = merge_chunks env session merged_path d1 in
      let (finalized, d3) = finalize_file env session merged_path d2 in
      if not merged
      then (reply http_internal merge_chunks_failed 0, record s { disk = d2 })
      else if not (has_size (file_size d2 merged_path) session.total_size)
      then (
        reply http_internal merged_file_size_mismatch 0,
        record s { disk = (remove d2 merged_path).1 },
      )
      else if not finalized
      then (
        reply http_internal finalize_file_failed 0,
        record s { disk = (remove d3 merged_path).1 },
      )
      else register_merged session (record s { disk = d3 })

  unfoldable pub complete_session : UploadSession → Service S → HttpResult × Service S
  complete_session session s =
      let (old, m) = get_info ops (env.download_prefix ++ session.filename) s.manager in
      if not (length (uploaded_chunks env s.disk session) == session.total_chunks)
      then (reply http_badrequest chunks_incomplete 0, s)
      else elim old [
        | some old_info ↦ (reply http_conflict file_already_exists 0, record s { manager = m })
        | none ↦ merge_session session (record s { manager = m })
      ]

  -- `Complete`, of the header `UploadId`.
  unfoldable pub handle_complete : Option Bytes → Service S → HttpResult × Service S
  handle_complete none s = (reply http_badrequest missing_upload_id 0, s)
  handle_complete (some upload_id) s =
      let (loaded, d) = load_session env s.disk upload_id in
      elim loaded [
        | none ↦ (reply http_notfound upload_session_not_found 0, record s { disk = d })
        | some session ↦ complete_session session (record s { disk = d })
      ]
