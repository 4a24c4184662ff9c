-- ===== src/Storage/Upload.antt =====
-- The upload of a file in one request: src/server/UploadHandler.hpp.
pub mod Metadata
pub mod Store
pub mod Replies
pub mod Backed
mod Tests
use kama_asyn_log_system_clo.Base.{
  ltb, ◌==◌, if◌then◌else◌, Bytes, length, ◌⊎◌, inl, inr, Bool, false, not, Option, none, some,
  ◌++◌,
}
use kama_asyn_log_system_clo.Storage.FileName.{is_safe_file_name}
use kama_asyn_log_system_clo.Storage.ContentType.{normalize_content_type}
use kama_asyn_log_system_clo.Storage.Disk.{remove, create_directory, write_file_atomically}
use kama_asyn_log_system_clo.Storage.Meta.{
  StorageInfo, MetadataStore, DataManager, insert_info, get_info,
}
use kama_asyn_log_system_clo.Storage.Http.{
  HttpResult, reply, http_ok, http_badrequest, http_conflict, http_internal, Env, Times, Service,
  new_storage_info, ok_, empty_input_buffer, file_empty, file_too_large, copyout_failed,
  missing_filename, invalid_base64_filename, illegal_filename, file_already_exists,
  file_write_failed, save_metadata_failed,
}
use kama_asyn_log_system_clo.Storage.Session.{cleanup_sessions_by_filename}

-- What the handler reads of the request: the body (`none` is a null buffer), whether
-- `evbuffer_copyout` works, and two headers (`none` is a missing one).
pub record UploadRequest : Type 0 where
  pub input_buffer : Option Bytes
  pub copyout_works : Bool
  pub filename_header : Option Bytes
  pub content_type_header : Option Bytes

-- The tests before the metadata are asked: a refusal, or the content and the file name. The null
-- buffer is refused with no reply sent.
unfoldable pub check_upload : Env → UploadRequest → HttpResult ⊎ (Bytes × Bytes)
check_upload env r = elim r.input_buffer [
  | none ↦
      inl (record { status = http_badrequest; reason = empty_input_buffer; bytes = 0; sent = none })
  | some content ↦
      if length content == 0
      then inl (reply http_badrequest file_empty (length content))
      else if ltb env.max_upload_size (length content)
      then inl (reply http_badrequest file_too_large (length content))
      else if not r.copyout_works
      then inl (reply http_internal copyout_failed (length content))
      else elim r.filename_header [
        | none ↦ inl (reply http_badrequest missing_filename (length content))
        | some encoded ↦ elim (env.base64_decode encoded) [
          | none ↦ inl (reply http_badrequest invalid_base64_filename (length content))
          | some filename ↦
              if not (is_safe_file_name filename)
              then inl (reply http_badrequest illegal_filename (length content))
              else inr (content, filename)
        ]
      ]
]

module _ {S : Type 0} (ops : MetadataStore S) where
  -- `!info.NewStorageInfo(...) || !data_manager.Insert(info)`, negated.
  unfoldable pub save_metadata : Option StorageInfo → DataManager S → Bool × DataManager S
  save_metadata none m = (false, m)
  save_metadata (some info) m = insert_info ops info m

module _ {S : Type 0} (ops : MetadataStore S) (env : Env) (t : Times) where
  -- From the write of the file on, which nobody has registered.
  unfoldable pub store_upload : Bytes → Bytes → Bytes → Service S → HttpResult × Service S
  store_upload content filename content_type s =
      let path = env.storage_dir ++ filename in
      let (_, d1) = create_directory s.disk env.storage_dir in
      let (written, d2) = write_file_atomically d1 path content in
      if not written
      then (reply http_internal file_write_failed (length content), record s { disk = d2 })
      else (let (saved, m) =
            save_metadata ops (new_storage_info env t d2 path (length content) content_type)
              s.manager in
          if not saved
          then (
            reply http_internal save_metadata_failed (length content),
            record { disk = (remove d2 path).1; manager = m },
          )
          else (
            reply http_ok ok_ (length content),
            record { disk = (cleanup_sessions_by_filename env d2 filename).1; manager = m },
          ))

  -- The handler behind its tests.
  unfoldable pub save_upload : Bytes → Bytes → Bytes → Service S → HttpResult × Service S
  save_upload content filename content_type s =
      let (old, m) = get_info ops (env.download_prefix ++ filename) s.manager in
      elim old [
        | some old_info ↦
            (reply http_conflict file_already_exists (length content), record s { manager = m })
        | none ↦ store_upload content filename content_type (record s { manager = m })
      ]

  -- `UploadHandler::Handle`
  unfoldable pub handle_upload : UploadRequest → Service S → HttpResult × Service S
  handle_upload r s = elim (check_upload env r) [
    | inl refused ↦ (refused, s)
    | inr (content, filename) ↦
        save_upload content filename (normalize_content_type r.content_type_header) s
  ]
