-- ===== src/Storage/Delete.antt =====
-- The removal of a file: src/server/DeleteHandler.hpp.
pub mod Registered
pub mod Replies
pub mod Backed
mod Tests
use kama_asyn_log_system_clo.Base.{
  if◌then◌else◌, Bytes, codes, starts_with, length, drop, ◌⊎◌, inl, inr, Bool, true, not, none,
  some, ◌++◌,
}
use kama_asyn_log_system_clo.Storage.Url.{url_decode}
use kama_asyn_log_system_clo.Storage.FileName.{is_safe_file_name}
use kama_asyn_log_system_clo.Storage.Disk.{Disk, exists, remove}
use kama_asyn_log_system_clo.Storage.Meta.{
  StorageInfo, MetadataStore, insert_info, delete_info, get_info,
}
use kama_asyn_log_system_clo.Storage.Http.{
  HttpResult, reply, http_ok, http_badrequest, http_notfound, http_badmethod, http_internal, Env,
  Service, ok_, method_not_allowed, bad_url, bad_delete_url, illegal_filename, file_not_found,
  delete_metadata_failed, delete_file_failed_metadata_restored,
  delete_file_failed_metadata_rollback_failed,
}

-- What the handler reads of the request: whether the method is DELETE, and the path of the URI.
pub record DeleteRequest : Type 0 where
  pub is_delete : Bool
  pub uri_path : Bytes

abbrev pub delete_prefix : Bytes
delete_prefix = codes "/delete/"

-- The tests before the metadata are asked: a refusal, or the file name.
unfoldable pub check_delete : DeleteRequest → HttpResult ⊎ Bytes
check_delete r =
    if not r.is_delete
    then inl (reply http_badmethod method_not_allowed 0)
    else elim (url_decode r.uri_path) [
      | none ↦ inl (reply http_badrequest bad_url 0)
      | some resource_path ↦
          let filename = drop (length delete_prefix) resource_path in
          if not (starts_with delete_prefix resource_path)
          then inl (reply http_badrequest bad_delete_url 0)
          else if not (is_safe_file_name filename)
          then inl (reply http_badrequest illegal_filename 0)
          else inr filename
    ]

-- `fu.Exists() && std::remove(...) != 0`, negated.
unfoldable pub remove_stored : Disk → Bytes → Bool × Disk
remove_stored d path = if exists d path then remove d path else (true, d)

module _ {S : Type 0} (ops : MetadataStore S) (env : Env) where
  -- From the deletion of the row on.
  unfoldable pub delete_registered : StorageInfo → Bytes → Service S → HttpResult × Service S
  delete_registered info download_url s =
      let (deleted, m1) = delete_info ops download_url s.manager in
      let (removed, d1) = remove_stored s.disk info.storage_path in
      let (rollback_ok, m2) = insert_info ops info m1 in
      if not deleted
      then (reply http_internal delete_metadata_failed 0, record s { manager = m1 })
      else if not removed
      then (
        reply http_internal
            (if rollback_ok
              then delete_file_failed_metadata_restored
              else delete_file_failed_metadata_rollback_failed)
            0,
        record { disk = d1; manager = m2 },
      )
      else (reply http_ok ok_ 0, record { disk = d1; manager = m1 })

  -- The handler behind its tests.
  unfoldable pub delete_named : Bytes → Service S → HttpResult × Service S
  delete_named filename s =
      let (found, m) = get_info ops (env.download_prefix ++ filename) s.manager in
      elim found [
        | none ↦ (reply http_notfound file_not_found 0, record s { manager = m })
        | some info ↦
            delete_registered info (env.download_prefix ++ filename) (record s { manager = m })
      ]

  -- `DeleteHandler::Handle`
  unfoldable pub handle_delete : DeleteRequest → Service S → HttpResult × Service S
  handle_delete r s = elim (check_delete r) [
    | inl refused ↦ (refused, s)
    | inr filename ↦ delete_named filename s
  ]
