-- ===== src/Storage/Download/Sent.antt =====
-- What a download sends, and that it changes nothing: src/server/DownloadHandler.hpp.
use kama_asyn_log_system_clo.Storage.Url.{url_decode}
use kama_asyn_log_system_clo.Storage.FileName.{is_safe_file_name, file_name}
use kama_asyn_log_system_clo.Storage.Path.{FilePath}
use kama_asyn_log_system_clo.Storage.Disk.{Disk, file_at}
use kama_asyn_log_system_clo.Storage.Meta.{StorageInfo, MetadataStore, get_info}
use kama_asyn_log_system_clo.Storage.Meta.Store.{IsLawful}
use kama_asyn_log_system_clo.Storage.Meta.Transparent.{get_info-row}
use kama_asyn_log_system_clo.Storage.Http.{Env, Service}
use kama_asyn_log_system_clo.Storage.Session.Files.{get_content-file_at}
use kama_asyn_log_system_clo.Base.{
  Option-cases, Bytes, codes, length, All, to_string, signed_string, ℕ, ◌≤◌, ◌<◌, ◌≡◌, ap, ◌∙◌, ◌≢◌,
  inl, inr, true, none, some, [], ◌++◌, arith,
}
use kama_asyn_log_system_clo.Storage.FileName.Safe.{file_name_behind_dir}
use kama_asyn_log_system_clo.Storage.Download.{Sending, DownloadRequest, send_file, handle_download}

-- A byte that may stand in a quoted file name.
abbrev pub IsQuotable : ℕ → Type 0
IsQuotable c = (32 ≤ c) × (c < 127) × (c ≢ b'"') × (c ≢ b'\\')

-- A `Content-Disposition` that offers a name twice: in quotes, and coded.
pub record IsOffer (name text : Bytes) : Type 0 where
  pub plain : Bytes
  pub coded : Bytes
  pub both :
      text ≡ codes "attachment; filename=\"" ++ (plain ++ (codes "\"; filename*=UTF-8''" ++ coded))
  pub quotable : All IsQuotable plain
  pub decoded : url_decode coded ≡ some name

-- What a download sends of a file with this name, row and content.
pub record IsDownload (r : DownloadRequest) (name : Bytes) (i : StorageInfo) (content : Bytes)
    (a : Sending) : Type 0 where
  pub whole : a.body ≡ content
  pub measured : a.content_length ≡ to_string (length content)
  pub tagged :
      a.etag ≡ name ++ (codes "-" ++ (to_string i.fsize ++ (codes "-" ++ signed_string i.mtime)))
  pub typed : i.content_type ≢ [] → a.content_type ≡ i.content_type
  pub untyped : i.content_type ≡ [] → a.content_type ≡ codes "application/octet-stream"
  pub original : a.original_size ≡ to_string i.original_size
  pub stored : a.stored_size ≡ to_string i.stored_size
  pub shown : r.query ≡ none → a.disposition ≡ none
  pub offered :
      r.query ≡ some (codes "download=1")
      → (text : Bytes) × (a.disposition ≡ some text) × IsOffer name text

send_file-file_at :
    (r : DownloadRequest) (info : StorageInfo) (d : Disk) (k : FilePath)
    → file_at (send_file r info d).1 k ≡ file_at d k
unfolding send_file
send_file-file_at r info d k = ground (arith, get_content-file_at d info.storage_path k)

module _ {S : Type 0} (ops : MetadataStore S) (laws : IsLawful ops) (env : Env) where
  open laws use {row}

  -- Over a lawful store, whatever is asked and whatever fails, a download changes no file and no
  -- row.
  pub handle_download-kept :
      (r : DownloadRequest) (s : Service S)
      → ((k : FilePath) → file_at (handle_download ops r s).1.disk k ≡ file_at s.disk k)
        × ((k : Bytes) → row (handle_download ops r s).1.manager.store k ≡ row s.manager.store k)
  unfolding handle_download
  handle_download-kept r s = elim (Option-cases (url_decode r.uri_path)) [
    | inl e ↦ (λ k. ground arith, λ k. ground arith)
    | inr (key, e) ↦ elim (Option-cases (get_info ops key s.manager).0) [
      | inl f ↦ (λ k. ground arith, λ k. ground (arith, get_info-row ops laws key s.manager k))
      | inr (i, f) ↦ (
        λ k. ground (arith, send_file-file_at r i s.disk k),
        λ k. ground (arith, get_info-row ops laws key s.manager k),
      )
    ]
  ]

  module _ (dir : Bytes) (h : env.storage_dir ≡ dir ++ codes "/") where
    named :
        (name : Bytes) (i : StorageInfo)
        → i.storage_path ≡ env.storage_dir ++ name
        → is_safe_file_name name ≡ true
        → file_name i.storage_path ≡ name
    named name i path safe =
        ap file_name (path ∙ ap (λ p. p ++ name) h) ∙ file_name_behind_dir dir name safe
