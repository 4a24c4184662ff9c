-- ===== src/Storage/Download.antt =====
-- The download of a file: src/server/DownloadHandler.hpp.
pub mod Sent
mod Tests
use kama_asyn_log_system_clo.Base.{
  to_string, signed_string, ltb, leb, ◌==◌, if◌then◌else◌, Bytes, codes, bytes_eq, has_text, take,
  ℕ, zero, suc, ◌+◌, ◌/◌, ◌%◌, Bool, false, not, ◌&&◌, ◌||◌, Option, none, some, [], ◌∷◌, ◌++◌,
}
use kama_asyn_log_system_clo.Storage.Url.{url_decode, url_encode}
use kama_asyn_log_system_clo.Storage.FileName.{file_name}
use kama_asyn_log_system_clo.Storage.ContentType.{octet_stream}
use kama_asyn_log_system_clo.Storage.Disk.{Disk, exists, file_size, get_content}
use kama_asyn_log_system_clo.Storage.Meta.{StorageInfo, MetadataStore, get_info}
use kama_asyn_log_system_clo.Storage.Http.{
  HttpResult, reply, http_ok, http_badrequest, http_notfound, http_internal, Service, no_size, ok_,
  bad_url, file_not_found, file_missing, open_failed, add_file_failed,
}

-- `GetETag`
unfoldable pub get_etag : StorageInfo → Bytes
get_etag info =
    file_name info.storage_path
    ++ (codes "-" ++ (to_string info.fsize ++ (codes "-" ++ signed_string info.mtime)))

-- `IsAttachmentRequest`; `none` is a URI with no query.
unfoldable pub is_attachment_request : Option Bytes → Bool
is_attachment_request none = false
is_attachment_request (some query) =
    bytes_eq query (codes "download=1")
    || has_text (codes "&download=1") query
    || has_text (codes "download=1&") query

-- The loop of `ContentDisposition`.
unfoldable pub fallback_byte : ℕ → ℕ
fallback_byte ch =
    if leb 32 ch && ltb ch 127 && not (ch == b'"') && not (ch == b'\\') then ch else b'_'

unfoldable pub fallback_name : Bytes → Bytes
unfolding fallback_byte
fallback_name [] = []
fallback_name (ch ∷ s) = fallback_byte ch ∷ fallback_name s

unfoldable pub content_disposition : Bytes → Bytes
content_disposition filename =
    let fallback : Bytes = elim (fallback_name filename) [
      | [] ↦ codes "download"
      | c ∷ s ↦ c ∷ s
    ] in
    codes "attachment; filename=\""
    ++ (fallback ++ (codes "\"; filename*=UTF-8''" ++ url_encode filename))

-- The headers and the body that are sent with a success.
pub record Sending : Type 0 where
  pub etag : Bytes
  pub content_type : Bytes
  pub disposition : Option Bytes
  pub content_length : Bytes
  pub original_size : Bytes
  pub stored_size : Bytes
  pub body : Bytes

-- The path of the URI, its query, and whether `evbuffer_add_file` takes the file.
pub record DownloadRequest : Type 0 where
  pub uri_path : Bytes
  pub query : Option Bytes
  pub add_file_works : Bool

unfoldable pub sending : DownloadRequest → StorageInfo → ℕ → Bytes → Sending
sending r info size body = record {
  etag = get_etag info;
  content_type = if bytes_eq info.content_type [] then octet_stream else info.content_type;
  disposition =
      if is_attachment_request r.query
      then some (content_disposition (file_name info.storage_path))
      else none;
  content_length = to_string size;
  original_size = to_string info.original_size;
  stored_size = to_string info.stored_size;
  body = body;
}

-- From the test for the file on; the file is opened for reading, and its first `size` bytes are sent.
unfoldable pub send_file :
    DownloadRequest → StorageInfo → Disk → (HttpResult × Option Sending) × Disk
send_file r info d =
    let size : ℕ = elim (file_size d info.storage_path) [ none ↦ no_size | some n ↦ n ] in
    let (opened, d1) = get_content d info.storage_path in
    if not (exists d info.storage_path)
    then ((reply http_badrequest file_missing 0, none), d)
    else elim opened [
      | none ↦ ((reply http_internal open_failed 0, none), d1)
      | some v ↦
          if not r.add_file_works
          then ((reply http_internal add_file_failed 0, none), d1)
          else ((reply http_ok ok_ size, some (sending r info size (take size v))), d1)
    ]

-- `DownloadHandler::Handle`
unfoldable pub handle_download :
    {S : Type 0}
    → MetadataStore S
    → DownloadRequest
    → Service S
    → (HttpResult × Option Sending) × Service S
handle_download ops r s = elim (url_decode r.uri_path) [
  | none ↦ ((reply http_badrequest bad_url 0, none), s)
  | some resource_path ↦
      let (found, m) = get_info ops resource_path s.manager in
      elim found [
        | none ↦ ((reply http_notfound file_not_found 0, none), record s { manager = m })
        | some info ↦
            let (answer, d) = send_file r info s.disk in (answer, record { disk = d; manager = m })
      ]
]
