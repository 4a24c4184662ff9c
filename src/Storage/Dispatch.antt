-- ===== src/Storage/Dispatch.antt =====
-- The routing of requests: src/server/Service.hpp.
pub mod Logged
pub mod Reading
mod Tests
use kama_asyn_log_system_clo.Base.{
  if◌then◌else◌, Bytes, codes, bytes_eq, starts_with, length, ℕ, Bool, true, false, Option, none,
  some,
}
use kama_asyn_log_system_clo.Storage.Url.{url_decode}
use kama_asyn_log_system_clo.Storage.ContentType.{normalize_content_type}
use kama_asyn_log_system_clo.Storage.Meta.{MetadataStore}
use kama_asyn_log_system_clo.Storage.Disk.{Disk}
use kama_asyn_log_system_clo.Storage.Http.{
  HttpResult, reply, http_badrequest, http_notfound, Env, Times, Service, bad_url, not_found,
  Reason,
}
use kama_asyn_log_system_clo.Storage.Upload.{UploadRequest, handle_upload}
use kama_asyn_log_system_clo.Storage.Delete.{DeleteRequest, handle_delete}
use kama_asyn_log_system_clo.Storage.Download.{DownloadRequest, handle_download}
use kama_asyn_log_system_clo.Storage.Multipart.{
  InitRequest, handle_init, handle_chunk, handle_status, handle_abort,
}
use kama_asyn_log_system_clo.Storage.Multipart.Headers.{header_size, query_param, read_body}
use kama_asyn_log_system_clo.Storage.Complete.{handle_complete}
use kama_asyn_log_system_clo.Storage.Listing.{QueryStore, handle_list}

-- `evhttp_cmd_type`
pub data Command : Type 0 where
  get_request post_request head_request put_request delete_request : Command
  options_request trace_request connect_request patch_request other_request : Command

-- `MethodName`
unfoldable pub method_name : Command → Bytes
method_name get_request = codes "GET"
method_name post_request = codes "POST"
method_name head_request = codes "HEAD"
method_name put_request = codes "PUT"
method_name delete_request = codes "DELETE"
method_name options_request = codes "OPTIONS"
method_name trace_request = codes "TRACE"
method_name connect_request = codes "CONNECT"
method_name patch_request = codes "PATCH"
method_name other_request = codes "UNKNOWN"

-- What libevent has of a request, whether its calls work, and the identifier that `NewUploadId`
-- would draw.
pub record Request : Type 0 where
  pub command : Command
  pub path : Bytes
  pub query : Option Bytes
  pub header : Bytes → Option Bytes
  pub input_buffer : Option Bytes
  pub copyout_works : Bool
  pub add_file_works : Bool
  pub new_upload_id : Bytes

-- What each handler reads of it.
unfoldable pub is_delete_request : Command → Bool
is_delete_request delete_request = true
is_delete_request _ = false

unfoldable pub upload_of : Request → UploadRequest
upload_of r = record {
  input_buffer = r.input_buffer;
  copyout_works = r.copyout_works;
  filename_header = r.header (codes "FileName");
  content_type_header = r.header (codes "Content-Type");
}

unfoldable pub init_of : Request → InitRequest
init_of r = record {
  filename_header = r.header (codes "FileName");
  file_size_header = header_size (r.header (codes "X-File-Size"));
  chunk_size_header = header_size (r.header (codes "X-Chunk-Size"));
  total_chunks_header = header_size (r.header (codes "X-Total-Chunks"));
  content_type = normalize_content_type (r.header (codes "Content-Type"));
  new_upload_id = r.new_upload_id;
}

unfoldable pub download_of : Request → DownloadRequest
download_of r = record { uri_path = r.path; query = r.query; add_file_works = r.add_file_works }

unfoldable pub delete_of : Request → DeleteRequest
delete_of r = record { is_delete = is_delete_request r.command; uri_path = r.path }

-- The handler that a decoded path goes to.
pub data Route : Type 0 where
  to_download to_init to_chunk to_status to_complete to_abort to_delete to_upload to_list : Route
  to_nothing : Route

unfoldable pub route : Bytes → Route
route path =
    if starts_with (codes "/download/") path
    then to_download
    else if bytes_eq path (codes "/upload/init")
    then to_init
    else if bytes_eq path (codes "/upload/chunk")
    then to_chunk
    else if bytes_eq path (codes "/upload/status")
    then to_status
    else if bytes_eq path (codes "/upload/complete")
    then to_complete
    else if bytes_eq path (codes "/upload/abort")
    then to_abort
    else if starts_with (codes "/delete/") path
    then to_delete
    else if bytes_eq path (codes "/upload")
    then to_upload
    else if bytes_eq path (codes "/")
    then to_list
    else to_nothing

-- A handler that works on the disk alone.
unfoldable pub on_disk : {S : Type 0} → HttpResult × Disk → Service S → HttpResult × Service S
on_disk (result, d) s = (result, record s { disk = d })

-- A line of the access log, without the times and the address.
pub record Access : Type 0 where
  pub method : Bytes
  pub uri : Bytes
  pub status : ℕ
  pub request_bytes : ℕ
  pub response_bytes : ℕ
  pub why : Reason

unfoldable pub buffer_length : Option Bytes → ℕ
buffer_length none = 0
buffer_length (some content) = length content

unfoldable pub log_access : Request → Bytes → HttpResult → Access
log_access r path result = record {
  method = method_name r.command;
  uri = path;
  status = result.status;
  request_bytes = buffer_length r.input_buffer;
  response_bytes = result.bytes;
  why = result.reason;
}

module _ {S : Type 0} (ops : MetadataStore S) (list_store : QueryStore S) (env : Env) (t : Times)
    (ctime : ℕ → Bytes) where
  unfoldable pub handle : Route → Request → Service S → HttpResult × Service S
  handle to_download r s =
      let ((result, sent), s') = handle_download ops (download_of r) s in (result, s')
  handle to_init r s = handle_init ops env t (init_of r) s
  handle to_chunk r s =
      on_disk
        (handle_chunk env t (r.header (codes "UploadId"))
          (header_size (r.header (codes "ChunkIndex"))) (read_body r.input_buffer r.copyout_works)
          s.disk)
        s
  handle to_status r s =
      on_disk (handle_status env (query_param r.query (codes "upload_id")) s.disk) s
  handle to_complete r s = handle_complete ops env t (r.header (codes "UploadId")) s
  handle to_abort r s = on_disk (handle_abort env (r.header (codes "UploadId")) s.disk) s
  handle to_delete r s = handle_delete ops env (delete_of r) s
  handle to_upload r s = handle_upload ops env t (upload_of r) s
  handle to_list r s =
      let (answer, s') = handle_list env ctime list_store r.query s in (answer.result, s')
  handle to_nothing r s = (reply http_notfound not_found 0, s)

  -- `Dispatch` behind `UrlDecode`: the reply, what is logged, and the service.
  unfoldable pub dispatch_decoded :
      Option Bytes → Request → Service S → (HttpResult × Access) × Service S
  dispatch_decoded none r s =
      let refused = reply http_badrequest bad_url 0 in ((refused, log_access r r.path refused), s)
  dispatch_decoded (some path) r s =
      let (result, s') = handle (route path) r s in ((result, log_access r path result), s')

  unfoldable pub dispatch : Request → Service S → (HttpResult × Access) × Service S
  dispatch r s = dispatch_decoded (url_decode r.path) r s
