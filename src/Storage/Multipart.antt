-- ===== src/Storage/Multipart.antt =====
-- The upload of a file in chunks: the handlers of src/server/MultipartUploadHandler.hpp.
pub mod Sizes
pub mod Chunk
pub mod Headers
mod Tests
use kama_asyn_log_system_clo.Base.{
  ltb, leb, ◌==◌, if◌then◌else◌, Bytes, length, ℕ, ◌+◌, ◌-◌, ◌*◌, ◌/◌, ◌%◌, ◌^◌, Bool, true, false,
  not, ◌||◌, Option, none, some, ◌++◌,
}
use kama_asyn_log_system_clo.Storage.FileName.{is_safe_file_name}
use kama_asyn_log_system_clo.Storage.Path.{upload_root, session_dir, chunk_path}
use kama_asyn_log_system_clo.Storage.Disk.{
  Disk, set_content, remove, rename, remove_all, create_directory, uploading,
}
use kama_asyn_log_system_clo.Storage.Meta.{MetadataStore, get_info}
use kama_asyn_log_system_clo.Storage.Http.{
  HttpResult, reply, http_ok, http_badrequest, http_notfound, http_conflict, http_internal, Env,
  Times, Service, UploadSession, ok_, file_already_exists, missing_multipart_headers,
  invalid_base64_filename, invalid_multipart_init, save_upload_session_failed,
  upload_session_not_found, missing_chunk_headers, invalid_chunk_index, invalid_chunk_body,
  chunk_size_mismatch, save_chunk_failed, missing_upload_id,
}
use kama_asyn_log_system_clo.Storage.Session.{save_session, load_session, find_reusable_session}

-- What `Init` reads of the request: three headers of a size (`none` is what `HeaderSize` refuses),
-- the name, the type after `NormalizeContentType`, and what `NewUploadId` draws.
pub record InitRequest : Type 0 where
  pub filename_header : Option Bytes
  pub file_size_header : Option ℕ
  pub chunk_size_header : Option ℕ
  pub total_chunks_header : Option ℕ
  pub content_type : Bytes
  pub new_upload_id : Bytes

-- `(total_size + chunk_size - 1) / chunk_size` of two `size_t`s; the sum wraps around.
unfoldable pub chunks_needed : ℕ → ℕ → ℕ
chunks_needed total_size chunk_size =
    ((total_size + chunk_size + (2 ^ 64 - 1)) % 2 ^ 64) / chunk_size

-- The tests of `Init` on the sizes.
unfoldable pub valid_init : Env → Bytes → ℕ → ℕ → ℕ → Bool
valid_init env filename total_size chunk_size total_chunks = not (
    not (is_safe_file_name filename)
    || (total_size == 0)
    || (chunk_size == 0)
    || (total_chunks == 0)
    || not (total_chunks == chunks_needed total_size chunk_size)
    || ltb env.max_upload_size total_size)

-- The size that `Chunk` asks of a chunk, of `size_t`s that wrap around.
unfoldable pub expected_size : UploadSession → ℕ → ℕ
expected_size session chunk_index =
    if chunk_index == session.total_chunks - 1
    then (session.total_size + (2 ^ 64 - (session.chunk_size * chunk_index) % 2 ^ 64)) % 2 ^ 64
    else session.chunk_size

-- The handlers that need neither metadata nor the time.
module _ (env : Env) where
  -- `Status`, of the parameter `upload_id` of the query.
  unfoldable pub handle_status : Bytes → Disk → HttpResult × Disk
  handle_status upload_id d =
      let (loaded, d1) = load_session env d upload_id in
      elim loaded [
        | none ↦ (reply http_notfound upload_session_not_found 0, d1)
        | some session ↦ (reply http_ok ok_ 0, d1)
      ]

  -- `Abort`: nothing is asked of the identifier.
  unfoldable pub handle_abort : Option Bytes → Disk → HttpResult × Disk
  handle_abort none d = (reply http_badrequest missing_upload_id 0, d)
  handle_abort (some upload_id) d =
      (reply http_ok ok_ 0, remove_all d (session_dir env.storage_dir upload_id))

  -- `FinalizeFile`; the path is what it returns by its last argument.
  unfoldable pub finalize_file : UploadSession → Bytes → Disk → Bool × Disk
  finalize_file session merged_path d =
      let storage_path = env.storage_dir ++ session.filename in
      let tmp_path = storage_path ++ uploading in
      let d1 = (create_directory d env.storage_dir).1 in
      let d2 = (remove d1 storage_path).1 in
      let d3 = (remove d2 tmp_path).1 in
      let (first, d4) = rename d3 merged_path tmp_path in
      let (second, d5) = rename d4 tmp_path storage_path in
      if not first
      then (false, d4)
      else if not second
      then (false, (remove d5 tmp_path).1)
      else (true, d5)

-- The handlers that need no metadata: a session, and one chunk after the other.
module _ (env : Env) (t : Times) where
  new_session : InitRequest → Bytes → ℕ → ℕ → ℕ → UploadSession
  new_session r filename total_size chunk_size total_chunks = record {
    upload_id = r.new_upload_id;
    filename = filename;
    content_type = r.content_type;
    total_size = total_size;
    chunk_size = chunk_size;
    total_chunks = total_chunks;
    created_at = t.now;
    updated_at = t.now;
  }

  -- The end of `Init`: a session of the same sizes is taken up again, or a new one is saved.
  unfoldable pub open_session : InitRequest → Bytes → ℕ → ℕ → ℕ → Disk → HttpResult × Disk
  unfolding new_session
  open_session r filename total_size chunk_size total_chunks d =
      let (_, d1) = create_directory d (upload_root env.storage_dir) in
      let (reusable, d2) =
        find_reusable_session env d1 filename total_size chunk_size total_chunks in
      let (saved, d3) =
        save_session env d2 (new_session r filename total_size chunk_size total_chunks) in
      elim reusable [
        | some session ↦
            (reply http_ok ok_ 0, (save_session env d2 (record session { updated_at = t.now })).1)
        | none ↦
            if not saved
            then (reply http_internal save_upload_session_failed 0, d3)
            else (reply http_ok ok_ 0, d3)
      ]

  -- `Chunk` behind its headers; a body of `none` is what `ReadBody` refuses.
  unfoldable pub save_chunk : UploadSession → ℕ → Option Bytes → Disk → HttpResult × Disk
  save_chunk session chunk_index body d =
      if leb session.total_chunks chunk_index
      then (reply http_badrequest invalid_chunk_index 0, d)
      else elim body [
        | none ↦ (reply http_badrequest invalid_chunk_body 0, d)
        | some content ↦
            let (saved, d1) =
              set_content d (chunk_path env.storage_dir session.upload_id chunk_index) content in
            if (length content == 0) || ltb session.chunk_size (length content)
            then (reply http_badrequest invalid_chunk_body 0, d)
            else if not (length content == expected_size session chunk_index)
            then (reply http_badrequest chunk_size_mismatch (length content), d)
            else if not saved
            then (reply http_internal save_chunk_failed (length content), d1)
            else (
              reply http_ok ok_ (length content),
              (save_session env d1 (record session { updated_at = t.now })).1,
            )
      ]

  unfoldable pub handle_chunk : Option Bytes → Option ℕ → Option Bytes → Disk → HttpResult × Disk
  handle_chunk none index body d = (reply http_badrequest missing_chunk_headers 0, d)
  handle_chunk (some upload_id) none body d = (reply http_badrequest missing_chunk_headers 0, d)
  handle_chunk (some upload_id) (some chunk_index) body d =
      let (loaded, d1) = load_session env d upload_id in
      elim loaded [
        | none ↦ (reply http_notfound upload_session_not_found 0, d1)
        | some session ↦ save_chunk session chunk_index body d1
      ]

module _ {S : Type 0} (ops : MetadataStore S) (env : Env) (t : Times) where
  -- `Init` behind its headers.
  unfoldable pub init_session : InitRequest → Bytes → ℕ → ℕ → ℕ → Service S → HttpResult × Service S
  init_session r filename total_size chunk_size total_chunks s =
      if not (valid_init env filename total_size chunk_size total_chunks)
      then (reply http_badrequest invalid_multipart_init 0, s)
      else (let (old, m) = get_info ops (env.download_prefix ++ filename) s.manager in
          let (answer, d) =
            open_session env t r filename total_size chunk_size total_chunks s.disk in
          elim old [
            | some old_info ↦ (reply http_conflict file_already_exists 0, record s { manager = m })
            | none ↦ (answer, record { disk = d; manager = m })
          ])

  unfoldable pub handle_init : InitRequest → Service S → HttpResult × Service S
  handle_init r s = elim r.filename_header [
    | none ↦ (reply http_badrequest missing_multipart_headers 0, s)
    | some encoded ↦ elim r.file_size_header [
      | none ↦ (reply http_badrequest missing_multipart_headers 0, s)
      | some total_size ↦ elim r.chunk_size_header [
        | none ↦ (reply http_badrequest missing_multipart_headers 0, s)
        | some chunk_size ↦ elim r.total_chunks_header [
          | none ↦ (reply http_badrequest missing_multipart_headers 0, s)
          | some total_chunks ↦ elim (env.base64_decode encoded) [
            | none ↦ (reply http_badrequest invalid_base64_filename 0, s)
            | some filename ↦ init_session r filename total_size chunk_size total_chunks s
          ]
        ]
      ]
    ]
  ]
