-- ===== src/Storage/Upload/Replies.antt =====
-- What a reply of `UploadHandler::Handle` promises.
use kama_asyn_log_system_clo.Base.{
  Option-cases, Sum-cases, Bytes, codes, length, ◌≤◌, ◌≡◌, sym, ap, ◌∙◌, ◌≢◌, inl, inr, true, none,
  some, ◌∷◌, ◌++◌, arith,
}
use kama_asyn_log_system_clo.Storage.FileName.{is_safe_file_name}
use kama_asyn_log_system_clo.Storage.ContentType.{normalize_content_type}
use kama_asyn_log_system_clo.Storage.Path.{resolve}
use kama_asyn_log_system_clo.Storage.Disk.{file_at}
use kama_asyn_log_system_clo.Storage.Meta.{StorageInfo, MetadataStore, get_info}
use kama_asyn_log_system_clo.Storage.Meta.Store.{IsLawful}
use kama_asyn_log_system_clo.Storage.Meta.Coherent.{IsCoherent, get_info-IsCoherent}
use kama_asyn_log_system_clo.Storage.Http.{HttpResult, http_ok, Env, Times, Service}
use kama_asyn_log_system_clo.Storage.Backed.{Describes}
use kama_asyn_log_system_clo.Storage.Upload.{
  UploadRequest, check_upload, store_upload, save_upload, handle_upload,
}
use kama_asyn_log_system_clo.Storage.Upload.Store.{store_upload-stored}

pub check_upload_safe :
    (env : Env) (r : UploadRequest) (content filename : Bytes)
    → check_upload env r ≡ inr (content, filename)
    → (is_safe_file_name filename ≡ true)
      × (1 ≤ length content)
      × (length content ≤ env.max_upload_size)
unfolding check_upload
check_upload_safe env r content filename h = ground arith

module _ {S : Type 0} (ops : MetadataStore S) (laws : IsLawful ops) (env : Env) (t : Times) where
  open laws use {row}

  pub handle_upload_refused :
      (r : UploadRequest) (s : Service S) (x : HttpResult)
      → check_upload env r ≡ inl x
      → (handle_upload ops env t r s ≡ (x, s)) × (x.status ≢ http_ok)
  unfolding handle_upload check_upload
  handle_upload_refused r s x h = ground arith

  pub handle_upload_checked :
      (r : UploadRequest) (s : Service S) (content filename : Bytes)
      → check_upload env r ≡ inr (content, filename)
      → handle_upload ops env t r s
        ≡ save_upload ops env t content filename (normalize_content_type r.content_type_header) s
  unfolding handle_upload
  handle_upload_checked r s content filename h = ground arith

  pub save_upload_new :
      (content filename content_type : Bytes) (s : Service S)
      → (get_info ops (env.download_prefix ++ filename) s.manager).0 ≡ none
      → save_upload ops env t content filename content_type s
        ≡ store_upload ops env t content filename content_type
            (record s { manager = (get_info ops (env.download_prefix ++ filename) s.manager).1 })
  unfolding save_upload
  save_upload_new content filename content_type s h = ground arith

  pub save_upload_old :
      (content filename content_type : Bytes) (s : Service S) (i : StorageInfo)
      → (get_info ops (env.download_prefix ++ filename) s.manager).0 ≡ some i
      → ((save_upload ops env t content filename content_type s).0.status ≡ 409)
        × ((save_upload ops env t content filename content_type s).1
            ≡ record s { manager = (get_info ops (env.download_prefix ++ filename) s.manager).1 })
  unfolding save_upload
  save_upload_old content filename content_type s i h = ground arith

  -- One reply is sent with the status that is returned, unless the request has no input buffer:
  -- that request is answered by nothing at all.
  pub handle_upload-sent :
      (r : UploadRequest) (s : Service S)
      → (handle_upload ops env t r s).0.sent ≡ (elim r.input_buffer [
        | none ↦ none
        | some body ↦ some (handle_upload ops env t r s).0.status
      ])
  unfolding handle_upload check_upload save_upload store_upload
  handle_upload-sent r s = ground arith

  module _ (dir : Bytes) (h : env.storage_dir ≡ dir ++ codes "/") where
    -- Over a lawful store, a storage directory that ends in a slash and a cache that agrees with
    -- the store: if an upload is answered with success, the request passed the tests with some
    -- content and name, the file of that name holds the content, and the next lookup of its URL
    -- finds a row that describes it.
    pub handle_upload-stored :
        (r : UploadRequest) (s : Service S)
        → IsCoherent ops laws s.manager
        → (handle_upload ops env t r s).0.status ≡ http_ok
        → (content : Bytes) × (filename : Bytes) × (check_upload env r ≡ inr (content, filename))
          × (file_at (handle_upload ops env t r s).1.disk (filename ∷ resolve dir) ≡ some content)
          × ((i : StorageInfo) × Describes env filename content i
              × ((get_info ops
                    (env.download_prefix ++ filename)
                    (handle_upload ops env t r s).1.manager).0
                  ≡ some i))
    handle_upload-stored r s c ok = elim (Sum-cases (check_upload env r)) [
      | inl (x, e) ↦ absurd (ground (arith, handle_upload_refused r s x e))
      | inr ((content, filename), e) ↦
          let safe = (check_upload_safe env r content filename e).0 in
          let run = handle_upload_checked r s content filename e in
          elim (Option-cases (get_info ops (env.download_prefix ++ filename) s.manager).0) [
            | inr (i, f) ↦ absurd (
                ground (
                  arith,
                  run,
                  save_upload_old content filename (normalize_content_type r.content_type_header) s
                      i f,
                ))
            | inl f ↦
                let new =
                  run
                  ∙ save_upload_new content filename (normalize_content_type r.content_type_header)
                      s f in
                let s' : Service S = record s {
                  manager = (get_info ops (env.download_prefix ++ filename) s.manager).1;
                } in
                let (file, (i, d, _, found)) =
                  store_upload-stored ops laws env t dir h content filename
                    (normalize_content_type r.content_type_header) safe s'
                    (get_info-IsCoherent ops laws (env.download_prefix ++ filename) s.manager c)
                    (sym (ap (λ x. x.0.status) new) ∙ ok) in
                (
                  content,
                  filename,
                  e,
                  ap (λ x. file_at x.1.disk (filename ∷ resolve dir)) new ∙ file,
                  (
                    i,
                    d,
                    ap (λ x. (get_info ops (env.download_prefix ++ filename) x.1.manager).0) new
                        ∙ found,
                  ),
                )
          ]
    ]
