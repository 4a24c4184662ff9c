-- ===== src/Storage/Upload/Backed.antt =====
-- `UploadHandler::Handle` keeps the invariant of the service.
use kama_asyn_log_system_clo.Base.{
  ◌==◌, ==_iff, Bool-cases, Option-cases, some_eq, Sum-cases, Bytes, codes, bytes_eq, bytes_eq_iff,
  bytes_apart, append_cancel, length, length-append, ◌≡◌, sym, ap, subst, ◌∙◌, ◌≢◌, inl, inr, true,
  none, ◌++◌, arith,
}
use kama_asyn_log_system_clo.Storage.FileName.{is_safe_file_name}
use kama_asyn_log_system_clo.Storage.ContentType.{normalize_content_type}
use kama_asyn_log_system_clo.Storage.Disk.{uploading}
use kama_asyn_log_system_clo.Storage.Meta.{MetadataStore, get_info}
use kama_asyn_log_system_clo.Storage.Meta.Store.{IsLawful}
use kama_asyn_log_system_clo.Storage.Meta.Transparent.{get_info-row}
use kama_asyn_log_system_clo.Storage.Http.{http_ok, Env, Times, Service}
use kama_asyn_log_system_clo.Storage.Backed.{
  Describes, IsBacked, IsBackedAt, IsBackedAt-kept, IsBackedAt-absent, looked_up,
}
use kama_asyn_log_system_clo.Storage.Upload.{
  UploadRequest, check_upload, store_upload, handle_upload,
}
use kama_asyn_log_system_clo.Storage.Upload.Store.{
  store_upload-stored, store_upload-row_other, store_upload-file_at_other, store_upload-IsCoherent,
}
use kama_asyn_log_system_clo.Storage.Upload.Replies.{
  check_upload_safe, handle_upload_refused, handle_upload_checked, save_upload_new, save_upload_old,
}

module _ {S : Type 0} (ops : MetadataStore S) (laws : IsLawful ops) (env : Env) (t : Times) where
  open laws use {row}

  module _ (dir : Bytes) (h : env.storage_dir ≡ dir ++ codes "/") where
    -- The rest of the handler, where the name is not registered.
    store_upload-IsBacked :
        (content filename content_type : Bytes) (s : Service S)
        → is_safe_file_name filename ≡ true
        → IsBacked ops laws env dir s
        → row s.manager.store (env.download_prefix ++ (filename ++ uploading)) ≡ none
        → row s.manager.store (env.download_prefix ++ filename) ≡ none
        → IsBacked ops laws env dir (store_upload ops env t content filename content_type s).1
    store_upload-IsBacked content filename content_type s safe b tmp_free free =
        let s' = (store_upload ops env t content filename content_type s).1 in
        let other =
          store_upload-row_other ops laws env t dir h content filename content_type safe s in
        record {
          coherent =
              store_upload-IsCoherent ops laws env t dir h content filename content_type safe s
                b.coherent;
          backed = λ name ok. elim (Bool-cases (bytes_eq filename name)) [
            | inl e ↦
                subst (IsBackedAt ops laws env dir s') ((bytes_eq_iff filename name).0 e)
                  (elim (Bool-cases (
                    (store_upload ops env t content filename content_type s).0.status == http_ok)) [
                      | inl k ↦ λ i r.
                          let (file, (j, d, r', _)) =
                            store_upload-stored ops laws env t dir h content filename content_type
                              safe s b.coherent ((==_iff _ http_ok).0 k) in
                          (
                            content,
                            file,
                            subst (Describes env filename content) (some_eq (sym r' ∙ r)) d,
                          )
                      | inr k ↦ IsBackedAt-absent ops laws env dir s' filename (
                          other (env.download_prefix ++ filename) b.coherent.persists
                            (inr (λ e. ground arith))
                          ∙ free)
                    ])
            | inr e ↦ elim (Bool-cases (bytes_eq (filename ++ uploading) name)) [
              | inl f ↦
                  subst (IsBackedAt ops laws env dir s')
                    ((bytes_eq_iff (filename ++ uploading) name).0 f)
                    (IsBackedAt-absent ops laws env dir s' (filename ++ uploading) (
                      other (env.download_prefix ++ (filename ++ uploading)) b.coherent.persists
                        (inl (longer_url filename))
                      ∙ tmp_free))
              | inr f ↦
                  IsBackedAt-kept ops laws env dir s s' name (b.backed name ok)
                    (store_upload-file_at_other ops laws env t dir h content filename content_type
                      safe s name (bytes_apart e) (bytes_apart f))
                    (other (env.download_prefix ++ name) b.coherent.persists (
                      inl (λ k. bytes_apart e (append_cancel env.download_prefix filename name k))))
            ]
          ];
        }
      where
        longer_url :
            (name : Bytes)
            → env.download_prefix ++ name ≢ env.download_prefix ++ (name ++ uploading)
        longer_url name e =
            let l : length name ≡ length (name ++ uploading) =
              ap length (append_cancel env.download_prefix name (name ++ uploading) e) in
            omega (arith, length-append name uploading)

    -- Over a lawful store and a storage directory that ends in a slash, whatever the request is
    -- and whatever fails on disk or in the store, an upload keeps the invariant (the cache agrees
    -- with the store, and the file of every row of an accepted name is there and described by it),
    -- provided the lookups that find nothing are truthful and nobody has registered the name of
    -- the temporary file.
    pub handle_upload-IsBacked :
        (r : UploadRequest) (s : Service S)
        → IsBacked ops laws env dir s
        → ((content filename : Bytes)
            → check_upload env r ≡ inr (content, filename)
            → row s.manager.store (env.download_prefix ++ (filename ++ uploading)) ≡ none)
        → ((key : Bytes) → (get_info ops key s.manager).0 ≡ none → row s.manager.store key ≡ none)
        → IsBacked ops laws env dir (handle_upload ops env t r s).1
    handle_upload-IsBacked r s b tmp_free answers = elim (Sum-cases (check_upload env r)) [
      | inl (x, e) ↦
          subst (IsBacked ops laws env dir)
            (sym (ap (λ y. y.1) (handle_upload_refused ops laws env t r s x e).0)) b
      | inr ((content, filename), e) ↦
          let url = env.download_prefix ++ filename in
          let content_type = normalize_content_type r.content_type_header in
          let s' : Service S = record s { manager = (get_info ops url s.manager).1 } in
          let b' = looked_up ops laws env dir s url b in
          let run = handle_upload_checked ops laws env t r s content filename e in
          elim (Option-cases (get_info ops url s.manager).0) [
            | inr (i, f) ↦
                subst (IsBacked ops laws env dir)
                  (sym (
                    ap (λ x. x.1) run
                    ∙ (save_upload_old ops laws env t content filename content_type s i f).1))
                  b'
            | inl f ↦
                subst (IsBacked ops laws env dir)
                  (sym (
                    ap (λ x. x.1)
                      (run ∙ save_upload_new ops laws env t content filename content_type s f)))
                  (store_upload-IsBacked content filename content_type s'
                    (check_upload_safe env r content filename e).0 b'
                    (get_info-row ops laws url s.manager
                        (env.download_prefix ++ (filename ++ uploading))
                      ∙ tmp_free content filename e)
                    (get_info-row ops laws url s.manager url ∙ answers url f))
          ]
    ]
