-- ===== src/Storage/Complete/Handled.antt =====
-- `Complete` of src/server/MultipartUploadHandler.hpp from the identifier on.
use kama_asyn_log_system_clo.Base.{
  Option-cases, Bytes, codes, length, ◌≡◌, sym, ap, subst, ◌∙◌, ◌≢◌, inl, inr, none, some, ◌∷◌,
  ◌++◌, arith,
}
use kama_asyn_log_system_clo.Storage.Path.{resolve}
use kama_asyn_log_system_clo.Storage.Disk.{file_at}
use kama_asyn_log_system_clo.Storage.Meta.{StorageInfo, MetadataStore, get_info}
use kama_asyn_log_system_clo.Storage.Meta.Store.{IsLawful}
use kama_asyn_log_system_clo.Storage.Meta.Coherent.{IsCoherent, get_info-IsCoherent}
use kama_asyn_log_system_clo.Storage.Http.{http_ok, Env, Times, Service, UploadSession}
use kama_asyn_log_system_clo.Storage.Backed.{Describes}
use kama_asyn_log_system_clo.Storage.Session.{load_session, uploaded_chunks}
use kama_asyn_log_system_clo.Storage.Session.Files.{load_session-some, load_session-file_at}
use kama_asyn_log_system_clo.Storage.Merge.{content_or_nil}
use kama_asyn_log_system_clo.Storage.Merge.Joined.{chunk_at, chunk_content}
use kama_asyn_log_system_clo.Storage.Complete.{merge_session, complete_session, handle_complete}
use kama_asyn_log_system_clo.Storage.Complete.Places.{IsId}
use kama_asyn_log_system_clo.Storage.Complete.Stored.{assembled, merge_session-stored, joined_same}

module _ {S : Type 0} (ops : MetadataStore S) (laws : IsLawful ops) (env : Env) (t : Times) where
  complete_session-steps :
      (session : UploadSession) (s : Service S)
      → (complete_session ops env t session s).0.status ≡ http_ok
      → (length (uploaded_chunks env s.disk session) ≡ session.total_chunks)
        × ((get_info ops (env.download_prefix ++ session.filename) s.manager).0 ≡ none)
        × (complete_session ops env t session s
            ≡ merge_session ops env t session (record s {
              manager = (get_info ops (env.download_prefix ++ session.filename) s.manager).1;
            }))
  unfolding complete_session
  complete_session-steps session s ok =
      ground
        (arith, Option-cases (get_info ops (env.download_prefix ++ session.filename) s.manager).0)

  handle_complete-session :
      (id : Bytes) (s : Service S)
      → (handle_complete ops env t (some id) s).0.status ≡ http_ok
      → (session : UploadSession) × ((load_session env s.disk id).0 ≡ some session)
        × (handle_complete ops env t (some id) s
            ≡ complete_session ops env t session
                (record s { disk = (load_session env s.disk id).1 }))
  unfolding handle_complete
  handle_complete-session id s ok = elim (Option-cases (load_session env s.disk id).0) [
    | inl e ↦ absurd (ground arith)
    | inr (session, e) ↦ (session, e, ground arith)
  ]

  module _ (dir : Bytes) (h : env.storage_dir ≡ dir ++ codes "/") where
    -- Over a lawful store, a storage directory that ends in a slash and a cache that agrees with
    -- the store: if `Complete` of an identifier that is not a dot or two dots is answered with
    -- success, then the identifier names a saved session with as many chunks there as it has, its
    -- name was not found taken, the file of that name is now the chunks one after the other with
    -- the announced size, and the next lookup of its URL finds a row that describes it.
    pub handle_complete-stored :
        (id : Bytes) (s : Service S)
        → id ≢ codes "."
        → id ≢ codes ".."
        → IsCoherent ops laws s.manager
        → (handle_complete ops env t (some id) s).0.status ≡ http_ok
        → (session : UploadSession) × ((load_session env s.disk id).0 ≡ some session)
          × (length (uploaded_chunks env (load_session env s.disk id).1 session)
              ≡ session.total_chunks)
          × ((get_info ops (env.download_prefix ++ session.filename) s.manager).0 ≡ none)
          × (file_at (handle_complete ops env t (some id) s).1.disk (session.filename ∷ resolve dir)
              ≡ some (assembled ops laws env t dir h session s.disk))
          × (length (assembled ops laws env t dir h session s.disk) ≡ session.total_size)
          × ((i : StorageInfo) × Describes env session.filename
                (assembled ops laws env t dir h session s.disk)
                i
              × ((get_info ops
                    (env.download_prefix ++ session.filename)
                    (handle_complete ops env t (some id) s).1.manager).0
                  ≡ some i))
    handle_complete-stored id s not_self not_parent c ok =
        let (session, e, run) = handle_complete-session id s ok in
        let d = (load_session env s.disk id).1 in
        let (n, m, own, safe) = load_session-some env s.disk id session e in
        let s1 : Service S = record s { disk = d } in
        let (count, free, run1) =
          complete_session-steps session s1 (sym (ap (λ x. x.0.status) run) ∙ ok) in
        let url = env.download_prefix ++ session.filename in
        let s2 : Service S = record s1 { manager = (get_info ops url s.manager).1 } in
        let v : IsId session.upload_id =
          subst IsId (sym own) (record {
            no_slash = n;
            not_empty = m;
            not_self = not_self;
            not_parent = not_parent;
          }) in
        let same : assembled ops laws env t dir h session d
            ≡ assembled ops laws env t dir h session s.disk =
          joined_same (chunk_content env session d) (chunk_content env session s.disk)
            session.total_chunks 0
            (λ j.
              ap content_or_nil (load_session-file_at env s.disk id (chunk_at env session j))) in
        let all = run ∙ run1 in
        let (file, size, (i, k, found)) =
          merge_session-stored ops laws env t dir h session s2 safe v
            (get_info-IsCoherent ops laws url s.manager c) (sym (ap (λ x. x.0.status) all) ∙ ok) in
        (
          session,
          e,
          count,
          free,
          ap (λ x. file_at x.1.disk (session.filename ∷ resolve dir)) all ∙ file ∙ ap some same,
          sym (ap length same) ∙ size,
          (
            i,
            subst (λ b. Describes env session.filename b i) same k,
            ap (λ x. (get_info ops url x.1.manager).0) all ∙ found,
          ),
        )
