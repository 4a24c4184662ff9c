-- ===== src/Storage/Complete/Stored.antt =====
-- What the success of a multipart upload promises: src/server/MultipartUploadHandler.hpp.
use kama_asyn_log_system_clo.Base.{
  Bytes, codes, length, ℕ, zero, suc, ◌+◌, ◌≡◌, refl, sym, ap, ap₂, ◌∙◌, Bool, true, some, ◌∷◌,
  ◌++◌, arith,
}
use kama_asyn_log_system_clo.Storage.FileName.{is_safe_file_name}
use kama_asyn_log_system_clo.Storage.Path.{resolve}
use kama_asyn_log_system_clo.Storage.Disk.{Disk, uploading, file_at, file_size, remove}
use kama_asyn_log_system_clo.Storage.Disk.Frame.{remove-file_at, path_eq_ne}
use kama_asyn_log_system_clo.Storage.Meta.{StorageInfo, MetadataStore, get_info}
use kama_asyn_log_system_clo.Storage.Meta.Store.{IsLawful}
use kama_asyn_log_system_clo.Storage.Meta.Coherent.{IsCoherent}
use kama_asyn_log_system_clo.Storage.Http.{
  http_ok, Env, Times, Service, UploadSession, new_storage_info,
}
use kama_asyn_log_system_clo.Storage.Backed.{Describes, resolve_stored, resolve_temporary}
use kama_asyn_log_system_clo.Storage.Upload.{save_metadata}
use kama_asyn_log_system_clo.Storage.Upload.Metadata.{
  new_storage_info-Describes, save_metadata-row_saved, save_metadata-found,
}
use kama_asyn_log_system_clo.Storage.Multipart.{finalize_file}
use kama_asyn_log_system_clo.Storage.Merge.{merge_chunks, content_or_nil}
use kama_asyn_log_system_clo.Storage.Merge.Joined.{
  joined, chunk_at, chunk_content, merge_chunks-file_at,
}
use kama_asyn_log_system_clo.Storage.Complete.{has_size, register_merged, merge_session}
use kama_asyn_log_system_clo.Storage.Complete.Finalize.{finalize_file-file_at}
use kama_asyn_log_system_clo.Storage.Complete.Places.{
  IsId, merged_path, merged-chunk_apart, merged-stored_apart, removed_session,
}

pub joined_same : (f g : ℕ → Bytes) (n i : ℕ) → ((j : ℕ) → f j ≡ g j) → joined f n i ≡ joined g n i
unfolding joined
joined_same f g zero i h = refl
joined_same f g (suc n) i h = ap₂ (λ a b. a ++ b) (h i) (joined_same f g n (i + 1) h)

has_size-true :
    (d : Disk) (path content : Bytes) (n : ℕ)
    → file_at d (resolve path) ≡ some content
    → has_size (file_size d path) n ≡ true
    → length content ≡ n
unfolding has_size file_size
has_size-true d path content n e h = ground arith

module _ {S : Type 0} (ops : MetadataStore S) (laws : IsLawful ops) (env : Env) (t : Times) where
  module _ (dir : Bytes) (h : env.storage_dir ≡ dir ++ codes "/") where
    -- The file that the session stands for: its chunks in order.
    abbrev pub assembled : UploadSession → Disk → Bytes
    assembled session d = joined (chunk_content env session d) session.total_chunks 0

    register_merged-stored :
        (session : UploadSession) (content : Bytes) (s : Service S)
        → is_safe_file_name session.filename ≡ true
        → IsId session.upload_id
        → IsCoherent ops laws s.manager
        → file_at s.disk (session.filename ∷ resolve dir) ≡ some content
        → (register_merged ops env t session s).0.status ≡ http_ok
        → (file_at (register_merged ops env t session s).1.disk (session.filename ∷ resolve dir)
            ≡ some content)
          × ((i : StorageInfo) × Describes env session.filename content i
              × ((get_info ops
                    (env.download_prefix ++ session.filename)
                    (register_merged ops env t session s).1.manager).0
                  ≡ some i))
    unfolding register_merged
    register_merged-stored session content s safe v c f ok =
        let path = env.storage_dir ++ session.filename in
        let info = new_storage_info env t s.disk path session.total_size session.content_type in
        let saved : (save_metadata ops info s.manager).0 ≡ true = ground arith in
        let (i, e, r) = save_metadata-row_saved ops laws info s.manager c.persists saved in
        let d =
          new_storage_info-Describes env dir h t s.disk session.filename content session.total_size
            session.content_type i safe f e in
        (
          ground (arith, removed_session env dir h session.upload_id v s.disk session.filename),
          (i, d, ground (arith, d.url, save_metadata-found ops laws info s.manager i c e saved)),
        )

    abbrev merged : UploadSession → Service S → Bool × Disk
    merged session s =
        merge_chunks env session (merged_path env session.upload_id)
          (remove s.disk (merged_path env session.upload_id)).1

    merge_session_steps :
        (session : UploadSession) (s : Service S)
        → (merge_session ops env t session s).0.status ≡ http_ok
        → let p = merged_path env session.upload_id in
          let d2 = (merged session s).1 in
          ((merged session s).0 ≡ true)
          × (has_size (file_size d2 p) session.total_size ≡ true)
          × ((finalize_file env session p d2).0 ≡ true)
          × (merge_session ops env t session s
              ≡ register_merged ops env t session
                  (record s { disk = (finalize_file env session p d2).1 }))
    unfolding merge_session
    merge_session_steps session s ok = ground arith

    -- If a complete session of an accepted name is answered with success, the file of that name is
    -- the chunks of the session one after the other, its length is the announced size, and the
    -- next lookup of its URL finds a row that describes it.
    pub merge_session-stored :
        (session : UploadSession) (s : Service S)
        → is_safe_file_name session.filename ≡ true
        → IsId session.upload_id
        → IsCoherent ops laws s.manager
        → (merge_session ops env t session s).0.status ≡ http_ok
        → (file_at (merge_session ops env t session s).1.disk (session.filename ∷ resolve dir)
            ≡ some (assembled session s.disk))
          × (length (assembled session s.disk) ≡ session.total_size)
          × ((i : StorageInfo) × Describes env session.filename (assembled session s.disk) i
              × ((get_info ops
                    (env.download_prefix ++ session.filename)
                    (merge_session ops env t session s).1.manager).0
                  ≡ some i))
    merge_session-stored session s safe v c ok =
        let id = session.upload_id in
        let p = merged_path env id in
        let d1 = (remove s.disk p).1 in
        let d2 = (merged session s).1 in
        let d3 = (finalize_file env session p d2).1 in
        let (m, z, f, run) = merge_session_steps session s ok in
        let apart = merged-chunk_apart env dir h id v in
        let kept : (j : ℕ)
            → file_at d1 (chunk_at env session j) ≡ file_at s.disk (chunk_at env session j) =
          λ j.
            ground
              (arith, remove-file_at s.disk p (chunk_at env session j), path_eq_ne (apart j)) in
        let same : assembled session d1 ≡ assembled session s.disk =
          joined_same (chunk_content env session d1) (chunk_content env session s.disk)
            session.total_chunks 0 (λ j. ap content_or_nil (kept j)) in
        let file2 : file_at d2 (resolve p) ≡ some (assembled session s.disk) =
          merge_chunks-file_at env session p d1 apart m ∙ ap some same in
        let stored = resolve_stored env dir h session.filename safe in
        let tmp = resolve_temporary env dir h session.filename safe in
        let file3 : file_at d3 (session.filename ∷ resolve dir) ≡ some (assembled session s.disk) =
          ap (file_at d3) (sym stored)
          ∙ finalize_file-file_at env session p d2
              (λ e. merged-stored_apart env dir h id v session.filename (sym stored ∙ e))
              (λ e.
                merged-stored_apart env dir h id v (session.filename ++ uploading) (sym tmp ∙ e))
              f
          ∙ file2 in
        let (g, (i, d, found)) =
          register_merged-stored session (assembled session s.disk) (record s { disk = d3 }) safe v
            c file3 (sym (ap (λ x. x.0.status) run) ∙ ok) in
        (
          ap (λ x. file_at x.1.disk (session.filename ∷ resolve dir)) run ∙ g,
          has_size-true d2 p (assembled session s.disk) session.total_size file2 z,
          (
            i,
            d,
            ap (λ x. (get_info ops (env.download_prefix ++ session.filename) x.1.manager).0) run
                ∙ found,
          ),
        )
