-- ===== src/Storage/Multipart/Chunk.antt =====
-- What `Chunk` and `Abort` of src/server/MultipartUploadHandler.hpp do to the files.
use kama_asyn_log_system_clo.Base.{
  Option-cases, Bytes, codes, length, get_or-first, ℕ, ◌<◌, ◌≡◌, refl, sym, ap, ◌∙◌, ◌≢◌, inl, inr,
  Option, none, some, [], ◌∷◌, ◌++◌, arith,
}
use kama_asyn_log_system_clo.Storage.Path.{
  left, is_inside, FilePath, resolve, walk, session_dir, chunk_path, meta_path, chunk_name,
}
use kama_asyn_log_system_clo.Storage.Path.Left.{left-session_dir}
use kama_asyn_log_system_clo.Storage.Disk.Frame.{
  remove_all-outside, remove_all-inside, set_content-file_at, set_content-file_at_other,
  create_directory-file_at,
}
use kama_asyn_log_system_clo.Storage.Path.Inside.{is_inside_self, is_inside_below, is_inside_longer}
use kama_asyn_log_system_clo.Storage.Path.Resolve.{
  NoSlash, uploads, resolve-chunk_path, resolve-meta_path, resolve-session_dir_name,
}
use kama_asyn_log_system_clo.Storage.Disk.{Disk, file_at, set_content, create_directory}
use kama_asyn_log_system_clo.Storage.Http.{http_ok, Env, Times, UploadSession}
use kama_asyn_log_system_clo.Storage.Session.{save_session}
use kama_asyn_log_system_clo.Storage.Multipart.{expected_size, save_chunk, handle_abort}

-- `meta.json` is no name of a chunk.
chunk_name_meta : (i : ℕ) → codes "meta.json" ≢ chunk_name i
unfolding chunk_name
chunk_name_meta i e = omega (arith, get_or-first 0 e)

module _ (env : Env) (dir : Bytes) (h : env.storage_dir ≡ dir ++ codes "/") where
  -- Saving a session touches no file but its `meta.json`.
  pub save_session-file_at :
      (d : Disk) (session : UploadSession) (k : FilePath)
      → resolve (meta_path env.storage_dir session.upload_id) ≢ k
      → file_at (save_session env d session).1 k ≡ file_at d k
  unfolding save_session
  save_session-file_at d session k ne = elim (Option-cases (env.encode_session session)) [
    | inl e ↦
        ground (arith, create_directory-file_at d (session_dir env.storage_dir session.upload_id) k)
    | inr (text, e) ↦ ground (
      arith,
      create_directory-file_at d (session_dir env.storage_dir session.upload_id) k,
      set_content-file_at_other
          (create_directory d (session_dir env.storage_dir session.upload_id)).1
          (meta_path env.storage_dir session.upload_id) text k ne,
    )
  ]

  meta_apart :
      (id : Bytes) (i : ℕ)
      → resolve (meta_path env.storage_dir id) ≢ resolve (chunk_path env.storage_dir id i)
  meta_apart id i e =
      let k : codes "meta.json" ∷ walk id [] (uploads dir)
          ≡ chunk_name i ∷ walk id [] (uploads dir) =
        sym (ap (λ s. resolve (meta_path s id)) h ∙ resolve-meta_path dir id)
        ∙ e
        ∙ ap (λ s. resolve (chunk_path s id i)) h
        ∙ resolve-chunk_path dir id i in
      chunk_name_meta i (cc k)

  -- For a storage directory that ends in a slash: if `Chunk` answers with success, the index is in
  -- range, the body has the size that is due at that index, and the file of the chunk holds it,
  -- also after the session is saved again.
  pub save_chunk-stored :
      (t : Times) (session : UploadSession) (i : ℕ) (body : Option Bytes) (d : Disk)
      → (save_chunk env t session i body d).0.status ≡ http_ok
      → (content : Bytes) × (body ≡ some content)
        × (length content ≡ expected_size session i)
        × (i < session.total_chunks)
        × (file_at
              (save_chunk env t session i body d).1
              (resolve (chunk_path env.storage_dir session.upload_id i))
            ≡ some content)
  unfolding save_chunk
  save_chunk-stored t session i none d ok = absurd (ground arith)
  save_chunk-stored t session i (some content) d ok =
      let d1 = (set_content d (chunk_path env.storage_dir session.upload_id i) content).1 in
      (
        content,
        refl,
        ground arith,
        ground arith,
        ground (
          arith,
          set_content-file_at d (chunk_path env.storage_dir session.upload_id i) content,
          save_session-file_at d1 (record session { updated_at = t.now })
              (resolve (chunk_path env.storage_dir session.upload_id i))
              (meta_apart session.upload_id i),
        ),
      )

  -- For a storage directory that ends in a slash and has no `..` in it, `Abort` of an identifier of
  -- one path component that is not a dot or two dots answers with success, removes every chunk of
  -- that session, and no file directly in the storage directory.
  pub handle_abort-file_at :
      (id : Bytes) (d : Disk) (name : Bytes) (i : ℕ)
      → left dir [] [] ≡ []
      → NoSlash id
      → id ≢ []
      → id ≢ codes "."
      → id ≢ codes ".."
      → ((handle_abort env (some id) d).0.status ≡ http_ok)
        × (file_at (handle_abort env (some id) d).1 (name ∷ resolve dir)
            ≡ file_at d (name ∷ resolve dir))
        × (file_at (handle_abort env (some id) d).1 (chunk_name i ∷ (id ∷ uploads dir)) ≡ none)
  unfolding handle_abort
  handle_abort-file_at id d name i plain n a b c =
      let at : resolve (session_dir env.storage_dir id) ≡ id ∷ uploads dir =
        ap (λ s. resolve (session_dir s id)) h ∙ resolve-session_dir_name dir id n a b c in
      let straight : left (session_dir env.storage_dir id) [] [] ≡ [] =
        ap (λ s. left (session_dir s id) [] []) h ∙ left-session_dir dir id plain n c in
      (
        refl,
        remove_all-outside d (session_dir env.storage_dir id) (name ∷ resolve dir) (
            ap (λ p. is_inside p (name ∷ resolve dir)) at
            ∙ is_inside_longer (id ∷ uploads dir) (name ∷ resolve dir) (omega arith)),
        remove_all-inside d (session_dir env.storage_dir id) (chunk_name i ∷ (id ∷ uploads dir))
            straight
            (ap (λ p. is_inside p (chunk_name i ∷ (id ∷ uploads dir))) at
              ∙ is_inside_below (id ∷ uploads dir) (id ∷ uploads dir) (chunk_name i)
                  (is_inside_self (id ∷ uploads dir))),
      )
