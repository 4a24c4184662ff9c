-- ===== src/Storage/Session/Files.antt =====
-- What the sessions leave alone: `LoadSession` and `CleanupSessionsByFilename` of
-- src/server/MultipartUploadHandler.hpp.
use kama_asyn_log_system_clo.Base.{
  Option-cases, Bytes, codes, bytes_eq_iff, has_byte-false, All, ℕ, ◌+◌, ◌≡◌, refl, sym, subst, ◌≢◌,
  inl, inr, true, false, some, List, [], ◌∷◌, ◌++◌, arith,
}
use kama_asyn_log_system_clo.Storage.FileName.{is_safe_file_name}
use kama_asyn_log_system_clo.Storage.Path.{
  FilePath, resolve, is_inside, upload_root, session_dir, meta_path,
}
use kama_asyn_log_system_clo.Storage.Path.Inside.{is_inside_longer}
use kama_asyn_log_system_clo.Storage.Path.Resolve.{uploads, NoSlash, resolve-session_dir_name}
use kama_asyn_log_system_clo.Storage.Disk.{Disk, file_at, get_content, remove_all}
use kama_asyn_log_system_clo.Storage.Disk.Frame.{remove_all-outside}
use kama_asyn_log_system_clo.Storage.Http.{UploadSession, Env}
use kama_asyn_log_system_clo.Storage.Session.{
  load_session, accept_session, entries_of, session_entries, cleanup_loop,
  cleanup_sessions_by_filename,
}

pub get_content-file_at :
    (d : Disk) (p : Bytes) (k : FilePath) → file_at (get_content d p).1 k ≡ file_at d k
unfolding get_content file_at
get_content-file_at d p k = ground arith

abbrev IsEntry : Bytes → Type 0
IsEntry id = (id ≢ codes ".") × (id ≢ codes "..")

entries_of-IsEntry : (root : FilePath) (ds : List FilePath) → All IsEntry (entries_of root ds)
unfolding entries_of
entries_of-IsEntry root [] = tt
entries_of-IsEntry root ([] ∷ ds) = entries_of-IsEntry root ds
entries_of-IsEntry root ((name ∷ p) ∷ ds) = ground (
  arith,
  bytes_eq_iff name (codes "."),
  bytes_eq_iff name (codes ".."),
  entries_of-IsEntry root ds,
)

module _ (env : Env) where
  -- Loading a session changes no file.
  pub load_session-file_at :
      (d : Disk) (id : Bytes) (k : FilePath) → file_at (load_session env d id).1 k ≡ file_at d k
  unfolding load_session
  load_session-file_at d id k =
      ground (arith, get_content-file_at d (meta_path env.storage_dir id) k)

  -- What is loaded is named by one path component, and is the session of that name.
  pub load_session-some :
      (d : Disk) (id : Bytes) (s : UploadSession)
      → (load_session env d id).0 ≡ some s
      → NoSlash id × (id ≢ []) × (s.upload_id ≡ id) × (is_safe_file_name s.filename ≡ true)
  unfolding load_session accept_session
  load_session-some d id s h =
      ground (arith, bytes_eq_iff id [], bytes_eq_iff s.upload_id id, has_byte-false b'/' id)

module _ (env : Env) (dir : Bytes) (h : env.storage_dir ≡ dir ++ codes "/") where
  -- A file directly in the storage directory is in no session.
  not_in_session :
      (id name : Bytes)
      → IsEntry id
      → NoSlash id
      → id ≢ []
      → is_inside (resolve (session_dir env.storage_dir id)) (name ∷ resolve dir) ≡ false
  not_in_session id name e n m =
      subst (λ s. is_inside (resolve (session_dir s id)) (name ∷ resolve dir) ≡ false) (sym h)
        (subst (λ p. is_inside p (name ∷ resolve dir) ≡ false)
          (sym (resolve-session_dir_name dir id n m e.0 e.1))
          (is_inside_longer (id ∷ uploads dir) (name ∷ resolve dir) (omega arith)))

  cleanup_loop-file_at :
      (filename : Bytes) (ids : List Bytes) (removed : ℕ) (d : Disk) (name : Bytes)
      → All IsEntry ids
      → file_at (cleanup_loop env filename ids removed d).1 (name ∷ resolve dir)
        ≡ file_at d (name ∷ resolve dir)
  unfolding cleanup_loop
  cleanup_loop-file_at filename [] removed d name _ = refl
  cleanup_loop-file_at filename (id ∷ ids) removed d name (e, es) =
      elim (Option-cases (load_session env d id).0) [
        | inl f ↦ ground (
          arith,
          cleanup_loop-file_at filename ids removed (load_session env d id).1 name es,
          load_session-file_at env d id (name ∷ resolve dir),
        )
        | inr (s, f) ↦
            let (n, m, _, _) = load_session-some env d id s f in
            ground (
              arith,
              cleanup_loop-file_at filename ids removed (load_session env d id).1 name es,
              load_session-file_at env d id (name ∷ resolve dir),
              cleanup_loop-file_at filename ids (removed + 1)
                  (remove_all (load_session env d id).1 (session_dir env.storage_dir id)) name es,
              remove_all-outside (load_session env d id).1 (session_dir env.storage_dir id)
                  (name ∷ resolve dir) (not_in_session id name e n m),
            )
      ]

  -- Cleaning up the sessions of a name touches no stored file.
  pub cleanup_sessions_by_filename-file_at :
      (d : Disk) (filename name : Bytes)
      → file_at (cleanup_sessions_by_filename env d filename).1 (name ∷ resolve dir)
        ≡ file_at d (name ∷ resolve dir)
  unfolding cleanup_sessions_by_filename
  cleanup_sessions_by_filename-file_at d filename name = ground (
    arith,
    cleanup_loop-file_at filename (session_entries env d) 0 d name (
        unfold session_entries in
        entries_of-IsEntry (resolve (upload_root env.storage_dir)) d.dirs),
  )
