-- ===== src/Storage/Session.antt =====
-- The sessions of a multipart upload on disk: the private functions of
-- src/server/MultipartUploadHandler.hpp and `CleanupSessionsByFilename`.
pub mod Files
use kama_asyn_log_system_clo.Base.{
  ◌==◌, if◌then◌else◌, Bytes, codes, bytes_eq, has_byte, ℕ, zero, suc, ◌+◌, Bool, false, not, ◌&&◌,
  ◌||◌, Option, none, some, List, [], ◌∷◌,
}
use kama_asyn_log_system_clo.Storage.FileName.{is_safe_file_name}
use kama_asyn_log_system_clo.Storage.Path.{
  FilePath, resolve, path_eq, upload_root, session_dir, meta_path, chunk_path,
}
use kama_asyn_log_system_clo.Storage.Disk.{
  Disk, exists, get_content, set_content, create_directory, remove_all,
}
use kama_asyn_log_system_clo.Storage.Http.{UploadSession, Env}

-- The names of the directories that `directory_iterator(UploadRoot())` goes through; it skips the
-- directory itself and its parent.
unfoldable pub entries_of : FilePath → List FilePath → List Bytes
entries_of root [] = []
entries_of root ([] ∷ ds) = entries_of root ds
entries_of root ((name ∷ p) ∷ ds) =
    let rest = entries_of root ds in
    if path_eq p root && not (bytes_eq name (codes ".") || bytes_eq name (codes ".."))
    then name ∷ rest
    else rest

module _ (env : Env) where
  -- `SaveSession`
  unfoldable pub save_session : Disk → UploadSession → Bool × Disk
  save_session d session =
      let (made, d1) = create_directory d (session_dir env.storage_dir session.upload_id) in
      if not made then (false, d1) else (elim (env.encode_session session) [
        | none ↦ (false, d1)
        | some content ↦ set_content d1 (meta_path env.storage_dir session.upload_id) content
      ])

  -- The test at the end of `LoadSession`.
  unfoldable pub accept_session : Bytes → UploadSession → Option UploadSession
  accept_session upload_id session =
      if bytes_eq session.upload_id upload_id && is_safe_file_name session.filename
      then some session
      else none

  -- `LoadSession`; `none` is `return false`.
  unfoldable pub load_session : Disk → Bytes → Option UploadSession × Disk
  load_session d upload_id =
      if bytes_eq upload_id [] || has_byte b'/' upload_id || has_byte b'\\' upload_id
      then (none, d)
      else if not (exists d (meta_path env.storage_dir upload_id))
      then (none, d)
      else (let (content, d1) = get_content d (meta_path env.storage_dir upload_id) in
          elim content [
            | none ↦ (none, d1)
            | some text ↦ elim (env.decode_session text) [
              | none ↦ (none, d1)
              | some session ↦ (accept_session upload_id session, d1)
            ]
          ])

  -- The loop of `UploadedChunks` from index `i` on, `n` rounds; the set is a list in order.
  unfoldable pub uploaded_from : Disk → Bytes → ℕ → ℕ → List ℕ
  uploaded_from d upload_id zero i = []
  uploaded_from d upload_id (suc n) i =
      let rest = uploaded_from d upload_id n (i + 1) in
      if exists d (chunk_path env.storage_dir upload_id i) then i ∷ rest else rest

  unfoldable pub uploaded_chunks : Disk → UploadSession → List ℕ
  unfolding uploaded_from
  uploaded_chunks d session = uploaded_from d session.upload_id session.total_chunks 0

  unfoldable pub session_entries : Disk → List Bytes
  unfolding entries_of
  session_entries d = entries_of (resolve (upload_root env.storage_dir)) d.dirs

  -- The loop of `FindReusableSession`.
  unfoldable pub find_reusable : Bytes → ℕ → ℕ → ℕ → List Bytes → Disk → Option UploadSession × Disk
  find_reusable filename total_size chunk_size total_chunks [] d = (none, d)
  find_reusable filename total_size chunk_size total_chunks (upload_id ∷ ids) d =
      let (loaded, d1) = load_session d upload_id in
      let rest = find_reusable filename total_size chunk_size total_chunks ids d1 in
      elim loaded [
        | none ↦ rest
        | some session ↦
            if bytes_eq session.filename filename
              && (session.total_size == total_size)
              && (session.chunk_size == chunk_size)
              && (session.total_chunks == total_chunks)
            then (some session, d1)
            else rest
      ]

  unfoldable pub find_reusable_session : Disk → Bytes → ℕ → ℕ → ℕ → Option UploadSession × Disk
  unfolding find_reusable
  find_reusable_session d filename total_size chunk_size total_chunks =
      if not (exists d (upload_root env.storage_dir))
      then (none, d)
      else find_reusable filename total_size chunk_size total_chunks (session_entries d) d

  -- The loop of `CleanupSessionsByFilename`, with the count of what it removed.
  unfoldable pub cleanup_loop : Bytes → List Bytes → ℕ → Disk → ℕ × Disk
  cleanup_loop filename [] removed d = (removed, d)
  cleanup_loop filename (upload_id ∷ ids) removed d =
      let (loaded, d1) = load_session d upload_id in
      let keep = cleanup_loop filename ids removed d1 in
      let drop_it =
        cleanup_loop filename ids (removed + 1)
          (remove_all d1 (session_dir env.storage_dir upload_id)) in
      elim loaded [
        | none ↦ keep
        | some session ↦ if bytes_eq session.filename filename then drop_it else keep
      ]

  unfoldable pub cleanup_sessions_by_filename : Disk → Bytes → ℕ × Disk
  unfolding cleanup_loop
  cleanup_sessions_by_filename d filename =
      if not (is_safe_file_name filename)
      then (0, d)
      else if not (exists d (upload_root env.storage_dir))
      then (0, d)
      else cleanup_loop filename (session_entries d) 0 d
