-- ===== src/Storage/Complete/Places.antt =====
-- Where the files of a session lie: src/server/MultipartUploadHandler.hpp.
use kama_asyn_log_system_clo.Base.{
  Bytes, codes, length, get_or-first, ℕ, ◌≡◌, sym, ap, ◌∙◌, ◌≢◌, [], ◌∷◌, ◌++◌, arith,
}
use kama_asyn_log_system_clo.Storage.Path.{
  resolve, walk, session_dir, chunk_path, chunk_name, is_inside,
}
use kama_asyn_log_system_clo.Storage.Path.Inside.{is_inside_longer}
use kama_asyn_log_system_clo.Storage.Path.Resolve.{
  NoSlash, uploads, resolve-in_session, resolve-chunk_path, resolve-session_dir_name,
  walk_component, enter_name,
}
use kama_asyn_log_system_clo.Storage.Disk.{Disk, file_at, remove_all}
use kama_asyn_log_system_clo.Storage.Disk.Frame.{remove_all-outside}
use kama_asyn_log_system_clo.Storage.Http.{Env}
use kama_asyn_log_system_clo.Storage.Complete.{merged_name}

chunk_name_merged : (i : ℕ) → merged_name ≢ chunk_name i
unfolding chunk_name
chunk_name_merged i e = omega (arith, get_or-first 0 e)

abbrev pub merged_path : Env → Bytes → Bytes
merged_path env id = session_dir env.storage_dir id ++ merged_name

-- An identifier of one path component that is not a dot or two dots.
pub record IsId (id : Bytes) : Type 0 where
  pub no_slash : NoSlash id
  pub not_empty : id ≢ []
  pub not_self : id ≢ codes "."
  pub not_parent : id ≢ codes ".."

module _ (env : Env) (dir : Bytes) (h : env.storage_dir ≡ dir ++ codes "/") (id : Bytes)
    (v : IsId id) where
  walk-id : walk id [] (uploads dir) ≡ id ∷ uploads dir
  walk-id =
      walk_component id [] (uploads dir) v.no_slash
      ∙ enter_name id (uploads dir) v.not_empty v.not_self v.not_parent

  pub resolve-merged : resolve (merged_path env id) ≡ merged_name ∷ (id ∷ uploads dir)
  resolve-merged =
      ap (λ s. resolve (session_dir s id ++ merged_name)) h
      ∙ resolve-in_session dir id merged_name (omega arith) (λ e. cc) (λ e. cc) (λ e. cc)
      ∙ ap (λ p. merged_name ∷ p) walk-id

  pub merged-chunk_apart :
      (j : ℕ) → resolve (merged_path env id) ≢ resolve (chunk_path env.storage_dir id j)
  merged-chunk_apart j e =
      let k : merged_name ∷ (id ∷ uploads dir) ≡ chunk_name j ∷ walk id [] (uploads dir) =
        sym resolve-merged
        ∙ e
        ∙ ap (λ s. resolve (chunk_path s id j)) h
        ∙ resolve-chunk_path dir id j in
      chunk_name_merged j (cc k)

  pub merged-stored_apart : (name : Bytes) → name ∷ resolve dir ≢ resolve (merged_path env id)
  merged-stored_apart name e =
      let l : length (name ∷ resolve dir) ≡ length (merged_name ∷ (id ∷ uploads dir)) =
        ap length (e ∙ resolve-merged) in
      omega arith

  pub removed_session :
      (d : Disk) (name : Bytes)
      → file_at (remove_all d (session_dir env.storage_dir id)) (name ∷ resolve dir)
        ≡ file_at d (name ∷ resolve dir)
  removed_session d name =
      let at : resolve (session_dir env.storage_dir id) ≡ id ∷ uploads dir =
        ap (λ s. resolve (session_dir s id)) h
        ∙ resolve-session_dir_name dir id v.no_slash v.not_empty v.not_self v.not_parent in
      remove_all-outside d (session_dir env.storage_dir id) (name ∷ resolve dir) (
        ap (λ p. is_inside p (name ∷ resolve dir)) at
        ∙ is_inside_longer (id ∷ uploads dir) (name ∷ resolve dir) (omega arith))
