-- ===== src/Storage/Backed.antt =====
-- The invariant of the service: every registered file is there, and its row describes it. It ties
-- the disk to the metadata over all handlers of src/server.
use kama_asyn_log_system_clo.Base.{
  Bytes, codes, length, ◌≡◌, refl, sym, ap, ◌∙◌, true, none, some, ◌∷◌, ◌++◌, arith,
}
use kama_asyn_log_system_clo.Storage.FileName.{is_safe_file_name, file_name}
use kama_asyn_log_system_clo.Storage.FileName.Safe.{file_name_behind_dir}
use kama_asyn_log_system_clo.Storage.Path.{resolve}
use kama_asyn_log_system_clo.Storage.Path.Resolve.{resolve_safe, resolve_beside}
use kama_asyn_log_system_clo.Storage.Disk.{file_at, uploading}
use kama_asyn_log_system_clo.Storage.Meta.{StorageInfo, MetadataStore, get_info}
use kama_asyn_log_system_clo.Storage.Meta.Store.{IsLawful}
use kama_asyn_log_system_clo.Storage.Meta.Coherent.{IsCoherent, get_info-IsCoherent}
use kama_asyn_log_system_clo.Storage.Meta.Transparent.{get_info-row}
use kama_asyn_log_system_clo.Storage.Http.{Env, Service}

-- The row that describes a stored file.
pub record Describes (env : Env) (name content : Bytes) (i : StorageInfo) : Type 0 where
  pub url : i.url ≡ env.download_prefix ++ name
  pub path : i.storage_path ≡ env.storage_dir ++ name
  pub size : i.stored_size ≡ length content

module _ (env : Env) (dir : Bytes) (h : env.storage_dir ≡ dir ++ codes "/") where
  pub resolve_stored :
      (name : Bytes)
      → is_safe_file_name name ≡ true
      → resolve (env.storage_dir ++ name) ≡ name ∷ resolve dir
  resolve_stored name safe = ap (λ s. resolve (s ++ name)) h ∙ resolve_safe dir name safe

  pub resolve_temporary :
      (name : Bytes)
      → is_safe_file_name name ≡ true
      → resolve ((env.storage_dir ++ name) ++ uploading) ≡ (name ++ uploading) ∷ resolve dir
  resolve_temporary name safe =
      ap (λ s. resolve ((s ++ name) ++ uploading)) h
      ∙ resolve_beside dir name uploading safe (omega arith) (omega arith)

  pub file_name_stored :
      (name : Bytes) → is_safe_file_name name ≡ true → file_name (env.storage_dir ++ name) ≡ name
  file_name_stored name safe =
      ap (λ s. file_name (s ++ name)) h ∙ file_name_behind_dir dir name safe

module _ {S : Type 0} (ops : MetadataStore S) (laws : IsLawful ops) (env : Env) (dir : Bytes) where
  open laws use {row}

  -- If the name is registered, its file is there, and the row describes it.
  abbrev pub IsBackedAt : Service S → Bytes → Type 0
  IsBackedAt s name =
      (i : StorageInfo)
      → row s.manager.store (env.download_prefix ++ name) ≡ some i
      → (content : Bytes) × (file_at s.disk (name ∷ resolve dir) ≡ some content)
        × Describes env name content i

  -- The cache agrees with the store, and every row of an accepted name has its file.
  pub record IsBacked (s : Service S) : Type 0 where
    pub coherent : IsCoherent ops laws s.manager
    pub backed : (name : Bytes) → is_safe_file_name name ≡ true → IsBackedAt s name

  -- A name whose file and row are kept stays backed.
  pub IsBackedAt-kept :
      (s s' : Service S) (name : Bytes)
      → IsBackedAt s name
      → file_at s'.disk (name ∷ resolve dir) ≡ file_at s.disk (name ∷ resolve dir)
      → row s'.manager.store (env.download_prefix ++ name)
        ≡ row s.manager.store (env.download_prefix ++ name)
      → IsBackedAt s' name
  IsBackedAt-kept s s' name b f r i e = let (c, g, d) = b i (sym r ∙ e) in (c, f ∙ g, d)

  -- A name with no row is backed.
  pub IsBackedAt-absent :
      (s : Service S) (name : Bytes)
      → row s.manager.store (env.download_prefix ++ name) ≡ none
      → IsBackedAt s name
  IsBackedAt-absent s name h i e = absurd (ground arith)

  -- A lookup keeps the invariant.
  pub looked_up :
      (s : Service S) (key : Bytes)
      → IsBacked s
      → IsBacked (record s { manager = (get_info ops key s.manager).1 })
  looked_up s key b = record {
    coherent = get_info-IsCoherent ops laws key s.manager b.coherent;
    backed = λ name ok.
        IsBackedAt-kept s (record s { manager = (get_info ops key s.manager).1 }) name
          (b.backed name ok) refl
          (get_info-row ops laws key s.manager (env.download_prefix ++ name));
  }
