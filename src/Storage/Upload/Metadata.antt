-- ===== src/Storage/Upload/Metadata.antt =====
-- The row that an upload saves: `NewStorageInfo` of src/server/StorageInfo.hpp and `Insert` of
-- src/server/DataManager.hpp.
use kama_asyn_log_system_clo.Base.{
  if◌then◌else◌, Option-cases, some_eq, Bytes, codes, bytes_eq, bytes_eq_refl, bytes_eq_iff, ℕ, ◌≡◌,
  refl, ◌≢◌, ◌⊎◌, inl, inr, true, false, ◌&&◌, Option, none, some, ◌∷◌, ◌++◌, arith,
}
use kama_asyn_log_system_clo.Storage.FileName.{is_safe_file_name}
use kama_asyn_log_system_clo.Storage.Path.{resolve}
use kama_asyn_log_system_clo.Storage.Disk.{Disk, file_at, exists, file_size}
use kama_asyn_log_system_clo.Storage.Meta.{StorageInfo, MetadataStore, DataManager, get_info}
use kama_asyn_log_system_clo.Storage.Meta.Store.{IsLawful}
use kama_asyn_log_system_clo.Storage.Meta.Transparent.{insert_info-row, get-insert_info}
use kama_asyn_log_system_clo.Storage.Http.{Env, Times, new_storage_info}
use kama_asyn_log_system_clo.Storage.Upload.{save_metadata}
use kama_asyn_log_system_clo.Storage.Meta.Coherent.{IsCoherent, insert_info-IsCoherent}
use kama_asyn_log_system_clo.Storage.Backed.{Describes, resolve_stored, file_name_stored}

module _ (env : Env) (dir : Bytes) (h : env.storage_dir ≡ dir ++ codes "/") where
  -- `NewStorageInfo` of a file that is there describes it.
  pub new_storage_info-Describes :
      (t : Times) (d : Disk) (name content : Bytes) (n : ℕ) (ct : Bytes) (i : StorageInfo)
      → is_safe_file_name name ≡ true
      → file_at d (name ∷ resolve dir) ≡ some content
      → new_storage_info env t d (env.storage_dir ++ name) n ct ≡ some i
      → Describes env name content i
  unfolding new_storage_info exists file_size
  new_storage_info-Describes t d name content n ct i safe e k = record {
    url = ground (arith, resolve_stored env dir h name safe, file_name_stored env dir h name safe);
    path = ground (arith, resolve_stored env dir h name safe);
    size = ground (arith, resolve_stored env dir h name safe);
  }

module _ {S : Type 0} (ops : MetadataStore S) (laws : IsLawful ops) where
  open laws use {row}

  save_metadata-row :
      (o : Option StorageInfo) (m : DataManager S) (k : Bytes)
      → m.need_persist ≡ true
      → (i : StorageInfo) → (o ≡ some i)
      → row (save_metadata ops o m).1.store k
        ≡ (if (save_metadata ops o m).0 && bytes_eq i.url k then some i else row m.store k)
  unfolding save_metadata
  save_metadata-row none m k p i e = cc
  save_metadata-row (some j) m k p i e = rw⁻¹ (some_eq e) (insert_info-row ops laws j m k p)

  save_metadata-none :
      (o : Option StorageInfo) (m : DataManager S) → o ≡ none → save_metadata ops o m ≡ (false, m)
  unfolding save_metadata
  save_metadata-none none m e = refl
  save_metadata-none (some i) m e = cc

  -- Every row but that of the URL is kept, and the row of the URL where nothing was saved.
  pub save_metadata-row_other :
      (o : Option StorageInfo) (m : DataManager S) (url k : Bytes)
      → m.need_persist ≡ true
      → ((i : StorageInfo) → o ≡ some i → i.url ≡ url)
      → (url ≢ k) ⊎ ((save_metadata ops o m).0 ≡ false)
      → row (save_metadata ops o m).1.store k ≡ row m.store k
  save_metadata-row_other o m url k p u c = elim (Option-cases o) [
    | inl e ↦ ground (arith, save_metadata-none o m e)
    | inr (i, e) ↦ ground (arith, save_metadata-row o m k p i e, u i e, bytes_eq_iff i.url k)
  ]

  pub save_metadata-row_saved :
      (o : Option StorageInfo) (m : DataManager S)
      → m.need_persist ≡ true
      → (save_metadata ops o m).0 ≡ true
      → (i : StorageInfo) × (o ≡ some i) × (row (save_metadata ops o m).1.store i.url ≡ some i)
  save_metadata-row_saved o m p s = elim (Option-cases o) [
    | inl e ↦ absurd (ground (arith, save_metadata-none o m e))
    | inr (i, e) ↦ (i, e, ground (arith, save_metadata-row o m i.url p i e, bytes_eq_refl i.url))
  ]

  -- What was saved is found again at once, by any later lookup.
  pub save_metadata-found :
      (o : Option StorageInfo) (m : DataManager S) (i : StorageInfo)
      → IsCoherent ops laws m
      → o ≡ some i
      → (save_metadata ops o m).0 ≡ true
      → (get_info ops i.url (save_metadata ops o m).1).0 ≡ some i
  unfolding save_metadata
  save_metadata-found none m i c e s = cc
  save_metadata-found (some j) m i c e s = rw⁻¹ (some_eq e) ((get-insert_info ops laws j m c).0 s)

  pub save_metadata-IsCoherent :
      (o : Option StorageInfo) (m : DataManager S)
      → IsCoherent ops laws m
      → IsCoherent ops laws (save_metadata ops o m).1
  unfolding save_metadata
  save_metadata-IsCoherent none m c = c
  save_metadata-IsCoherent (some i) m c = insert_info-IsCoherent ops laws i m c
