-- ===== src/Storage/Meta/Transparent.antt =====
-- The manager answers as its store would: src/server/DataManager.hpp.
use kama_asyn_log_system_clo.Base.{
  if◌then◌else◌, Option-cases, lookup-insert, Bytes, bytes_eq, bytes_eq_refl, ◌≡◌, inl, inr, true,
  false, ◌&&◌, none, some, arith,
}
use kama_asyn_log_system_clo.Storage.Meta.{
  StorageInfo, bytes_key, MetadataStore, DataManager, insert_info, delete_info, get_info,
}
use kama_asyn_log_system_clo.Storage.Meta.Store.{IsLawful}
use kama_asyn_log_system_clo.Storage.Meta.Coherent.{IsCoherent, delete_info-IsCoherent}

module _ {S : Type 0} (ops : MetadataStore S) (laws : IsLawful ops) where
  open laws use {row, row_url}

  -- Over a lawful store, what a lookup finds while the cache agrees with the store is the row of
  -- the store under that URL, and a row with that URL.
  pub get_info_sound :
      (key : Bytes) (m : DataManager S) (i : StorageInfo)
      → IsCoherent ops laws m
      → (get_info ops key m).0 ≡ some i
      → (row m.store key ≡ some i) × (i.url ≡ key)
  unfolding get_info
  get_info_sound key m i c h =
      let found : row m.store key ≡ some i =
        ground (arith, c.cached key i, laws.get_found key m.store {i = i}) in
      (found, row_url m.store key found)

  pub get_info-row :
      (key : Bytes) (m : DataManager S) (k : Bytes)
      → row (get_info ops key m).1.store k ≡ row m.store k
  unfolding get_info
  get_info-row key m k = ground (arith, laws.get_keeps key m.store k)

  -- Where the store holds no row under a URL, nothing is found.
  pub get_info_absent :
      (key : Bytes) (m : DataManager S)
      → IsCoherent ops laws m
      → row m.store key ≡ none
      → (get_info ops key m).0 ≡ none
  get_info_absent key m c h = elim (Option-cases (get_info ops key m).0) [
    | inl e ↦ e
    | inr (i, e) ↦ cc ((get_info_sound key m i c e).0)
  ]

  -- What an insert and a deletion do to the rows.
  pub insert_info-row :
      (info : StorageInfo) (m : DataManager S) (k : Bytes)
      → m.need_persist ≡ true
      → row (insert_info ops info m).1.store k
        ≡ (if (insert_info ops info m).0 && bytes_eq info.url k then some info else row m.store k)
  unfolding insert_info
  insert_info-row info m k p =
      ground (arith, laws.insert_true info m.store k, laws.insert_false info m.store k)

  pub delete_info-row :
      (key : Bytes) (m : DataManager S) (k : Bytes)
      → row (delete_info ops key m).1.store k
        ≡ (if (delete_info ops key m).0 && bytes_eq key k then none else row m.store k)
  unfolding delete_info
  delete_info-row key m k =
      ground (arith, laws.delete_true key m.store k, laws.delete_false key m.store k)

  -- Over a lawful store, while the cache agrees with it: an insert that reports success is read
  -- back at once, and one that reports failure has changed no row.
  pub get-insert_info :
      (info : StorageInfo) (m : DataManager S)
      → IsCoherent ops laws m
      → ((insert_info ops info m).0 ≡ true
          → (get_info ops info.url (insert_info ops info m).1).0 ≡ some info)
        × ((insert_info ops info m).0 ≡ false
            → (k : Bytes) → row (insert_info ops info m).1.store k ≡ row m.store k)
  unfolding insert_info get_info
  get-insert_info info m c = (
    λ h.
        ground
          (arith, bytes_eq_refl info.url, lookup-insert bytes_key info.url info.url info m.table),
    λ h k. ground (arith, c.persists, laws.insert_false info m.store k),
  )

  -- Over a lawful store, while the cache agrees with it: after a deletion that reports success the
  -- next lookup of the URL finds nothing.
  pub get-delete_info :
      (key : Bytes) (m : DataManager S)
      → IsCoherent ops laws m
      → (delete_info ops key m).0 ≡ true
      → (get_info ops key (delete_info ops key m).1).0 ≡ none
  get-delete_info key m c h =
      get_info_absent key (delete_info ops key m).1 (delete_info-IsCoherent ops laws key m c)
        (ground (arith, delete_info-row key m key, bytes_eq_refl key))
