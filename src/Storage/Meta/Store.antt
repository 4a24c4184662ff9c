-- ===== src/Storage/Meta/Store.antt =====
-- What the cache relies on in a store: src/server/MetadataStore.hpp.
use kama_asyn_log_system_clo.Base.{
  if◌then◌else◌, Bytes, bytes_eq, All, ◌≡◌, true, false, Option, none, some, List,
}
use kama_asyn_log_system_clo.Storage.Meta.{StorageInfo, MetadataStore}

-- The rows of a store, and what each method does to them. A method that reports failure, for
-- whatever reason, leaves the rows alone, and a lookup may fail at any time; keys are compared
-- byte by byte, and a row is found under its own URL.
pub record IsLawful {S : Type 0} (ops : MetadataStore S) : Type 0 where
  pub row : S → Bytes → Option StorageInfo
  pub row_url : (s : S) (k : Bytes) {i : StorageInfo} → row s k ≡ some i → i.url ≡ k
  pub insert_true :
      (i : StorageInfo) (s : S) (k : Bytes)
      → (ops.insert_row i s).0 ≡ true
      → row (ops.insert_row i s).1 k ≡ (if bytes_eq i.url k then some i else row s k)
  pub insert_false :
      (i : StorageInfo) (s : S) (k : Bytes)
      → (ops.insert_row i s).0 ≡ false
      → row (ops.insert_row i s).1 k ≡ row s k
  pub update_true :
      (i : StorageInfo) (s : S) (k : Bytes)
      → (ops.update_row i s).0 ≡ true
      → row (ops.update_row i s).1 k ≡ (if bytes_eq i.url k then some i else row s k)
  pub update_false :
      (i : StorageInfo) (s : S) (k : Bytes)
      → (ops.update_row i s).0 ≡ false
      → row (ops.update_row i s).1 k ≡ row s k
  pub delete_true :
      (j : Bytes) (s : S) (k : Bytes)
      → (ops.delete_row j s).0 ≡ true
      → row (ops.delete_row j s).1 k ≡ (if bytes_eq j k then none else row s k)
  pub delete_false :
      (j : Bytes) (s : S) (k : Bytes)
      → (ops.delete_row j s).0 ≡ false
      → row (ops.delete_row j s).1 k ≡ row s k
  pub get_found :
      (j : Bytes) (s : S) {i : StorageInfo} → (ops.get_one_by_url j s).0 ≡ some i → row s j ≡ some i
  pub get_keeps : (j : Bytes) (s : S) (k : Bytes) → row (ops.get_one_by_url j s).1 k ≡ row s k
  pub all_found :
      (s : S) {rows : List StorageInfo}
      → (ops.get_all s).0 ≡ some rows
      → All (λ i. row s i.url ≡ some i) rows
  pub all_keeps : (s : S) (k : Bytes) → row (ops.get_all s).1 k ≡ row s k
