-- ===== src/Storage/Meta.antt =====
-- src/server/StorageInfo.hpp, the interface of src/server/MetadataStore.hpp, and the cache over it
-- of src/server/DataManager.hpp.
pub mod Store
pub mod Coherent
pub mod Transparent
pub mod Memory
mod Tests
use kama_asyn_log_system_clo.Base.{
  if◌then◌else◌, KeyEq, lookup, insert, erase, Bytes, bytes_eq, bytes_eq_iff, ℕ, Bool, true, false,
  not, Option, none, some, List, [], ◌∷◌,
}

pub record StorageInfo : Type 0 where
  pub mtime : ℕ
  pub atime : ℕ
  pub upload_time : ℕ
  pub fsize : ℕ
  pub original_size : ℕ
  pub stored_size : ℕ
  pub storage_path : Bytes
  pub url : Bytes
  pub content_type : Bytes

abbrev pub bytes_key : KeyEq Bytes
bytes_key = record { test = bytes_eq; test_iff = bytes_eq_iff }

-- The virtual methods of `MetadataStore`, over the state `S` of what implements them; the first
-- part of a result is the `bool` that is returned.
pub record MetadataStore (S : Type 0) : Type 0 where
  pub insert_row : StorageInfo → S → Bool × S
  pub update_row : StorageInfo → S → Bool × S
  pub delete_row : Bytes → S → Bool × S
  pub get_one_by_url : Bytes → S → Option StorageInfo × S
  pub get_all : S → Option (List StorageInfo) × S

-- `DataManager`: the store, the table in memory and the flag. Each critical section of the lock is
-- one step, and a request runs to its end before the next one starts: there is one event loop.
pub record DataManager (S : Type 0) : Type 0 where
  pub store : S
  pub table : List (Bytes × StorageInfo)
  pub need_persist : Bool

module _ {S : Type 0} (ops : MetadataStore S) where
  -- `UpsertOneInMemory`, `RemoveOneFromMemory`
  unfoldable pub upsert_one_in_memory : StorageInfo → DataManager S → DataManager S
  upsert_one_in_memory info m = record m { table = insert bytes_key info.url info m.table }

  unfoldable pub remove_one_from_memory : Bytes → DataManager S → DataManager S
  remove_one_from_memory key m = record m { table = erase bytes_key key m.table }

  -- The loop of `InitLoad`.
  unfoldable pub load_rows : List StorageInfo → DataManager S → DataManager S
  unfolding upsert_one_in_memory
  load_rows [] m = m
  load_rows (info ∷ rows) m = load_rows rows (upsert_one_in_memory info m)

  unfoldable pub init_load : DataManager S → Bool × DataManager S
  unfolding load_rows
  init_load m =
      let (rows, s) = ops.get_all m.store in
      elim rows [
        | none ↦ (false, record m { store = s })
        | some arry ↦ (true, load_rows arry (record m { store = s }))
      ]

  -- The constructor: an empty table is loaded, and only then what is inserted is persisted.
  unfoldable pub new_data_manager : S → DataManager S
  unfolding init_load
  new_data_manager s =
      record ((init_load (record { store = s; table = []; need_persist = false })).1) {
        need_persist = true;
      }

  unfoldable pub insert_info : StorageInfo → DataManager S → Bool × DataManager S
  unfolding upsert_one_in_memory
  insert_info info m =
      if not m.need_persist
      then (true, upsert_one_in_memory info m)
      else (let (ok, s) = ops.insert_row info m.store in
          if not ok
          then (false, record m { store = s })
          else (true, upsert_one_in_memory info (record m { store = s })))

  unfoldable pub update_info : StorageInfo → DataManager S → Bool × DataManager S
  unfolding upsert_one_in_memory
  update_info info m =
      let (ok, s) = ops.update_row info m.store in
      if not ok
      then (false, record m { store = s })
      else (true, upsert_one_in_memory info (record m { store = s }))

  unfoldable pub delete_info : Bytes → DataManager S → Bool × DataManager S
  unfolding remove_one_from_memory
  delete_info key m =
      let (ok, s) = ops.delete_row key m.store in
      if not ok
      then (false, record m { store = s })
      else (true, remove_one_from_memory key (record m { store = s }))

  -- `GetOneByURL`: the table first, then the store, whose row is put into the table.
  unfoldable pub get_info : Bytes → DataManager S → Option StorageInfo × DataManager S
  unfolding upsert_one_in_memory
  get_info key m = elim (lookup bytes_key key m.table) [
    | some info ↦ (some info, m)
    | none ↦
        let (row, s) = ops.get_one_by_url key m.store in
        elim row [
          | none ↦ (none, record m { store = s })
          | some info ↦ (some info, upsert_one_in_memory info (record m { store = s }))
        ]
  ]

-- The calls that the handlers make on the manager, in any order.
pub data Call : Type 0 where
  insert_call update_call : StorageInfo → Call
  delete_call get_call : Bytes → Call

module _ {S : Type 0} (ops : MetadataStore S) where
  unfoldable pub run_call : Call → DataManager S → DataManager S
  run_call (insert_call i) m = (insert_info ops i m).1
  run_call (update_call i) m = (update_info ops i m).1
  run_call (delete_call k) m = (delete_info ops k m).1
  run_call (get_call k) m = (get_info ops k m).1

  unfoldable pub run_calls : List Call → DataManager S → DataManager S
  run_calls [] m = m
  run_calls (c ∷ cs) m = run_calls cs (run_call c m)
