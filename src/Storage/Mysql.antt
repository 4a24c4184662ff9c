-- ===== src/Storage/Mysql.antt =====
-- The rows in MySQL: src/server/MysqlMetadataStore.hpp. The client library is a parameter.
pub mod Text
pub mod Paging
pub mod Filled
pub mod Listed
pub mod AllPages
pub mod Ready
pub mod Quoted
pub mod Sample
mod Tests
use kama_asyn_log_system_clo.Base.{
  ltb, ◌==◌, if◌then◌else◌, Bytes, get_or, c_string, Numeral, scan, unsigned_value, signed_value, ℕ,
  ◌+◌, ◌-◌, ◌*◌, ◌/◌, ◌%◌, ◌^◌, Bool, true, false, not, ◌||◌, Option, none, some, List, [], ◌∷◌,
}
use kama_asyn_log_system_clo.Storage.Meta.{StorageInfo, MetadataStore}
use kama_asyn_log_system_clo.Storage.Mysql.Text.{
  create_table_sql, upsert_sql, delete_sql, select_one_sql, select_all_sql, count_sql, list_sql,
}

-- `MYSQL_ROW`: a column is a C string or a null pointer.
abbrev pub Row : Type 0
Row = List (Option Bytes)

-- What the store calls of the client library, over the state of a connection: whether
-- `mysql_real_connect` and `mysql_set_character_set` succeed, `mysql_real_escape_string`, whether
-- `mysql_query` returns 0, and `mysql_store_result` with all that `mysql_fetch_row` hands out.
pub record Client (C : Type 0) : Type 0 where
  pub real_connect : Bytes → C → Bool × C
  pub set_character_set : C → Bool × C
  pub escape : C → Bytes → Bytes
  pub send_query : Bytes → C → Bool × C
  pub store_result : C → Option (List Row) × C

-- `conn_` and `ready_`.
pub record Connection (C : Type 0) : Type 0 where
  pub conn : C
  pub ready : Bool

unfoldable pub numeral_or_zero : (Numeral → ℕ) → Option Numeral → ℕ
numeral_or_zero f none = 0
numeral_or_zero f (some x) = f x

-- `ToUInt64`, `ToInt64` (as the bits of its result) and `ToString`.
unfoldable pub to_uint64 : Option Bytes → ℕ
to_uint64 none = 0
to_uint64 (some s) = numeral_or_zero unsigned_value (scan s)

unfoldable pub to_int64 : Option Bytes → ℕ
to_int64 none = 0
to_int64 (some s) = numeral_or_zero signed_value (scan s)

unfoldable pub text_column : Option Bytes → Bytes
text_column none = []
text_column (some s) = c_string s

-- `row[i]`; every statement selects the columns that are read.
unfoldable pub column : ℕ → Row → Option Bytes
column i row = get_or row i none

-- `FillInfo`; a null row is `none`, and so is `return false`.
unfoldable pub fill_info : Option Row → Option StorageInfo
fill_info none = none
fill_info (some row) = some (record {
  url = text_column (column 0 row);
  storage_path = text_column (column 1 row);
  fsize = to_uint64 (column 2 row);
  original_size = to_uint64 (column 3 row);
  stored_size = to_uint64 (column 4 row);
  mtime = to_int64 (column 5 row);
  atime = to_int64 (column 6 row);
  upload_time = to_int64 (column 7 row);
  content_type = text_column (column 8 row);
})

-- `mysql_fetch_row`, once.
unfoldable pub first_row : List Row → Option Row
first_row [] = none
first_row (row ∷ rows) = some row

-- The loop over `mysql_fetch_row`.
unfoldable pub fill_rows : List Row → List StorageInfo
fill_rows [] = []
fill_rows (row ∷ rows) = elim (fill_info (some row)) [
  | none ↦ fill_rows rows
  | some info ↦ info ∷ fill_rows rows
]

-- The answer to `QueryList`: `*page`, `*files` and `*total`.
pub record ListPage : Type 0 where
  pub page : ℕ
  pub files : List StorageInfo
  pub total : ℕ

-- The number of pages, the page that is shown and the row that it starts with.
unfoldable pub page_count : ℕ → ℕ → ℕ
page_count total page_size =
    if total == 0 then 1 else ((total + page_size + (2 ^ 64 - 1)) % 2 ^ 64) / page_size

unfoldable pub clamp_page : ℕ → ℕ → ℕ
clamp_page count page =
    let at_least : ℕ = if ltb page 1 then 1 else page in
    if ltb count at_least then count else at_least

unfoldable pub page_offset : ℕ → ℕ → ℕ
page_offset page page_size = ((page + (2 ^ 64 - 1)) % 2 ^ 64 * page_size) % 2 ^ 64

unfoldable pub total_of : Option Row → ℕ
total_of none = 0
total_of (some row) = to_uint64 (column 0 row)

unfoldable pub first_info : Option (List Row) → Option StorageInfo
first_info none = none
first_info (some rows) = fill_info (first_row rows)

unfoldable pub all_infos : Option (List Row) → Option (List StorageInfo)
all_infos none = none
all_infos (some rows) = some (fill_rows rows)

unfoldable pub shown : ℕ → ℕ → Option (List Row) → Option ListPage
shown page total none = none
shown page total (some rows) = some (record { page = page; files = fill_rows rows; total = total })

module _ {C : Type 0} (client : Client C) where
  -- `Execute`
  unfoldable pub execute : Bytes → Connection C → Bool × Connection C
  execute sql s =
      if not s.ready
      then (false, s)
      else (let (ok, c) = client.send_query sql s.conn in (ok, record s { conn = c }))

  -- `mysql_query` and `mysql_store_result`, each with its early return.
  unfoldable pub select_rows : Bytes → Connection C → Option (List Row) × Connection C
  select_rows sql s =
      let (ok, c) = client.send_query sql s.conn in
      let (rows, c') = client.store_result c in
      if not ok then (none, record s { conn = c }) else (rows, record s { conn = c' })

  -- `EnsureTable`
  unfoldable pub ensure_table : Connection C → Bool × Connection C
  ensure_table s = execute create_table_sql s

  -- `Connect` behind `mysql_init`; `none` is a password that is not in the environment.
  unfoldable pub connect : Option Bytes → C → Connection C
  connect none c = record { conn = c; ready = false }
  connect (some password) c =
      let (connected, c1) = client.real_connect password c in
      let (charset, c2) = client.set_character_set c1 in
      let (created, s) = ensure_table (record { conn = c2; ready = true }) in
      if not connected
      then record { conn = c1; ready = false }
      else if not charset
      then record { conn = c2; ready = false }
      else if not created
      then record s { ready = false }
      else s

  -- `Insert`, `Update`, `Delete`, `GetOneByURL` and `GetAll`.
  unfoldable pub insert_stored : StorageInfo → Connection C → Bool × Connection C
  insert_stored info s = execute (upsert_sql (client.escape s.conn) info) s

  unfoldable pub update_stored : StorageInfo → Connection C → Bool × Connection C
  update_stored info s = execute (upsert_sql (client.escape s.conn) info) s

  unfoldable pub delete_stored : Bytes → Connection C → Bool × Connection C
  delete_stored key s = execute (delete_sql (client.escape s.conn) key) s

  unfoldable pub get_stored : Bytes → Connection C → Option StorageInfo × Connection C
  get_stored key s =
      if not s.ready
      then (none, s)
      else (let (result, s') = select_rows (select_one_sql (client.escape s.conn) key) s in
          (first_info result, s'))

  unfoldable pub get_all_stored : Connection C → Option (List StorageInfo) × Connection C
  get_all_stored s =
      if not s.ready
      then (none, s)
      else (let (result, s') = select_rows select_all_sql s in (all_infos result, s'))

  -- `QueryList` from the count on.
  unfoldable pub list_rows :
      Bytes → Bytes → ℕ → ℕ → ℕ → Connection C → Option ListPage × Connection C
  list_rows keyword sort page page_size total s =
      let shown_page = clamp_page (page_count total page_size) page in
      let sql =
        list_sql (client.escape s.conn) keyword sort page_size (page_offset shown_page page_size) in
      let (result, s') = select_rows sql s in (shown shown_page total result, s')

  -- The early return of a failed count.
  unfoldable pub list_counted :
      Bytes → Bytes → ℕ → ℕ → Option (List Row) → Connection C → Option ListPage × Connection C
  list_counted keyword sort page page_size none s = (none, s)
  list_counted keyword sort page page_size (some rows) s =
      list_rows keyword sort page page_size (total_of (first_row rows)) s

  -- `QueryList`; the three pointers are never null.
  unfoldable pub query_list : Bytes → Bytes → ℕ → ℕ → Connection C → Option ListPage × Connection C
  query_list keyword sort page page_size s =
      if not s.ready || (page_size == 0)
      then (none, s)
      else (let (counted, s') = select_rows (count_sql (client.escape s.conn) keyword) s in
          list_counted keyword sort page page_size counted s')

  pub mysql_store : MetadataStore (Connection C)
  mysql_store = record {
    insert_row = insert_stored;
    update_row = update_stored;
    delete_row = delete_stored;
    get_one_by_url = get_stored;
    get_all = get_all_stored;
  }

-- The class that is built where the client library is missing: every method fails.
unfoldable pub unavailable_store : {S : Type 0} → MetadataStore S
unavailable_store = record {
  insert_row = λ info s. (false, s);
  update_row = λ info s. (false, s);
  delete_row = λ key s. (false, s);
  get_one_by_url = λ key s. (none, s);
  get_all = λ s. (none, s);
}
