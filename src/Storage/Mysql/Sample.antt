-- ===== src/Storage/Mysql/Sample.antt =====
-- A small database that the runs use: it answers the statements of one list of three files.
use kama_asyn_log_system_clo.Base.{
  ◌==◌, if◌then◌else◌, Bytes, codes, bytes_eq, take, drop, All, decimal_from, to_string, ℕ, zero,
  suc, ◌≤◌, ◌≡◌, refl, true, ◌||◌, Option, none, some, List, [], ◌∷◌, ◌++◌, map, arith,
}
use kama_asyn_log_system_clo.Storage.Meta.{StorageInfo}
use kama_asyn_log_system_clo.Storage.Mysql.Text.{
  count_sql, list_sql, list_order_by_sql, number, list_where_sql,
}
use kama_asyn_log_system_clo.Storage.Mysql.{Client, Connection, Row}
use kama_asyn_log_system_clo.Storage.Mysql.Quoted.{IsEscape, skeleton}
use kama_asyn_log_system_clo.Storage.Mysql.Filled.{row_of, IsStorable}
use kama_asyn_log_system_clo.Storage.Mysql.Listed.{IsServing}

-- A backslash before what MySQL gives a meaning in a literal.
unfoldable pub backslashed : ℕ → Bytes
backslashed c =
    if c == 0
    then codes "\\0"
    else if c == b'\n'
    then codes "\\n"
    else if c == b'\r'
    then codes "\\r"
    else if c == 26
    then codes "\\Z"
    else if (c == b'\\') || (c == b'\'') || (c == b'"')
    then b'\\' ∷ c ∷ []
    else c ∷ []

unfoldable pub backslash_escape : Bytes → Bytes
backslash_escape [] = []
backslash_escape (c ∷ s) = backslashed c ++ backslash_escape s

pub backslash_escape-IsEscape : IsEscape backslash_escape
unfolding backslash_escape backslashed skeleton
backslash_escape-IsEscape [] rest = refl
backslash_escape-IsEscape (c ∷ s) rest = ground (arith, backslash_escape-IsEscape s rest)

abbrev pub file_named : Bytes → ℕ → StorageInfo
file_named name size = record {
  mtime = 1700000000;
  atime = 1700000000;
  upload_time = 1700000000;
  fsize = size;
  original_size = size;
  stored_size = size;
  storage_path = codes "./deep_storage/" ++ name;
  url = codes "/download/" ++ name;
  content_type = codes "text/plain";
}

abbrev pub three_files : List StorageInfo
three_files =
    file_named (codes "a.txt") 5
    ∷ file_named (codes "b <1>.txt") 2048
    ∷ file_named (codes "c.txt") 0
    ∷ []

abbrev pub sample_keyword : Bytes
sample_keyword = codes "t x"

abbrev pub sample_sort : Bytes
sample_sort = codes "name-asc"

abbrev part_sql : ℕ → Bytes
part_sql offset = list_sql backslash_escape sample_keyword sample_sort 2 offset

abbrev part_rows : ℕ → List Row
part_rows offset = map row_of (take 2 (drop offset three_files))

-- What is answered to the statement that was sent last.
unfoldable pub answer : Bytes → Option (List Row)
answer sql =
    if bytes_eq sql (count_sql backslash_escape sample_keyword)
    then some ((some (to_string 3) ∷ []) ∷ [])
    else if bytes_eq sql (part_sql 0)
    then some (part_rows 0)
    else if bytes_eq sql (part_sql 1)
    then some (part_rows 1)
    else if bytes_eq sql (part_sql 2)
    then some (part_rows 2)
    else if bytes_eq sql (part_sql 3)
    then some (part_rows 3)
    else none

abbrev pub sample_client : Client Bytes
sample_client = record {
  real_connect = λ password c. (true, c);
  set_character_set = λ c. (true, c);
  escape = λ c. backslash_escape;
  send_query = λ sql c. (true, sql);
  store_result = λ c. (answer c, c);
}

abbrev pub sample_connection : Connection Bytes
sample_connection = record { conn = []; ready = true }

pub sample_client-IsServing : IsServing sample_client sample_keyword sample_sort 2 three_files
unfolding answer bytes_eq count_sql list_sql backslash_escape backslashed list_where_sql
    list_order_by_sql number to_string decimal_from
sample_client-IsServing = record {
  counted = λ c. refl;
  count_row = λ c. refl;
  listed = λ c offset h. refl;
  list_part = λ c offset h. part offset h;
}
  where
    part : (offset : ℕ) → offset ≤ 3 → answer (part_sql offset) ≡ some (part_rows offset)
    part zero h = refl
    part (suc zero) h = refl
    part (suc (suc zero)) h = refl
    part (suc (suc (suc zero))) h = refl
    part (suc (suc (suc (suc n)))) h = absurd (omega arith)

pub three_files-IsStorable : All IsStorable three_files
three_files-IsStorable = (one, (two, (three, tt)))
  where
    one : IsStorable (file_named (codes "a.txt") 5)
    one = ground arith

    two : IsStorable (file_named (codes "b <1>.txt") 2048)
    two = ground arith

    three : IsStorable (file_named (codes "c.txt") 0)
    three = ground arith
