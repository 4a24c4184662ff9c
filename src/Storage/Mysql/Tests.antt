-- ===== src/Storage/Mysql/Tests.antt =====
-- Runs against the small database.
use kama_asyn_log_system_clo.Base.{Bytes, codes, ◌≡◌, refl, false, none, [], arith}
use kama_asyn_log_system_clo.Storage.Mysql.{Connection, page_count, connect}
use kama_asyn_log_system_clo.Storage.Meta.{StorageInfo}
use kama_asyn_log_system_clo.Storage.Mysql.Text.{
  upsert_sql, delete_sql, select_one_sql, count_sql, list_sql, quoted,
}
use kama_asyn_log_system_clo.Storage.Mysql.Quoted.{
  Alike, blank, skeleton, outside, statements-skeleton,
}
use kama_asyn_log_system_clo.Storage.Mysql.AllPages.{walk_pages, walk_pages_all}
use kama_asyn_log_system_clo.Storage.Mysql.Sample.{
  file_named, backslash_escape, backslash_escape-IsEscape, three_files, three_files-IsStorable,
  sample_keyword, sample_sort, sample_client, sample_client-IsServing, sample_connection,
  backslashed,
}

abbrev hostile : Bytes
hostile = codes "x'; DROP TABLE file_metadata; -- \\"

-- The text of a request stays inside its literal.
hostile_delete :
    skeleton outside (delete_sql backslash_escape hostile)
    ≡ codes "DELETE FROM file_metadata WHERE url=''"
unfolding skeleton delete_sql quoted backslash_escape backslashed
hostile_delete = refl

abbrev hostile_file : StorageInfo
hostile_file = file_named hostile 5

statements-skeleton_example :
    Alike (upsert_sql backslash_escape hostile_file) (upsert_sql blank hostile_file)
    × Alike (delete_sql backslash_escape hostile) (delete_sql blank hostile)
    × Alike (select_one_sql backslash_escape hostile) (select_one_sql blank hostile)
    × Alike (count_sql backslash_escape hostile) (count_sql blank hostile)
    × Alike
        (list_sql backslash_escape hostile sample_sort 2 0)
        (list_sql blank hostile sample_sort 2 0)
statements-skeleton_example =
    statements-skeleton backslash_escape backslash_escape-IsEscape hostile_file hostile sample_sort
      2 0

walk_pages_all_example :
    walk_pages sample_client sample_keyword sample_sort 2 2 1 sample_connection ≡ three_files
unfolding page_count
walk_pages_all_example =
    walk_pages_all sample_client-IsServing three_files-IsStorable (omega arith) (omega arith)
      sample_connection refl

-- Without a password there is no connection.
abbrev refused_connection : Connection Bytes
refused_connection = record { conn = []; ready = false }

no_password : connect sample_client none [] ≡ refused_connection
unfolding connect
no_password = refl
