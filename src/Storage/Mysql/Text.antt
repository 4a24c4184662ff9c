-- ===== src/Storage/Mysql/Text.antt =====
-- The statements that src/server/MysqlMetadataStore.hpp sends.
use kama_asyn_log_system_clo.Base.{
  if◌then◌else◌, Bytes, codes, bytes_eq, to_string, signed_string, ℕ, [], ◌∷◌, ◌++◌,
}
use kama_asyn_log_system_clo.Storage.Meta.{StorageInfo}

abbrev pub create_table_sql : Bytes
create_table_sql =
    codes "CREATE TABLE IF NOT EXISTS file_metadata ("
    ++ (codes "url VARCHAR(768) NOT NULL PRIMARY KEY,"
        ++ (codes "storage_path VARCHAR(2048) NOT NULL,"
            ++ (codes "fsize BIGINT UNSIGNED NOT NULL DEFAULT 0,"
                ++ (codes "original_size BIGINT UNSIGNED NOT NULL DEFAULT 0,"
                    ++ (codes "stored_size BIGINT UNSIGNED NOT NULL DEFAULT 0,"
                        ++ (codes "mtime BIGINT NOT NULL DEFAULT 0,"
                            ++ (codes "atime BIGINT NOT NULL DEFAULT 0,"
                                ++ (codes "upload_time BIGINT NOT NULL DEFAULT 0,"
                                    ++ (codes
                                          "content_type VARCHAR(255) NOT NULL DEFAULT 'application/octet-stream',"
                                        ++ (codes "INDEX idx_upload_time(upload_time)"
                                            ++ codes
                                                ") ENGINE=InnoDB DEFAULT CHARSET=utf8mb4"))))))))))

-- `SelectColumns`
abbrev pub select_columns : Bytes
select_columns =
    codes "url,storage_path,fsize,original_size,stored_size,mtime,atime,upload_time,content_type"

-- The end of `UpsertSql`.
abbrev pub on_duplicate : Bytes
on_duplicate =
    codes ") ON DUPLICATE KEY UPDATE "
    ++ (codes "storage_path=VALUES(storage_path),"
        ++ (codes "fsize=VALUES(fsize),"
            ++ (codes "original_size=VALUES(original_size),"
                ++ (codes "stored_size=VALUES(stored_size),"
                    ++ (codes "mtime=VALUES(mtime),"
                        ++ (codes "atime=VALUES(atime),"
                            ++ (codes "upload_time=VALUES(upload_time),"
                                ++ codes "content_type=VALUES(content_type)")))))))

-- `ListOrderBySql`
unfoldable pub list_order_by_sql : Bytes → Bytes
list_order_by_sql sort =
    if bytes_eq sort (codes "name-asc")
    then codes " ORDER BY storage_path ASC, url ASC"
    else if bytes_eq sort (codes "name-desc")
    then codes " ORDER BY storage_path DESC, url DESC"
    else if bytes_eq sort (codes "size-asc")
    then codes " ORDER BY CASE WHEN original_size=0 THEN fsize ELSE original_size END ASC, url ASC"
    else if bytes_eq sort (codes "size-desc")
    then codes " ORDER BY CASE WHEN original_size=0 THEN fsize ELSE original_size END DESC, url ASC"
    else if bytes_eq sort (codes "upload-asc")
    then codes " ORDER BY upload_time ASC, url ASC"
    else codes " ORDER BY upload_time DESC, url ASC"

-- A number, and what stands behind it.
unfoldable pub number : ℕ → Bytes → Bytes
number n rest = to_string n ++ rest

unfoldable pub signed : ℕ → Bytes → Bytes
signed n rest = signed_string n ++ rest

module _ (escape : Bytes → Bytes) where
  -- A text between quotes.
  unfoldable pub quoted : Bytes → Bytes → Bytes
  quoted text rest = b'\'' ∷ (escape text ++ b'\'' ∷ rest)

  -- `UpsertSql`
  unfoldable pub upsert_sql : StorageInfo → Bytes
  upsert_sql info =
      codes "INSERT INTO file_metadata "
      ++ (codes "("
          ++ (select_columns
              ++ (codes ") VALUES ("
                  ++ quoted info.url (
                      codes ","
                      ++ quoted info.storage_path (
                          codes ","
                          ++ number info.fsize (
                              codes ","
                              ++ number info.original_size (
                                  codes ","
                                  ++ number info.stored_size (
                                      codes ","
                                      ++ signed info.mtime (
                                          codes ","
                                          ++ signed info.atime (
                                              codes ","
                                              ++ signed info.upload_time (
                                                  codes ","
                                                  ++ quoted info.content_type
                                                      on_duplicate)))))))))))

  unfoldable pub delete_sql : Bytes → Bytes
  delete_sql key = codes "DELETE FROM file_metadata WHERE url=" ++ quoted key []

  unfoldable pub select_one_sql : Bytes → Bytes
  select_one_sql key =
      codes "SELECT "
      ++ (select_columns
          ++ (codes " FROM file_metadata WHERE url=" ++ quoted key (codes " LIMIT 1")))

  -- `ListWhereSql`, with what stands behind it.
  unfoldable pub list_where_sql : Bytes → Bytes → Bytes
  list_where_sql keyword rest =
      if bytes_eq keyword []
      then rest
      else codes " WHERE storage_path LIKE '%" ++ (escape keyword ++ (codes "%'" ++ rest))

  unfoldable pub count_sql : Bytes → Bytes
  count_sql keyword = codes "SELECT COUNT(*) FROM file_metadata" ++ list_where_sql keyword []

  unfoldable pub list_sql : Bytes → Bytes → ℕ → ℕ → Bytes
  list_sql keyword sort page_size offset =
      codes "SELECT "
      ++ (select_columns
          ++ (codes " FROM file_metadata"
              ++ list_where_sql keyword (
                  list_order_by_sql sort
                  ++ (codes " LIMIT " ++ number page_size (codes " OFFSET " ++ number offset [])))))

abbrev pub select_all_sql : Bytes
select_all_sql = codes "SELECT " ++ (select_columns ++ codes " FROM file_metadata")
