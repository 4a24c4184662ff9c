-- ===== src/Storage/Mysql/Ready.antt =====
-- When the connection is ready: the constructor of src/server/MysqlMetadataStore.hpp.
use kama_asyn_log_system_clo.Base.{Bytes, ◌≡◌, refl, true, Option, none, some, arith}
use kama_asyn_log_system_clo.Storage.Mysql.Text.{create_table_sql}
use kama_asyn_log_system_clo.Storage.Mysql.{Client, execute, ensure_table, connect}

module _ {C : Type 0} (client : Client C) where
  -- The constructor leaves `ready_` set only where a password was there, the connection and its
  -- character set were accepted, and the table has been created or was there.
  pub connect_ready :
      (password : Option Bytes) (c : C)
      → (connect client password c).ready ≡ true
      → (p : Bytes) × (password ≡ some p)
        × ((client.real_connect p c).0 ≡ true)
        × ((client.set_character_set (client.real_connect p c).1).0 ≡ true)
        × ((client.send_query create_table_sql
              (client.set_character_set (client.real_connect p c).1).1).0
            ≡ true)
  unfolding connect ensure_table execute
  connect_ready none c h = cc
  connect_ready (some p) c h = (p, refl, ground arith, ground arith, ground arith)
