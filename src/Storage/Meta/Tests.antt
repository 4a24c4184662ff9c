-- ===== src/Storage/Meta/Tests.antt =====
-- Runs of src/server/DataManager.hpp over a store in memory.
use kama_asyn_log_system_clo.Base.{codes, true, none, [], ◌∷◌}
use kama_asyn_log_system_clo.Storage.Meta.{
  StorageInfo, DataManager, new_data_manager, insert_info, insert_call, delete_call, get_call,
  run_calls,
}
use kama_asyn_log_system_clo.Storage.Meta.Memory.{Rows, memory, memory-IsLawful}
use kama_asyn_log_system_clo.Storage.Meta.Coherent.{
  IsCoherent, new_data_manager-IsCoherent, insert_info-IsCoherent, run_calls-IsCoherent,
}

abbrev info : StorageInfo
info = record {
  mtime = 1;
  atime = 1;
  upload_time = 1;
  fsize = 3;
  original_size = 3;
  stored_size = 3;
  storage_path = codes "./storage/a";
  url = codes "/download/a";
  content_type = codes "text/plain";
}

abbrev rows : Rows
rows = record { at = λ _. none; urls = []; up = true }

abbrev fresh : DataManager Rows
fresh = new_data_manager memory rows

abbrev holding : DataManager Rows
holding = (insert_info memory info fresh).1

fresh-IsCoherent : IsCoherent memory memory-IsLawful fresh
fresh-IsCoherent = new_data_manager-IsCoherent memory memory-IsLawful rows

holding-IsCoherent : IsCoherent memory memory-IsLawful holding
holding-IsCoherent = insert_info-IsCoherent memory memory-IsLawful info fresh fresh-IsCoherent

run_calls-IsCoherent_example : IsCoherent memory memory-IsLawful (
    run_calls memory
      (insert_call info ∷ get_call (codes "/download/a") ∷ delete_call (codes "/download/b") ∷ [])
      fresh)
run_calls-IsCoherent_example =
    run_calls-IsCoherent memory memory-IsLawful
      (insert_call info ∷ get_call (codes "/download/a") ∷ delete_call (codes "/download/b") ∷ [])
      rows
