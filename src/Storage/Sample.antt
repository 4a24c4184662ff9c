-- ===== src/Storage/Sample.antt =====
-- A small service for the runs: a disk with the storage directory, an empty store in memory, and
-- plain texts in place of base64 and JSON.
use kama_asyn_log_system_clo.Base.{Bytes, codes, ◌≡◌, refl, true, none, some, [], ◌∷◌, ◌++◌, arith}
use kama_asyn_log_system_clo.Storage.Disk.{done, Disk}
use kama_asyn_log_system_clo.Storage.Meta.{new_data_manager}
use kama_asyn_log_system_clo.Storage.Meta.Memory.{
  Rows, memory, memory-IsLawful, memory_no_row, collect,
}
use kama_asyn_log_system_clo.Storage.Meta.Coherent.{IsCoherent, new_data_manager-IsCoherent}
use kama_asyn_log_system_clo.Storage.Http.{Env, Times, Service}
use kama_asyn_log_system_clo.Storage.Backed.{IsBacked}
use kama_asyn_log_system_clo.Storage.Upload.{UploadRequest, handle_upload}
use kama_asyn_log_system_clo.Storage.Upload.Backed.{handle_upload-IsBacked}

abbrev pub sample_env : Env
sample_env = record {
  storage_dir = codes "./storage/";
  download_prefix = codes "/download/";
  max_upload_size = 100;
  base64_decode = λ s. some s;
  encode_session = λ s. some s.filename;
  decode_session = λ s. none;
}

abbrev pub sample_times : Times
sample_times = record { now = 5; accessed = 6; modified = 7 }

abbrev pub sample_disk : Disk
sample_disk = record {
  files = [];
  dirs = (codes "storage" ∷ []) ∷ [];
  outcome = λ n. done;
  calls = 0;
  sweeps = λ p. true;
}

abbrev pub no_rows : Rows
no_rows = record { at = λ _. none; urls = []; up = true }

abbrev pub sample : Service Rows
sample = record { disk = sample_disk; manager = new_data_manager memory no_rows }

pub sample-IsCoherent : IsCoherent memory memory-IsLawful sample.manager
sample-IsCoherent = new_data_manager-IsCoherent memory memory-IsLawful no_rows

pub sample_no_row : (k : Bytes) → memory-IsLawful.row sample.manager.store k ≡ none
unfolding new_data_manager collect
sample_no_row k = memory_no_row sample.manager.store k refl

pub sample-IsBacked : IsBacked memory memory-IsLawful sample_env (codes "./storage") sample
sample-IsBacked = record {
  coherent = sample-IsCoherent;
  backed = λ name ok i e. absurd (ground (arith, sample_no_row (codes "/download/" ++ name)));
}

abbrev pub upload_a : UploadRequest
upload_a = record {
  input_buffer = some (codes "hello");
  copyout_works = true;
  filename_header = some (codes "a");
  content_type_header = some (codes "text/plain");
}

-- The service that holds the file `a`.
abbrev pub sample_a : Service Rows
sample_a = (handle_upload memory sample_env sample_times upload_a sample).1

pub sample_a-IsBacked : IsBacked memory memory-IsLawful sample_env (codes "./storage") sample_a
sample_a-IsBacked =
    handle_upload-IsBacked memory memory-IsLawful sample_env sample_times (codes "./storage") refl
      upload_a sample sample-IsBacked (λ content filename e. sample_no_row _)
      (λ key e. sample_no_row key)
