-- ===== src/Storage/Dispatch/Tests.antt =====
-- Requests to the small service.
use kama_asyn_log_system_clo.Base.{
  Bytes, codes, bytes_eq, starts_with, ℕ, ◌≡◌, refl, true, none, [],
}
use kama_asyn_log_system_clo.Storage.Url.{url_decode}
use kama_asyn_log_system_clo.Storage.Meta.Memory.{Rows, memory, memory-IsLawful}
use kama_asyn_log_system_clo.Storage.Sample.{sample_env, sample_times, sample, sample_a}
use kama_asyn_log_system_clo.Storage.Listing.{QueryStore}
use kama_asyn_log_system_clo.Storage.Dispatch.{
  Request, get_request, post_request, route, to_download, to_abort, to_upload, to_nothing, dispatch,
}
use kama_asyn_log_system_clo.Storage.Dispatch.Logged.{IsAnswered, dispatch-IsAnswered}
use kama_asyn_log_system_clo.Storage.Dispatch.Reading.{
  reads_only, IsUnchanged, dispatch_reads, reads,
}

abbrev no_list : QueryStore Rows
no_list keyword sort page page_size s = (none, s)

no_time : ℕ → Bytes
no_time t = []

abbrev get_path : Bytes → Request
get_path path = record {
  command = get_request;
  path = path;
  query = none;
  header = λ name. none;
  input_buffer = none;
  copyout_works = true;
  add_file_works = true;
  new_upload_id = codes "1";
}

abbrev download_a : Request
download_a = get_path (codes "/download/a.txt")

abbrev silent_upload : Request
silent_upload = record (get_path (codes "/uploa%64")) { command = post_request }

-- The paths are compared after decoding, and nothing behind a fixed path is accepted.
paths_routed :
    (route (codes "/download/x") ≡ to_download)
    × (route (codes "/upload/abort") ≡ to_abort)
    × (route (codes "/upload") ≡ to_upload)
    × (route (codes "/upload/") ≡ to_nothing)
    × (route (codes "/index.html") ≡ to_nothing)
unfolding route starts_with bytes_eq
paths_routed = (refl, refl, refl, refl, refl)

dispatch-IsAnswered_example :
    IsAnswered
      (url_decode silent_upload.path)
      silent_upload
      (dispatch memory no_list sample_env sample_times no_time silent_upload sample).0.0
    × ((dispatch memory no_list sample_env sample_times no_time silent_upload sample).0.1.status
        ≡ (dispatch memory no_list sample_env sample_times no_time silent_upload sample).0.0.status)
dispatch-IsAnswered_example =
    dispatch-IsAnswered memory no_list sample_env sample_times no_time silent_upload sample

dispatch_reads_example :
    IsUnchanged memory memory-IsLawful no_list sample_env sample_times no_time
      (λ keyword sort page page_size s k. refl)
      sample_a
      (dispatch memory no_list sample_env sample_times no_time download_a sample_a).1
unfolding reads_only url_decode reads route starts_with
dispatch_reads_example =
    dispatch_reads memory memory-IsLawful no_list sample_env sample_times no_time
      (λ keyword sort page page_size s k. refl) download_a sample_a refl
