-- ===== src/Storage/Download/Tests.antt =====
-- Downloads from the small service.
use kama_asyn_log_system_clo.Storage.Download.{
  DownloadRequest, is_attachment_request, content_disposition, fallback_name,
}
use kama_asyn_log_system_clo.Storage.Url.{url_encode}
use kama_asyn_log_system_clo.Base.{
  codes, bytes_eq, has_text, decimal_from, to_string, ◌≡◌, refl, true, false, some,
}

abbrev download_a : DownloadRequest
download_a = record {
  uri_path = codes "/download/a";
  query = some (codes "download=1");
  add_file_works = true;
}

numbers : (to_string 0 ≡ codes "0") × (to_string 1024 ≡ codes "1024")
unfolding to_string decimal_from
numbers = (refl, refl)

attached :
    (is_attachment_request (some (codes "x=1&download=1")) ≡ true)
    × (is_attachment_request (some (codes "download=0")) ≡ false)
unfolding is_attachment_request bytes_eq has_text
attached = (refl, refl)

quoted :
    content_disposition (codes "a\"b")
    ≡ codes "attachment; filename=\"a_b\"; filename*=UTF-8''a%22b"
unfolding content_disposition fallback_name url_encode
quoted = refl
