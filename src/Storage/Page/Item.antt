-- ===== src/Storage/Page/Item.antt =====
-- One file of the list: `TimeToStr` and the loop of `GenerateModernFileList` of
-- src/server/PageRender.hpp.
use kama_asyn_log_system_clo.Base.{
  ◌==◌, if◌then◌else◌, Bytes, codes, utf8, stream, to_string, signed_string, ℕ, List, [], ◌∷◌, ◌++◌,
}
use kama_asyn_log_system_clo.Storage.Html.{html_escape}
use kama_asyn_log_system_clo.Storage.Url.{url_encode}
use kama_asyn_log_system_clo.Storage.FileName.{file_name}
use kama_asyn_log_system_clo.Storage.Meta.{StorageInfo}
use kama_asyn_log_system_clo.Storage.Page.Size.{format_size}

-- `pop_back` of a last newline.
unfoldable pub drop_newline : Bytes → Bytes
drop_newline [] = []
drop_newline (c ∷ []) = if c == b'\n' then [] else c ∷ []
drop_newline (c ∷ d ∷ s) = c ∷ drop_newline (d ∷ s)

-- `TimeToStr`, over what `std::ctime` writes.
unfoldable pub time_to_str : (ℕ → Bytes) → ℕ → Bytes
time_to_str ctime t = drop_newline (ctime t)

unfoldable pub display_size : StorageInfo → ℕ
display_size file = if file.original_size == 0 then file.fsize else file.original_size

unfoldable pub file_item : (ℕ → Bytes) → Bytes → StorageInfo → Bytes
file_item ctime download_prefix file =
    let filename = file_name file.storage_path in
    let encoded_filename = url_encode filename in
    stream (
      codes "<div class='file-item' data-name='"
      ∷ html_escape filename
      ∷ codes "' data-size='"
      ∷ to_string (display_size file)
      ∷ codes "' data-upload-time='"
      ∷ signed_string file.upload_time
      ∷ codes "'><div class='file-info'>"
      ∷ utf8 "<span class='file-name'>📄"
      ∷ html_escape filename
      ∷ codes "</span><span class='file-size'>"
      ∷ format_size (display_size file)
      ∷ utf8 "</span><span class='file-time'>上传 "
      ∷ html_escape (time_to_str ctime file.upload_time)
      ∷ codes "</span></div><div class='file-actions'><button data-url='"
      ∷ html_escape (download_prefix ++ encoded_filename)
      ∷ utf8 "' onclick=\"window.open(this.dataset.url, '_blank')\">预览</button>"
      ∷ codes "<button data-url='"
      ∷ html_escape (download_prefix ++ (encoded_filename ++ codes "?download=1"))
      ∷ utf8 "' onclick=\"window.location=this.dataset.url\">下载</button>"
      ∷ codes "<button class='delete-button' data-url='"
      ∷ html_escape (codes "/delete/" ++ encoded_filename)
      ∷ utf8 "' onclick=\"deleteFile(this.dataset.url)\">删除</button></div></div>"
      ∷ [])

-- The loop.
unfoldable pub file_items : (ℕ → Bytes) → Bytes → List StorageInfo → Bytes
file_items ctime download_prefix [] = []
file_items ctime download_prefix (file ∷ files) =
    file_item ctime download_prefix file ++ file_items ctime download_prefix files
