-- ===== src/Storage/Page.antt =====
-- The list page: src/server/PageRender.hpp. `std::ctime` is a parameter.
pub mod Size
pub mod Item
pub mod Marks
mod Tests
use Prim.Native.String.{String}
use kama_asyn_log_system_clo.Base.{
  ltb, ◌==◌, if◌then◌else◌, Bytes, codes, bytes_eq, utf8, stream, length, to_string, ℕ, ◌+◌, ◌-◌,
  ◌/◌, Bool, true, false, List, [], ◌∷◌, ◌++◌,
}
use kama_asyn_log_system_clo.Storage.Html.{html_escape}
use kama_asyn_log_system_clo.Storage.Meta.{StorageInfo}
use kama_asyn_log_system_clo.Storage.Mysql.{page_count}
use kama_asyn_log_system_clo.Storage.Query.Link.{build_page_link}
use kama_asyn_log_system_clo.Storage.Page.Item.{file_items}

-- `SelectedAttr`
unfoldable pub selected_attr : Bytes → Bytes → Bytes
selected_attr left right = if bytes_eq left right then codes " selected" else []

unfoldable pub size_selected : ℕ → ℕ → Bytes
size_selected page_size n = if page_size == n then codes " selected" else []

-- One `<option>` of each choice.
unfoldable pub sort_option : Bytes → String → String → Bytes
sort_option sort value label = stream (
    codes "<option value='"
    ∷ codes value
    ∷ codes "'"
    ∷ selected_attr sort (codes value)
    ∷ codes ">"
    ∷ utf8 label
    ∷ codes "</option>"
    ∷ [])

unfoldable pub size_option : ℕ → ℕ → String → Bytes
size_option page_size n label = stream (
    codes "<option value='"
    ∷ to_string n
    ∷ codes "'"
    ∷ size_selected page_size n
    ∷ codes ">"
    ∷ utf8 label
    ∷ codes "</option>"
    ∷ [])

-- The list up to the first file.
unfoldable pub list_head : ℕ → ℕ → ℕ → Bytes → Bytes → Bytes
list_head total shown page_size keyword sort = stream (
    codes "<section class='file-list' data-total='"
    ∷ to_string total
    ∷ codes "' data-page-count='"
    ∷ to_string shown
    ∷ codes "'><div class='file-list-header'>"
    ∷ utf8 "<h2>已上传文件</h2>"
    ∷ codes "<form class='file-tools' method='get' action='/'>"
    ∷ codes "<input type='hidden' name='page' value='1'>"
    ∷ utf8 "<input id='fileSearch' name='q' type='search' placeholder='搜索文件名' value='"
    ∷ html_escape keyword
    ∷ codes "'><select name='sort' onchange='this.form.submit()'>"
    ∷ sort_option sort "upload-desc" "最近上传"
    ∷ sort_option sort "upload-asc" "最早上传"
    ∷ sort_option sort "name-asc" "文件名 A-Z"
    ∷ sort_option sort "name-desc" "文件名 Z-A"
    ∷ sort_option sort "size-desc" "文件从大到小"
    ∷ sort_option sort "size-asc" "文件从小到大"
    ∷ codes "</select><select name='page_size' onchange='this.form.submit()'>"
    ∷ size_option page_size 10 "每页 10 条"
    ∷ size_option page_size 20 "每页 20 条"
    ∷ size_option page_size 50 "每页 50 条"
    ∷ size_option page_size 100 "每页 100 条"
    ∷ utf8 "</select><button type='submit'>查询</button>"
    ∷ utf8 "<a class='reset-link' href='/'>重置</a>"
    ∷ codes "</form></div><div id='fileCount' class='file-count'></div><div id='fileItems'>"
    ∷ [])

-- The link to another page, or the text in its place.
unfoldable pub page_step : Bool → Bytes → String → Bytes
page_step true link label =
    stream (codes "<a href='" ∷ link ∷ codes "'>" ∷ utf8 label ∷ codes "</a>" ∷ [])
page_step false link label =
    stream (codes "<span class='page-disabled'>" ∷ utf8 label ∷ codes "</span>" ∷ [])

-- The list behind the last file, for the page that is shown and the number of pages.
unfoldable pub list_foot : ℕ → ℕ → ℕ → Bytes → Bytes → Bytes
list_foot current count page_size keyword sort = stream (
    utf8 "</div><div id='emptyState' class='empty-state'>暂无匹配文件</div>"
    ∷ codes "<div class='pagination'>"
    ∷ page_step (ltb 1 current) (build_page_link (current - 1) page_size keyword sort) "上一页"
    ∷ utf8 "<span>第 "
    ∷ to_string current
    ∷ codes " / "
    ∷ to_string count
    ∷ utf8 " 页</span>"
    ∷ page_step (ltb current count) (build_page_link (current + 1) page_size keyword sort) "下一页"
    ∷ codes "</div></section>"
    ∷ [])

unfoldable pub shown_page : ℕ → ℕ → ℕ
shown_page count current = if ltb count current then count else current

-- `GenerateModernFileList`; a page size of 0 does not reach it.
unfoldable pub generate_modern_file_list :
    (ℕ → Bytes) → Bytes → List StorageInfo → ℕ → ℕ → ℕ → Bytes → Bytes → Bytes
generate_modern_file_list ctime download_prefix files total current page_size keyword sort =
    let count = page_count total page_size in
    list_head total (length files) page_size keyword sort
    ++ (file_items ctime download_prefix files
        ++ list_foot (shown_page count current) count page_size keyword sort)
