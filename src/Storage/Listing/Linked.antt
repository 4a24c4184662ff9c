-- ===== src/Storage/Listing/Linked.antt =====
-- The list page from a link to the database and back: src/server/PageRender.hpp `BuildPageLink`,
-- src/server/ListHandler.hpp `Handle` and src/server/MysqlMetadataStore.hpp `QueryList`.
use kama_asyn_log_system_clo.Base.{
  Bytes, codes, IsByte, length, All, ℕ, ◌+◌, ◌^◌, ◌≤◌, ◌≡◌, ap, ◌∙◌, ◌≢◌, true, some, List, [],
  ◌++◌,
}
use kama_asyn_log_system_clo.Storage.Path.{resolve}
use kama_asyn_log_system_clo.Storage.Disk.{file_at}
use kama_asyn_log_system_clo.Storage.Meta.{StorageInfo}
use kama_asyn_log_system_clo.Storage.Http.{http_ok, Env, Service}
use kama_asyn_log_system_clo.Storage.Query.{ListQuery}
use kama_asyn_log_system_clo.Storage.Query.Ranges.{IsInRange}
use kama_asyn_log_system_clo.Storage.Query.Link.{build_page_link}
use kama_asyn_log_system_clo.Storage.Query.ReadBack.{parse_list_query-build_page_link}
use kama_asyn_log_system_clo.Storage.Mysql.{Client, Connection, page_count, query_list}
use kama_asyn_log_system_clo.Storage.Mysql.Paging.{page_count-Covers, clamp_page-IsShown}
use kama_asyn_log_system_clo.Storage.Mysql.Filled.{IsStorable}
use kama_asyn_log_system_clo.Storage.Mysql.Listed.{IsServing, page_rows, page_of, query_list_page}
use kama_asyn_log_system_clo.Storage.Page.{generate_modern_file_list}
use kama_asyn_log_system_clo.Storage.Listing.{
  marker, regex_replace, read_or_empty, list_body, list_parsed, handle_list,
}
use kama_asyn_log_system_clo.Storage.Listing.Placed.{IsUnmarked, regex_replace-placed}
use kama_asyn_log_system_clo.Storage.Listing.Replies.{list_parsed-some}

-- The list for one page of the rows.
unfoldable pub page_text : Env → (ℕ → Bytes) → ListQuery → List StorageInfo → Bytes
page_text env ctime q rows =
    generate_modern_file_list ctime env.download_prefix (page_rows q.page_size q.page rows)
      (length rows) q.page q.page_size q.keyword q.sort

-- A template with the marker once.
pub record IsTemplate (before after : Bytes) : Type 0 where
  pub before_unmarked : IsUnmarked before (marker ++ after)
  pub after_unmarked : IsUnmarked after []

module _ {C : Type 0} (env : Env) (ctime : ℕ → Bytes) (client : Client C) where
  list_body_placed :
      (q : ListQuery) (rows : List StorageInfo) (before after : Bytes)
      → (service : Service (Connection C))
      → file_at service.disk (resolve (codes "index.html")) ≡ some (before ++ (marker ++ after))
      → IsTemplate before after
      → All (λ c. c ≢ b'$') (page_text env ctime q rows)
      → list_body env ctime (query_list client) q (page_of q.page_size q.page rows) service
        ≡ before ++ (page_text env ctime q rows ++ after)
  unfolding list_body page_of page_text read_or_empty
  list_body_placed q rows before after service found h plain =
      ap (λ f. regex_replace (read_or_empty f) (page_text env ctime q rows)) found
      ∙ regex_replace-placed before after (page_text env ctime q rows) h.before_unmarked
          h.after_unmarked plain

  page_shown :
      (q : ListQuery) (rows : List StorageInfo) (s : Connection C)
      → IsInRange q
      → IsServing client q.keyword q.sort q.page_size rows
      → All IsStorable rows
      → length rows + q.page_size ≤ 2 ^ 64
      → q.page ≤ page_count (length rows) q.page_size
      → s.ready ≡ true
      → (query_list client q.keyword q.sort q.page q.page_size s).0
        ≡ some (page_of q.page_size q.page rows)
  page_shown q rows s range serving storable fits there ready =
      let count = page_count (length rows) q.page_size in
      let covers = page_count-Covers (length rows) q.page_size range.size_low fits in
      let same = (clamp_page-IsShown count q.page covers.low).kept range.page_low there in
      (query_list_page serving storable range.size_low fits q.page s ready).0
      ∙ ap (λ p. some (page_of q.page_size p rows)) same

  -- A link of the list page leads where it says. Let a query be in range, its keyword and order be
  -- bytes, and the link that is built for it be `/?` and a query text. Let the store serve the rows
  -- of that search, each of them storable, with one page more at most 2 ^ 64 of them, the asked page
  -- among their pages and the connection ready. Let `index.html` have the marker once, and let the
  -- list for that page hold no `$`. Then the request with that query text is answered by 200, and
  -- the body is `index.html` with the list of exactly that page's rows in place of the marker.
  pub handle_list-build_page_link :
      (q : ListQuery) (query : Bytes) (rows : List StorageInfo) (before after : Bytes)
      → (service : Service (Connection C)) → IsInRange q
      → All IsByte q.keyword
      → All IsByte q.sort
      → build_page_link q.page q.page_size q.keyword q.sort ≡ codes "/?" ++ query
      → IsServing client q.keyword q.sort q.page_size rows
      → All IsStorable rows
      → length rows + q.page_size ≤ 2 ^ 64
      → q.page ≤ page_count (length rows) q.page_size
      → service.manager.store.ready ≡ true
      → file_at service.disk (resolve (codes "index.html")) ≡ some (before ++ (marker ++ after))
      → IsTemplate before after
      → All (λ c. c ≢ b'$') (page_text env ctime q rows)
      → ((handle_list env ctime (query_list client) (some query) service).0.result.status ≡ http_ok)
        × ((handle_list env ctime (query_list client) (some query) service).0.body
            ≡ before ++ (page_text env ctime q rows ++ after))
  unfolding handle_list
  handle_list-build_page_link q query rows before after service range hk hs link serving storable
        fits there ready found template plain =
      let shown = page_shown q rows service.manager.store range serving storable fits there ready in
      let (status, body) =
        list_parsed-some env ctime (query_list client) q (page_of q.page_size q.page rows) service
          shown in
      let parsed =
        ap (λ p. (list_parsed env ctime (query_list client) p service).0)
          (parse_list_query-build_page_link q query range hk hs link) in
      (
        ap (λ r. r.result.status) parsed ∙ status,
        ap (λ r. r.body) parsed
            ∙ body
            ∙ list_body_placed q rows before after service found template plain,
      )
