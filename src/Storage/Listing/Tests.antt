-- ===== src/Storage/Listing/Tests.antt =====
-- The list page of a service over the small database.
use kama_asyn_log_system_clo.Base.{
  lookup, Bytes, codes, bytes_eq, has_byte, starts_with, has_byte-false, utf8_byte, utf8, stream,
  All, decimal_from, to_string, signed_string, is_digit, ℕ, ◌≡◌, refl, ◌≢◌, true, some, [], ◌∷◌,
  ◌++◌, arith,
}
use kama_asyn_log_system_clo.Storage.Listing.Placed.{IsUnmarked}
use kama_asyn_log_system_clo.Storage.FileName.{after_slash, file_name}
use kama_asyn_log_system_clo.Storage.Query.Link.{build_page_link}
use kama_asyn_log_system_clo.Storage.Page.Item.{
  display_size, drop_newline, file_item, file_items, time_to_str,
}
use kama_asyn_log_system_clo.Storage.Page.Size.{
  double_of, double_unit, format_size, round_half_even, unit_index, unit_name,
}
use kama_asyn_log_system_clo.Storage.Url.{
  encode_byte, encode_loop, hex_digit, is_unreserved, url_encode,
}
use kama_asyn_log_system_clo.Storage.Path.{enter, path_eq, walk, resolve}
use kama_asyn_log_system_clo.Storage.Html.{escape_byte, escape_loop, html_escape}
use kama_asyn_log_system_clo.Storage.Page.{
  generate_modern_file_list, list_foot, list_head, page_step, selected_attr, shown_page,
  size_option, size_selected, sort_option,
}
use kama_asyn_log_system_clo.Storage.Query.{is_sort, ListQuery}
use kama_asyn_log_system_clo.Storage.Mysql.{page_count, Connection, query_list}
use kama_asyn_log_system_clo.Storage.Mysql.Listed.{page_rows}
use kama_asyn_log_system_clo.Storage.Disk.{file_at}
use kama_asyn_log_system_clo.Storage.Http.{Service, http_ok}
use kama_asyn_log_system_clo.Storage.Sample.{sample_env, sample_disk}
use kama_asyn_log_system_clo.Storage.Query.Ranges.{IsInRange}
use kama_asyn_log_system_clo.Storage.Mysql.Sample.{
  three_files, three_files-IsStorable, sample_keyword, sample_sort, sample_client,
  sample_client-IsServing, sample_connection,
}
use kama_asyn_log_system_clo.Storage.Listing.{
  marker, regex_replace, handle_list, format_byte, format_end, group_text, format_text,
  replace_loop, format_match, format_dollar, format_digit,
}
use kama_asyn_log_system_clo.Storage.Listing.Linked.{
  page_text, IsTemplate, handle_list-build_page_link,
}

-- A `$` in the list means something to `regex_replace`: two become one, a number is dropped, and
-- `$&` is the marker.
dollars_replaced :
    (regex_replace (codes "a{{FILE_LIST}}z") (codes "price$$9") ≡ codes "aprice$9z")
    × (regex_replace (codes "a{{FILE_LIST}}z") (codes "price$10.") ≡ codes "aprice.z")
    × (regex_replace (codes "a{{FILE_LIST}}z") (codes "R$&amp;D") ≡ codes "aR{{FILE_LIST}}amp;Dz")
    × (regex_replace (codes "a{{FILE_LIST}}z") (codes "5$ x$") ≡ codes "a5$ x$z")
unfolding regex_replace replace_loop starts_with format_match format_byte format_text format_dollar
    format_end is_digit format_digit group_text
dollars_replaced = (refl, refl, refl, refl)

abbrev before_text : Bytes
before_text = codes "<main>{ {{"

abbrev after_text : Bytes
after_text = codes "</main>"

template : IsTemplate before_text after_text
unfolding IsUnmarked starts_with
template = record { before_unmarked = ground arith; after_unmarked = ground arith }

abbrev listing : Service (Connection Bytes)
listing = record {
  disk = record sample_disk {
    files = (resolve (codes "index.html"), before_text ++ (marker ++ after_text)) ∷ [];
  };
  manager = record { store = sample_connection; table = []; need_persist = true };
}

abbrev second_page : ListQuery
second_page = record { page = 2; page_size = 2; keyword = sample_keyword; sort = sample_sort }

abbrev second_query : Bytes
second_query = codes "page=2&page_size=2&q=t%20x&sort=name-asc"

second_page-IsInRange : IsInRange second_page
unfolding bytes_eq is_sort
second_page-IsInRange = record {
  page_low = omega arith;
  page_high = omega arith;
  size_low = omega arith;
  size_high = omega arith;
  keyword_high = omega arith;
  sort_known = refl;
}

no_time : ℕ → Bytes
no_time t = codes "now\n"

second_plain : All (λ c. c ≢ b'$') (page_text sample_env no_time second_page three_files)
unfolding no_time page_text generate_modern_file_list list_head sort_option selected_attr
    size_option size_selected stream html_escape escape_loop escape_byte utf8 utf8_byte to_string
    decimal_from file_items file_item file_name after_slash url_encode encode_loop encode_byte
    is_unreserved hex_digit format_size double_of double_unit round_half_even unit_index unit_name
    time_to_str drop_newline display_size signed_string list_foot page_step shown_page
    build_page_link page_count page_rows has_byte bytes_eq
second_plain = has_byte-false b'$' (page_text sample_env no_time second_page three_files) refl

second_found :
    file_at listing.disk (resolve (codes "index.html"))
    ≡ some (before_text ++ (marker ++ after_text))
unfolding file_at lookup resolve walk enter path_eq bytes_eq
second_found = refl

handle_list-build_page_link_example :
    ((handle_list sample_env no_time
        (query_list sample_client)
        (some second_query)
        listing).0.result.status
      ≡ http_ok)
    × ((handle_list sample_env no_time
          (query_list sample_client)
          (some second_query)
          listing).0.body
        ≡ before_text ++ (page_text sample_env no_time second_page three_files ++ after_text))
unfolding build_page_link page_count to_string decimal_from bytes_eq url_encode
handle_list-build_page_link_example =
    handle_list-build_page_link sample_env no_time sample_client second_page second_query
      three_files before_text after_text listing second_page-IsInRange (ground arith) (ground arith)
      refl sample_client-IsServing three_files-IsStorable (omega arith) (omega arith) refl
      second_found template second_plain
