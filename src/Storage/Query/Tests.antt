-- ===== src/Storage/Query/Tests.antt =====
-- Runs of the query of the list page.
use kama_asyn_log_system_clo.Storage.Query.{
  add_pair, add_pairs, clamp_size, cut_at, decode_query_value, keyword_from, parse_query_params,
  parsed_or, plus_to_space, put_pair, query_from, query_of, size_from, sort_from, split_pairs,
  value_or_empty, ListQuery, default_query, parse_size_value, parse_list_query, is_sort,
  accepted_size, clamp_keyword,
}
use kama_asyn_log_system_clo.Storage.Url.{decode_loop, from_hex, is_hex, url_decode, url_encode}
use kama_asyn_log_system_clo.Base.{
  lookup, insert, Bytes, codes, bytes_eq, decimal_from, to_string, c_string, is_space, is_digit,
  skip_space, read_digits, scan_digits, scan_sign, scan, unsigned_overflow, unsigned_value, ◌-◌,
  ◌^◌, ◌≡◌, refl, none, some, arith,
}
use kama_asyn_log_system_clo.Storage.Query.Ranges.{IsInRange, parse_list_query-IsInRange}
use kama_asyn_log_system_clo.Storage.Query.Link.{build_page_link}
use kama_asyn_log_system_clo.Storage.Query.ReadBack.{parse_list_query-build_page_link}

abbrev searched : ListQuery
searched = record { page = 3; page_size = 20; keyword = codes "a b&c=1%"; sort = codes "size-asc" }

abbrev searched_query : Bytes
searched_query = codes "page=3&page_size=20&q=a%20b%26c%3D1%25&sort=size-asc"

-- Numbers as `strtoul` reads them: with a sign, cut at a NUL, and at most the largest one.
numbers_read :
    (parse_size_value (codes "12") ≡ some 12)
    × (parse_size_value (codes " +7") ≡ some 7)
    × (parse_size_value (codes "-1") ≡ some (2 ^ 64 - 1))
    × (parse_size_value (codes "99999999999999999999") ≡ some (2 ^ 64 - 1))
    × (parse_size_value (codes "0") ≡ none)
    × (parse_size_value (codes "7x") ≡ none)
    × (parse_size_value (codes "") ≡ none)
unfolding parse_size_value accepted_size scan scan_sign skip_space c_string is_space scan_digits
    is_digit bytes_eq read_digits unsigned_value unsigned_overflow
numbers_read = (refl, refl, refl, refl, refl, refl, refl)

defaults_read :
    (parse_list_query none ≡ some default_query)
    × (parse_list_query (some (codes "&&page=x&sort=evil")) ≡ some default_query)
    × (parse_list_query (some (codes "q=%4")) ≡ none)
unfolding parse_list_query query_from parse_query_params query_of size_from clamp_size keyword_from
    sort_from lookup add_pairs split_pairs add_pair put_pair decode_query_value url_decode
    plus_to_space cut_at value_or_empty insert bytes_eq parse_size_value is_sort c_string is_digit
    is_space read_digits scan scan_digits scan_sign skip_space unsigned_overflow unsigned_value
    accepted_size clamp_keyword parsed_or decode_loop from_hex is_hex
defaults_read = (refl, refl, refl)

-- A plus sign is a blank, and the last of two pairs counts.
pairs_read :
    parse_list_query (some (codes "page=2&q=a+b&page=5&page_size=1000"))
    ≡ some (record { page = 5; page_size = 100; keyword = codes "a b"; sort = codes "upload-desc" })
unfolding parse_list_query query_from parse_query_params query_of size_from clamp_size keyword_from
    sort_from lookup add_pairs split_pairs add_pair put_pair decode_query_value url_decode
    plus_to_space cut_at value_or_empty insert bytes_eq parse_size_value is_sort c_string is_digit
    is_space read_digits scan scan_digits scan_sign skip_space unsigned_overflow unsigned_value
    accepted_size clamp_keyword parsed_or decode_loop from_hex is_hex
pairs_read = refl

searched-IsInRange : IsInRange searched
unfolding bytes_eq is_sort
searched-IsInRange = record {
  page_low = omega arith;
  page_high = omega arith;
  size_low = omega arith;
  size_high = omega arith;
  keyword_high = omega arith;
  sort_known = refl;
}

parse_list_query-IsInRange_example : IsInRange searched
unfolding parse_list_query query_from parse_query_params query_of size_from clamp_size keyword_from
    sort_from lookup add_pairs split_pairs add_pair put_pair decode_query_value url_decode
    plus_to_space cut_at value_or_empty insert bytes_eq parse_size_value is_sort c_string is_digit
    is_space read_digits scan scan_digits scan_sign skip_space unsigned_overflow unsigned_value
    accepted_size clamp_keyword parsed_or decode_loop from_hex is_hex
parse_list_query-IsInRange_example = parse_list_query-IsInRange (some searched_query) searched refl

parse_list_query-build_page_link_example : parse_list_query (some searched_query) ≡ some searched
unfolding build_page_link to_string decimal_from bytes_eq url_encode
parse_list_query-build_page_link_example =
    parse_list_query-build_page_link searched searched_query searched-IsInRange (ground arith)
      (ground arith) refl
