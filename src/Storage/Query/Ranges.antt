-- ===== src/Storage/Query/Ranges.antt =====
-- What every query that is accepted satisfies: `ParseListQuery` of src/server/ListHandler.hpp.
use kama_asyn_log_system_clo.Base.{
  some_eq, lookup, Bytes, codes, bytes_eq, length, length-take, Numeral, scan, unsigned_overflow,
  unsigned_value, ℕ, ◌^◌, ◌≤◌, ◌<◌, ◌≡◌, refl, subst, true, Option, none, some, arith,
}
use kama_asyn_log_system_clo.Storage.Meta.{bytes_key}
use kama_asyn_log_system_clo.Storage.Query.{
  accepted_size, parse_size_value, ListQuery, size_from, query_from, parsed_or, clamp_size,
  clamp_keyword, is_sort, keyword_from, sort_from, Params, query_of, parse_query_params,
  parse_list_query,
}

pub record IsInRange (q : ListQuery) : Type 0 where
  pub page_low : 1 ≤ q.page
  pub page_high : q.page < 2 ^ 64
  pub size_low : 1 ≤ q.page_size
  pub size_high : q.page_size ≤ 100
  pub keyword_high : length q.keyword ≤ 100
  pub sort_known : is_sort q.sort ≡ true

unsigned_value-lt : (x : Numeral) → unsigned_value x < 2 ^ 64
unfolding unsigned_value unsigned_overflow
unsigned_value-lt x = ground arith

accepted_size-range :
    (x : Option Numeral) (n : ℕ) → accepted_size x ≡ some n → (1 ≤ n) × (n < 2 ^ 64)
unfolding accepted_size
accepted_size-range none n h = cc
accepted_size-range (some x) n h = ground (arith, unsigned_value-lt x)

parse_size_value-range :
    (raw : Bytes) (n : ℕ) → parse_size_value raw ≡ some n → (1 ≤ n) × (n < 2 ^ 64)
parse_size_value-range raw n h = accepted_size-range (scan raw) n (unfold parse_size_value in h)

size_from-range :
    (value : ℕ) (raw : Option Bytes)
    → 1 ≤ value
    → value < 2 ^ 64
    → (1 ≤ size_from value raw) × (size_from value raw < 2 ^ 64)
unfolding size_from
size_from-range value none low high = (low, high)
size_from-range value (some raw) low high = kept (parse_size_value raw) (parse_size_value-range raw)
  where
    kept :
        (parsed : Option ℕ)
        → ((n : ℕ) → parsed ≡ some n → (1 ≤ n) × (n < 2 ^ 64))
        → (1 ≤ parsed_or value parsed) × (parsed_or value parsed < 2 ^ 64)
    kept none h = (low, high)
    kept (some n) h = h n refl

clamp_size-range : (n : ℕ) → (1 ≤ clamp_size n) × (clamp_size n ≤ 100)
unfolding clamp_size
clamp_size-range n = ground arith

length-clamp_keyword : (limit : ℕ) (s : Bytes) → length (clamp_keyword limit s) ≤ limit
unfolding clamp_keyword
length-clamp_keyword limit s = ground (arith, length-take limit s)

length-keyword_from : (raw : Option Bytes) → length (keyword_from raw) ≤ 100
unfolding keyword_from
length-keyword_from none = omega arith
length-keyword_from (some raw) = length-clamp_keyword 100 raw

default_sort : is_sort (codes "upload-desc") ≡ true
unfolding is_sort bytes_eq
default_sort = refl

sort_from_known : (raw : Option Bytes) → is_sort (sort_from raw) ≡ true
unfolding sort_from
sort_from_known none = default_sort
sort_from_known (some raw) = ground (arith, default_sort)

query_of-IsInRange : (params : Params) → IsInRange (query_of params)
unfolding query_of
query_of-IsInRange params =
    let asked = lookup bytes_key (codes "page") params in
    let (page_low, page_high) = size_from-range 1 asked (omega arith) (omega arith) in
    let size = size_from 10 (lookup bytes_key (codes "page_size") params) in
    let (size_low, size_high) = clamp_size-range size in
    record {
      page_low = page_low;
      page_high = page_high;
      size_low = size_low;
      size_high = size_high;
      keyword_high = length-keyword_from (lookup bytes_key (codes "q") params);
      sort_known = sort_from_known (lookup bytes_key (codes "sort") params);
    }

query_from-IsInRange :
    (params : Option Params) (q : ListQuery) → query_from params ≡ some q → IsInRange q
unfolding query_from
query_from-IsInRange none q h = cc
query_from-IsInRange (some params) q h = subst IsInRange (some_eq h) (query_of-IsInRange params)

-- Whatever the query string is, a query that is accepted asks for a page from 1 up that fits a
-- `size_t`, for 1 to 100 rows, by a keyword of at most 100 bytes and in one of the six orders.
pub parse_list_query-IsInRange :
    (query : Option Bytes) (q : ListQuery) → parse_list_query query ≡ some q → IsInRange q
parse_list_query-IsInRange query q h =
    query_from-IsInRange (parse_query_params query) q (unfold parse_list_query in h)
