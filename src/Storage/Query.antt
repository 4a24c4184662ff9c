-- ===== src/Storage/Query.antt =====
-- The query of the list page: `ListQuery`, `ParseSizeValue`, `DecodeQueryValue`,
-- `ParseQueryParams` and `ParseListQuery` of src/server/ListHandler.hpp.
pub mod Ranges
pub mod Pairs
pub mod Link
pub mod Stored
pub mod ReadBack
mod Tests
use kama_asyn_log_system_clo.Base.{
  ltb, ◌==◌, if◌then◌else◌, ◌>>=◌, lookup, insert, Bytes, codes, bytes_eq, length, take, Numeral,
  scan, unsigned_value, ℕ, Bool, not, ◌||◌, Option, none, some, List, [], ◌∷◌,
}
use kama_asyn_log_system_clo.Storage.Url.{url_decode}
use kama_asyn_log_system_clo.Storage.Meta.{bytes_key}

pub record ListQuery : Type 0 where
  pub page : ℕ
  pub page_size : ℕ
  pub keyword : Bytes
  pub sort : Bytes

abbrev pub default_query : ListQuery
default_query = record { page = 1; page_size = 10; keyword = []; sort = codes "upload-desc" }

-- `ParseSizeValue`: `none` is `return false`. On overflow `strtoul` returns the largest number,
-- which is taken; a NUL in the text ends it.
unfoldable pub accepted_size : Option Numeral → Option ℕ
accepted_size none = none
accepted_size (some x) =
    if not (bytes_eq x.behind []) || (unsigned_value x == 0) then none else some (unsigned_value x)

unfoldable pub parse_size_value : Bytes → Option ℕ
parse_size_value raw = accepted_size (scan raw)

-- `std::replace(…, '+', ' ')`
unfoldable pub plus_to_space : Bytes → Bytes
plus_to_space [] = []
plus_to_space (c ∷ s) = (if c == b'+' then b' ' else c) ∷ plus_to_space s

unfoldable pub decode_query_value : Bytes → Option Bytes
decode_query_value raw = url_decode (plus_to_space raw)

-- `s.find(c)` with the two `substr`: what stands before the first `c`, and, where there is one,
-- what stands behind it.
unfoldable pub cut_at : ℕ → Bytes → Bytes × Option Bytes
cut_at c [] = ([], none)
cut_at c (x ∷ s) =
    let (before, behind) = cut_at c s in if x == c then ([], some s) else (x ∷ before, behind)

-- The pairs that the loop over `pos` and `end` cuts out, one for each round.
unfoldable pub split_pairs : Bytes → List Bytes
split_pairs [] = [] ∷ []
split_pairs (x ∷ s) =
    if x == b'&'
    then [] ∷ split_pairs s
    else elim (split_pairs s) [ [] ↦ (x ∷ []) ∷ [] | pair ∷ pairs ↦ (x ∷ pair) ∷ pairs ]

abbrev pub Params : Type 0
Params = List (Bytes × Bytes)

-- `eq == npos ? "" : pair.substr(eq + 1)`
unfoldable pub value_or_empty : Option Bytes → Bytes
value_or_empty none = []
value_or_empty (some value) = value

-- Both parts of a pair are decoded before it is stored; a later pair of a key replaces it.
unfoldable pub put_pair : Bytes × Option Bytes → Params → Option Params
put_pair (raw_key, behind) params = do
  key ← decode_query_value raw_key
  value ← decode_query_value (value_or_empty behind)
  some (insert bytes_key key value params)

-- One round: an empty pair is passed over.
unfoldable pub add_pair : Bytes → Params → Option Params
add_pair [] params = some params
add_pair (c ∷ pair) params = put_pair (cut_at b'=' (c ∷ pair)) params

unfoldable pub add_pairs : List Bytes → Params → Option Params
add_pairs [] params = some params
add_pairs (pair ∷ pairs) params = add_pair pair params >>= add_pairs pairs

-- `ParseQueryParams`; the argument is `none` for a URI with no query, the result for
-- `return false`.
unfoldable pub parse_query_params : Option Bytes → Option Params
parse_query_params none = some []
parse_query_params (some query) = add_pairs (split_pairs query) []

-- `ParseSizeValue(it->second, &value)` under `it != end()`: a value that is not parsed leaves what
-- stands there.
unfoldable pub parsed_or : ℕ → Option ℕ → ℕ
parsed_or value none = value
parsed_or value (some parsed) = parsed

unfoldable pub size_from : ℕ → Option Bytes → ℕ
unfolding parsed_or
size_from value none = value
size_from value (some raw) = parsed_or value (parse_size_value raw)

-- The two tests after `page_size` has been read.
unfoldable pub clamp_size : ℕ → ℕ
clamp_size page_size =
    let at_least : ℕ = if ltb page_size 1 then 10 else page_size in
    if ltb 100 at_least then 100 else at_least

unfoldable pub clamp_keyword : ℕ → Bytes → Bytes
clamp_keyword limit keyword = if ltb limit (length keyword) then take limit keyword else keyword

unfoldable pub is_sort : Bytes → Bool
is_sort s =
    bytes_eq s (codes "upload-desc")
    || bytes_eq s (codes "upload-asc")
    || bytes_eq s (codes "name-asc")
    || bytes_eq s (codes "name-desc")
    || bytes_eq s (codes "size-desc")
    || bytes_eq s (codes "size-asc")

unfoldable pub keyword_from : Option Bytes → Bytes
keyword_from none = []
keyword_from (some raw) = clamp_keyword 100 raw

unfoldable pub sort_from : Option Bytes → Bytes
sort_from none = codes "upload-desc"
sort_from (some raw) = if is_sort raw then raw else codes "upload-desc"

unfoldable pub query_of : Params → ListQuery
query_of params = record {
  page = size_from 1 (lookup bytes_key (codes "page") params);
  page_size = clamp_size (size_from 10 (lookup bytes_key (codes "page_size") params));
  keyword = keyword_from (lookup bytes_key (codes "q") params);
  sort = sort_from (lookup bytes_key (codes "sort") params);
}

unfoldable pub query_from : Option Params → Option ListQuery
query_from none = none
query_from (some params) = some (query_of params)

-- `ParseListQuery`; `none` is `return false`.
unfoldable pub parse_list_query : Option Bytes → Option ListQuery
parse_list_query query = query_from (parse_query_params query)
