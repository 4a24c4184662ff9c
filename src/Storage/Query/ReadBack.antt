-- ===== src/Storage/Query/ReadBack.antt =====
-- A link of the page is read back: `BuildPageLink` of src/server/PageRender.hpp, then
-- `ParseListQuery` of src/server/ListHandler.hpp.
use kama_asyn_log_system_clo.Base.{
  Bool-cases, lookup, insert, Bytes, codes, bytes_eq, bytes_eq_iff, IsByte, append_cancel, length,
  All, to_string, ℕ, ◌^◌, ◌≤◌, ◌<◌, ◌≡◌, refl, sym, ap, ◌∙◌, inl, inr, Bool, true, false, Option,
  none, some, [], ◌++◌, arith,
}
use kama_asyn_log_system_clo.Storage.Query.{
  ListQuery, Params, split_pairs, add_pairs, parse_query_params, parsed_or, size_from, clamp_size,
  clamp_keyword, is_sort, keyword_from, sort_from, query_of, query_from, parse_list_query,
}
use kama_asyn_log_system_clo.Storage.Query.Stored.{
  store_unless, keyword_stored, sort_stored, numbers_stored, add-link_pairs, split-link_query,
}
use kama_asyn_log_system_clo.Storage.Query.Ranges.{IsInRange}
use kama_asyn_log_system_clo.Storage.Query.Pairs.{parse_size_value-to_string}
use kama_asyn_log_system_clo.Storage.Query.Link.{build_page_link, link_query, build_page_link-query}
use kama_asyn_log_system_clo.Storage.Meta.{bytes_key}

found_unless : Bool → Bytes → Option Bytes
found_unless true value = none
found_unless false value = some value

-- What the four lookups find.
record Found (page page_size : ℕ) (keyword sort : Bytes) (params : Params) : Type 0 where
  page_found : lookup bytes_key (codes "page") params ≡ some (to_string page)
  size_found : lookup bytes_key (codes "page_size") params ≡ some (to_string page_size)
  keyword_found : lookup bytes_key (codes "q") params ≡ found_unless (bytes_eq keyword []) keyword
  sort_found :
      lookup bytes_key (codes "sort") params
      ≡ found_unless (bytes_eq sort (codes "upload-desc")) sort

four_lookups :
    (no_keyword plain_sort : Bool) (page page_size keyword sort : Bytes)
    → (params : Params)
    → params
      ≡ store_unless plain_sort (codes "sort") sort (
          store_unless no_keyword (codes "q") keyword (
            insert bytes_key
              (codes "page_size")
              page_size
              (insert bytes_key (codes "page") page [])))
    → (lookup bytes_key (codes "page") params ≡ some page)
      × (lookup bytes_key (codes "page_size") params ≡ some page_size)
      × (lookup bytes_key (codes "q") params ≡ found_unless no_keyword keyword)
      × (lookup bytes_key (codes "sort") params ≡ found_unless plain_sort sort)
unfolding store_unless found_unless lookup insert bytes_eq
four_lookups true true page page_size keyword sort params h = rw h (refl, refl, refl, refl)
four_lookups true false page page_size keyword sort params h = rw h (refl, refl, refl, refl)
four_lookups false true page page_size keyword sort params h = rw h (refl, refl, refl, refl)
four_lookups false false page page_size keyword sort params h = rw h (refl, refl, refl, refl)

stored-Found :
    (page page_size : ℕ) (keyword sort : Bytes)
    → Found page page_size keyword sort
        (sort_stored sort (keyword_stored keyword (numbers_stored page page_size)))
unfolding numbers_stored keyword_stored sort_stored
stored-Found page page_size keyword sort =
    let (p, s, k, o) =
      four_lookups (bytes_eq keyword []) (bytes_eq sort (codes "upload-desc")) (to_string page)
        (to_string page_size) keyword sort _ refl in
    record { page_found = p; size_found = s; keyword_found = k; sort_found = o }

clamp_keyword_short : (limit : ℕ) (s : Bytes) → length s ≤ limit → clamp_keyword limit s ≡ s
unfolding clamp_keyword
clamp_keyword_short limit s h = ground arith

keyword_read :
    (keyword : Bytes)
    → length keyword ≤ 100
    → keyword_from (found_unless (bytes_eq keyword []) keyword) ≡ keyword
unfolding keyword_from found_unless
keyword_read keyword h = elim (Bool-cases (bytes_eq keyword [])) [
  | inl e ↦ ap (λ b. keyword_from (found_unless b keyword)) e ∙ sym ((bytes_eq_iff keyword []).0 e)
  | inr e ↦ ap (λ b. keyword_from (found_unless b keyword)) e ∙ clamp_keyword_short 100 keyword h
]

sort_from_known : (sort : Bytes) → is_sort sort ≡ true → sort_from (some sort) ≡ sort
unfolding sort_from
sort_from_known sort h = rw h refl

sort_read :
    (sort : Bytes)
    → is_sort sort ≡ true
    → sort_from (found_unless (bytes_eq sort (codes "upload-desc")) sort) ≡ sort
unfolding sort_from found_unless
sort_read sort h = elim (Bool-cases (bytes_eq sort (codes "upload-desc"))) [
  | inl e ↦
      ap (λ b. sort_from (found_unless b sort)) e
      ∙ sym ((bytes_eq_iff sort (codes "upload-desc")).0 e)
  | inr e ↦ ap (λ b. sort_from (found_unless b sort)) e ∙ sort_from_known sort h
]

clamp_size_inside : (n : ℕ) → 1 ≤ n → n ≤ 100 → clamp_size n ≡ n
unfolding clamp_size
clamp_size_inside n low high = ground arith

size_read : (default n : ℕ) → 1 ≤ n → n < 2 ^ 64 → size_from default (some (to_string n)) ≡ n
unfolding size_from parsed_or
size_read default n low high = ap (parsed_or default) (parse_size_value-to_string n low high)

query_of-stored :
    (q : ListQuery) (params : Params)
    → IsInRange q
    → Found q.page q.page_size q.keyword q.sort params
    → query_of params ≡ q
unfolding query_of
query_of-stored q params r f =
    let page_back = ap (size_from 1) f.page_found ∙ size_read 1 q.page r.page_low r.page_high in
    let size_back =
      ap (λ k. clamp_size (size_from 10 k)) f.size_found
      ∙ ap clamp_size (size_read 10 q.page_size r.size_low (omega (arith, r.size_high)))
      ∙ clamp_size_inside q.page_size r.size_low r.size_high in
    let keyword_back = ap keyword_from f.keyword_found ∙ keyword_read q.keyword r.keyword_high in
    let sort_back = ap sort_from f.sort_found ∙ sort_read q.sort r.sort_known in cc

-- A query in range whose keyword and order consist of bytes is read back from the link that the
-- page builds for it: behind the `/?` of the link stands a query string that `ParseListQuery`
-- accepts as that query.
pub parse_list_query-build_page_link :
    (q : ListQuery) (query : Bytes)
    → IsInRange q
    → All IsByte q.keyword
    → All IsByte q.sort
    → build_page_link q.page q.page_size q.keyword q.sort ≡ codes "/?" ++ query
    → parse_list_query (some query) ≡ some q
unfolding parse_list_query parse_query_params query_from
parse_list_query-build_page_link q query r hk hs link =
    ap (λ k. query_from (add_pairs (split_pairs k) [])) (sym same)
    ∙ ap (λ k. query_from (add_pairs k []))
        (split-link_query q.page q.page_size q.keyword q.sort hk hs)
    ∙ ap query_from (add-link_pairs q.page q.page_size q.keyword q.sort hk hs)
    ∙ ap some (query_of-stored q _ r (stored-Found q.page q.page_size q.keyword q.sort))
  where
    same : link_query q.page q.page_size q.keyword q.sort ≡ query
    same =
        append_cancel (codes "/?") _ query
          (sym (build_page_link-query q.page q.page_size q.keyword q.sort) ∙ link)
