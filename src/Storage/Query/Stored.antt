-- ===== src/Storage/Query/Stored.antt =====
-- What `ParseQueryParams` of src/server/ListHandler.hpp stores for a link of the page.
use kama_asyn_log_system_clo.Base.{
  Bool-cases, insert, Bytes, codes, bytes_eq, has_byte, IsByte, has_byte-false, All, All-append,
  All-imp, to_string, ℕ, ◌≡◌, refl, ◌∙◌, inl, inr, Bool, true, false, some, List, [], ◌∷◌, ◌++◌,
  arith,
}
use kama_asyn_log_system_clo.Base.Numerals.Printed.{IsDigit, to_string-IsDigit}
use kama_asyn_log_system_clo.Storage.Url.{url_encode}
use kama_asyn_log_system_clo.Storage.Url.RoundTrip.{IsPlain, url_encode-IsPlain}
use kama_asyn_log_system_clo.Storage.Meta.{bytes_key}
use kama_asyn_log_system_clo.Storage.Query.{
  Params, split_pairs, add_pair, add_pairs, decode_query_value,
}
use kama_asyn_log_system_clo.Storage.Query.Pairs.{
  HasNo, split_pairs-link_rest, decode_plain, decode_encoded, decode_number, add_pair-key,
  add_pairs-cons, plain_apart,
}
use kama_asyn_log_system_clo.Storage.Query.Link.{
  keyword_pairs, sort_pairs, page_pair, size_pair, link_query,
}

no_amp_number : (n : ℕ) → HasNo b'&' (to_string n)
no_amp_number n = All-imp IsDigit _ (λ c h. omega arith) (to_string n) (to_string-IsDigit n)

no_amp_encoded : (s : Bytes) → All IsByte s → HasNo b'&' (url_encode s)
no_amp_encoded s h =
    All-imp IsPlain _ (λ c p. (plain_apart c p).1) (url_encode s) (url_encode-IsPlain s h)

no_amp_key : (key s : Bytes) → has_byte b'&' key ≡ false → HasNo b'&' s → HasNo b'&' (key ++ s)
no_amp_key key s hk hs = All-append _ key s (has_byte-false b'&' key hk) hs

keyword_pairs-no_amp :
    (keyword : Bytes) → All IsByte keyword → All (HasNo b'&') (keyword_pairs keyword)
unfolding keyword_pairs has_byte
keyword_pairs-no_amp keyword h =
    let one = no_amp_key (codes "q=") (url_encode keyword) refl (no_amp_encoded keyword h) in
    ground (arith, one)

sort_pairs-no_amp : (sort : Bytes) → All IsByte sort → All (HasNo b'&') (sort_pairs sort)
unfolding sort_pairs has_byte
sort_pairs-no_amp sort h = elim (Bool-cases (bytes_eq sort (codes "upload-desc"))) [
  | inl e ↦ rw e tt
  | inr e ↦ rw e (no_amp_key (codes "sort=") (url_encode sort) refl (no_amp_encoded sort h), tt)
]

pub split-link_query :
    (page page_size : ℕ) (keyword sort : Bytes)
    → All IsByte keyword
    → All IsByte sort
    → split_pairs (link_query page page_size keyword sort)
      ≡ page_pair page ∷ size_pair page_size ∷ (keyword_pairs keyword ++ sort_pairs sort)
unfolding link_query page_pair size_pair has_byte
split-link_query page page_size keyword sort hk hs =
    split_pairs-link_rest (page_pair page)
      (size_pair page_size ∷ (keyword_pairs keyword ++ sort_pairs sort))
      (no_amp_key (codes "page=") (to_string page) refl (no_amp_number page))
      (
        no_amp_key (codes "page_size=") (to_string page_size) refl (no_amp_number page_size),
        All-append (HasNo b'&') (keyword_pairs keyword) (sort_pairs sort)
            (keyword_pairs-no_amp keyword hk) (sort_pairs-no_amp sort hs),
      )

-- What the pairs of a link store.
unfoldable pub store_unless : Bool → Bytes → Bytes → Params → Params
store_unless true key value params = params
store_unless false key value params = insert bytes_key key value params

unfoldable pub keyword_stored : Bytes → Params → Params
keyword_stored keyword = store_unless (bytes_eq keyword []) (codes "q") keyword

unfoldable pub sort_stored : Bytes → Params → Params
sort_stored sort = store_unless (bytes_eq sort (codes "upload-desc")) (codes "sort") sort

unfoldable pub numbers_stored : ℕ → ℕ → Params
numbers_stored page page_size =
    insert bytes_key (codes "page_size") (to_string page_size)
      (insert bytes_key (codes "page") (to_string page) [])

key_decodes :
    (key : Bytes)
    → has_byte b'+' key ≡ false
    → has_byte b'%' key ≡ false
    → decode_query_value key ≡ some key
key_decodes key hp hq = decode_plain key (has_byte-false b'+' key hp) (has_byte-false b'%' key hq)

add-page_pair :
    (page : ℕ) (params : Params)
    → add_pair (page_pair page) params
      ≡ some (insert bytes_key (codes "page") (to_string page) params)
unfolding page_pair has_byte
add-page_pair page params =
    add_pair-key b'p' (codes "age") (to_string page) (to_string page) params
      (has_byte-false b'=' (codes "page") refl) (key_decodes (codes "page") refl refl)
      (decode_number page)

add-size_pair :
    (page_size : ℕ) (params : Params)
    → add_pair (size_pair page_size) params
      ≡ some (insert bytes_key (codes "page_size") (to_string page_size) params)
unfolding size_pair has_byte
add-size_pair page_size params =
    add_pair-key b'p' (codes "age_size") (to_string page_size) (to_string page_size) params
      (has_byte-false b'=' (codes "page_size") refl) (key_decodes (codes "page_size") refl refl)
      (decode_number page_size)

add-keyword :
    (keyword : Bytes) (params : Params)
    → All IsByte keyword
    → add_pair (codes "q=" ++ url_encode keyword) params
      ≡ some (insert bytes_key (codes "q") keyword params)
unfolding has_byte
add-keyword keyword params h =
    add_pair-key b'q' [] (url_encode keyword) keyword params (has_byte-false b'=' (codes "q") refl)
      (key_decodes (codes "q") refl refl) (decode_encoded keyword h)

add-sort :
    (sort : Bytes) (params : Params)
    → All IsByte sort
    → add_pair (codes "sort=" ++ url_encode sort) params
      ≡ some (insert bytes_key (codes "sort") sort params)
unfolding has_byte
add-sort sort params h =
    add_pair-key b's' (codes "ort") (url_encode sort) sort params
      (has_byte-false b'=' (codes "sort") refl) (key_decodes (codes "sort") refl refl)
      (decode_encoded sort h)

add-keyword_pairs :
    (keyword : Bytes) (rest : List Bytes) (params : Params)
    → All IsByte keyword
    → add_pairs (keyword_pairs keyword ++ rest) params
      ≡ add_pairs rest (keyword_stored keyword params)
unfolding keyword_pairs keyword_stored store_unless
add-keyword_pairs keyword rest params h = elim (Bool-cases (bytes_eq keyword [])) [
  | inl e ↦ rw e refl
  | inr e ↦ rw e (add_pairs-cons _ rest params _ (add-keyword keyword params h))
]

add-sort_pairs :
    (sort : Bytes) (params : Params)
    → All IsByte sort
    → add_pairs (sort_pairs sort) params ≡ some (sort_stored sort params)
unfolding sort_pairs sort_stored add_pairs store_unless
add-sort_pairs sort params h = elim (Bool-cases (bytes_eq sort (codes "upload-desc"))) [
  | inl e ↦ rw e refl
  | inr e ↦ rw e (add_pairs-cons _ [] params _ (add-sort sort params h))
]

pub add-link_pairs :
    (page page_size : ℕ) (keyword sort : Bytes)
    → All IsByte keyword
    → All IsByte sort
    → add_pairs
        (page_pair page ∷ size_pair page_size ∷ (keyword_pairs keyword ++ sort_pairs sort))
        []
      ≡ some (sort_stored sort (keyword_stored keyword (numbers_stored page page_size)))
unfolding numbers_stored
add-link_pairs page page_size keyword sort hk hs =
    add_pairs-cons _ _ [] _ (add-page_pair page [])
    ∙ add_pairs-cons _ _ _ _ (add-size_pair page_size _)
    ∙ add-keyword_pairs keyword (sort_pairs sort) _ hk
    ∙ add-sort_pairs sort _ hs
