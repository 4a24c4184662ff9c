-- ===== src/Storage/Query/Link.antt =====
-- The links between the pages: `BuildPageLink` of src/server/PageRender.hpp, and what
-- `ParseListQuery` of src/server/ListHandler.hpp reads from them.
use kama_asyn_log_system_clo.Base.{
  if◌then◌else◌, Bool-cases, Bytes, codes, bytes_eq, to_string, ℕ, ◌≡◌, refl, sym, ap, ap₂, ◌∙◌,
  inl, inr, not, List, [], ◌∷◌, ◌++◌, append-nil, append_assoc, arith,
}
use kama_asyn_log_system_clo.Storage.Url.{url_encode}
use kama_asyn_log_system_clo.Storage.Query.Pairs.{link_rest}

-- `BuildPageLink`, which the page calls with each of its parts.
unfoldable pub build_page_link : ℕ → ℕ → Bytes → Bytes → Bytes
build_page_link page page_size keyword sort =
    let keyword_part : Bytes =
      (if not (bytes_eq keyword []) then codes "&q=" ++ url_encode keyword else []) in
    let sort_part : Bytes =
      (if not (bytes_eq sort (codes "upload-desc"))
        then codes "&sort=" ++ url_encode sort
        else []) in
    codes "/?page="
    ++ (to_string page
        ++ (codes "&page_size=" ++ (to_string page_size ++ (keyword_part ++ sort_part))))

unfoldable pub keyword_pairs : Bytes → List Bytes
keyword_pairs keyword = if bytes_eq keyword [] then [] else (codes "q=" ++ url_encode keyword) ∷ []

unfoldable pub sort_pairs : Bytes → List Bytes
sort_pairs sort =
    if bytes_eq sort (codes "upload-desc") then [] else (codes "sort=" ++ url_encode sort) ∷ []

unfoldable pub page_pair : ℕ → Bytes
page_pair page = codes "page=" ++ to_string page

unfoldable pub size_pair : ℕ → Bytes
size_pair page_size = codes "page_size=" ++ to_string page_size

-- The query of a link.
unfoldable pub link_query : ℕ → ℕ → Bytes → Bytes → Bytes
link_query page page_size keyword sort =
    page_pair page ++ link_rest (size_pair page_size ∷ (keyword_pairs keyword ++ sort_pairs sort))

link_rest-append : (a b : List Bytes) → link_rest (a ++ b) ≡ link_rest a ++ link_rest b
unfolding link_rest
link_rest-append [] b = refl
link_rest-append (p ∷ a) b =
    ap (λ k. b'&' ∷ (p ++ k)) (link_rest-append a b)
    ∙ sym (ap (λ k. b'&' ∷ k) (append_assoc p (link_rest a) (link_rest b)))

link_rest_keyword :
    (keyword : Bytes)
    → (if not (bytes_eq keyword []) then codes "&q=" ++ url_encode keyword else [])
      ≡ link_rest (keyword_pairs keyword)
unfolding link_rest keyword_pairs
link_rest_keyword keyword = ground (arith, append-nil (url_encode keyword))

link_rest_sort :
    (sort : Bytes)
    → (if not (bytes_eq sort (codes "upload-desc")) then codes "&sort=" ++ url_encode sort else [])
      ≡ link_rest (sort_pairs sort)
unfolding link_rest sort_pairs
link_rest_sort sort = elim (Bool-cases (bytes_eq sort (codes "upload-desc"))) [
  | inl e ↦ rw e refl
  | inr e ↦ rw e (ap (λ k. codes "&sort=" ++ k) (sym (append-nil (url_encode sort))))
]

pub build_page_link-query :
    (page page_size : ℕ) (keyword sort : Bytes)
    → build_page_link page page_size keyword sort
      ≡ codes "/?" ++ link_query page page_size keyword sort
unfolding build_page_link link_query page_pair size_pair link_rest
build_page_link-query page page_size keyword sort =
    ap
      (λ k.
        codes "/?page=" ++ (to_string page ++ (codes "&page_size=" ++ (to_string page_size ++ k))))
      (ap₂ ◌++◌ (link_rest_keyword keyword) (link_rest_sort sort)
        ∙ sym (link_rest-append (keyword_pairs keyword) (sort_pairs sort)))
