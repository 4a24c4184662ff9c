-- ===== src/Storage/Mysql/AllPages.antt =====
-- The pages of `QueryList` of src/server/MysqlMetadataStore.hpp, one after the other.
use kama_asyn_log_system_clo.Base.{
  Bytes, length, take, drop, take_all, All, ℕ, zero, suc, ◌+◌, ◌-◌, ◌*◌, ◌^◌, ◌≤◌, ◌≡◌, refl, sym,
  ap, ap₂, ◌∙◌, true, Option, none, some, List, [], ◌∷◌, ◌++◌, arith,
}
use kama_asyn_log_system_clo.Storage.Meta.{StorageInfo}
use kama_asyn_log_system_clo.Storage.Mysql.{Client, Connection, ListPage, page_count, query_list}
use kama_asyn_log_system_clo.Storage.Mysql.Paging.{page_count-Covers, clamp_page-IsShown}
use kama_asyn_log_system_clo.Storage.Mysql.Filled.{IsStorable}
use kama_asyn_log_system_clo.Storage.Mysql.Listed.{IsServing, page_rows, page_of, query_list_page}

unfoldable pub files_of : Option ListPage → List StorageInfo
files_of none = []
files_of (some shown) = shown.files

-- The files of so many pages from one on, each asked for with the connection that the one before
-- left.
unfoldable pub walk_pages :
    {C : Type 0} → Client C → Bytes → Bytes → ℕ → (pages from : ℕ) → Connection C → List StorageInfo
walk_pages client keyword sort page_size zero from s = []
walk_pages client keyword sort page_size (suc pages) from s =
    let (shown, s') = query_list client keyword sort from page_size s in
    files_of shown ++ walk_pages client keyword sort page_size pages (from + 1) s'

take_sum :
    (n m k : ℕ) (xs : List StorageInfo) → k ≡ n + m → take k xs ≡ take n xs ++ take m (drop n xs)
take_sum zero m k xs e = ap (λ j. take j xs) (omega (arith, e))
take_sum (suc n) m k [] e = take_all k [] (omega arith) ∙ sym (take_all m [] (omega arith))
take_sum (suc n) m zero (x ∷ xs) e = absurd (omega arith)
take_sum (suc n) m (suc k) (x ∷ xs) e = ap (λ r. x ∷ r) (take_sum n m k xs (omega arith))

drop_nil : (n : ℕ) → drop {A = StorageInfo} n [] ≡ []
drop_nil zero = refl
drop_nil (suc n) = refl

drop_sum : (n m k : ℕ) (xs : List StorageInfo) → k ≡ n + m → drop m (drop n xs) ≡ drop k xs
drop_sum zero m k xs e = ap (λ j. drop j xs) (omega (arith, e))
drop_sum (suc n) m k [] e = drop_nil m ∙ sym (drop_nil k)
drop_sum (suc n) m zero (x ∷ xs) e = absurd (omega arith)
drop_sum (suc n) m (suc k) (x ∷ xs) e = drop_sum n m k xs (omega arith)

module _ {C : Type 0} {client : Client C} {keyword sort : Bytes} {page_size : ℕ}
    {rows : List StorageInfo} (serving : IsServing client keyword sort page_size rows)
    (storable : All IsStorable rows) (positive : 1 ≤ page_size)
    (fits : length rows + page_size ≤ 2 ^ 64) where
  walk_pages-part :
      (pages before : ℕ) (s : Connection C)
      → s.ready ≡ true
      → before + pages ≤ page_count (length rows) page_size
      → walk_pages client keyword sort page_size pages (suc before) s
        ≡ take (pages * page_size) (drop (before * page_size) rows)
  unfolding walk_pages page_of page_rows files_of
  walk_pages-part zero before s ready h =
      ap (λ n. take n (drop (before * page_size) rows)) {x = 0} (omega arith)
  walk_pages-part (suc pages) before s ready h =
      let (shown, kept) = query_list_page serving storable positive fits (suc before) s ready in
      let clamped =
        (clamp_page-IsShown (page_count (length rows) page_size) (suc before)
            (page_count-Covers (length rows) page_size positive fits).low).kept
          (omega arith) (omega arith) in
      let s' = (query_list client keyword sort (suc before) page_size s).1 in
      let rest = walk_pages-part pages (suc before) s' kept (omega arith) in
      ap₂ ◌++◌
        (ap files_of shown
          ∙ ap (λ p. page_rows page_size p rows) clamped
          ∙ ap (λ n. take page_size (drop (n * page_size) rows)) {x = suc before - 1} (omega arith))
        (ap (λ n. walk_pages client keyword sort page_size pages n s') {x = suc before + 1}
            (omega arith)
          ∙ rest
          ∙ ap (take (pages * page_size)) (
              sym (
                drop_sum (before * page_size) page_size (suc before * page_size) rows
                  (omega arith))))
      ∙ sym (
          take_sum page_size (pages * page_size) (suc pages * page_size)
            (drop (before * page_size) rows) (omega arith))

  -- Let the connection be ready, and let the server answer the two statements of a list for one
  -- keyword, order and page size with the number of the matching rows and with the part of them
  -- that `LIMIT` and `OFFSET` name. Let each row fit its columns' types, let the page size be at
  -- least 1, and the number of rows with one page more at most 2 ^ 64. Then every row is shown on
  -- exactly one page, and in order: the pages from 1 to the number of pages that `QueryList`
  -- computes, one after the other, are the rows.
  pub walk_pages_all :
      (s : Connection C)
      → s.ready ≡ true
      → walk_pages client keyword sort page_size (page_count (length rows) page_size) 1 s ≡ rows
  walk_pages_all s ready =
      walk_pages-part (page_count (length rows) page_size) 0 s ready (omega arith)
      ∙ ap (λ n. take (page_count (length rows) page_size * page_size) (drop n rows))
          {x = 0 * page_size} {y = 0} (omega arith)
      ∙ take_all (page_count (length rows) page_size * page_size) rows
          (page_count-Covers (length rows) page_size positive fits).enough
