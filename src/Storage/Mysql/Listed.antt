-- ===== src/Storage/Mysql/Listed.antt =====
-- What `QueryList` of src/server/MysqlMetadataStore.hpp shows of the rows.
use native.Mathlib.Nat.{mul-le-mul_right}
use kama_asyn_log_system_clo.Base.{
  Bytes, length, take, drop, All, to_string, ℕ, zero, suc, ◌+◌, ◌-◌, ◌*◌, ◌^◌, ◌≤◌, ◌<◌, ◌≡◌, ap,
  ◌∙◌, true, Option, some, List, [], ◌∷◌, map, arith,
}
use kama_asyn_log_system_clo.Storage.Mysql.Paging.{
  page_count-Covers, IsShown, clamp_page-IsShown, page_offset-eq,
}
use kama_asyn_log_system_clo.Storage.Meta.{StorageInfo}
use kama_asyn_log_system_clo.Storage.Mysql.Text.{count_sql, list_sql}
use kama_asyn_log_system_clo.Storage.Mysql.{
  Client, Connection, Row, ListPage, column, first_row, page_count, clamp_page, page_offset,
  total_of, shown, select_rows, list_rows, list_counted, query_list,
}
use kama_asyn_log_system_clo.Storage.Mysql.Filled.{
  row_of, IsStorable, to_uint64-to_string, fill_rows-row_of,
}

-- A server that answers the two statements of a list, whatever was sent before: `COUNT(*)` with the
-- number of rows, and `LIMIT` and `OFFSET` with that part of them. `rows` are those that match the
-- keyword, in the order that was asked for.
pub record IsServing {C : Type 0} (client : Client C) (keyword sort : Bytes) (page_size : ℕ)
    (rows : List StorageInfo) : Type 0 where
  pub counted : (c : C) → (client.send_query (count_sql (client.escape c) keyword) c).0 ≡ true
  pub count_row :
      (c : C)
      → (client.store_result (client.send_query (count_sql (client.escape c) keyword) c).1).0
        ≡ some ((some (to_string (length rows)) ∷ []) ∷ [])
  pub listed :
      (c : C) (offset : ℕ)
      → offset ≤ length rows
      → (client.send_query (list_sql (client.escape c) keyword sort page_size offset) c).0 ≡ true
  pub list_part :
      (c : C) (offset : ℕ)
      → offset ≤ length rows
      → (client.store_result
          (client.send_query (list_sql (client.escape c) keyword sort page_size offset) c).1).0
        ≡ some (map row_of (take page_size (drop offset rows)))

All-take : (n : ℕ) (xs : List StorageInfo) → All IsStorable xs → All IsStorable (take n xs)
All-take zero xs h = tt
All-take (suc n) [] h = tt
All-take (suc n) (x ∷ xs) (hx, h) = (hx, All-take n xs h)

All-drop : (n : ℕ) (xs : List StorageInfo) → All IsStorable xs → All IsStorable (drop n xs)
All-drop zero xs h = h
All-drop (suc n) [] h = tt
All-drop (suc n) (x ∷ xs) (hx, h) = All-drop n xs h

module _ {C : Type 0} (client : Client C) where
  select_rows_ok :
      (sql : Bytes) (s : Connection C) (rows : List Row)
      → (client.send_query sql s.conn).0 ≡ true
      → (client.store_result (client.send_query sql s.conn).1).0 ≡ some rows
      → ((select_rows client sql s).0 ≡ some rows) × ((select_rows client sql s).1.ready ≡ s.ready)
  unfolding select_rows
  select_rows_ok sql s rows sent stored = ground arith

  query_list_ready :
      (keyword sort : Bytes) (page page_size : ℕ) (s : Connection C)
      → s.ready ≡ true
      → 1 ≤ page_size
      → query_list client keyword sort page page_size s
        ≡ list_counted client keyword sort page page_size
            (select_rows client (count_sql (client.escape s.conn) keyword) s).0
            (select_rows client (count_sql (client.escape s.conn) keyword) s).1
  unfolding query_list
  query_list_ready keyword sort page page_size s ready positive = ground arith

  list_counted-some :
      (keyword sort : Bytes) (page page_size : ℕ) (counted : Option (List Row)) (found : List Row)
      → (s : Connection C) → counted ≡ some found
      → list_counted client keyword sort page page_size counted s
        ≡ list_rows client keyword sort page page_size (total_of (first_row found)) s
  unfolding list_counted
  list_counted-some keyword sort page page_size counted found s e =
      ap (λ k. list_counted client keyword sort page page_size k s) e

-- One page: the part of the rows that `LIMIT` and `OFFSET` are asked for.
unfoldable pub page_rows : ℕ → ℕ → List StorageInfo → List StorageInfo
page_rows page_size page rows = take page_size (drop ((page - 1) * page_size) rows)

unfoldable pub page_of : ℕ → ℕ → List StorageInfo → ListPage
page_of page_size page rows = record {
  page = page;
  files = page_rows page_size page rows;
  total = length rows;
}

total_of_count : (n : ℕ) → n < 2 ^ 64 → total_of (first_row ((some (to_string n) ∷ []) ∷ [])) ≡ n
unfolding total_of first_row column
total_of_count n h = to_uint64-to_string n h

module _ {C : Type 0} {client : Client C} {keyword sort : Bytes} {page_size : ℕ}
    {rows : List StorageInfo} (serving : IsServing client keyword sort page_size rows)
    (storable : All IsStorable rows) (positive : 1 ≤ page_size)
    (fits : length rows + page_size ≤ 2 ^ 64) where
  -- What the second statement answers.
  part_shown :
      (page offset : ℕ) (s : Connection C)
      → offset ≡ (page - 1) * page_size
      → offset ≤ length rows
      → (shown page
            (length rows)
            (select_rows client (list_sql (client.escape s.conn) keyword sort page_size offset) s).0
          ≡ some (page_of page_size page rows))
        × ((select_rows client
              (list_sql (client.escape s.conn) keyword sort page_size offset)
              s).1.ready
            ≡ s.ready)
  unfolding page_of page_rows shown
  part_shown page offset s same inside =
      let answered =
        select_rows_ok client (list_sql (client.escape s.conn) keyword sort page_size offset) s
          (map row_of (take page_size (drop offset rows))) (serving.listed s.conn offset inside)
          (serving.list_part s.conn offset inside) in
      let filled =
        fill_rows-row_of (take page_size (drop offset rows))
          (All-take page_size (drop offset rows) (All-drop offset rows storable)) in
      (
        ap (shown page (length rows)) answered.0
            ∙ ap (λ f. some (record { page = page; files = f; total = length rows })) filled
            ∙ ap
                (λ o. some (record {
                  page = page;
                  files = take page_size (drop o rows);
                  total = length rows;
                }))
                same,
        answered.1,
      )

  -- The page that is shown begins inside the rows.
  page_start :
      (page : ℕ)
      → 1 ≤ page
      → page ≤ page_count (length rows) page_size
      → (page - 1) * page_size ≤ length rows
  page_start page low high =
      let covers = page_count-Covers (length rows) page_size positive fits in
      let below : page - 1 ≤ page_count (length rows) page_size - 1 = omega arith in
      omega (arith, mul-le-mul_right page_size below, covers.start)

  list_rows_page :
      (page : ℕ) (s : Connection C)
      → ((list_rows client keyword sort page page_size (length rows) s).0
          ≡ some (page_of page_size (clamp_page (page_count (length rows) page_size) page) rows))
        × ((list_rows client keyword sort page page_size (length rows) s).1.ready ≡ s.ready)
  unfolding list_rows
  list_rows_page page s = part_shown p (page_offset p page_size) s offset inside
    where
      p : ℕ
      p = clamp_page (page_count (length rows) page_size) page

      is_shown : IsShown (page_count (length rows) page_size) page p
      is_shown =
          clamp_page-IsShown (page_count (length rows) page_size) page
            (page_count-Covers (length rows) page_size positive fits).low

      start : (p - 1) * page_size ≤ length rows
      start = page_start p is_shown.low is_shown.high

      offset : page_offset p page_size ≡ (p - 1) * page_size
      offset =
          page_offset-eq p page_size (length rows) is_shown.low positive start
            (omega (arith, fits, positive))

      inside : page_offset p page_size ≤ length rows
      inside = omega (arith, offset, start)

  pub query_list_page :
      (page : ℕ) (s : Connection C)
      → s.ready ≡ true
      → ((query_list client keyword sort page page_size s).0
          ≡ some (page_of page_size (clamp_page (page_count (length rows) page_size) page) rows))
        × ((query_list client keyword sort page page_size s).1.ready ≡ true)
  query_list_page page s ready =
      let sql = count_sql (client.escape s.conn) keyword in
      let after = (select_rows client sql s).1 in
      let counted =
        select_rows_ok client sql s ((some (to_string (length rows)) ∷ []) ∷ [])
          (serving.counted s.conn) (serving.count_row s.conn) in
      let step =
        query_list_ready client keyword sort page page_size s ready positive
        ∙ list_counted-some client keyword sort page page_size _ _ after counted.0
        ∙ ap (λ n. list_rows client keyword sort page page_size n after)
            (total_of_count (length rows) (omega (arith, fits, positive))) in
      let listed = list_rows_page page after in
      (ap (λ r. r.0) step ∙ listed.0, ap (λ r. r.1.ready) step ∙ listed.1 ∙ counted.1 ∙ ready)
