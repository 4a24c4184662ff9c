-- ===== src/Storage/Mysql/Filled.antt =====
-- A row that MySQL prints is read back: `FillInfo` of src/server/MysqlMetadataStore.hpp.
use kama_asyn_log_system_clo.Base.{
  Bytes, All, to_string, signed_string, c_string, scan, unsigned_overflow, unsigned_value,
  signed_value, ℕ, ◌^◌, ◌<◌, ◌≡◌, refl, ap, ◌∙◌, ◌≢◌, none, some, List, [], ◌∷◌, map, arith,
}
use kama_asyn_log_system_clo.Base.Numerals.Printed.{scan-to_string, whole}
use kama_asyn_log_system_clo.Storage.Meta.{StorageInfo}
use kama_asyn_log_system_clo.Storage.Mysql.{
  Row, numeral_or_zero, to_uint64, to_int64, text_column, column, fill_info, fill_rows,
}

-- The columns of a row as the client library hands them out, in the order of `SelectColumns`.
unfoldable pub row_of : StorageInfo → Row
row_of info =
    some info.url
    ∷ some info.storage_path
    ∷ some (to_string info.fsize)
    ∷ some (to_string info.original_size)
    ∷ some (to_string info.stored_size)
    ∷ some (signed_string info.mtime)
    ∷ some (signed_string info.atime)
    ∷ some (signed_string info.upload_time)
    ∷ some info.content_type
    ∷ []

abbrev HasNoNul : Bytes → Type 0
HasNoNul s = All (λ c. c ≢ 0) s

-- Texts with no NUL, sizes of 64 bits, and times from 1970 on.
pub record IsStorable (info : StorageInfo) : Type 0 where
  pub url_text : HasNoNul info.url
  pub path_text : HasNoNul info.storage_path
  pub type_text : HasNoNul info.content_type
  pub fsize_fits : info.fsize < 2 ^ 64
  pub original_fits : info.original_size < 2 ^ 64
  pub stored_fits : info.stored_size < 2 ^ 64
  pub mtime_fits : info.mtime < 2 ^ 63
  pub atime_fits : info.atime < 2 ^ 63
  pub upload_fits : info.upload_time < 2 ^ 63

c_string_whole : (s : Bytes) → HasNoNul s → c_string s ≡ s
unfolding c_string
c_string_whole [] h = refl
c_string_whole (c ∷ s) (hc, h) = ground (arith, c_string_whole s h)

unsigned_whole : (n : ℕ) → n < 2 ^ 64 → unsigned_value (whole n) ≡ n
unfolding unsigned_value unsigned_overflow
unsigned_whole n h = ground arith

signed_whole : (n : ℕ) → n < 2 ^ 63 → signed_value (whole n) ≡ n
unfolding signed_value
signed_whole n h = ground arith

signed_string_whole : (n : ℕ) → n < 2 ^ 63 → signed_string n ≡ to_string n
unfolding signed_string
signed_string_whole n h = ground arith

pub to_uint64-to_string : (n : ℕ) → n < 2 ^ 64 → to_uint64 (some (to_string n)) ≡ n
unfolding to_uint64 numeral_or_zero
to_uint64-to_string n h =
    ap (numeral_or_zero unsigned_value) (scan-to_string n (omega arith)) ∙ unsigned_whole n h

to_int64-signed_string : (n : ℕ) → n < 2 ^ 63 → to_int64 (some (signed_string n)) ≡ n
unfolding to_int64 numeral_or_zero
to_int64-signed_string n h =
    ap (λ s. numeral_or_zero signed_value (scan s)) (signed_string_whole n h)
    ∙ ap (numeral_or_zero signed_value) (scan-to_string n (omega arith))
    ∙ signed_whole n h

-- A row of a file is filled in as that file.
pub fill_info-row_of :
    (info : StorageInfo) → IsStorable info → fill_info (some (row_of info)) ≡ some info
unfolding fill_info row_of column text_column
fill_info-row_of info h =
    let a = c_string_whole info.url h.url_text in
    let b = c_string_whole info.storage_path h.path_text in
    let c = c_string_whole info.content_type h.type_text in
    let d = to_uint64-to_string info.fsize h.fsize_fits in
    let e = to_uint64-to_string info.original_size h.original_fits in
    let f = to_uint64-to_string info.stored_size h.stored_fits in
    let g = to_int64-signed_string info.mtime h.mtime_fits in
    let i = to_int64-signed_string info.atime h.atime_fits in
    let j = to_int64-signed_string info.upload_time h.upload_fits in cc

pub fill_rows-row_of :
    (infos : List StorageInfo) → All IsStorable infos → fill_rows (map row_of infos) ≡ infos
unfolding fill_rows
fill_rows-row_of [] h = refl
fill_rows-row_of (info ∷ infos) (hi, h) =
    ap
      (λ filled. elim filled [
        | none ↦ fill_rows (map row_of infos)
        | some i ↦ i ∷ fill_rows (map row_of infos)
      ])
      (fill_info-row_of info hi)
    ∙ ap (λ r. info ∷ r) (fill_rows-row_of infos h)
