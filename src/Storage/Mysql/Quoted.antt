-- ===== src/Storage/Mysql/Quoted.antt =====
-- What the MySQL server takes for the texts in a statement of src/server/MysqlMetadataStore.hpp.
use kama_asyn_log_system_clo.Base.{
  ◌==◌, if◌then◌else◌, Bool-cases, Bytes, codes, bytes_eq, has_byte, has_byte-false, All, All-imp,
  to_string, signed_string, ℕ, ◌-◌, ◌^◌, ◌≡◌, refl, sym, ap, ◌∙◌, ◌≢◌, inl, inr, Bool, true, false,
  [], ◌∷◌, ◌++◌, arith,
}
use kama_asyn_log_system_clo.Base.Numerals.Printed.{IsDigit, to_string-IsDigit}
use kama_asyn_log_system_clo.Storage.Meta.{StorageInfo}
use kama_asyn_log_system_clo.Storage.Mysql.Text.{
  select_columns, quoted, number, signed, upsert_sql, list_where_sql, count_sql, delete_sql,
  list_sql, select_one_sql,
}

-- Outside a literal, inside one, and behind a backslash inside one.
pub data Place : Type 0 where
  outside inside escaped_inside : Place

unfoldable pub next_place : Place → ℕ → Place
next_place outside c = if c == b'\'' then inside else outside
next_place inside c = if c == b'\\' then escaped_inside else if c == b'\'' then outside else inside
next_place escaped_inside c = inside

unfoldable pub is_shown : Place → ℕ → Bool
is_shown outside c = true
is_shown inside c = c == b'\''
is_shown escaped_inside c = false

-- The statement without the contents of its literals.
unfoldable pub skeleton : Place → Bytes → Bytes
unfolding next_place is_shown
skeleton place [] = []
skeleton place (c ∷ s) =
    let rest = skeleton (next_place place c) s in if is_shown place c then c ∷ rest else rest

-- What the documentation of `mysql_real_escape_string` promises: the escaped text may stand in a
-- literal, which it neither ends nor leaves at an open backslash.
abbrev pub IsEscape : (Bytes → Bytes) → Type 0
IsEscape escape = (s rest : Bytes) → skeleton inside (escape s ++ rest) ≡ skeleton inside rest

skeleton_quote :
    (escape : Bytes → Bytes) (text rest : Bytes)
    → IsEscape escape
    → skeleton outside (quoted escape text rest) ≡ codes "''" ++ skeleton outside rest
unfolding skeleton quoted next_place is_shown
skeleton_quote escape text rest h = ap (λ k. b'\'' ∷ k) (h text (b'\'' ∷ rest))

abbrev NoQuote : Bytes → Type 0
NoQuote s = All (λ c. c ≢ b'\'') s

skeleton_plain :
    (s rest : Bytes) → NoQuote s → skeleton outside (s ++ rest) ≡ s ++ skeleton outside rest
unfolding skeleton next_place is_shown
skeleton_plain [] rest h = refl
skeleton_plain (c ∷ s) rest (hc, h) = ground (arith, skeleton_plain s rest h)

skeleton_literal :
    (s rest : Bytes)
    → has_byte b'\'' s ≡ false
    → skeleton outside (s ++ rest) ≡ s ++ skeleton outside rest
skeleton_literal s rest h = skeleton_plain s rest (has_byte-false b'\'' s h)

number_plain : (n : ℕ) → NoQuote (to_string n)
number_plain n = All-imp IsDigit _ (λ c h. omega arith) (to_string n) (to_string-IsDigit n)

signed_plain : (n : ℕ) → NoQuote (signed_string n)
unfolding signed_string
signed_plain n = ground (arith, number_plain n, number_plain (2 ^ 64 - n))

-- Statements with the same skeleton.
pub record Alike (a b : Bytes) : Type 0 where
  pub same : skeleton outside a ≡ skeleton outside b

Alike-refl : (a : Bytes) → Alike a a
Alike-refl a = record { same = refl }

Alike-literal :
    (s : Bytes) {a b : Bytes} → has_byte b'\'' s ≡ false → Alike a b → Alike (s ++ a) (s ++ b)
Alike-literal s {a} {b} h e = record {
  same = skeleton_literal s a h ∙ ap (λ k. s ++ k) e.same ∙ sym (skeleton_literal s b h);
}

Alike-number : (n : ℕ) {a b : Bytes} → Alike a b → Alike (number n a) (number n b)
unfolding number
Alike-number n {a} {b} e = record {
  same =
      skeleton_plain (to_string n) a (number_plain n)
      ∙ ap (λ k. to_string n ++ k) e.same
      ∙ sym (skeleton_plain (to_string n) b (number_plain n));
}

Alike-signed : (n : ℕ) {a b : Bytes} → Alike a b → Alike (signed n a) (signed n b)
unfolding signed
Alike-signed n {a} {b} e = record {
  same =
      skeleton_plain (signed_string n) a (signed_plain n)
      ∙ ap (λ k. signed_string n ++ k) e.same
      ∙ sym (skeleton_plain (signed_string n) b (signed_plain n));
}

like_text : Bytes → Bytes → Bytes
like_text escaped rest = codes " WHERE storage_path LIKE '%" ++ (escaped ++ (codes "%'" ++ rest))

where_none :
    (escape : Bytes → Bytes) (keyword rest : Bytes)
    → bytes_eq keyword [] ≡ true
    → list_where_sql escape keyword rest ≡ rest
unfolding list_where_sql
where_none escape keyword rest h = rw h refl

where_some :
    (escape : Bytes → Bytes) (keyword rest : Bytes)
    → bytes_eq keyword [] ≡ false
    → list_where_sql escape keyword rest ≡ like_text (escape keyword) rest
unfolding list_where_sql like_text
where_some escape keyword rest h = rw h refl

like_skeleton :
    (escape : Bytes → Bytes) (keyword rest : Bytes)
    → IsEscape escape
    → skeleton outside (like_text (escape keyword) rest)
      ≡ codes " WHERE storage_path LIKE ''" ++ skeleton outside rest
unfolding skeleton next_place is_shown like_text
like_skeleton escape keyword rest h =
    ap (λ k. codes " WHERE storage_path LIKE '" ++ k) (h keyword (codes "%'" ++ rest))

-- The reference: an `Escape` that leaves nothing of a text.
abbrev pub blank : Bytes → Bytes
blank s = []

module _ (escape : Bytes → Bytes) (h : IsEscape escape) where
  Alike-quoted :
      (text : Bytes) {a b : Bytes} → Alike a b → Alike (quoted escape text a) (quoted blank text b)
  Alike-quoted text {a} {b} e = record {
    same =
        skeleton_quote escape text a h
        ∙ ap (λ k. codes "''" ++ k) e.same
        ∙ sym (skeleton_quote blank text b (λ s rest. refl));
  }

  Alike-where :
      (keyword : Bytes) {a b : Bytes}
      → Alike a b
      → Alike (list_where_sql escape keyword a) (list_where_sql blank keyword b)
  Alike-where keyword {a} {b} e = record {
    same = elim (Bool-cases (bytes_eq keyword [])) [
      | inl x ↦
          ap (skeleton outside) (where_none escape keyword a x)
          ∙ e.same
          ∙ sym (ap (skeleton outside) (where_none blank keyword b x))
      | inr x ↦
          ap (skeleton outside) (where_some escape keyword a x)
          ∙ like_skeleton escape keyword a h
          ∙ ap (λ k. codes " WHERE storage_path LIKE ''" ++ k) e.same
          ∙ sym (like_skeleton blank keyword b (λ s rest. refl))
          ∙ sym (ap (skeleton outside) (where_some blank keyword b x))
    ];
  }

  -- The texts of a file cannot change the statement that stores its row.
  pub upsert_sql-skeleton :
      (info : StorageInfo) → Alike (upsert_sql escape info) (upsert_sql blank info)
  unfolding upsert_sql has_byte
  upsert_sql-skeleton info = Alike-literal upsert_head refl (
      Alike-quoted info.url (
        Alike-literal comma refl (
          Alike-quoted info.storage_path (
            Alike-literal comma refl (
              Alike-number info.fsize (
                Alike-literal comma refl (
                  Alike-number info.original_size (
                    Alike-literal comma refl (
                      Alike-number info.stored_size (
                        Alike-literal comma refl (
                          Alike-signed info.mtime (
                            Alike-literal comma refl (
                              Alike-signed info.atime (
                                Alike-literal comma refl (
                                  Alike-signed info.upload_time (
                                    Alike-literal comma refl (
                                      Alike-quoted info.content_type (Alike-refl _))))))))))))))))))
    where
      comma : Bytes
      comma = codes ","

      upsert_head : Bytes
      upsert_head = codes "INSERT INTO file_metadata (" ++ (select_columns ++ codes ") VALUES (")

  delete_sql-skeleton : (key : Bytes) → Alike (delete_sql escape key) (delete_sql blank key)
  unfolding delete_sql has_byte
  delete_sql-skeleton key =
      Alike-literal (codes "DELETE FROM file_metadata WHERE url=") refl
        (Alike-quoted key (Alike-refl _))

  select_one_sql-skeleton :
      (key : Bytes) → Alike (select_one_sql escape key) (select_one_sql blank key)
  unfolding select_one_sql has_byte
  select_one_sql-skeleton key =
      Alike-literal (codes "SELECT " ++ (select_columns ++ codes " FROM file_metadata WHERE url="))
        refl (Alike-quoted key (Alike-refl _))

  count_sql-skeleton :
      (keyword : Bytes) → Alike (count_sql escape keyword) (count_sql blank keyword)
  unfolding count_sql has_byte
  count_sql-skeleton keyword =
      Alike-literal (codes "SELECT COUNT(*) FROM file_metadata") refl
        (Alike-where keyword (Alike-refl _))

  list_sql-skeleton :
      (keyword sort : Bytes) (page_size offset : ℕ)
      → Alike
          (list_sql escape keyword sort page_size offset)
          (list_sql blank keyword sort page_size offset)
  unfolding list_sql has_byte
  list_sql-skeleton keyword sort page_size offset =
      Alike-literal (codes "SELECT " ++ (select_columns ++ codes " FROM file_metadata")) refl
        (Alike-where keyword (Alike-refl _))

  -- With an `Escape` that keeps what `mysql_real_escape_string` documents, no text of a file or of
  -- a request changes a statement: without the contents of its literals, each of the five is what
  -- the same code builds for the same arguments with an `Escape` that returns the empty text for
  -- every text. The numbers, the order, and the WHERE of a keyword that is not empty stay.
  pub statements-skeleton :
      (info : StorageInfo) (text sort : Bytes) (page_size offset : ℕ)
      → Alike (upsert_sql escape info) (upsert_sql blank info)
        × Alike (delete_sql escape text) (delete_sql blank text)
        × Alike (select_one_sql escape text) (select_one_sql blank text)
        × Alike (count_sql escape text) (count_sql blank text)
        × Alike
            (list_sql escape text sort page_size offset)
            (list_sql blank text sort page_size offset)
  statements-skeleton info text sort page_size offset = (
    upsert_sql-skeleton info,
    delete_sql-skeleton text,
    select_one_sql-skeleton text,
    count_sql-skeleton text,
    list_sql-skeleton text sort page_size offset,
  )
