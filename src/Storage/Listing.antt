-- ===== src/Storage/Listing.antt =====
-- The list page: `Handle` of src/server/ListHandler.hpp, with `std::regex_replace` of the standard
-- library as that function puts the list into the template.
pub mod Placed
pub mod Replies
pub mod Linked
mod Tests
use kama_asyn_log_system_clo.Base.{
  ◌==◌, if◌then◌else◌, Bytes, codes, starts_with, length, drop, is_digit, ℕ, zero, suc, ◌+◌, ◌-◌,
  ◌*◌, Option, none, some, [], ◌∷◌, ◌++◌,
}
use kama_asyn_log_system_clo.Storage.Path.{resolve}
use kama_asyn_log_system_clo.Storage.Disk.{file_at}
use kama_asyn_log_system_clo.Storage.Http.{
  HttpResult, reply, http_ok, http_badrequest, http_internal, Env, Service, ok_, bad_query,
  query_list_failed,
}
use kama_asyn_log_system_clo.Storage.Query.{ListQuery, parse_list_query}
use kama_asyn_log_system_clo.Storage.Mysql.{ListPage}
use kama_asyn_log_system_clo.Storage.Page.{generate_modern_file_list}

-- What the regular expression matches.
abbrev pub marker : Bytes
marker = codes "{{FILE_LIST}}"

-- A match, with what stands before it, behind the match before, and behind it.
pub record Match : Type 0 where
  pub prefix : Bytes
  pub suffix : Bytes

-- The default format of a replacement text. A `$` stands for itself where nothing that it could
-- begin follows; there are no groups, so only the number 0 names something.
pub data Format : Type 0 where
  text dollar : Format
  digit : ℕ → Format

unfoldable pub group_text : ℕ → Bytes
group_text n = if n == 0 then marker else []

-- What is written when the text ends.
unfoldable pub format_end : Format → Bytes
format_end text = []
format_end dollar = codes "$"
format_end (digit n) = group_text n

-- One byte: what is written, and what it leaves to do.
unfoldable pub format_text : ℕ → Bytes × Format
format_text c = if c == b'$' then ([], dollar) else (c ∷ [], text)

unfoldable pub format_dollar : Match → ℕ → Bytes × Format
format_dollar m c =
    if c == b'$'
    then (codes "$", text)
    else if c == b'&'
    then (marker, text)
    else if c == b'`'
    then (m.prefix, text)
    else if c == b'\''
    then (m.suffix, text)
    else if is_digit c
    then ([], digit (c - b'0'))
    else (b'$' ∷ c ∷ [], text)

unfoldable pub format_digit : ℕ → ℕ → Bytes × Format
format_digit n c =
    if is_digit c
    then (group_text (n * 10 + (c - b'0')), text)
    else (let (written, next) = format_text c in (group_text n ++ written, next))

unfoldable pub format_byte : Match → Format → ℕ → Bytes × Format
format_byte m text c = format_text c
format_byte m dollar c = format_dollar m c
format_byte m (digit n) c = format_digit n c

unfoldable pub format_match : Match → Format → Bytes → Bytes
format_match m state [] = format_end state
format_match m state (c ∷ s) =
    let (written, next) = format_byte m state c in written ++ format_match m next s

-- `regex_replace`: the bytes of a match that are still to be passed over, what has been read since
-- the last match, and the unread text.
unfoldable pub replace_loop : Bytes → ℕ → Bytes → Bytes → Bytes
replace_loop page skip prefix [] = []
replace_loop page (suc skip) prefix (c ∷ s) = replace_loop page skip prefix s
replace_loop page zero prefix (c ∷ s) =
    let found = starts_with marker (c ∷ s) in
    let skip : ℕ = if found then 12 else 0 in
    let since = if found then [] else prefix ++ c ∷ [] in
    let rest = replace_loop page skip since s in
    if found
    then format_match (record { prefix = prefix; suffix = drop 12 s }) text page ++ rest
    else c ∷ rest

unfoldable pub regex_replace : Bytes → Bytes → Bytes
regex_replace template page = replace_loop page 0 [] template

-- The reply: the result, and the body of the page where there is one.
pub record ListReply : Type 0 where
  pub result : HttpResult
  pub body : Bytes

-- `QueryList` of the store, which `DataManager::QueryList` hands on.
abbrev pub QueryStore : Type 0 → Type 0
QueryStore S = Bytes → Bytes → ℕ → ℕ → S → Option ListPage × S

-- What a stream reads of a file that may not be there.
unfoldable pub read_or_empty : Option Bytes → Bytes
read_or_empty none = []
read_or_empty (some content) = content

module _ {S : Type 0} (env : Env) (ctime : ℕ → Bytes) (store : QueryStore S) where
  -- The page for an answer of the store.
  unfoldable pub list_body : ListQuery → ListPage → Service S → Bytes
  list_body q shown service =
      regex_replace (read_or_empty (file_at service.disk (resolve (codes "index.html")))) (
        generate_modern_file_list ctime env.download_prefix shown.files shown.total shown.page
          q.page_size q.keyword q.sort)

  unfoldable pub send_list : ListQuery → Option ListPage → Service S → ListReply
  send_list q none service = record {
    result = reply http_internal query_list_failed 0;
    body = codes "query list failed";
  }
  send_list q (some shown) service =
      let body = list_body q shown service in
      record { result = reply http_ok ok_ (length body); body = body }

  unfoldable pub list_parsed : Option ListQuery → Service S → ListReply × Service S
  list_parsed none service =
      (record { result = reply http_badrequest bad_query 0; body = codes "bad query" }, service)
  list_parsed (some q) service =
      let (shown, s) = store q.keyword q.sort q.page q.page_size service.manager.store in
      (send_list q shown service, record service { manager = record service.manager { store = s } })

  -- `Handle`, of the query of the URI.
  unfoldable pub handle_list : Option Bytes → Service S → ListReply × Service S
  handle_list raw_query service = list_parsed (parse_list_query raw_query) service
