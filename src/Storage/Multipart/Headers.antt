-- ===== src/Storage/Multipart/Headers.antt =====
-- How the handlers of src/server/MultipartUploadHandler.hpp read a request: `HeaderSize`,
-- `QueryParam` and `ReadBody`.
use kama_asyn_log_system_clo.Base.{
  ◌==◌, if◌then◌else◌, Bytes, bytes_eq, length, Numeral, scan, unsigned_overflow, unsigned_value, ℕ,
  ◌^◌, ◌<◌, ◌≡◌, Bool, not, ◌||◌, Option, none, some, List, [], ◌∷◌, arith,
}
use kama_asyn_log_system_clo.Storage.Url.{url_decode}
use kama_asyn_log_system_clo.Storage.Query.{split_pairs, cut_at, value_or_empty}

-- The number of a header; a number that does not fit a `size_t` is refused.
unfoldable pub size_of_numeral : Option Numeral → Option ℕ
size_of_numeral none = none
size_of_numeral (some x) =
    if unsigned_overflow x || not (bytes_eq x.behind []) then none else some (unsigned_value x)

-- `HeaderSize`; the argument is `none` for a missing header, the result for `return false`.
unfoldable pub header_size : Option Bytes → Option ℕ
header_size none = none
header_size (some header) = size_of_numeral (scan header)

-- The value of the first part with the key, which is compared undecoded; a value that cannot be
-- decoded is empty.
unfoldable pub decoded_or_empty : Option Bytes → Bytes
decoded_or_empty none = []
decoded_or_empty (some decoded) = decoded

unfoldable pub find_param : Bytes → List Bytes → Bytes
find_param name [] = []
find_param name (part ∷ parts) =
    let (key, behind) = cut_at b'=' part in
    if bytes_eq key name
    then decoded_or_empty (url_decode (value_or_empty behind))
    else find_param name parts

-- `QueryParam`, of the query of the URI.
unfoldable pub query_param : Option Bytes → Bytes → Bytes
query_param none name = []
query_param (some raw) name = find_param name (split_pairs raw)

-- `ReadBody`: the buffer, and whether `evbuffer_copyout` works; `none` is `return false`.
unfoldable pub read_body : Option Bytes → Bool → Option Bytes
read_body none works = none
read_body (some content) works =
    if length content == 0 then some [] else if works then some content else none

size_of_numeral-lt : (x : Option Numeral) (n : ℕ) → size_of_numeral x ≡ some n → n < 2 ^ 64
unfolding size_of_numeral unsigned_overflow unsigned_value
size_of_numeral-lt none n h = cc
size_of_numeral-lt (some x) n h = ground arith

-- A number that `HeaderSize` accepts fits a `size_t`.
pub header_size-lt : (header : Option Bytes) (n : ℕ) → header_size header ≡ some n → n < 2 ^ 64
unfolding header_size
header_size-lt none n h = cc
header_size-lt (some header) n h = size_of_numeral-lt (scan header) n h
