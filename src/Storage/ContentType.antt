-- ===== src/Storage/ContentType.antt =====
-- `NormalizeContentType` of src/server/HttpUtil.hpp.
pub mod Normal
mod Tests
use kama_asyn_log_system_clo.Base.{
  ltb, ◌==◌, if◌then◌else◌, Bytes, codes, length, take, ◌||◌, Option, none, some, [], ◌∷◌, ℕ,
}

abbrev pub octet_stream : Bytes
octet_stream = codes "application/octet-stream"

-- The loop over the bytes: a control byte becomes a space.
unfoldable pub blank_controls : Bytes → Bytes
blank_controls [] = []
blank_controls (ch ∷ s) = (if ltb ch 32 || (ch == 127) then b' ' else ch) ∷ blank_controls s

-- `if (s.size() > n) s.resize(n)`
unfoldable pub shorten : ℕ → Bytes → Bytes
shorten n s = if ltb n (length s) then take n s else s

-- `none` is a null pointer.
unfoldable pub normalize_content_type : Option Bytes → Bytes
unfolding blank_controls shorten
normalize_content_type none = octet_stream
normalize_content_type (some []) = octet_stream
normalize_content_type (some (c ∷ s)) = blank_controls (shorten 128 (c ∷ s))
