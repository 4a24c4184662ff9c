-- ===== src/Storage/FileName.antt =====
-- `IsSafeFileName` of src/server/HttpUtil.hpp and `FileUtil::FileName` of src/server/Util.hpp.
pub mod Safe
mod Tests
use kama_asyn_log_system_clo.Base.{
  ltb, ◌==◌, if◌then◌else◌, Bytes, codes, bytes_eq, has_byte, has_text, length, Bool, false, not,
  ◌||◌, [], ◌∷◌, ◌++◌,
}

-- The loop over the bytes: no control byte and no DEL.
unfoldable pub has_control : Bytes → Bool
has_control [] = false
has_control (ch ∷ s) = ltb ch 32 || (ch == 127) || has_control s

unfoldable pub is_safe_file_name : Bytes → Bool
unfolding has_control has_byte has_text bytes_eq
is_safe_file_name filename =
    if bytes_eq filename [] || ltb 255 (length filename)
    then false
    else if bytes_eq filename (codes ".") || bytes_eq filename (codes "..")
    then false
    else if has_byte b'/' filename || has_byte b'\\' filename || has_text (codes "..") filename
    then false
    else not (has_control filename)

-- `FileName()`: what stands behind the last slash. The second argument is what has been read since
-- the last slash.
unfoldable pub after_slash : Bytes → Bytes → Bytes
after_slash [] name = name
after_slash (c ∷ s) name = after_slash s (if c == b'/' then [] else name ++ c ∷ [])

unfoldable pub file_name : Bytes → Bytes
unfolding after_slash
file_name path = after_slash path []
