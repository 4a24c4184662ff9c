-- ===== src/Storage/Html.antt =====
-- `HtmlEscape` of src/server/HttpUtil.hpp.
pub mod Escape
mod Tests
use kama_asyn_log_system_clo.Base.{◌==◌, if◌then◌else◌, Bytes, codes, ℕ, [], ◌∷◌, ◌++◌}

-- What one round of the loop appends.
unfoldable pub escape_byte : ℕ → Bytes
escape_byte ch =
    if ch == b'&'
    then codes "&amp;"
    else if ch == b'<'
    then codes "&lt;"
    else if ch == b'>'
    then codes "&gt;"
    else if ch == b'"'
    then codes "&quot;"
    else if ch == b'\''
    then codes "&#39;"
    else ch ∷ []

unfoldable pub escape_loop : Bytes → Bytes → Bytes
unfolding escape_byte
escape_loop [] output = output
escape_loop (ch ∷ s) output = escape_loop s (output ++ escape_byte ch)

unfoldable pub html_escape : Bytes → Bytes
unfolding escape_loop
html_escape input = escape_loop input []
