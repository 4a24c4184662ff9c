-- ===== src/Storage/Url.antt =====
-- Percent coding: `IsHex`, `FromHex` and `UrlDecode` of src/server/Util.hpp, and
-- `UrlEncodePathSegment` of src/server/HttpUtil.hpp.
pub mod RoundTrip
mod Tests
use kama_asyn_log_system_clo.Base.{
  ℕ, ◌+◌, ◌-◌, ◌*◌, ◌/◌, ◌%◌, Bool, not, ◌&&◌, ◌||◌, [], ◌∷◌, ◌++◌, Option, none, some, Bytes,
  codes, leb, ◌==◌, if◌then◌else◌, get_or,
}

unfoldable pub is_hex : ℕ → Bool
is_hex x = (leb b'A' x && leb x b'F') || (leb b'a' x && leb x b'f') || (leb b'0' x && leb x b'9')

unfoldable pub from_hex : ℕ → ℕ
from_hex x =
    if leb b'A' x && leb x b'Z'
    then x - b'A' + 10
    else if leb b'a' x && leb x b'z'
    then x - b'a' + 10
    else if leb b'0' x && leb x b'9'
    then x - b'0'
    else 0

-- The loop of `UrlDecode`: the unread text and `*out`; `none` is `return false`. The sum of the
-- two digits is converted to a `char`.
unfoldable pub decode_loop : Bytes → Bytes → Option Bytes
unfolding is_hex from_hex
decode_loop [] out = some out
decode_loop (c ∷ []) out = if c == b'%' then none else some (out ++ c ∷ [])
decode_loop (c ∷ h ∷ []) out =
    let plain = decode_loop (h ∷ []) (out ++ c ∷ []) in if c == b'%' then none else plain
decode_loop (c ∷ h ∷ l ∷ s) out =
    let plain = decode_loop (h ∷ l ∷ s) (out ++ c ∷ []) in
    let coded = decode_loop s (out ++ ((from_hex h * 16 + from_hex l) % 256) ∷ []) in
    if c == b'%' then (if not (is_hex h) || not (is_hex l) then none else coded) else plain

unfoldable pub url_decode : Bytes → Option Bytes
unfolding decode_loop
url_decode str = decode_loop str []

-- `std::isalnum` of the C locale, or one of the three marks that stay.
unfoldable pub is_unreserved : ℕ → Bool
is_unreserved ch =
    (leb b'0' ch && leb ch b'9')
    || (leb b'A' ch && leb ch b'Z')
    || (leb b'a' ch && leb ch b'z')
    || (ch == b'-')
    || (ch == b'_')
    || (ch == b'.')

-- `hex[n]`
unfoldable pub hex_digit : ℕ → ℕ
hex_digit n = get_or (codes "0123456789ABCDEF") n 0

unfoldable pub encode_byte : ℕ → Bytes
unfolding is_unreserved hex_digit
encode_byte ch =
    if is_unreserved ch then ch ∷ [] else b'%' ∷ hex_digit (ch / 16) ∷ hex_digit (ch % 16) ∷ []

-- The loop of `UrlEncodePathSegment` over the input and `output`.
unfoldable pub encode_loop : Bytes → Bytes → Bytes
unfolding encode_byte
encode_loop [] output = output
encode_loop (ch ∷ s) output = encode_loop s (output ++ encode_byte ch)

unfoldable pub url_encode : Bytes → Bytes
unfolding encode_loop
url_encode input = encode_loop input []
