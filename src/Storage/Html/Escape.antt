-- ===== src/Storage/Html/Escape.antt =====
-- Escaped text holds no markup and loses nothing: `HtmlEscape` of src/server/HttpUtil.hpp.
use kama_asyn_log_system_clo.Base.{
  Bytes, IsByte, All, All-append, ℕ, ◌≡◌, refl, sym, ap₂, ◌∙◌, ◌≢◌, [], ◌∷◌, ◌++◌, append-nil,
  append_assoc, arith,
}
use kama_asyn_log_system_clo.Storage.Url.{url_encode, is_unreserved}
use kama_asyn_log_system_clo.Storage.Url.RoundTrip.{IsPlain, url_encode-IsPlain}
use kama_asyn_log_system_clo.Storage.Html.{escape_byte, escape_loop, html_escape}

pub escaped : Bytes → Bytes
escaped [] = []
escaped (c ∷ s) = escape_byte c ++ escaped s

escape_loop-escaped : (s out : Bytes) → escape_loop s out ≡ out ++ escaped s
unfolding escape_loop escaped
escape_loop-escaped [] out = sym (append-nil out)
escape_loop-escaped (c ∷ s) out =
    escape_loop-escaped s (out ++ escape_byte c) ∙ append_assoc out (escape_byte c) (escaped s)

html_escape-escaped : (s : Bytes) → html_escape s ≡ escaped s
unfolding html_escape
html_escape-escaped s = escape_loop-escaped s []

-- A byte that can neither open a tag nor end an attribute in either kind of quotes.
abbrev pub IsInert : ℕ → Type 0
IsInert c = (c ≢ b'<') × (c ≢ b'>') × (c ≢ b'"') × (c ≢ b'\'')

escape_byte-IsInert : (c : ℕ) → All IsInert (escape_byte c)
unfolding escape_byte
escape_byte-IsInert c = ground arith

escaped-IsInert : (s : Bytes) → All IsInert (escaped s)
unfolding escaped
escaped-IsInert [] = tt
escaped-IsInert (c ∷ s) =
    All-append IsInert (escape_byte c) (escaped s) (escape_byte-IsInert c) (escaped-IsInert s)

-- Escaped text can neither open or close a tag nor end a quoted attribute.
pub html_escape-IsInert : (s : Bytes) → All IsInert (html_escape s)
html_escape-IsInert s = rw (html_escape-escaped s) (escaped-IsInert s)

escape_byte-append :
    (c d : ℕ) (s t : Bytes) → escape_byte c ++ s ≡ escape_byte d ++ t → (c ≡ d) × (s ≡ t)
unfolding escape_byte
escape_byte-append c d s t h = ground arith

escape_byte-ne-nil : (c : ℕ) (s : Bytes) → escape_byte c ++ s ≢ []
unfolding escape_byte
escape_byte-ne-nil c s h = ground arith

escaped_injective : (s t : Bytes) → escaped s ≡ escaped t → s ≡ t
unfolding escaped
escaped_injective [] [] h = refl
escaped_injective [] (d ∷ t) h = absurd (escape_byte-ne-nil d (escaped t) (sym h))
escaped_injective (c ∷ s) [] h = absurd (escape_byte-ne-nil c (escaped s) h)
escaped_injective (c ∷ s) (d ∷ t) h =
    let (e, r) = escape_byte-append c d (escaped s) (escaped t) h in
    ap₂ ◌∷◌ e (escaped_injective s t r)

-- Escaping loses nothing: two texts with the same escaped form are the same.
pub html_escape_injective : (s t : Bytes) → html_escape s ≡ html_escape t → s ≡ t
html_escape_injective s t h =
    escaped_injective s t (sym (html_escape-escaped s) ∙ h ∙ html_escape-escaped t)

escape_byte_plain : (c : ℕ) → IsPlain c → escape_byte c ≡ c ∷ []
unfolding escape_byte is_unreserved
escape_byte_plain c h = ground arith

escaped_plain : (s : Bytes) → All IsPlain s → escaped s ≡ s
unfolding escaped
escaped_plain [] h = refl
escaped_plain (c ∷ s) (hc, hs) = ap₂ ◌++◌ (escape_byte_plain c hc) (escaped_plain s hs)

-- A percent-encoded file name is not changed by escaping, so the links that the page builds from
-- both are the encoded names themselves.
pub html_escape-url_encode : (s : Bytes) → All IsByte s → html_escape (url_encode s) ≡ url_encode s
html_escape-url_encode s h =
    html_escape-escaped (url_encode s) ∙ escaped_plain (url_encode s) (url_encode-IsPlain s h)
