-- ===== src/Storage/Html/Tests.antt =====
-- Runs of `HtmlEscape` at small inputs.
use kama_asyn_log_system_clo.Base.{codes, ◌≡◌, refl}
use kama_asyn_log_system_clo.Storage.Html.Escape.{html_escape_injective}
use kama_asyn_log_system_clo.Storage.Html.{html_escape}

markup : html_escape (codes "<b a='&'>") ≡ codes "&lt;b a=&#39;&amp;&#39;&gt;"
unfolding html_escape
markup = refl

html_escape_injective_example : codes "a&b" ≡ codes "a&b"
html_escape_injective_example = html_escape_injective (codes "a&b") (codes "a&b") refl
