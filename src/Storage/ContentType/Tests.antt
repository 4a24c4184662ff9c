-- ===== src/Storage/ContentType/Tests.antt =====
-- Runs of `NormalizeContentType` at small inputs.
use kama_asyn_log_system_clo.Base.{codes, ◌≡◌, refl, some, ◌∷◌, ◌++◌}
use kama_asyn_log_system_clo.Storage.ContentType.{normalize_content_type}

line_break : normalize_content_type (some (codes "a" ++ 13 ∷ 10 ∷ codes "b")) ≡ codes "a  b"
unfolding normalize_content_type
line_break = refl
