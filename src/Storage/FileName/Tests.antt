-- ===== src/Storage/FileName/Tests.antt =====
-- Runs of the file name functions at small inputs.
use kama_asyn_log_system_clo.Base.{codes, replicate, ◌≡◌, refl, ◌↔◌, true, false}
use kama_asyn_log_system_clo.Storage.FileName.{is_safe_file_name, file_name}
use kama_asyn_log_system_clo.Storage.FileName.Safe.{IsSafe, is_safe_file_name_iff}

rejected :
    (is_safe_file_name (codes "..") ≡ false)
    × (is_safe_file_name (codes "a/b") ≡ false)
    × (is_safe_file_name (codes "a..b") ≡ false)
    × (is_safe_file_name (codes "a b.txt") ≡ true)
    × (is_safe_file_name (replicate 256 b'a') ≡ false)
unfolding is_safe_file_name
rejected = (refl, refl, refl, refl, refl)

no_directory : file_name (codes "plain") ≡ codes "plain"
unfolding file_name
no_directory = refl

is_safe_file_name_iff_example : (is_safe_file_name (codes "a.txt") ≡ true) ↔ IsSafe (codes "a.txt")
is_safe_file_name_iff_example = is_safe_file_name_iff (codes "a.txt")
