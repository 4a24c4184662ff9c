-- ===== src/Storage/Path/Tests.antt =====
-- Runs of the path functions at small inputs.
use kama_asyn_log_system_clo.Base.{codes, ◌≡◌, refl, [], ◌∷◌}
use kama_asyn_log_system_clo.Storage.Path.{resolve, chunk_name}

lexical : resolve (codes "./storage//a/../b/") ≡ codes "b" ∷ codes "storage" ∷ []
unfolding resolve
lexical = refl

padded :
    (chunk_name 7 ≡ codes "chunk_000007")
    × (chunk_name 1234567 ≡ codes "chunk_1234567")
    × (chunk_name 0 ≡ codes "chunk_000000")
unfolding chunk_name
padded = (refl, refl, refl)
