-- ===== src/Storage/Merge.antt =====
-- `MergeChunks` of src/server/MultipartUploadHandler.hpp: the loops over `read` and `write`.
pub mod Joined
pub mod Total
mod Tests
use kama_asyn_log_system_clo.Base.{
  ◌==◌, if◌then◌else◌, insert, Bytes, length, take, drop, ℕ, zero, suc, ◌+◌, ◌*◌, min, Bool, true,
  false, Option, none, some, [], ◌++◌,
}
use kama_asyn_log_system_clo.Storage.Path.{FilePath, resolve, chunk_path}
use kama_asyn_log_system_clo.Storage.Path.Inside.{path_key}
use kama_asyn_log_system_clo.Storage.Disk.{
  Outcome, done, fails, Disk, tick, next, file_at, get_content, opens,
}
use kama_asyn_log_system_clo.Storage.Http.{Env, UploadSession}

-- What a `read` or `write` of at most `n` bytes moves: all of them, fewer, or none, which is an
-- error.
unfoldable pub moved_bytes : ℕ → Outcome → ℕ
moved_bytes n done = n
moved_bytes n (fails k) = min k n

abbrev pub content_or_nil : Option Bytes → Bytes
content_or_nil none = []
content_or_nil (some v) = v

-- One `write` to the open file.
unfoldable pub append_to : FilePath → Bytes → Disk → Disk
append_to p part d = record (tick d) {
  files = insert path_key p (content_or_nil (file_at d p) ++ part) d.files;
}

-- `while (left > 0)`: each round writes at least one byte, so the length is fuel enough.
unfoldable pub write_all : ℕ → FilePath → Bytes → Disk → Bool × Disk
write_all zero p content d = (length content == 0, d)
write_all (suc n) p content d =
    let k = moved_bytes (length content) (next d) in
    let rest = write_all n p (drop k content) (append_to p (take k content) d) in
    if length content == 0 then (true, d) else if k == 0 then (false, tick d) else rest

-- `while ((n = read(...)) > 0)`, with a buffer of `block` bytes: each round reads at least one
-- byte but the last, so one more than the length is fuel enough.
unfoldable pub copy_loop : ℕ → ℕ → FilePath → Bytes → Disk → Bool × Disk
copy_loop block zero p input d = (false, d)
copy_loop block (suc n) p input d =
    let k = moved_bytes block (next d) in
    let (ok, d1) = write_all (length (take k input)) p (take k input) (tick d) in
    let more = copy_loop block n p (drop k input) d1 in
    if k == 0
    then (false, tick d)
    else if length input == 0
    then (true, tick d)
    else if ok
    then more
    else (false, d1)

module _ (env : Env) (session : UploadSession) (block : ℕ) where
  -- The loop over the chunks from index `i` on, `n` rounds.
  unfoldable pub merge_from : ℕ → ℕ → FilePath → Disk → Bool × Disk
  merge_from zero i p d = (true, d)
  merge_from (suc n) i p d =
      let (content, d1) = get_content d (chunk_path env.storage_dir session.upload_id i) in
      elim content [
        | none ↦ (false, d1)
        | some v ↦
            let (ok, d2) = copy_loop block (suc (length v)) p v d1 in
            let rest = merge_from n (i + 1) p d2 in if ok then rest else (false, d2)
      ]

  -- `open` with `O_TRUNC`, then the loop.
  unfoldable pub merge_into : Bytes → Disk → Bool × Disk
  merge_into merged_path d =
      if opens d (resolve merged_path)
      then merge_from session.total_chunks 0 (resolve merged_path)
          (record (tick d) { files = insert path_key (resolve merged_path) [] d.files })
      else (false, tick d)

unfoldable pub merge_chunks : Env → UploadSession → Bytes → Disk → Bool × Disk
merge_chunks env session merged_path d = merge_into env session (64 * 1024) merged_path d
