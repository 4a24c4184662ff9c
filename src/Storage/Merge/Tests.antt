-- ===== src/Storage/Merge/Tests.antt =====
-- Merges of three chunks.
use kama_asyn_log_system_clo.Base.{
  ltb, if◌then◌else◌, lookup, insert, Bytes, codes, bytes_eq, ℕ, zero, suc, ◌<◌, ◌≡◌, refl, ◌≢◌,
  true, some, [], ◌∷◌, arith,
}
use kama_asyn_log_system_clo.Storage.Path.{resolve, chunk_path, chunk_name, path_eq, session_dir}
use kama_asyn_log_system_clo.Storage.Path.Resolve.{uploads}
use kama_asyn_log_system_clo.Storage.Disk.{Disk, done, fails, file_at, opens}
use kama_asyn_log_system_clo.Storage.Http.{UploadSession}
use kama_asyn_log_system_clo.Storage.Sample.{sample_env, sample_disk}
use kama_asyn_log_system_clo.Storage.Merge.{merge_chunks, write_all, append_to, moved_bytes}
use kama_asyn_log_system_clo.Storage.Merge.Joined.{
  joined, chunk_at, chunk_content, merge_chunks-file_at,
}
use kama_asyn_log_system_clo.Storage.Merge.Total.{merge_chunks_ends}
use kama_asyn_log_system_clo.Storage.Complete.Places.{IsId, merged_path, merged-chunk_apart}

abbrev session : UploadSession
session = record {
  upload_id = codes "17-5";
  filename = codes "a";
  content_type = codes "text/plain";
  total_size = 5;
  chunk_size = 2;
  total_chunks = 3;
  created_at = 1;
  updated_at = 1;
}

-- The disk with the three chunks.
abbrev disk : Disk
disk = record sample_disk {
  files =
      (chunk_name 0 ∷ codes "17-5" ∷ uploads (codes "./storage"), codes "ab")
      ∷ (chunk_name 1 ∷ codes "17-5" ∷ uploads (codes "./storage"), codes "cd")
      ∷ (chunk_name 2 ∷ codes "17-5" ∷ uploads (codes "./storage"), codes "e")
      ∷ [];
  dirs = (codes "17-5" ∷ uploads (codes "./storage")) ∷ (codes "storage" ∷ []) ∷ [];
}

id : IsId (codes "17-5")
id = record {
  no_slash = omega arith;
  not_empty = λ e. cc;
  not_self = λ e. cc;
  not_parent = λ e. cc;
}

abbrev target : Bytes
target = merged_path sample_env (codes "17-5")

apart : (j : ℕ) → resolve target ≢ chunk_at sample_env session j
apart j = merged-chunk_apart sample_env (codes "./storage") refl (codes "17-5") id j

-- Two short writes and then a long one.
abbrev slow : Disk
slow = record disk { outcome = λ n. if ltb n 2 then fails 1 else done }

short_writes :
    file_at (write_all 5 (codes "x" ∷ []) (codes "hello") slow).1 (codes "x" ∷ [])
    ≡ some (codes "hello")
unfolding write_all file_at lookup moved_bytes append_to insert path_eq chunk_name
short_writes = refl

there : (j : ℕ) → j < 3 → (v : Bytes) × (file_at disk (chunk_at sample_env session j) ≡ some v)
unfolding file_at lookup path_eq resolve chunk_path bytes_eq
there zero h = (codes "ab", refl)
there (suc zero) h = (codes "cd", refl)
there (suc (suc zero)) h = (codes "e", refl)
there (suc (suc (suc n))) h = absurd (omega arith)

ends : (merge_chunks sample_env session target disk).0 ≡ true
unfolding opens path_eq resolve session_dir
ends = merge_chunks_ends sample_env session target disk (λ m. refl) refl apart there

merge_chunks_ends_example : (merge_chunks sample_env session target disk).0 ≡ true
unfolding opens path_eq resolve session_dir
merge_chunks_ends_example =
    merge_chunks_ends sample_env session target disk (λ m. refl) refl apart there

merge_chunks-file_at_example :
    file_at (merge_chunks sample_env session target disk).1 (resolve target)
    ≡ some (joined (chunk_content sample_env session disk) 3 0)
merge_chunks-file_at_example = merge_chunks-file_at sample_env session target disk apart ends

whole : joined (chunk_content sample_env session disk) 3 0 ≡ codes "abcde"
unfolding joined file_at lookup path_eq resolve chunk_path bytes_eq
whole = refl
