-- ===== src/Storage/Merge/Total.antt =====
-- The loops of `MergeChunks` end: the fuel is enough, and they fail only where a call fails.
use kama_asyn_log_system_clo.Base.{
  insert, Bytes, length, take, drop, length-drop, ℕ, zero, suc, ◌+◌, ◌*◌, ◌≤◌, ◌<◌, ◌≡◌, refl, sym,
  ap, subst, ◌∙◌, ◌≢◌, true, some, [], arith,
}
use kama_asyn_log_system_clo.Storage.Path.{FilePath, resolve, chunk_path}
use kama_asyn_log_system_clo.Storage.Path.Inside.{path_key}
use kama_asyn_log_system_clo.Storage.Disk.{
  Outcome, done, fails, Disk, tick, next, file_at, get_content, opens,
}
use kama_asyn_log_system_clo.Storage.Http.{Env, UploadSession}
use kama_asyn_log_system_clo.Storage.Session.Files.{get_content-file_at}
use kama_asyn_log_system_clo.Storage.Merge.{
  moved_bytes, append_to, write_all, copy_loop, merge_from, merge_into, merge_chunks,
}
use kama_asyn_log_system_clo.Storage.Merge.Joined.{chunk_at, copy_loop-file_at_other, emptied-other}

-- No call moves nothing at all.
abbrev pub IsMoving : (ℕ → Outcome) → Type 0
IsMoving outcome = (m : ℕ) → outcome m ≢ fails 0

moved_bytes_pos : (n : ℕ) (o : Outcome) → o ≢ fails 0 → 1 ≤ n → 1 ≤ moved_bytes n o
unfolding moved_bytes
moved_bytes_pos n done h k = k
moved_bytes_pos n (fails zero) h k = absurd (h refl)
moved_bytes_pos n (fails (suc j)) h k = omega arith

write_all-outcome :
    (n : ℕ) (p : FilePath) (content : Bytes) (d : Disk)
    → (write_all n p content d).1.outcome ≡ d.outcome
unfolding write_all append_to
write_all-outcome zero p content d = refl
write_all-outcome (suc n) p content d =
    let k = moved_bytes (length content) (next d) in
    ground (arith, write_all-outcome n p (drop k content) (append_to p (take k content) d))

write_all_ends :
    (n : ℕ) (p : FilePath) (content : Bytes) (d : Disk)
    → IsMoving d.outcome
    → length content ≤ n
    → (write_all n p content d).0 ≡ true
unfolding write_all append_to
write_all_ends zero p content d m h = ground arith
write_all_ends (suc n) p content d m h =
    let k = moved_bytes (length content) (next d) in
    ground (
      arith,
      moved_bytes_pos (length content) (next d) (m d.calls),
      length-drop k content,
      write_all_ends n p (drop k content) (append_to p (take k content) d) m,
    )

copy_loop-outcome :
    (block n : ℕ) (p : FilePath) (input : Bytes) (d : Disk)
    → (copy_loop block n p input d).1.outcome ≡ d.outcome
unfolding copy_loop
copy_loop-outcome block zero p input d = refl
copy_loop-outcome block (suc n) p input d =
    let k = moved_bytes block (next d) in
    let w = write_all (length (take k input)) p (take k input) (tick d) in
    ground (
      arith,
      write_all-outcome (length (take k input)) p (take k input) (tick d),
      copy_loop-outcome block n p (drop k input) w.1,
    )

copy_loop_ends :
    (block n : ℕ) (p : FilePath) (input : Bytes) (d : Disk)
    → IsMoving d.outcome
    → 1 ≤ block
    → length input < n
    → (copy_loop block n p input d).0 ≡ true
unfolding copy_loop
copy_loop_ends block zero p input d m b h = absurd (omega arith)
copy_loop_ends block (suc n) p input d m b h =
    let k = moved_bytes block (next d) in
    let w = write_all (length (take k input)) p (take k input) (tick d) in
    let m' : IsMoving w.1.outcome =
      subst IsMoving (sym (write_all-outcome (length (take k input)) p (take k input) (tick d)))
        m in
    ground (
      arith,
      moved_bytes_pos block (next d) (m d.calls) b,
      length-drop k input,
      write_all_ends (length (take k input)) p (take k input) (tick d) m,
      copy_loop_ends block n p (drop k input) w.1 m' b,
    )

module _ (env : Env) (session : UploadSession) where
  get_content_ends :
      (d : Disk) (path v : Bytes)
      → ((m : ℕ) → d.outcome m ≡ done)
      → file_at d (resolve path) ≡ some v
      → ((get_content d path).0 ≡ some v) × ((get_content d path).1.outcome ≡ d.outcome)
  unfolding get_content
  get_content_ends d path v m h = ground (arith, m d.calls)

  merge_from_ends :
      (block n i : ℕ) (p : FilePath) (d : Disk)
      → ((m : ℕ) → d.outcome m ≡ done)
      → 1 ≤ block
      → ((j : ℕ) → p ≢ chunk_at env session j)
      → ((j : ℕ) → j < i + n → (v : Bytes) × (file_at d (chunk_at env session j) ≡ some v))
      → (merge_from env session block n i p d).0 ≡ true
  unfolding merge_from
  merge_from_ends block zero i p d m b apart there = refl
  merge_from_ends block (suc n) i p d m b apart there =
      let path = chunk_path env.storage_dir session.upload_id i in
      let d1 = (get_content d path).1 in
      let (v, e) = there i (omega arith) in
      let (got, o) = get_content_ends d path v m e in
      let m1 : (k : ℕ) → d1.outcome k ≡ done = λ k. ap (λ f. f k) o ∙ m k in
      let c = copy_loop block (suc (length v)) p v d1 in
      let ok : c.0 ≡ true =
        copy_loop_ends block (suc (length v)) p v d1 (λ k e. ground (arith, m1 k)) b
          (omega arith) in
      let rest : (merge_from env session block n (i + 1) p c.1).0 ≡ true =
        merge_from_ends block n (i + 1) p c.1
          (λ k. ap (λ f. f k) (copy_loop-outcome block (suc (length v)) p v d1) ∙ m1 k) b apart
          (λ j l.
            let (u, f) = there j (omega arith) in
            (
              u,
              copy_loop-file_at_other block (suc (length v)) p v d1 (chunk_at env session j)
                    (apart j)
                  ∙ get_content-file_at d path (chunk_at env session j)
                  ∙ f,
            )) in
      ground (arith, got, ok, rest)

  -- Where no call fails, the merged file is none of the chunks and can be opened, and every chunk
  -- of the session is there, the merge ends with success: its loops do not run out of fuel.
  pub merge_chunks_ends :
      (merged_path : Bytes) (d : Disk)
      → ((m : ℕ) → d.outcome m ≡ done)
      → opens d (resolve merged_path) ≡ true
      → ((j : ℕ) → resolve merged_path ≢ chunk_at env session j)
      → ((j : ℕ)
          → j < session.total_chunks
          → (v : Bytes) × (file_at d (chunk_at env session j) ≡ some v))
      → (merge_chunks env session merged_path d).0 ≡ true
  unfolding merge_chunks merge_into
  merge_chunks_ends merged_path d m o apart there =
      let p = resolve merged_path in
      rw o (
        merge_from_ends (64 * 1024) session.total_chunks 0 p
          (record (tick d) { files = insert path_key p [] d.files }) m (omega arith) apart
          (λ j l.
            let (u, f) = there j (omega arith) in
            (u, emptied-other d p (chunk_at env session j) (apart j) ∙ f)))
