-- ===== src/Storage/Merge/Joined.antt =====
-- What `MergeChunks` writes is the chunks one after the other.
use kama_asyn_log_system_clo.Storage.Session.Files.{get_content-file_at}
use kama_asyn_log_system_clo.Base.{
  Option-cases, lookup, insert, lookup-insert, Bytes, length, take, drop, ℕ, zero, suc, ◌+◌, ◌*◌,
  ◌≡◌, refl, sym, ap, ◌∙◌, ◌≢◌, inl, inr, true, some, [], ◌∷◌, ◌++◌, append-nil, append_assoc,
  arith,
}
use kama_asyn_log_system_clo.Storage.Path.{FilePath}
use kama_asyn_log_system_clo.Storage.Path.Inside.{path_key, path_eq_refl}
use kama_asyn_log_system_clo.Storage.Disk.{Disk, next, file_at, tick, get_content}
use kama_asyn_log_system_clo.Storage.Disk.Frame.{path_eq_ne}
use kama_asyn_log_system_clo.Storage.Merge.{
  moved_bytes, content_or_nil, append_to, write_all, Env, copy_loop, UploadSession, merge_from,
  resolve, chunk_path, merge_chunks, merge_into,
}

append_to-file_at :
    (p : FilePath) (part : Bytes) (d : Disk)
    → file_at (append_to p part d) p ≡ some (content_or_nil (file_at d p) ++ part)
unfolding append_to file_at
append_to-file_at p part d = ground (
  arith,
  lookup-insert path_key p p (content_or_nil (lookup path_key p d.files) ++ part) d.files,
  path_eq_refl p,
)

append_to-file_at_other :
    (p : FilePath) (part : Bytes) (d : Disk) (k : FilePath)
    → p ≢ k
    → file_at (append_to p part d) k ≡ file_at d k
unfolding append_to file_at
append_to-file_at_other p part d k ne = ground (
  arith,
  lookup-insert path_key p k (content_or_nil (lookup path_key p d.files) ++ part) d.files,
  path_eq_ne ne,
)

tick-file_at : (d : Disk) (p : FilePath) → file_at (tick d) p ≡ file_at d p
unfolding file_at
tick-file_at d p = refl

emptied :
    (d : Disk) (p : FilePath)
    → file_at (record (tick d) { files = insert path_key p [] d.files }) p ≡ some []
unfolding file_at
emptied d p = ground (arith, lookup-insert path_key p p [] d.files, path_eq_refl p)

pub emptied-other :
    (d : Disk) (p k : FilePath)
    → p ≢ k
    → file_at (record (tick d) { files = insert path_key p [] d.files }) k ≡ file_at d k
unfolding file_at
emptied-other d p k ne = ground (arith, lookup-insert path_key p k [] d.files, path_eq_ne ne)

take-append-drop : (n : ℕ) (s : Bytes) → take n s ++ drop n s ≡ s
take-append-drop zero s = refl
take-append-drop (suc n) [] = refl
take-append-drop (suc n) (c ∷ s) = ap (λ r. c ∷ r) (take-append-drop n s)

length_zero : (s : Bytes) → length s ≡ 0 → s ≡ []
length_zero [] h = refl
length_zero (c ∷ s) h = absurd (omega arith)

-- The loop over `write` that ends well has put the whole text behind what was there.
write_all-file_at :
    (n : ℕ) (p : FilePath) (content : Bytes) (d : Disk) (old : Bytes)
    → file_at d p ≡ some old
    → (write_all n p content d).0 ≡ true
    → file_at (write_all n p content d).1 p ≡ some (old ++ content)
unfolding write_all
write_all-file_at zero p content d old f h = ground (arith, length_zero content, append-nil old)
write_all-file_at (suc n) p content d old f h =
    let k = moved_bytes (length content) (next d) in
    ground (
      arith,
      length_zero content,
      append-nil old,
      append_to-file_at p (take k content) d,
      write_all-file_at n p (drop k content) (append_to p (take k content) d)
          (old ++ take k content),
      append_assoc old (take k content) (drop k content),
      take-append-drop k content,
    )

write_all-file_at_other :
    (n : ℕ) (p : FilePath) (content : Bytes) (d : Disk) (j : FilePath)
    → p ≢ j
    → file_at (write_all n p content d).1 j ≡ file_at d j
unfolding write_all
write_all-file_at_other zero p content d j ne = refl
write_all-file_at_other (suc n) p content d j ne =
    let k = moved_bytes (length content) (next d) in
    ground (
      arith,
      tick-file_at d j,
      append_to-file_at_other p (take k content) d j ne,
      write_all-file_at_other n p (drop k content) (append_to p (take k content) d) j ne,
    )

-- The same of the loop over `read`.
copy_loop-file_at :
    (block n : ℕ) (p : FilePath) (input : Bytes) (d : Disk) (old : Bytes)
    → file_at d p ≡ some old
    → (copy_loop block n p input d).0 ≡ true
    → file_at (copy_loop block n p input d).1 p ≡ some (old ++ input)
unfolding copy_loop
copy_loop-file_at block zero p input d old f h = absurd (ground arith)
copy_loop-file_at block (suc n) p input d old f h =
    let k = moved_bytes block (next d) in
    let w = write_all (length (take k input)) p (take k input) (tick d) in
    ground (
      arith,
      tick-file_at d p,
      length_zero input,
      append-nil old,
      write_all-file_at (length (take k input)) p (take k input) (tick d) old,
      copy_loop-file_at block n p (drop k input) w.1 (old ++ take k input),
      append_assoc old (take k input) (drop k input),
      take-append-drop k input,
    )

pub copy_loop-file_at_other :
    (block n : ℕ) (p : FilePath) (input : Bytes) (d : Disk) (j : FilePath)
    → p ≢ j
    → file_at (copy_loop block n p input d).1 j ≡ file_at d j
unfolding copy_loop
copy_loop-file_at_other block zero p input d j ne = refl
copy_loop-file_at_other block (suc n) p input d j ne =
    let k = moved_bytes block (next d) in
    let w = write_all (length (take k input)) p (take k input) (tick d) in
    ground (
      arith,
      tick-file_at d j,
      write_all-file_at_other (length (take k input)) p (take k input) (tick d) j ne,
      copy_loop-file_at_other block n p (drop k input) w.1 j ne,
    )

-- The contents from index `i` on, `n` of them, one after the other.
unfoldable pub joined : (ℕ → Bytes) → ℕ → ℕ → Bytes
joined f zero i = []
joined f (suc n) i = f i ++ joined f n (i + 1)

module _ (env : Env) (session : UploadSession) where
  abbrev pub chunk_at : ℕ → FilePath
  chunk_at i = resolve (chunk_path env.storage_dir session.upload_id i)

  -- What the file of a chunk holds.
  abbrev pub chunk_content : Disk → ℕ → Bytes
  chunk_content d i = content_or_nil (file_at d (chunk_at i))

  get_content-some :
      (d : Disk) (path v : Bytes)
      → (get_content d path).0 ≡ some v
      → file_at d (resolve path) ≡ some v
  unfolding get_content
  get_content-some d path v h = ground arith

  merge_from-file_at :
      (block : ℕ) (f : ℕ → Bytes) (n i : ℕ) (p : FilePath) (d : Disk) (old : Bytes)
      → ((j : ℕ) → p ≢ chunk_at j)
      → ((j : ℕ) → chunk_content d j ≡ f j)
      → file_at d p ≡ some old
      → (merge_from env session block n i p d).0 ≡ true
      → file_at (merge_from env session block n i p d).1 p ≡ some (old ++ joined f n i)
  unfolding merge_from joined
  merge_from-file_at block f zero i p d old apart same at h = ground (arith, append-nil old)
  merge_from-file_at block f (suc n) i p d old apart same at h =
      let path = chunk_path env.storage_dir session.upload_id i in
      let d1 = (get_content d path).1 in
      elim (Option-cases (get_content d path).0) [
        | inl e ↦ absurd (ground arith)
        | inr (v, e) ↦
            let c = copy_loop block (suc (length v)) p v d1 in
            let read : f i ≡ v = sym (same i) ∙ ap content_or_nil (get_content-some d path v e) in
            let kept : (j : ℕ) → chunk_content c.1 j ≡ f j = λ j.
              ap content_or_nil (
                copy_loop-file_at_other block (suc (length v)) p v d1 (chunk_at j) (apart j)
                ∙ get_content-file_at d path (chunk_at j))
              ∙ same j in
            ground (
              arith,
              read,
              get_content-file_at d path p,
              copy_loop-file_at block (suc (length v)) p v d1 old,
              merge_from-file_at block f n (i + 1) p c.1 (old ++ v) apart kept,
              append_assoc old v (joined f n (i + 1)),
            )
      ]

  -- A merge into a file that is none of the chunks and that reports success has written the chunks
  -- of the session, all of them and in order, however the system splits the reads and writes.
  pub merge_chunks-file_at :
      (merged_path : Bytes) (d : Disk)
      → ((j : ℕ) → resolve merged_path ≢ chunk_at j)
      → (merge_chunks env session merged_path d).0 ≡ true
      → file_at (merge_chunks env session merged_path d).1 (resolve merged_path)
        ≡ some (joined (chunk_content d) session.total_chunks 0)
  unfolding merge_chunks merge_into
  merge_chunks-file_at merged_path d apart h =
      let p = resolve merged_path in
      let d0 : Disk = record (tick d) { files = insert path_key p [] d.files } in
      let kept : (j : ℕ) → chunk_content d0 j ≡ chunk_content d j =
        λ j. ap content_or_nil (emptied-other d p (chunk_at j) (apart j)) in
      ground (
        arith,
        merge_from-file_at (64 * 1024) (chunk_content d) session.total_chunks 0 p d0 [] apart kept
            (emptied d p),
      )
