-- ===== src/LogSystem/Roll/Cleaned.antt =====
-- What `CleanOldLogFiles` of src/log_system/logs_code/LogFlush.hpp leaves.
use kama_asyn_log_system_clo.Base.{
  leb, Bool-cases, leb→le, Bytes, length, take, drop, length-drop, take-append_drop, ℕ, ◌-◌, ◌≤◌,
  ◌<◌, ◌≡◌, sym, ap, subst, ◌∙◌, inl, inr, Bool, true, ◌&&◌, List, arith,
}
use kama_asyn_log_system_clo.LogSystem.Roll.{
  LogFile, LogDir, World, Roller, remove_files, roll_files, too_old, remove_aged, remove_oldest,
  clean_listed, clean_old_log_files,
}
use kama_asyn_log_system_clo.LogSystem.Roll.Counted.{
  count_if, IsSorting, unnamed_by, rolls, count_if-imp, count_if-append, count_if-le, count_if-true,
  count_if-named, remove_files-le, remove_files-count, roll_files-count,
}

-- Every removal succeeds, and every file can be asked for its time.
pub record IsSmooth (w : World) : Type 0 where
  pub listed : w.lists ≡ true
  pub asked : (name : Bytes) → w.stats name ≡ true
  pub removed : (name : Bytes) → w.removes name ≡ true

remove_aged-le :
    (r : Roller) (w : World) (files : List LogFile) (p : LogFile → Bool) (dir : LogDir)
    → count_if p (remove_aged r w files dir) ≤ count_if p dir
unfolding remove_aged
remove_aged-le r w files p dir = ground (arith, remove_files-le w (too_old r w files) p dir)

count_if-roll_files :
    (r : Roller) (w : World) (dir : LogDir)
    → ((name : Bytes) → w.stats name ≡ true)
    → count_if (rolls r) dir ≤ length (roll_files r w dir)
count_if-roll_files r w dir h =
    let counted = roll_files-count r w (λ f. true) dir h in
    let same = count_if-imp (rolls r) (λ f. rolls r f && true) dir (λ f e. ground arith) in
    omega (arith, counted, same, count_if-true (roll_files r w dir))

module _ (sort : List LogFile → List LogFile) (sorts : IsSorting sort) where
  length-sort : (l : List LogFile) → length (sort l) ≡ length l
  length-sort l = sym (count_if-true (sort l)) ∙ sorts (λ f. true) l ∙ count_if-true l

  -- What is not among the first of the sorted files.
  count_if-cut :
      (k : ℕ) (files : List LogFile)
      → count_if (unnamed_by (take k (sort files))) files ≤ length files - k
  count_if-cut k files =
      let cut = take k (sort files) in
      let parts = sym (ap (count_if (unnamed_by cut)) (take-append_drop k (sort files))) in
      omega (
        arith,
        sorts (unnamed_by cut) files,
        parts,
        count_if-append (unnamed_by cut) cut (drop k (sort files)),
        count_if-named cut cut (λ f e. e),
        count_if-le (unnamed_by cut) (drop k (sort files)),
        length-drop k (sort files),
        length-sort files,
      )

  remove_oldest_few :
      (r : Roller) (w : World) (files : List LogFile) (dir : LogDir)
      → length files ≤ r.max_count
      → remove_oldest sort r w files dir ≡ dir
  unfolding remove_oldest
  remove_oldest_few r w files dir few = ground arith

  remove_oldest_many :
      (r : Roller) (w : World) (files : List LogFile) (dir : LogDir)
      → 1 ≤ r.max_count
      → r.max_count < length files
      → remove_oldest sort r w files dir
        ≡ remove_files w (take (length files - r.max_count) (sort files)) dir
  unfolding remove_oldest
  remove_oldest_many r w files dir some_count many = ground arith

  cut_count :
      (r : Roller) (w : World) (dir aged : LogDir)
      → IsSmooth w
      → ((p : LogFile → Bool) → count_if p aged ≤ count_if p dir)
      → r.max_count < length (roll_files r w dir)
      → count_if (rolls r) (
          remove_files w
            (take (length (roll_files r w dir) - r.max_count) (sort (roll_files r w dir)))
            aged)
        ≤ r.max_count
  cut_count r w dir aged smooth shrunk many =
      let files = roll_files r w dir in
      let cut = take (length files - r.max_count) (sort files) in
      omega (
        arith,
        remove_files-count w cut (rolls r) aged smooth.removed,
        shrunk (λ f. rolls r f && unnamed_by cut f),
        roll_files-count r w (unnamed_by cut) dir smooth.asked,
        count_if-cut (length files - r.max_count) files,
        many,
      )

  clean_listed-count :
      (r : Roller) (w : World) (dir : LogDir)
      → IsSmooth w
      → 1 ≤ r.max_count
      → count_if (rolls r) (clean_listed sort r w (roll_files r w dir) dir) ≤ r.max_count
  unfolding clean_listed
  clean_listed-count r w dir smooth some_count =
      let files = roll_files r w dir in
      let aged = remove_aged r w files dir in
      elim (Bool-cases (leb (length files) r.max_count)) [
        | inl e ↦
            let few = leb→le (length files) r.max_count e in
            subst (λ d. count_if (rolls r) d ≤ r.max_count)
              (sym (remove_oldest_few r w files aged few))
              (omega (
                arith,
                few,
                remove_aged-le r w files (rolls r) dir,
                count_if-roll_files r w dir smooth.asked,
              ))
        | inr e ↦
            let many : r.max_count < length files = ground arith in
            subst (λ d. count_if (rolls r) d ≤ r.max_count)
              (sym (remove_oldest_many r w files aged some_count many))
              (cut_count r w dir aged smooth (λ p. remove_aged-le r w files p dir) many)
      ]

  clean_old_log_files_run :
      (r : Roller) (w : World) (dir : LogDir)
      → w.lists ≡ true
      → 1 ≤ r.max_count
      → clean_old_log_files sort r w dir ≡ clean_listed sort r w (roll_files r w dir) dir
  unfolding clean_old_log_files
  clean_old_log_files_run r w dir listed some_count = ground arith

  -- Where nothing fails and a limit of the number is set, at most that many rolled files are left,
  -- in whatever order files of one second are sorted.
  pub clean_old_log_files-count :
      (r : Roller) (w : World) (dir : LogDir)
      → IsSmooth w
      → 1 ≤ r.max_count
      → count_if (rolls r) (clean_old_log_files sort r w dir) ≤ r.max_count
  clean_old_log_files-count r w dir smooth some_count =
      subst (λ d. count_if (rolls r) d ≤ r.max_count)
        (sym (clean_old_log_files_run r w dir smooth.listed some_count))
        (clean_listed-count r w dir smooth some_count)
