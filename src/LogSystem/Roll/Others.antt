-- ===== src/LogSystem/Roll/Others.antt =====
-- What `CleanOldLogFiles` of src/log_system/logs_code/LogFlush.hpp does not touch.
use kama_asyn_log_system_clo.Base.{
  ltb, if◌then◌else◌, Bool-cases, Bytes, codes, bytes_eq, bytes_eq_sound, bytes_eq_iff, starts_with,
  length, take, drop, take-append_drop, ℕ, ◌+◌, ◌-◌, ◌≡◌, refl, sym, ap, ap₂, ◌∙◌, inl, inr, true,
  false, not, ◌&&◌, List, [], ◌∷◌, ◌++◌, arith,
}
use kama_asyn_log_system_clo.LogSystem.Roll.Contents.{content_of}
use kama_asyn_log_system_clo.LogSystem.Roll.{
  LogFile, LogDir, World, Roller, is_roll_log_file, remove_file, remove_files, roll_files, too_old,
  remove_aged, remove_oldest, clean_listed, clean_old_log_files, max_age_seconds,
}
use kama_asyn_log_system_clo.LogSystem.Roll.Counted.{count_if, IsSorting, rolls, count_if-append}

-- The files whose names are not those of rolled files.
unfoldable pub others : Roller → LogDir → LogDir
others r [] = []
others r (f ∷ dir) = if rolls r f then others r dir else f ∷ others r dir

remove_file-others :
    (r : Roller) (w : World) (name : Bytes) (dir : LogDir)
    → is_roll_log_file r.file_prefix name ≡ true
    → others r (remove_file w name dir) ≡ others r dir
unfolding others remove_file
remove_file-others r w name [] h = refl
remove_file-others r w name (f ∷ dir) h =
    elim (Bool-cases (bytes_eq f.name name && w.removes name)) [
      | inl e ↦
          let same : rolls r f ≡ true =
            ap (is_roll_log_file r.file_prefix) ((bytes_eq_iff f.name name).0 (ground arith)) ∙ h in
          ground (arith, e, same, remove_file-others r w name dir h)
      | inr e ↦ ground (arith, e, remove_file-others r w name dir h)
    ]

-- Only rolled files.
abbrev AllRolled : Roller → List LogFile → Type 0
AllRolled r l = count_if (λ f. not (rolls r f)) l ≡ 0

AllRolled-cons :
    (r : Roller) (f : LogFile) (l : List LogFile)
    → AllRolled r (f ∷ l)
    → (rolls r f ≡ true) × AllRolled r l
unfolding count_if
AllRolled-cons r f l h = ground arith

cons-AllRolled :
    (r : Roller) (f : LogFile) (l : List LogFile)
    → rolls r f ≡ true
    → AllRolled r l
    → AllRolled r (f ∷ l)
unfolding count_if
cons-AllRolled r f l e h = ground arith

remove_files-others :
    (r : Roller) (w : World) (files : List LogFile) (dir : LogDir)
    → AllRolled r files
    → others r (remove_files w files dir) ≡ others r dir
unfolding remove_files
remove_files-others r w [] dir h = refl
remove_files-others r w (f ∷ files) dir h =
    let (first, rest) = AllRolled-cons r f files h in
    remove_files-others r w files (remove_file w f.name dir) rest
    ∙ remove_file-others r w f.name dir first

roll_files-AllRolled : (r : Roller) (w : World) (dir : LogDir) → AllRolled r (roll_files r w dir)
unfolding roll_files count_if
roll_files-AllRolled r w [] = refl
roll_files-AllRolled r w (f ∷ dir) = ground (arith, roll_files-AllRolled r w dir)

too_old-AllRolled :
    (r : Roller) (w : World) (files : List LogFile)
    → AllRolled r files
    → AllRolled r (too_old r w files)
unfolding too_old
too_old-AllRolled r w [] h = h
too_old-AllRolled r w (f ∷ files) h =
    let (first, rest) = AllRolled-cons r f files h in
    let old = too_old-AllRolled r w files rest in
    elim (Bool-cases (ltb (f.mtime + max_age_seconds r.max_age_days) w.now)) [
      | inl e ↦ rw e (cons-AllRolled r f (too_old r w files) first old)
      | inr e ↦ rw e old
    ]

take-AllRolled : (r : Roller) (k : ℕ) (l : List LogFile) → AllRolled r l → AllRolled r (take k l)
take-AllRolled r k l h =
    let parts = count_if-append (λ f. not (rolls r f)) (take k l) (drop k l) in
    let whole = ap (count_if (λ f. not (rolls r f))) (take-append_drop k l) in
    omega (arith, parts, whole, h)

-- A name with a beginning and an end.
pub record IsRolled (file_prefix name : Bytes) : Type 0 where
  pub behind : Bytes
  pub begins : name ≡ file_prefix ++ behind
  pub before : Bytes
  pub ends : name ≡ before ++ codes ".log"

starts_with_behind :
    (begin s : Bytes) → starts_with begin s ≡ true → s ≡ begin ++ drop (length begin) s
unfolding starts_with
starts_with_behind [] s h = refl
starts_with_behind (c ∷ begin) [] h = cc
starts_with_behind (c ∷ begin) (a ∷ s) h =
    let same : a ≡ c = ground arith in ap₂ ◌∷◌ same (starts_with_behind begin s (ground arith))

IsRolled-name :
    (file_prefix name : Bytes)
    → is_roll_log_file file_prefix name ≡ true
    → IsRolled file_prefix name
unfolding is_roll_log_file
IsRolled-name file_prefix name h =
    let n = length name - 4 in
    record {
      behind = drop (length file_prefix) name;
      begins = starts_with_behind file_prefix name (ground arith);
      before = take n name;
      ends =
          sym (take-append_drop n name)
          ∙ ap (λ k. take n name ++ k) (bytes_eq_sound (drop n name) (codes ".log") (ground arith));
    }

unrolled :
    (file_prefix name : Bytes)
    → ¬ IsRolled file_prefix name
    → is_roll_log_file file_prefix name ≡ false
unrolled file_prefix name spared = elim (Bool-cases (is_roll_log_file file_prefix name)) [
  | inl e ↦ absurd (spared (IsRolled-name file_prefix name e))
  | inr e ↦ e
]

others-content_of :
    (r : Roller) (name : Bytes)
    → is_roll_log_file r.file_prefix name ≡ false
    → (dir : LogDir) → content_of name (others r dir) ≡ content_of name dir
unfolding others content_of
others-content_of r name h [] = refl
others-content_of r name h (f ∷ dir) = elim (Bool-cases (rolls r f)) [
  | inr e ↦ ground (arith, e, others-content_of r name h dir)
  | inl e ↦
      let same = (bytes_eq_iff f.name name).0 in
      ground
        (arith, e, h, same, ap (is_roll_log_file r.file_prefix), others-content_of r name h dir)
]

module _ (sort : List LogFile → List LogFile) (sorts : IsSorting sort) where
  sort-AllRolled : (r : Roller) (l : List LogFile) → AllRolled r l → AllRolled r (sort l)
  sort-AllRolled r l h = sorts (λ f. not (rolls r f)) l ∙ h

  remove_aged-others :
      (r : Roller) (w : World) (files : List LogFile) (dir : LogDir)
      → AllRolled r files
      → others r (remove_aged r w files dir) ≡ others r dir
  unfolding remove_aged
  remove_aged-others r w files dir h =
      ground
        (arith, remove_files-others r w (too_old r w files) dir (too_old-AllRolled r w files h))

  remove_oldest-others :
      (r : Roller) (w : World) (files : List LogFile) (dir : LogDir)
      → AllRolled r files
      → others r (remove_oldest sort r w files dir) ≡ others r dir
  unfolding remove_oldest
  remove_oldest-others r w files dir h =
      let k = length files - r.max_count in
      let cut = take k (sort files) in
      ground (
        arith,
        remove_files-others r w cut dir
            (take-AllRolled r k (sort files) (sort-AllRolled r files h)),
      )

  clean_old_log_files-others :
      (r : Roller) (w : World) (dir : LogDir)
      → others r (clean_old_log_files sort r w dir) ≡ others r dir
  unfolding clean_old_log_files clean_listed
  clean_old_log_files-others r w dir =
      let files = roll_files r w dir in
      let rolled = roll_files-AllRolled r w dir in
      let kept =
        remove_oldest-others r w files (remove_aged r w files dir) rolled
        ∙ remove_aged-others r w files dir rolled in
      ground (arith, kept)

  -- Whatever fails: a file is left alone by the cleaning up, with its content, unless its name
  -- begins with the prefix of the logger and ends in `.log`. The sort may move files and loses and
  -- invents none.
  pub clean_old_log_files_spares :
      (r : Roller) (w : World) (dir : LogDir) (name : Bytes)
      → ¬ IsRolled r.file_prefix name
      → content_of name (clean_old_log_files sort r w dir) ≡ content_of name dir
  clean_old_log_files_spares r w dir name spared =
      let other = unrolled r.file_prefix name spared in
      sym (others-content_of r name other (clean_old_log_files sort r w dir))
      ∙ ap (content_of name) (clean_old_log_files-others r w dir)
      ∙ others-content_of r name other dir
