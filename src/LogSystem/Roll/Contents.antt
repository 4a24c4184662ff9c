-- ===== src/LogSystem/Roll/Contents.antt =====
-- What the steps of `Flush` of src/log_system/logs_code/LogFlush.hpp do to the content of a file.
use kama_asyn_log_system_clo.Base.{
  ltb, leb, ◌==◌, if◌then◌else◌, Bool-cases, Bytes, bytes_eq, bytes_eq_refl, bytes_eq_iff, length,
  take, ℕ, ◌-◌, ◌≡◌, refl, inl, inr, Bool, true, false, not, ◌&&◌, ◌||◌, Option, none, some, List,
  [], ◌∷◌, ◌++◌, arith,
}
use kama_asyn_log_system_clo.LogSystem.Roll.{
  LogFile, LogDir, World, Roller, has_file, open_to_append, append_data, remove_file, remove_files,
  roll_files, too_old, remove_aged, remove_oldest, clean_listed, clean_old_log_files,
}

-- What is read back from a name.
unfoldable pub content_of : Bytes → LogDir → Option Bytes
content_of name [] = none
content_of name (f ∷ dir) = if bytes_eq f.name name then some f.content else content_of name dir

removed_gone :
    (w : World) (n : Bytes) (dir : LogDir)
    → w.removes n ≡ true
    → content_of n (remove_file w n dir) ≡ none
unfolding content_of remove_file
removed_gone w n [] h = refl
removed_gone w n (f ∷ dir) h = ground (arith, removed_gone w n dir h)

remove_file-content_of :
    (w : World) (n name : Bytes) (dir : LogDir) (c : Bytes)
    → content_of name (remove_file w n dir) ≡ some c
    → content_of name dir ≡ some c
unfolding content_of remove_file
remove_file-content_of w n name [] c h = h
remove_file-content_of w n name (f ∷ dir) c h = ground (
  arith,
  bytes_eq_iff f.name n,
  bytes_eq_iff f.name name,
  removed_gone w n dir,
  remove_file-content_of w n name dir c,
)

remove_files-content_of :
    (w : World) (files : List LogFile) (name : Bytes) (dir : LogDir) (c : Bytes)
    → content_of name (remove_files w files dir) ≡ some c
    → content_of name dir ≡ some c
unfolding remove_files
remove_files-content_of w [] name dir c h = h
remove_files-content_of w (f ∷ files) name dir c h =
    remove_file-content_of w f.name name dir c
      (remove_files-content_of w files name (remove_file w f.name dir) c h)

-- What is found after a step was there before it.
abbrev pub Kept : Bytes → LogDir → LogDir → Type 0
Kept name dir after = (c : Bytes) → content_of name after ≡ some c → content_of name dir ≡ some c

either-Kept :
    (name : Bytes) (dir : LogDir) (b : Bool) (x y : LogDir)
    → Kept name dir x
    → Kept name dir y
    → Kept name dir (if b then x else y)
either-Kept name dir true x y hx hy = hx
either-Kept name dir false x y hx hy = hy

remove_aged-Kept :
    (r : Roller) (w : World) (files : List LogFile) (name : Bytes) (dir : LogDir)
    → Kept name dir (remove_aged r w files dir)
unfolding remove_aged
remove_aged-Kept r w files name dir =
    either-Kept name dir (ltb 0 r.max_age_days) _ _
      (remove_files-content_of w (too_old r w files) name dir) (λ c h. h)

module _ (sort : List LogFile → List LogFile) where
  remove_oldest-Kept :
      (r : Roller) (w : World) (files : List LogFile) (name : Bytes) (dir : LogDir)
      → Kept name dir (remove_oldest sort r w files dir)
  unfolding remove_oldest
  remove_oldest-Kept r w files name dir =
      either-Kept name dir ((r.max_count == 0) || leb (length files) r.max_count) _ _ (λ c h. h)
        (remove_files-content_of w (take (length files - r.max_count) (sort files)) name dir)

  pub clean_old_log_files-Kept :
      (r : Roller) (w : World) (name : Bytes) (dir : LogDir)
      → Kept name dir (clean_old_log_files sort r w dir)
  unfolding clean_old_log_files clean_listed
  clean_old_log_files-Kept r w name dir =
      let files = roll_files r w dir in
      either-Kept name dir ((r.max_count == 0) && (r.max_age_days == 0)) _ _ (λ c h. h)
        (either-Kept name dir (not w.lists) _ _ (λ c h. h)
          (λ c h.
            remove_aged-Kept r w files name dir c
              (remove_oldest-Kept r w files name (remove_aged r w files dir) c h)))

-- What is appended to what is there.
unfoldable pub appended : Bytes → Option Bytes → Option Bytes
appended data_ none = none
appended data_ (some old) = some (old ++ data_)

pub append_data-content_of :
    (name data_ : Bytes) (now : ℕ) (dir : LogDir)
    → content_of name (append_data name data_ now dir) ≡ appended data_ (content_of name dir)
unfolding content_of append_data appended
append_data-content_of name data_ now [] = refl
append_data-content_of name data_ now (f ∷ dir) = elim (Bool-cases (bytes_eq f.name name)) [
  | inl e ↦ rw (e) (rw e refl)
  | inr e ↦ rw e (rw e (append_data-content_of name data_ now dir))
]

has_file-content_of :
    (name : Bytes) (dir : LogDir) → has_file name dir ≡ false → content_of name dir ≡ none
unfolding has_file content_of
has_file-content_of name [] h = refl
has_file-content_of name (f ∷ dir) h = ground (arith, has_file-content_of name dir)

pub open_to_append-content_of :
    (name : Bytes) (now : ℕ) (dir : LogDir)
    → has_file name dir ≡ false
    → content_of name (open_to_append name now dir) ≡ some []
unfolding open_to_append content_of
open_to_append-content_of name now dir h = ground (arith, bytes_eq_refl name)
