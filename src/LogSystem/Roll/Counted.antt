-- ===== src/LogSystem/Roll/Counted.antt =====
-- Counting the files of a log directory, before and after files are removed by name:
-- src/log_system/logs_code/LogFlush.hpp.
use kama_asyn_log_system_clo.Base.{
  if◌then◌else◌, Bytes, bytes_eq, bytes_eq_refl, length, ℕ, suc, ◌+◌, ◌≤◌, ◌≡◌, refl, ap, ◌∙◌, Bool,
  true, false, not, ◌&&◌, ◌||◌, List, [], ◌∷◌, ◌++◌, arith,
}
use kama_asyn_log_system_clo.LogSystem.Roll.{
  LogFile, LogDir, World, Roller, is_roll_log_file, remove_file, remove_files, roll_files,
}

unfoldable pub count_if : (LogFile → Bool) → List LogFile → ℕ
count_if p [] = 0
count_if p (f ∷ files) = if p f then suc (count_if p files) else count_if p files

-- A sort of the files moves them, and loses and invents none.
abbrev pub IsSorting : (List LogFile → List LogFile) → Type 0
IsSorting sort = (p : LogFile → Bool) (l : List LogFile) → count_if p (sort l) ≡ count_if p l

-- Whether one of the files has the name.
unfoldable pub named : List LogFile → LogFile → Bool
named [] f = false
named (g ∷ files) f = bytes_eq f.name g.name || named files f

abbrev pub unnamed_by : List LogFile → LogFile → Bool
unnamed_by files f = not (named files f)

abbrev pub rolls : Roller → LogFile → Bool
rolls r f = is_roll_log_file r.file_prefix f.name

pub count_if-imp :
    (p q : LogFile → Bool) (l : List LogFile)
    → ((f : LogFile) → p f ≡ true → q f ≡ true)
    → count_if p l ≤ count_if q l
unfolding count_if
count_if-imp p q [] h = omega arith
count_if-imp p q (f ∷ l) h = ground (arith, h f, count_if-imp p q l h)

pub count_if-append :
    (p : LogFile → Bool) (l r : List LogFile) → count_if p (l ++ r) ≡ count_if p l + count_if p r
unfolding count_if
count_if-append p [] r = omega arith
count_if-append p (f ∷ l) r = ground (arith, count_if-append p l r)

pub count_if-le : (p : LogFile → Bool) (l : List LogFile) → count_if p l ≤ length l
unfolding count_if
count_if-le p [] = omega arith
count_if-le p (f ∷ l) = ground (arith, count_if-le p l)

pub count_if-true : (l : List LogFile) → count_if (λ f. true) l ≡ length l
unfolding count_if
count_if-true [] = refl
count_if-true (f ∷ l) = ap suc (count_if-true l)

named_first : (f : LogFile) (l : List LogFile) → named (f ∷ l) f ≡ true
unfolding named
named_first f l = ground (arith, bytes_eq_refl f.name)

named_later : (f g : LogFile) (l : List LogFile) → named l g ≡ true → named (f ∷ l) g ≡ true
unfolding named
named_later f g l e = ground arith

unnamed-cons :
    (g f : LogFile) (l : List LogFile)
    → unnamed_by l f ≡ true
    → not (bytes_eq f.name g.name) ≡ true
    → unnamed_by (g ∷ l) f ≡ true
unfolding named
unnamed-cons g f l a b = ground arith

unnamed-nil : (f : LogFile) → unnamed_by [] f ≡ true
unfolding named
unnamed-nil f = refl

count_if_skip :
    (p : LogFile → Bool) (f : LogFile) (l : List LogFile)
    → p f ≡ false
    → count_if p (f ∷ l) ≡ count_if p l
unfolding count_if
count_if_skip p f l h = ground arith

pub count_if-named :
    (l cut : List LogFile)
    → ((f : LogFile) → named l f ≡ true → named cut f ≡ true)
    → count_if (unnamed_by cut) l ≡ 0
count_if-named [] cut h = unfold count_if in refl
count_if-named (f ∷ l) cut h =
    count_if_skip (unnamed_by cut) f l (ap not (h f (named_first f l)))
    ∙ count_if-named l cut (λ g e. h g (named_later f g l e))

remove_file-count :
    (w : World) (name : Bytes) (p : LogFile → Bool) (dir : LogDir)
    → w.removes name ≡ true
    → count_if p (remove_file w name dir) ≤ count_if (λ f. p f && not (bytes_eq f.name name)) dir
unfolding remove_file count_if
remove_file-count w name p [] h = omega arith
remove_file-count w name p (f ∷ dir) h = ground (arith, remove_file-count w name p dir h)

remove_file-le :
    (w : World) (name : Bytes) (p : LogFile → Bool) (dir : LogDir)
    → count_if p (remove_file w name dir) ≤ count_if p dir
unfolding remove_file count_if
remove_file-le w name p [] = omega arith
remove_file-le w name p (f ∷ dir) = ground (arith, remove_file-le w name p dir)

pub remove_files-le :
    (w : World) (files : List LogFile) (p : LogFile → Bool) (dir : LogDir)
    → count_if p (remove_files w files dir) ≤ count_if p dir
unfolding remove_files
remove_files-le w [] p dir = omega arith
remove_files-le w (f ∷ files) p dir =
    omega
      (arith, remove_files-le w files p (remove_file w f.name dir), remove_file-le w f.name p dir)

-- Where every removal succeeds, what has one of the names is gone.
pub remove_files-count :
    (w : World) (files : List LogFile) (p : LogFile → Bool) (dir : LogDir)
    → ((name : Bytes) → w.removes name ≡ true)
    → count_if p (remove_files w files dir) ≤ count_if (λ f. p f && unnamed_by files f) dir
unfolding remove_files
remove_files-count w [] p dir h =
    count_if-imp p (λ f. p f && unnamed_by [] f) dir λ f e. ground (arith, e, unnamed-nil f)
remove_files-count w (g ∷ files) p dir h =
    let rest = remove_files-count w files p (remove_file w g.name dir) h in
    let here = remove_file-count w g.name (λ f. p f && unnamed_by files f) dir (h g.name) in
    let joined =
      count_if-imp (λ f. (p f && unnamed_by files f) && not (bytes_eq f.name g.name))
        (λ f. p f && unnamed_by (g ∷ files) f) dir
        (λ f e. ground (arith, e, unnamed-cons g f files)) in
    omega (arith, rest, here, joined)

pub roll_files-count :
    (r : Roller) (w : World) (q : LogFile → Bool) (dir : LogDir)
    → ((name : Bytes) → w.stats name ≡ true)
    → count_if q (roll_files r w dir) ≡ count_if (λ f. rolls r f && q f) dir
unfolding roll_files count_if
roll_files-count r w q [] h = refl
roll_files-count r w q (f ∷ dir) h = ground (arith, h f.name, roll_files-count r w q dir h)
