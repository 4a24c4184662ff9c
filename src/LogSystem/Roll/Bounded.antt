-- ===== src/LogSystem/Roll/Bounded.antt =====
-- How large a rolled file becomes: `Flush` of src/log_system/logs_code/LogFlush.hpp.
use kama_asyn_log_system_clo.Base.{
  if◌then◌else◌, Bool-cases, some_eq, Bytes, length, length-append, length-take, ℕ, ◌+◌, ◌^◌, ◌≤◌,
  ◌<◌, ◌≡◌, refl, sym, ap, ap₂, subst, ◌∙◌, ◌↔◌, ◌⊎◌, inl, inr, Bool, true, false, not, ◌&&◌,
  Option, none, some, List, arith,
}
use kama_asyn_log_system_clo.LogSystem.Roll.{
  written, LogFile, LogDir, World, Roller, create_filename, has_file, open_to_append, append_data,
  clean_old_log_files, needs_file, new_file, no_file, grown, roll_over, init_log_file, write_to,
  write_log, is_closed, flush,
}
use kama_asyn_log_system_clo.LogSystem.Roll.Contents.{
  content_of, clean_old_log_files-Kept, appended, append_data-content_of, open_to_append-content_of,
}

-- The same number, or one that is at most the other.
unfoldable pub Agrees : Bool → ℕ → ℕ → Type 0
Agrees true m n = m ≡ n
Agrees false m n = m ≤ n

-- The size that is kept is that of the open file, or at least that, as long as nobody removes it.
abbrev pub IsTracked : Bool → Roller → LogDir → Type 0
IsTracked exact r dir =
    (name c : Bytes)
    → r.fs ≡ some name
    → content_of name dir ≡ some c
    → Agrees exact (length c) r.cur_size

-- Nothing falls short where the size is to be exact.
abbrev pub IsWhole : Bool → World → Type 0
IsWhole exact w = exact ≡ true → w.writes ≡ none

written_shorter : (writes : Option ℕ) (data_ : Bytes) → length (written writes data_) ≤ length data_
unfolding written
written_shorter none data_ = omega arith
written_shorter (some k) data_ = let short = length-take k data_ in omega (arith, short)

written-Agrees :
    (exact : Bool) (writes : Option ℕ) (data_ : Bytes) (m n : ℕ)
    → (exact ≡ true → writes ≡ none)
    → Agrees exact m n
    → Agrees exact (m + length (written writes data_)) (n + length data_)
unfolding Agrees written
written-Agrees true writes data_ m n whole h =
    ap₂ ◌+◌ h (ap (λ k. length (written k data_)) (whole refl))
written-Agrees false writes data_ m n whole h =
    let short = written_shorter writes data_ in omega (arith, h, short)

appended-length :
    (exact : Bool) (writes : Option ℕ) (data_ c : Bytes) (found : Option Bytes) (n : ℕ)
    → (exact ≡ true → writes ≡ none)
    → ((old : Bytes) → found ≡ some old → Agrees exact (length old) n)
    → appended (written writes data_) found ≡ some c
    → Agrees exact (length c) (n + length data_)
unfolding appended
appended-length exact writes data_ c none n whole h e = cc
appended-length exact writes data_ c (some old) n whole h e =
    subst (λ k. Agrees exact k (n + length data_))
      (sym (length-append old (written writes data_)) ∙ ap length (some_eq e))
      (written-Agrees exact writes data_ (length old) n whole (h old refl))

write_to-IsTracked :
    (exact : Bool) (fs : Option Bytes) (r : Roller) (w : World) (data_ : Bytes) (dir : LogDir)
    → (r' : Roller) (dir' : LogDir) → IsWhole exact w
    → r.fs ≡ fs
    → IsTracked exact r dir
    → r.cur_size + length data_ < 2 ^ 64
    → write_to fs r w data_ dir ≡ some (r', dir')
    → IsTracked exact r' dir' × (r'.cur_size ≡ r.cur_size + length data_)
unfolding write_to
write_to-IsTracked exact none r w data_ dir r' dir' whole same tracked fits h = cc
write_to-IsTracked exact (some name) r w data_ dir r' dir' whole same tracked fits h = (
  λ n c open_ found. subst (Agrees exact (length c)) (sym size) (
      appended-length exact w.writes data_ c (content_of name dir) r.cur_size whole
        (λ old e. tracked name old same e)
        (sym (append_data-content_of name (written w.writes data_) w.now dir)
          ∙ ap₂ content_of (some_eq (sym same ∙ ap (λ x. x.fs) roller ∙ open_)) dir_eq
          ∙ found)),
  size,
)
  where
    roller : grown r (length data_) ≡ r'
    roller = ap (λ x. x.0) (some_eq h)

    dir_eq : append_data name (written w.writes data_) w.now dir ≡ dir'
    dir_eq = ap (λ x. x.1) (some_eq h)

    size : r'.cur_size ≡ r.cur_size + length data_
    size = omega (arith, ap (λ x. x.cur_size) roller, fits)

-- The file that is written next: its size is tracked, and it has room or is new.
record IsReady (exact : Bool) (len max_size : ℕ) (r : Roller) (dir : LogDir) : Type 0 where
  tracked : IsTracked exact r dir
  fits : r.cur_size + len < 2 ^ 64
  room : (r.cur_size + len ≤ max_size) ⊎ (r.cur_size ≡ 0)

Agrees-zero : (exact : Bool) → Agrees exact 0 0
unfolding Agrees
Agrees-zero true = refl
Agrees-zero false = omega arith

has_room :
    (r : Roller) (w : World) (len : ℕ)
    → r.cur_size + len < 2 ^ 64
    → needs_file r w len ≡ false
    → r.cur_size + len ≤ r.max_size
unfolding needs_file
has_room r w len fits h = ground arith

module _ (sort : List LogFile → List LogFile) (exact : Bool) where
  new_file-IsTracked :
      (r : Roller) (w : World) (dir : LogDir)
      → has_file (create_filename r w) dir ≡ false
      → IsTracked exact
          (new_file r w)
          (clean_old_log_files sort r w (open_to_append (create_filename r w) w.now dir))
  new_file-IsTracked r w dir fresh name c open_ found =
      let name_ = create_filename r w in
      let opened = open_to_append name_ w.now dir in
      let there =
        clean_old_log_files-Kept sort r w name_ opened c
          (ap (λ n. content_of n (clean_old_log_files sort r w opened)) (some_eq open_) ∙ found) in
      let empty : length c ≡ 0 =
        ap length (some_eq (sym there ∙ open_to_append-content_of name_ w.now dir fresh)) in
      subst (λ n. Agrees exact n 0) (sym empty) (Agrees-zero exact)

  roll_over_opened :
      (r : Roller) (w : World) (dir : LogDir)
      → w.opens ≡ true
      → roll_over sort r w dir ≡ (
        new_file r w,
        clean_old_log_files sort r w (open_to_append (create_filename r w) w.now dir),
      )
  unfolding roll_over
  roll_over_opened r w dir h = rw h refl

  roll_over_refused :
      (r : Roller) (w : World) (dir : LogDir)
      → w.opens ≡ false
      → roll_over sort r w dir ≡ (no_file r, dir)
  unfolding roll_over
  roll_over_refused r w dir h = rw h refl

  -- Where no file can be opened, none is written to.
  abbrev IsNext : Roller → ℕ → Roller × LogDir → Type 0
  IsNext r len (r', dir') = (r'.fs ≡ none) ⊎ IsReady exact len r.max_size r' dir'

  roll_over-IsNext :
      (r : Roller) (w : World) (len : ℕ) (dir : LogDir)
      → has_file (create_filename r w) dir ≡ false
      → r.cur_size + len < 2 ^ 64
      → IsNext r len (roll_over sort r w dir)
  roll_over-IsNext r w len dir fresh fits = elim (Bool-cases w.opens) [
    | inl e ↦ subst (IsNext r len) (sym (roll_over_opened r w dir e)) (
        inr (record {
          tracked = new_file-IsTracked r w dir fresh;
          fits = omega (arith, fits);
          room = inr refl;
        }))
    | inr e ↦ subst (IsNext r len) (sym (roll_over_refused r w dir e)) (inl refl)
  ]

  init_log_file-IsNext :
      (r : Roller) (w : World) (len : ℕ) (dir : LogDir)
      → IsTracked exact r dir
      → has_file (create_filename r w) dir ≡ false
      → r.cur_size + len < 2 ^ 64
      → IsNext r len (init_log_file sort r w len dir)
  unfolding init_log_file
  init_log_file-IsNext r w len dir tracked fresh fits = pick (needs_file r w len) refl
    where
      pick :
          (b : Bool)
          → needs_file r w len ≡ b
          → IsNext r len (if b then roll_over sort r w dir else (r, dir))
      pick true e = roll_over-IsNext r w len dir fresh fits
      pick false e =
          inr (record { tracked = tracked; fits = fits; room = inl (has_room r w len fits e) })

  write_log_next :
      (r : Roller) (w : World) (data_ : Bytes) (next : Roller × LogDir)
      → (r' : Roller) (dir' : LogDir) → IsWhole exact w
      → IsNext r (length data_) next
      → write_log next.0 w data_ next.1 ≡ some (r', dir')
      → IsTracked exact r' dir' × ((r'.cur_size ≤ r.max_size) ⊎ (r'.cur_size ≡ length data_))
  unfolding write_log write_to
  write_log_next r w data_ (r1, dir1) r' dir' whole (inl closed) h =
      absurd (ground (arith, closed, h))
  write_log_next r w data_ (r1, dir1) r' dir' whole (inr ready) h =
      let (tracked, size) =
        write_to-IsTracked exact r1.fs r1 w data_ dir1 r' dir' whole refl ready.tracked ready.fits
          h in
      (tracked, bounded size ready.room)
    where
      bounded :
          r'.cur_size ≡ r1.cur_size + length data_
          → (r1.cur_size + length data_ ≤ r.max_size) ⊎ (r1.cur_size ≡ 0)
          → (r'.cur_size ≤ r.max_size) ⊎ (r'.cur_size ≡ length data_)
      bounded size (inl room) = inl (omega (arith, size, room))
      bounded size (inr new) = inr (omega (arith, size, new))

  -- Let the size that is kept be that of the open file, or at least that; for the first, let the
  -- write not fall short. Let the name of the next file not be taken, and the sum of the sizes fit a
  -- `size_t`. Then a flush that writes leaves it so, also where it opens a new file and removes old
  -- ones, and the size that is kept is within the limit or that of the flushed bytes alone.
  pub flush-IsTracked :
      (r : Roller) (w : World) (data_ : Bytes) (dir : LogDir) (r' : Roller) (dir' : LogDir)
      → IsWhole exact w
      → IsTracked exact r dir
      → has_file (create_filename r w) dir ≡ false
      → r.cur_size + length data_ < 2 ^ 64
      → flush sort r w data_ dir ≡ some (r', dir')
      → IsTracked exact r' dir' × ((r'.cur_size ≤ r.max_size) ⊎ (r'.cur_size ≡ length data_))
  unfolding flush
  flush-IsTracked r w data_ dir r' dir' whole tracked fresh fits h =
      write_log_next r w data_ (init_log_file sort r w (length data_) dir) r' dir' whole
        (init_log_file-IsNext r w (length data_) dir tracked fresh fits) h

  write_to-none :
      (fs : Option Bytes) (r : Roller) (w : World) (data_ : Bytes) (dir : LogDir)
      → (write_to fs r w data_ dir ≡ none) ↔ (is_closed fs ≡ true)
  unfolding write_to is_closed
  write_to-none none r w data_ dir = (λ h. refl, λ h. refl)
  write_to-none (some name) r w data_ dir = (λ h. cc, λ h. cc)

  stays_open :
      (r : Roller) (w : World) (len : ℕ) → needs_file r w len ≡ false → is_closed r.fs ≡ false
  unfolding needs_file
  stays_open r w len h = ground arith

  closed_next :
      (r : Roller) (w : World) (len : ℕ) (dir : LogDir)
      → is_closed (init_log_file sort r w len dir).0.fs ≡ (needs_file r w len && not w.opens)
  unfolding init_log_file is_closed
  closed_next r w len dir = elim (Bool-cases (needs_file r w len)) [
    | inr e ↦
        ap (λ b. is_closed (if b then roll_over sort r w dir else (r, dir)).0.fs) e
        ∙ stays_open r w len e
        ∙ sym (ap (λ b. b && not w.opens) e)
    | inl e ↦
        ap (λ b. is_closed (if b then roll_over sort r w dir else (r, dir)).0.fs) e
        ∙ rolled
        ∙ sym (ap (λ b. b && not w.opens) e)
  ]
    where
      rolled : is_closed (roll_over sort r w dir).0.fs ≡ not w.opens
      rolled = elim (Bool-cases w.opens) [
        | inl e ↦ ap (λ x. is_closed x.0.fs) (roll_over_opened r w dir e) ∙ sym (ap not e)
        | inr e ↦ ap (λ x. is_closed x.0.fs) (roll_over_refused r w dir e) ∙ sym (ap not e)
      ]

  -- A flush writes to a null pointer exactly where a new file is needed and cannot be opened.
  pub flush-none :
      (r : Roller) (w : World) (data_ : Bytes) (dir : LogDir)
      → (flush sort r w data_ dir ≡ none)
        ↔ ((needs_file r w (length data_) ≡ true) × (w.opens ≡ false))
  unfolding flush write_log
  flush-none r w data_ dir =
      let next = init_log_file sort r w (length data_) dir in
      let (to, from) = write_to-none next.0.fs next.0 w data_ next.1 in
      let closed = closed_next r w (length data_) dir in
      (λ h. ground (arith, closed, to h), λ h. from (ground (arith, closed, h)))
