-- ===== src/LogSystem/Roll/Tests.antt =====
-- Runs of the sink that rolls its files.
use kama_asyn_log_system_clo.Base.{
  leb, if◌then◌else◌, some_eq, codes, bytes_eq, starts_with, length, get_or-first, decimal_from,
  to_string, ◌≤◌, ◌≡◌, refl, sym, ap, ◌∙◌, ◌⊎◌, Bool, true, false, none, some, List, [], ◌∷◌, arith,
}
use kama_asyn_log_system_clo.LogSystem.Roll.{
  LogFile, LogDir, World, Roller, split_last, is_roll_log_file, create_filename, has_file,
  clean_old_log_files, needs_file, flush, clean_listed, remove_file, remove_aged, remove_oldest,
  roll_files, remove_files, append_data, write_log, init_log_file, is_closed, write_to, written,
}
use kama_asyn_log_system_clo.LogSystem.Roll.Counted.{count_if, IsSorting, rolls}
use kama_asyn_log_system_clo.LogSystem.Roll.Cleaned.{IsSmooth, clean_old_log_files-count}
use kama_asyn_log_system_clo.LogSystem.Roll.Others.{IsRolled, clean_old_log_files_spares}
use kama_asyn_log_system_clo.LogSystem.Roll.Contents.{content_of}
use kama_asyn_log_system_clo.LogSystem.Roll.Bounded.{IsTracked, Agrees, flush-IsTracked}

-- A sort that puts a file before those of its second.
put_by_time : LogFile → List LogFile → List LogFile
put_by_time f [] = f ∷ []
put_by_time f (g ∷ files) = if leb f.mtime g.mtime then f ∷ g ∷ files else g ∷ put_by_time f files

sort_by_time : List LogFile → List LogFile
sort_by_time [] = []
sort_by_time (f ∷ files) = put_by_time f (sort_by_time files)

put_by_time-count :
    (p : LogFile → Bool) (f : LogFile) (files : List LogFile)
    → count_if p (put_by_time f files) ≡ count_if p (f ∷ files)
unfolding put_by_time count_if
put_by_time-count p f [] = refl
put_by_time-count p f (g ∷ files) = ground (arith, put_by_time-count p f files)

sort_by_time-IsSorting : IsSorting sort_by_time
unfolding sort_by_time count_if
sort_by_time-IsSorting p [] = refl
sort_by_time-IsSorting p (f ∷ files) =
    ground (arith, put_by_time-count p f (sort_by_time files), sort_by_time-IsSorting p files)

abbrev roller : Roller
roller = record {
  cnt = 2;
  cur_size = 3;
  max_size = 8;
  max_count = 1;
  max_age_days = 0;
  file_prefix = codes "app";
  cur_day = codes "20240101";
  fs = some (codes "app20240101-080000-1.log");
}

abbrev smooth_world : World
smooth_world = record {
  today = codes "20240101";
  stamp = codes "20240101-080000";
  now = 100;
  opens = true;
  writes = none;
  lists = true;
  stats = λ name. true;
  removes = λ name. true;
}

smooth : IsSmooth smooth_world
smooth = record { listed = refl; asked = λ name. refl; removed = λ name. refl }

abbrev full_world : World
full_world = record smooth_world { opens = false }

abbrev log_dir : LogDir
log_dir =
    record { name = codes "app20240101-080000-1.log"; content = codes "abc"; mtime = 100 }
    ∷ record { name = codes "notes.txt"; content = codes "n"; mtime = 1 }
    ∷ []

-- The prefix `app` also takes the files of a logger `app2`.
names_tested :
    (is_roll_log_file (codes "app") (codes "app20240101-080000-1.log") ≡ true)
    × (is_roll_log_file (codes "app") (codes "app2-20240101.log") ≡ true)
    × (is_roll_log_file (codes "app") (codes "app.txt") ≡ false)
unfolding is_roll_log_file starts_with bytes_eq
names_tested = (refl, refl, refl)

path_split : split_last [] [] (codes "./logs/app") ≡ (codes "./logs/", codes "app")
unfolding split_last
path_split = refl

-- The file that has just been opened is removed where a file of its second comes behind it.
newest_removed :
    content_of (codes "app20240101-080000-2.log") (
      clean_old_log_files sort_by_time roller smooth_world
        (record { name = codes "app20240101-080000-2.log"; content = []; mtime = 100 } ∷ log_dir))
    ≡ none
unfolding content_of clean_old_log_files sort_by_time put_by_time clean_listed remove_oldest
    roll_files is_roll_log_file starts_with bytes_eq remove_files remove_file remove_aged
newest_removed = refl

clean_old_log_files-count_example :
    count_if (rolls roller) (clean_old_log_files sort_by_time roller smooth_world log_dir) ≤ 1
clean_old_log_files-count_example =
    clean_old_log_files-count sort_by_time sort_by_time-IsSorting roller smooth_world log_dir smooth
      (omega arith)

notes_spared : ¬ IsRolled (codes "app") (codes "notes.txt")
notes_spared h = omega (arith, get_or-first 0 (h.begins))

clean_old_log_files_spares_example :
    content_of (codes "notes.txt") (clean_old_log_files sort_by_time roller full_world log_dir)
    ≡ content_of (codes "notes.txt") log_dir
clean_old_log_files_spares_example =
    clean_old_log_files_spares sort_by_time sort_by_time-IsSorting roller full_world log_dir
      (codes "notes.txt") notes_spared

-- Of two bytes that are flushed, one reaches the file.
abbrev short_world : World
short_world = record smooth_world { writes = some 1 }

tracked : IsTracked false roller log_dir
unfolding content_of bytes_eq Agrees
tracked name c e h =
    let three : length c ≡ 3 =
      ap length (some_eq (sym h ∙ ap (λ n. content_of n log_dir) (sym (some_eq e)) ∙ abc)) in
    omega (arith, three)
  where
    abc : content_of (codes "app20240101-080000-1.log") log_dir ≡ some (codes "abc")
    abc = refl

abbrev grown_roller : Roller
grown_roller = record roller { cur_size = 5 }

abbrev grown_dir : LogDir
grown_dir =
    record { name = codes "app20240101-080000-1.log"; content = codes "abcd"; mtime = 100 }
    ∷ record { name = codes "notes.txt"; content = codes "n"; mtime = 1 }
    ∷ []

flush-IsTracked_example :
    IsTracked false grown_roller grown_dir
    × ((grown_roller.cur_size ≤ 8) ⊎ (grown_roller.cur_size ≡ 2))
unfolding flush has_file create_filename bytes_eq to_string decimal_from write_log write_to
    init_log_file needs_file is_closed append_data written
flush-IsTracked_example =
    flush-IsTracked sort_by_time false roller short_world (codes "de") log_dir grown_roller
      grown_dir (λ h. cc) tracked refl (omega arith) refl
