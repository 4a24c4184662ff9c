-- ===== src/LogSystem/Roll.antt =====
-- The sink that rolls its files: `RollFileFlush` of src/log_system/logs_code/LogFlush.hpp, with
-- `Path` and `Name` of src/log_system/logs_code/Util.hpp. The local time is a parameter, and so is
-- the order that `std::sort` gives to files of one second.
pub mod Counted
pub mod Cleaned
pub mod Others
pub mod Contents
pub mod Bounded
mod Tests
use kama_asyn_log_system_clo.Base.{
  ltb, leb, ◌==◌, if◌then◌else◌, Bytes, codes, bytes_eq, starts_with, length, take, drop, to_string,
  ℕ, ◌+◌, ◌-◌, ◌*◌, ◌%◌, ◌^◌, Bool, true, false, not, ◌&&◌, ◌||◌, Option, none, some, List, [], ◌∷◌,
  ◌++◌,
}

-- A file of the log directory.
pub record LogFile : Type 0 where
  pub name : Bytes
  pub content : Bytes
  pub mtime : ℕ

-- The directory, in the order of `readdir`.
abbrev pub LogDir : Type 0
LogDir = List LogFile

-- What the calls of one flush come to: the two readings of the local time (`CurrentDay`, and the
-- day and time of `CreateFilename`), the time, and which calls of the system succeed. `writes` is
-- `none` where the file gets all that is written, and else the number of bytes that it gets.
pub record World : Type 0 where
  pub today : Bytes
  pub stamp : Bytes
  pub now : ℕ
  pub opens : Bool
  pub writes : Option ℕ
  pub lists : Bool
  pub stats : Bytes → Bool
  pub removes : Bytes → Bool

-- `RollFileFlush`; the open file is known by its name in the directory.
pub record Roller : Type 0 where
  pub cnt : ℕ
  pub cur_size : ℕ
  pub max_size : ℕ
  pub max_count : ℕ
  pub max_age_days : ℕ
  pub file_prefix : Bytes
  pub cur_day : Bytes
  pub fs : Option Bytes

-- `find_last_of("/\\")`: what stands up to the last slash, with it, and what stands behind it.
unfoldable pub split_last : Bytes → Bytes → Bytes → Bytes × Bytes
split_last dir name [] = (dir, name)
split_last dir name (c ∷ s) =
    let slash = (c == b'/') || (c == b'\\') in
    let dir' = if slash then dir ++ (name ++ c ∷ []) else dir in
    let name' = if slash then [] else name ++ c ∷ [] in split_last dir' name' s

-- The numbers of the configuration.
pub record RollConf : Type 0 where
  pub roll_file_max_size : ℕ
  pub roll_file_max_count : ℕ
  pub roll_file_max_age_days : ℕ

unfoldable pub given_or : ℕ → ℕ → ℕ
given_or given default = if given == 0 then default else given

-- The constructor.
unfoldable pub new_roller : RollConf → Bytes → ℕ → ℕ → ℕ → Roller
new_roller conf filename max_size max_count max_age_days = record {
  cnt = 1;
  cur_size = 0;
  max_size = given_or max_size conf.roll_file_max_size;
  max_count = given_or max_count conf.roll_file_max_count;
  max_age_days = given_or max_age_days conf.roll_file_max_age_days;
  file_prefix = (split_last [] [] filename).1;
  cur_day = [];
  fs = none;
}

-- `CreateFilename`, without the directory; the counter is that before `cnt_++`.
unfoldable pub create_filename : Roller → World → Bytes
create_filename r w = r.file_prefix ++ (w.stamp ++ (codes "-" ++ (to_string r.cnt ++ codes ".log")))

-- `IsRollLogFile`
unfoldable pub is_roll_log_file : Bytes → Bytes → Bool
is_roll_log_file file_prefix filename =
    if not (starts_with file_prefix filename)
    then false
    else if ltb (length filename) 4
    then false
    else bytes_eq (drop (length filename - 4) filename) (codes ".log")

-- `fopen` to append: a new file is empty.
unfoldable pub has_file : Bytes → LogDir → Bool
has_file name [] = false
has_file name (f ∷ dir) = bytes_eq f.name name || has_file name dir

unfoldable pub open_to_append : Bytes → ℕ → LogDir → LogDir
open_to_append name now dir =
    if has_file name dir then dir else record { name = name; content = []; mtime = now } ∷ dir

-- `fwrite`: what is written to a file that has been removed is lost.
unfoldable pub append_data : Bytes → Bytes → ℕ → LogDir → LogDir
append_data name data_ now [] = []
append_data name data_ now (f ∷ dir) =
    (if bytes_eq f.name name then record f { content = f.content ++ data_; mtime = now } else f)
    ∷ append_data name data_ now dir

-- `std::remove`
unfoldable pub remove_file : World → Bytes → LogDir → LogDir
remove_file w name [] = []
remove_file w name (f ∷ dir) =
    if bytes_eq f.name name && w.removes name
    then remove_file w name dir
    else f ∷ remove_file w name dir

unfoldable pub remove_files : World → List LogFile → LogDir → LogDir
remove_files w [] dir = dir
remove_files w (f ∷ files) dir = remove_files w files (remove_file w f.name dir)

-- The loop over `readdir`.
unfoldable pub roll_files : Roller → World → LogDir → List LogFile
roll_files r w [] = []
roll_files r w (f ∷ dir) =
    if not (is_roll_log_file r.file_prefix f.name)
    then roll_files r w dir
    else if not (w.stats f.name)
    then roll_files r w dir
    else f ∷ roll_files r w dir

-- The seconds as the code computes them; they fit a `time_t` for less than `2 ^ 46` days.
unfoldable pub max_age_seconds : ℕ → ℕ
max_age_seconds days = (days * 24 * 60 * 60) % 2 ^ 64

unfoldable pub too_old : Roller → World → List LogFile → List LogFile
too_old r w [] = []
too_old r w (f ∷ files) =
    if ltb (f.mtime + max_age_seconds r.max_age_days) w.now
    then f ∷ too_old r w files
    else too_old r w files

-- The end of `CleanOldLogFiles`, on the files that were listed: by age, then by number.
unfoldable pub remove_aged : Roller → World → List LogFile → LogDir → LogDir
remove_aged r w files dir =
    if ltb 0 r.max_age_days then remove_files w (too_old r w files) dir else dir

-- The test of `InitLogFile`.
unfoldable pub is_closed : Option Bytes → Bool
is_closed none = true
is_closed (some name) = false

unfoldable pub needs_file : Roller → World → ℕ → Bool
needs_file r w len =
    is_closed r.fs
    || ltb r.max_size ((r.cur_size + len) % 2 ^ 64)
    || not (bytes_eq w.today r.cur_day)

-- What changes with a new file, with none, and with what is written.
abbrev pub new_file : Roller → World → Roller
new_file r w = record r {
  cnt = r.cnt + 1;
  fs = some (create_filename r w);
  cur_size = 0;
  cur_day = w.today;
}

abbrev pub no_file : Roller → Roller
no_file r = record r { cnt = r.cnt + 1; fs = none }

abbrev pub grown : Roller → ℕ → Roller
grown r len = record r { cur_size = (r.cur_size + len) % 2 ^ 64 }

-- What `fwrite` brings to the file.
unfoldable pub written : Option ℕ → Bytes → Bytes
written none data_ = data_
written (some k) data_ = take k data_

-- The end of `Flush`; `none` is `fwrite` to a null pointer. A write that falls short is reported,
-- and the size grows by the whole length all the same.
unfoldable pub write_to : Option Bytes → Roller → World → Bytes → LogDir → Option (Roller × LogDir)
write_to none r w data_ dir = none
write_to (some name) r w data_ dir =
    some (grown r (length data_), append_data name (written w.writes data_) w.now dir)

unfoldable pub write_log : Roller → World → Bytes → LogDir → Option (Roller × LogDir)
write_log r w data_ dir = write_to r.fs r w data_ dir

module _ (sort : List LogFile → List LogFile) where
  unfoldable pub remove_oldest : Roller → World → List LogFile → LogDir → LogDir
  remove_oldest r w files dir =
      if (r.max_count == 0) || leb (length files) r.max_count
      then dir
      else remove_files w (take (length files - r.max_count) (sort files)) dir

  unfoldable pub clean_listed : Roller → World → List LogFile → LogDir → LogDir
  clean_listed r w files dir = remove_oldest r w files (remove_aged r w files dir)

  unfoldable pub clean_old_log_files : Roller → World → LogDir → LogDir
  clean_old_log_files r w dir =
      if (r.max_count == 0) && (r.max_age_days == 0)
      then dir
      else if not w.lists
      then dir
      else clean_listed r w (roll_files r w dir) dir

  -- A new file; where it cannot be opened, none is open, and the counter has moved on.
  unfoldable pub roll_over : Roller → World → LogDir → Roller × LogDir
  roll_over r w dir =
      if not w.opens
      then (no_file r, dir)
      else (new_file r w, clean_old_log_files r w (open_to_append (create_filename r w) w.now dir))

  unfoldable pub init_log_file : Roller → World → ℕ → LogDir → Roller × LogDir
  init_log_file r w len dir = if needs_file r w len then roll_over r w dir else (r, dir)

  -- `Flush`
  unfoldable pub flush : Roller → World → Bytes → LogDir → Option (Roller × LogDir)
  flush r w data_ dir =
      let (r', dir') = init_log_file r w (length data_) dir in write_log r' w data_ dir'
