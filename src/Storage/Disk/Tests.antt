-- ===== src/Storage/Disk/Tests.antt =====
-- Runs of `FileUtil` and of `WriteFileAtomically` on a small disk.
use kama_asyn_log_system_clo.Base.{
  ◌==◌, if◌then◌else◌, lookup, insert, erase, Bytes, codes, ℕ, ◌≡◌, refl, true, Option, none, some,
  [], ◌∷◌,
}
use kama_asyn_log_system_clo.Storage.Path.{FilePath, resolve, path_eq}
use kama_asyn_log_system_clo.Storage.Disk.{
  done, fails, Disk, file_at, exists, file_size, remove, rename, get_content, set_content,
  write_opened, opens, write_file_atomically, create_directory,
}
use kama_asyn_log_system_clo.Storage.Disk.Frame.{path_eq_apart}
use kama_asyn_log_system_clo.Storage.Disk.Atomic.{write_file_atomically-failed}

abbrev storage : FilePath
storage = codes "storage" ∷ []

-- Every call works, but for the call of the given number, which puts down two bytes.
abbrev disk : Option ℕ → Disk
disk bad = record {
  files = (codes "old" ∷ storage, codes "was here") ∷ [];
  dirs = storage ∷ [];
  outcome = λ n. elim bad [ none ↦ done | some k ↦ if n == k then fails 2 else done ];
  calls = 0;
  sweeps = λ p. true;
}

abbrev old : Bytes
old = codes "./storage/old"

created :
    exists
      (create_directory (disk none) (codes "./storage/.multipart_uploads/17-5/")).1
      (codes "./storage/.multipart_uploads")
    ≡ true
unfolding exists create_directory lookup path_eq resolve
created = refl

torn : (get_content (set_content (disk (some 1)) old (codes "new")).1 old).0 ≡ some (codes "ne")
unfolding get_content set_content write_opened lookup path_eq resolve insert
torn = refl

sized : file_size (disk none) old ≡ some 8
unfolding file_size lookup path_eq resolve
sized = refl

write_file_atomically-failed_example :
    file_at (write_file_atomically (disk (some 1)) old (codes "new")).1 (resolve old)
    ≡ some (codes "was here")
unfolding write_file_atomically remove set_content write_opened opens rename resolve path_eq file_at
    lookup insert erase
write_file_atomically-failed_example =
    write_file_atomically-failed (disk (some 1)) old (codes "new") (path_eq_apart refl) refl
