-- ===== src/Storage/Path.antt =====
-- The paths that the handlers build: `SessionDir`, `MetaPath` and `ChunkPath` of
-- src/server/MultipartUploadHandler.hpp, the storage path of src/server/UploadHandler.hpp, and the
-- file that the operating system finds under a path text.
pub mod Resolve
pub mod Inside
pub mod Left
mod Tests
use kama_asyn_log_system_clo.Base.{
  ◌==◌, if◌then◌else◌, Bytes, codes, bytes_eq, ℕ, zero, suc, ◌+◌, ◌-◌, ◌/◌, ◌%◌, Bool, true, false,
  ◌&&◌, ◌||◌, List, [], ◌∷◌, ◌++◌,
}

-- A file or directory by its components, the last one first. Symbolic links are left out of the
-- model: `..` goes up by one component.
abbrev pub FilePath : Type 0
FilePath = List Bytes

-- `..` at the top of a relative path stays.
unfoldable pub go_up : FilePath → FilePath
go_up [] = codes ".." ∷ []
go_up (c ∷ p) = if bytes_eq c (codes "..") then codes ".." ∷ c ∷ p else p

-- One component of a path text, empty between two slashes.
unfoldable pub enter : Bytes → FilePath → FilePath
unfolding go_up bytes_eq
enter c p =
    if bytes_eq c [] || bytes_eq c (codes ".")
    then p
    else if bytes_eq c (codes "..")
    then go_up p
    else c ∷ p

-- The unread text, the component that is being read, and the components before it.
unfoldable pub walk : Bytes → Bytes → FilePath → FilePath
unfolding enter
walk [] cur p = enter cur p
walk (c ∷ s) cur p =
    let next = walk s [] (enter cur p) in
    let more = walk s (cur ++ c ∷ []) p in if c == b'/' then next else more

-- The directories that a path text goes down to and leaves again by `..`.
unfoldable pub left_by : Bytes → FilePath → List FilePath
left_by c p = if bytes_eq c (codes "..") then p ∷ [] else []

unfoldable pub left : Bytes → Bytes → FilePath → List FilePath
left [] cur p = left_by cur p
left (c ∷ s) cur p =
    let next = left_by cur p ++ left s [] (enter cur p) in
    let more = left s (cur ++ c ∷ []) p in if c == b'/' then next else more

-- The file that a path text names, where the directories that it leaves are there.
unfoldable pub resolve : Bytes → FilePath
unfolding walk
resolve text = walk text [] []

unfoldable pub path_eq : FilePath → FilePath → Bool
unfolding bytes_eq
path_eq [] [] = true
path_eq [] (_ ∷ _) = false
path_eq (_ ∷ _) [] = false
path_eq (a ∷ p) (b ∷ q) = bytes_eq a b && path_eq p q

-- A path lies in a directory, or is that directory.
unfoldable pub is_inside : FilePath → FilePath → Bool
unfolding path_eq
is_inside dir [] = path_eq dir []
is_inside dir (c ∷ p) = path_eq dir (c ∷ p) || is_inside dir p

abbrev pub uploads_name : Bytes
uploads_name = codes ".multipart_uploads"

-- `UploadRoot()`, of the configured storage directory.
unfoldable pub upload_root : Bytes → Bytes
upload_root storage_dir = storage_dir ++ (uploads_name ++ codes "/")

unfoldable pub session_dir : Bytes → Bytes → Bytes
unfolding upload_root
session_dir storage_dir upload_id = (upload_root storage_dir ++ upload_id) ++ codes "/"

unfoldable pub meta_path : Bytes → Bytes → Bytes
unfolding session_dir
meta_path storage_dir upload_id = session_dir storage_dir upload_id ++ codes "meta.json"

-- `%06zu`: at least six digits, more where the number needs them.
unfoldable pub digits_from : ℕ → ℕ → ℕ → Bytes
digits_from zero width n = []
digits_from (suc fuel) width n =
    let rest = digits_from fuel (width - 1) (n / 10) in
    if (n == 0) && (width == 0) then [] else rest ++ (b'0' + n % 10) ∷ []

-- A `size_t` has at most 20 digits, so 20 rounds are enough.
unfoldable pub chunk_name : ℕ → Bytes
unfolding digits_from
chunk_name chunk_index = codes "chunk_" ++ digits_from 20 6 chunk_index

unfoldable pub chunk_path : Bytes → Bytes → ℕ → Bytes
unfolding session_dir chunk_name
chunk_path storage_dir upload_id chunk_index =
    session_dir storage_dir upload_id ++ chunk_name chunk_index
